-- ===== src/Devices.antt =====
-- gruvax/api/admin/devices.py and gruvax/api/devices.py: the kiosks, the codes that pair them with a
-- profile, and the handlers that change them. A UUID is a number, and a time is in seconds.
pub mod Bind
pub mod Handlers
pub mod Distinct
pub mod Upsert
pub mod Invariant
pub mod Again
pub mod Show
pub mod Agree
use gruvax.Base.{
  ℕ, ◌+◌, Bool, true, false, not, ◌&&◌, ◌||◌, ◌==◌, ltb, leb, Option, none, some, List, [], ◌∷◌,
  map, Text, text_eq, if◌then◌else◌, any, keep,
}

-- A row of gruvax.devices.
pub record Device : Type 0 where
  pub id : ℕ
  pub fingerprint : Text
  pub profile_id : Option ℕ
  pub display_name : Text
  pub revoked_at : Option ℕ
  pub last_seen_at : Option ℕ
  pub created_at : ℕ

-- A row of gruvax.pairing_codes.
pub record PairingCode : Type 0 where
  pub code : Text
  pub fingerprint : Text
  pub consumed_at : Option ℕ
  pub expires_at : ℕ

pub data EventName : Type 0 where
  device_reassigned : EventName
  device_revoked : EventName

-- The tables, of the profiles those that are not deleted, the profiles that have a bus, and what was
-- published: the profile, the event and the device.
pub record State : Type 0 where
  pub devices : List Device
  pub codes : List PairingCode
  pub profiles : List ℕ
  pub buses : List ℕ
  pub published : List (ℕ × (EventName × ℕ))

-- What a request takes from outside: the time, the rate limiter's answer and random values.
pub record Environment : Type 0 where
  pub now : ℕ
  pub allowed : Bool
  pub new_id : ℕ
  pub new_fingerprint : Text
  pub candidates : List Text

pub data Refusal : Type 0 where
  rate_limited : Refusal
  invalid_uuid : Refusal
  invalid_request : Refusal
  profile_not_found : Refusal
  profile_already_bound : Refusal
  code_expired : Refusal
  code_not_found : Refusal
  device_not_found : Refusal
  reinstate_conflict : Refusal
  device_create_failed : Refusal
  code_generation_failed : Refusal

pub data DeviceState : Type 0 where
  unpaired : DeviceState
  pending : DeviceState
  paired : ℕ → DeviceState
  revoked : DeviceState

pub data Response : Type 0 where
  refused : Refusal → Response
  summary : Device → DeviceState → Response
  changed : ℕ → Response
  issued : Text → Response

abbrev pub is_null : Option ℕ → Bool
is_null none = true
is_null (some n) = false

abbrev pub same_id : Option ℕ → Option ℕ → Bool
same_id (some a) (some b) = a == b
same_id _ _ = false

-- The first row that passes a test, as `fetchone` after a SELECT.
abbrev pub find_row {ℓ} : {A : Type ℓ} → (A → Bool) → List A → Option A
find_row p [] = none
find_row p (x ∷ xs) = let rest = find_row p xs in if p x then some x else rest

-- UPDATE.
abbrev pub update {ℓ} : {A : Type ℓ} → (A → Bool) → (A → A) → List A → List A
update p f [] = []
update p f (x ∷ xs) = (if p x then f x else x) ∷ update p f xs

abbrev pub is_active : Device → Bool
is_active d = is_null d.revoked_at

abbrev pub has_id : ℕ → Device → Bool
has_id id d = d.id == id

abbrev pub has_fingerprint : Text → Device → Bool
has_fingerprint fp d = text_eq d.fingerprint fp

-- The index idx_devices_fingerprint_active.
unfoldable pub one_active : List Device → Bool
one_active [] = true
one_active (d ∷ rows) =
    one_active rows
    && not (is_active d && any (λ e. is_active e && text_eq e.fingerprint d.fingerprint) rows)

-- The index idx_devices_profile_active.
unfoldable pub one_per_profile : List Device → Bool
one_per_profile [] = true
one_per_profile (d ∷ rows) =
    one_per_profile rows
    && not (is_active d && any (λ e. is_active e && same_id e.profile_id d.profile_id) rows)

-- The rows after a statement, and the id that it returns.
abbrev pub Written : Type 0
Written = List Device × Option ℕ

-- `none` is a UniqueViolation of one of the two indexes.
unfoldable pub checked : Written → Option Written
checked (rows, id) = if one_active rows && one_per_profile rows then some (rows, id) else none

abbrev id_of : Option Device → Option ℕ
id_of none = none
id_of (some d) = some d.id

-- The id of an UPDATE's RETURNING.
unfoldable pub returning : (Device → Bool) → List Device → Option ℕ
returning p rows = id_of (find_row p rows)

unfoldable pub select_device : List Device → Option ℕ → Option Device
select_device rows none = none
select_device rows (some id) = find_row (has_id id) rows

-- `_require_active_profile`.
abbrev pub is_active_profile : ℕ → State → Bool
is_active_profile profile_id s = any (λ p. p == profile_id) s.profiles

abbrev unbound_state : Option ℕ → DeviceState
unbound_state none = pending
unbound_state (some p) = paired p

unfoldable pub device_state : Option ℕ → Option ℕ → DeviceState
device_state profile_id (some t) = revoked
device_state profile_id none = unbound_state profile_id

abbrev pub summary_of : Device → Response
summary_of d = summary d (device_state d.profile_id d.revoked_at)
