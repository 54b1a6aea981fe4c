-- ===== src/Devices/Bind.antt =====
-- `bind_device` of gruvax/api/admin/devices.py: a pairing code is consumed and its kiosk gets a profile, in
-- one transaction.
use gruvax.Base.{
  ℕ, Bool, true, false, ◌&&◌, ltb, leb, Option, none, some, List, [], ◌∷◌, ◌++◌, Text, text_eq,
  if◌then◌else◌, codes, ◌>>=◌,
}
use gruvax.Devices.{
  Device, PairingCode, State, Environment, Refusal, rate_limited, invalid_uuid, profile_not_found,
  profile_already_bound, code_expired, code_not_found, device_create_failed, Response, refused,
  summary_of, is_null, same_id, find_row, update, is_active, has_id, has_fingerprint, Written,
  checked, returning, select_device, is_active_profile,
}

-- `body.profile_id`: missing or the empty text, a UUID, or another text.
pub data ProfileField : Type 0 where
  default_profile : ProfileField
  named : ℕ → ProfileField
  malformed : ProfileField

pub record BindRequest : Type 0 where
  pub code : Text
  pub profile_id : ProfileField
  pub display_name : Option Text

-- `body.display_name or "Unnamed device"`.
unfoldable pub name_of : Option Text → Text
name_of none = codes "Unnamed device"
name_of (some []) = codes "Unnamed device"
name_of (some (c ∷ s)) = c ∷ s

-- DEFAULT_PROFILE_UUID, 00000000-0000-0000-0000-000000000001.
abbrev pub default_profile_id : ℕ
default_profile_id = 1

unfoldable pub profile_of : ProfileField → Option ℕ
profile_of default_profile = some default_profile_id
profile_of (named p) = some p
profile_of malformed = none

abbrev pub has_code : Text → PairingCode → Bool
has_code code c = text_eq c.code code

-- The WHERE clause of _BIND_CODE.
abbrev pub is_usable : ℕ → Text → PairingCode → Bool
is_usable now code c = has_code code c && is_null c.consumed_at && ltb now c.expires_at

abbrev pub consume : ℕ → PairingCode → PairingCode
consume now c = record c { consumed_at = some now }

abbrev pub is_expired : ℕ → Text → PairingCode → Bool
is_expired now code c = has_code code c && is_null c.consumed_at && leb c.expires_at now

unfoldable pub no_code : ℕ → Text → List PairingCode → Refusal
no_code now code rows = elim (find_row (is_expired now code) rows) [
  | some c ↦ code_expired
  | none ↦ code_not_found
]

abbrev pub is_active_as : Text → Device → Bool
is_active_as fp d = has_fingerprint fp d && is_active d

abbrev pub not_null : Option ℕ → Bool
not_null none = false
not_null (some t) = true

abbrev pub is_revoked_as : Text → Device → Bool
is_revoked_as fp d = has_fingerprint fp d && not_null d.revoked_at

abbrev pub is_active_for : ℕ → Device → Bool
is_active_for profile_id d = same_id d.profile_id (some profile_id) && is_active d

abbrev pub assign : ℕ → Text → Device → Device
assign profile_id name d = record d { profile_id = some profile_id; display_name = name }

unfoldable pub update_by_fingerprint : ℕ → Text → Text → List Device → Option Written
update_by_fingerprint profile_id name fp rows =
    checked
      (update (is_active_as fp) (assign profile_id name) rows, returning (is_active_as fp) rows)

abbrev is_before : Option ℕ → Option ℕ → Bool
is_before (some a) (some b) = ltb a b
is_before _ _ = false

abbrev pub newer : Device → Option Device → Device
newer d none = d
newer d (some e) = if is_before d.revoked_at e.revoked_at then e else d

-- The subquery: of rows that were revoked at the same time, the first.
unfoldable pub latest_revoked : Text → List Device → Option Device
latest_revoked fp [] = none
latest_revoked fp (d ∷ rows) =
    let rest = latest_revoked fp rows in if is_revoked_as fp d then some (newer d rest) else rest

abbrev pub reinstated : Device → Device
reinstated d = record d { revoked_at = none }

abbrev pub reactivate_row : ℕ → Text → List Device → Option Device → Option Written
reactivate_row profile_id name rows none = some (rows, none)
reactivate_row profile_id name rows (some d) =
    checked (update (has_id d.id) (λ e. reinstated (assign profile_id name e)) rows, some d.id)

unfoldable pub reactivate : ℕ → Text → Text → List Device → Option Written
reactivate profile_id name fp rows = reactivate_row profile_id name rows (latest_revoked fp rows)

abbrev pub rebind : Text → Text → Device → Device
rebind name fp d = record d { fingerprint = fp; display_name = name }

unfoldable pub update_by_profile : ℕ → Text → Text → List Device → Option Written
update_by_profile profile_id name fp rows = checked (
  update (is_active_for profile_id) (rebind name fp) rows,
  returning (is_active_for profile_id) rows,
)

abbrev pub new_device : Environment → ℕ → Text → Text → Device
new_device env profile_id name fp = record {
  id = env.new_id;
  fingerprint = fp;
  profile_id = some profile_id;
  display_name = name;
  revoked_at = none;
  last_seen_at = none;
  created_at = env.now;
}

unfoldable pub insert_device : Environment → ℕ → Text → Text → List Device → Option Written
insert_device env profile_id name fp rows =
    checked (rows ++ new_device env profile_id name fp ∷ [], some env.new_id)

-- `if device_row is None`: the next statement runs.
abbrev pub or_next : (List Device → Option Written) → Written → Option Written
or_next next (rows, none) = next rows
or_next next (rows, some id) = some (rows, some id)

unfoldable pub upsert : Environment → ℕ → Text → Text → List Device → Option Written
upsert env profile_id name fp rows =
    update_by_fingerprint profile_id name fp rows
    >>= or_next (reactivate profile_id name fp)
    >>= or_next (update_by_profile profile_id name fp)
    >>= or_next (insert_device env profile_id name fp)

-- The commit, and the row that is selected last.
abbrev pub answer : State → Option Device → Response × State
answer s none = (refused device_create_failed, s)
answer s (some d) = (summary_of d, s)

abbrev pub committed : State → State → Option Written → Response × State
committed s s' none = (refused profile_already_bound, s)
committed s s' (some (rows, id)) = answer (record s' { devices = rows }) (select_device rows id)

abbrev pub bind_code : Environment → BindRequest → ℕ → State → Option PairingCode → Response × State
bind_code env body profile_id s none = (refused (no_code env.now body.code s.codes), s)
bind_code env body profile_id s (some c) =
    committed s
      (record s { codes = update (is_usable env.now body.code) (consume env.now) s.codes })
      (upsert env profile_id (name_of body.display_name) c.fingerprint s.devices)

abbrev pub bind_active : Environment → BindRequest → ℕ → State → Bool → Response × State
bind_active env body profile_id s false = (refused profile_not_found, s)
bind_active env body profile_id s true =
    bind_code env body profile_id s (find_row (is_usable env.now body.code) s.codes)

abbrev pub bind_profile : Environment → BindRequest → State → Option ℕ → Response × State
bind_profile env body s none = (refused invalid_uuid, s)
bind_profile env body s (some p) = bind_active env body p s (is_active_profile p s)

abbrev pub bind_allowed : Environment → BindRequest → State → Bool → Response × State
bind_allowed env body s false = (refused rate_limited, s)
bind_allowed env body s true = bind_profile env body s (profile_of body.profile_id)

unfoldable pub bind_device : Environment → BindRequest → State → Response × State
bind_device env body s = bind_allowed env body s env.allowed
