-- ===== src/Devices/Agree.antt =====
-- What an administrator is told of a device and what `get_device_me` tells its kiosk.
use gruvax.Base.{
  if◌then◌else◌, ℕ, ◌≡◌, refl, sym, ◌∙◌, Bool, true, false, Option, none, some, List, [], ◌∷◌, ap,
  Text, text_eq, text_eq_refl, arith, Bool-cases, inl, inr, subst,
}
use mathlib.Core.Option.{some-injective}
use gruvax.Devices.{
  Device, PairingCode, DeviceState, State, Environment, Response, summary, find_row, update,
  Written, select_device, device_state, has_id, unpaired, revoked, is_null,
}
use gruvax.Devices.Bind.{
  BindRequest, bind_device, committed, bind_code, bind_allowed, bind_profile, bind_active, answer,
  is_usable, consume,
}
use gruvax.Devices.Handlers.{
  PatchBody, ProfileChange, Patched, failed, done, patch_device, patch_found, patch_committed,
  patch_answer, revoke_found, revoke_device, reinstate_answer, reinstate_committed,
  reinstate_device, delete_found, delete_device, code_answer, generate_pairing_code, Request, bind,
  patch, take_back, give_back, delete, generate, handle, handle_all, publish_reassigned,
}
use gruvax.Devices.Distinct.{IsDistinct, is_distinct, is_free, text_eq_comm}
use gruvax.Devices.Invariant.{handle_all-IsDistinct, reassigned-devices}
use gruvax.Devices.Show.{state_unless_revoked, select_by_fingerprint, get_device_me, state_of_row}

select-free :
    (fp : Text) (rows : List Device) → is_free fp rows ≡ true → select_by_fingerprint fp rows ≡ none
unfolding select_by_fingerprint
select-free fp [] h = refl
select-free fp (d ∷ rows) h = ground (arith, select-free fp rows)

found-free :
    (p : Device → Bool) (fp : Text) (d : Device) (rows : List Device)
    → find_row p rows ≡ some d
    → is_free fp rows ≡ true
    → text_eq d.fingerprint fp ≡ false
found-free p fp d [] h k = ground (arith, h)
found-free p fp d (e ∷ rows) h k = elim (Bool-cases (p e)) [
  | inl t ↦
      let same : e ≡ d = some-injective e d (rw t at h) in
      subst (λ x. text_eq x.fingerprint fp ≡ false) same (ground arith)
  | inr t ↦ found-free p fp d rows (rw t at h) (ground arith)
]

-- A device that is found by any test is found by its fingerprint.
select-found :
    (p : Device → Bool) (d : Device) (rows : List Device)
    → find_row p rows ≡ some d
    → IsDistinct rows
    → select_by_fingerprint d.fingerprint rows ≡ some d
unfolding select_by_fingerprint is_distinct
select-found p d [] h k = ground (arith, h)
select-found p d (e ∷ rows) h k = elim (Bool-cases (p e)) [
  | inl t ↦
      let same : e ≡ d = some-injective e d (rw t at h) in
      subst (λ x. select_by_fingerprint x.fingerprint (e ∷ rows) ≡ some x) same
        (ground (arith, text_eq_refl e.fingerprint, select-free e.fingerprint rows))
  | inr t ↦
      let found : find_row p rows ≡ some d = rw t at h in
      ground (
        arith,
        select-found p d rows found,
        text_eq_comm d.fingerprint e.fingerprint
            (found-free p e.fingerprint d rows found (ground arith)),
      )
]

module _ (d : Device) (state : DeviceState) where
  -- A device that is told of stands in the table, and its state is that of its row.
  abbrev IsTold : Response × State → Type 0
  IsTold o =
      o.0 ≡ summary d state
      → ((p : Device → Bool) × (find_row p o.1.devices ≡ some d))
        × (device_state d.profile_id d.revoked_at ≡ state)

  device_of : Response → Device
  device_of (summary e t) = e
  device_of _ = d

  state_told : Response → DeviceState
  state_told (summary e t) = t
  state_told _ = state

  told :
      (e : Device) (rows : List Device) (p : Device → Bool)
      → find_row p rows ≡ some e
      → summary e (device_state e.profile_id e.revoked_at) ≡ summary d state
      → ((q : Device → Bool) × (find_row q rows ≡ some d))
        × (device_state d.profile_id d.revoked_at ≡ state)
  unfolding device_of state_told
  told e rows p f h =
      let same : e ≡ d = ap device_of h in
      (
        (p, f ∙ ap some same),
        ap (λ x. device_state x.profile_id x.revoked_at) (sym same) ∙ ap state_told h,
      )

  answer-IsTold :
      (s : State) (p : Device → Bool) (o : Option Device)
      → find_row p s.devices ≡ o
      → IsTold (answer s o)
  answer-IsTold s p none f h = ground (arith, h)
  answer-IsTold s p (some e) f h = told e s.devices p f h

  select-IsTold : (s : State) (id : Option ℕ) → IsTold (answer s (select_device s.devices id))
  unfolding select_device
  select-IsTold s none = λ h. ground (arith, h)
  select-IsTold s (some id) = answer-IsTold s (has_id id) (find_row (has_id id) s.devices) refl

  committed-IsTold : (s s' : State) (o : Option Written) → IsTold (committed s s' o)
  committed-IsTold s s' none = λ h. ground (arith, h)
  committed-IsTold s s' (some (rows, id)) = select-IsTold (record s' { devices = rows }) id

  module _ (env : Environment) (body : BindRequest) (s : State) where
    code-IsTold : (p : ℕ) (c : Option PairingCode) → IsTold (bind_code env body p s c)
    code-IsTold p none = λ h. ground (arith, h)
    code-IsTold p (some c) =
        committed-IsTold s
          (record s { codes = update (is_usable env.now body.code) (consume env.now) s.codes }) _

    active-IsTold : (p : ℕ) (b : Bool) → IsTold (bind_active env body p s b)
    active-IsTold p false = λ h. ground (arith, h)
    active-IsTold p true = code-IsTold p _

    profile-IsTold : (p : Option ℕ) → IsTold (bind_profile env body s p)
    profile-IsTold none = λ h. ground (arith, h)
    profile-IsTold (some p) = active-IsTold p _

    allowed-IsTold : (b : Bool) → IsTold (bind_allowed env body s b)
    allowed-IsTold false = λ h. ground (arith, h)
    allowed-IsTold true = profile-IsTold _

  patch_answer-IsTold :
      (c : ProfileChange) (e : Device) (s : State) (p : Device → Bool) (o : Option Device)
      → find_row p s.devices ≡ o
      → IsTold (patch_answer c e s o)
  patch_answer-IsTold c e s p none f h = ground (arith, h)
  patch_answer-IsTold c e s p (some x) f h =
      told x (publish_reassigned c e s).devices p (ap (find_row p) (reassigned-devices c e s) ∙ f) h

  patch_committed-IsTold :
      (c : ProfileChange) (e : Device) (s : State) (o : Patched) → IsTold (patch_committed c e s o)
  patch_committed-IsTold c e s (failed r) = λ h. ground (arith, h)
  patch_committed-IsTold c e s (done rows) =
      patch_answer-IsTold c e (record s { devices = rows }) (has_id e.id)
        (find_row (has_id e.id) rows) refl

  patch_found-IsTold :
      (body : PatchBody) (s : State) (o : Option Device) → IsTold (patch_found body s o)
  patch_found-IsTold body s none = λ h. ground (arith, h)
  patch_found-IsTold body s (some e) = patch_committed-IsTold body.profile_id e s _

  patch_device-IsTold :
      (id : Option ℕ) (body : Option PatchBody) (s : State) → IsTold (patch_device id body s)
  unfolding patch_device
  patch_device-IsTold none body s = λ h. ground (arith, h)
  patch_device-IsTold (some id) none s = λ h. ground (arith, h)
  patch_device-IsTold (some id) (some body) s = patch_found-IsTold body s _

  revoke-IsTold :
      (env : Environment) (s : State) (o : Option Device) → IsTold (revoke_found env s o)
  revoke-IsTold env s none = λ h. ground (arith, h)
  revoke-IsTold env s (some e) = λ h. ground (arith, h)

  reinstate_answer-IsTold :
      (s : State) (rows : List Device) (id : Option ℕ) → IsTold (reinstate_answer s rows id)
  reinstate_answer-IsTold s rows none = λ h. ground (arith, h)
  reinstate_answer-IsTold s rows (some id) = λ h. ground (arith, h)

  reinstate-IsTold : (s : State) (o : Option Written) → IsTold (reinstate_committed s o)
  reinstate-IsTold s none = λ h. ground (arith, h)
  reinstate-IsTold s (some (rows, id)) = reinstate_answer-IsTold s rows id

  delete-IsTold : (s : State) (o : Option Device) → IsTold (delete_found s o)
  delete-IsTold s none = λ h. ground (arith, h)
  delete-IsTold s (some e) = λ h. ground (arith, h)

  code_answer-IsTold : (s : State) (o : Option Text × List PairingCode) → IsTold (code_answer s o)
  code_answer-IsTold s (none, rows) = λ h. ground (arith, h)
  code_answer-IsTold s (some code, rows) = λ h. ground (arith, h)

  handle-IsTold :
      (env : Environment) (request : Request) (s : State) → IsTold (handle env request s)
  unfolding handle bind_device revoke_device reinstate_device delete_device generate_pairing_code
  handle-IsTold env (bind body) s = allowed-IsTold env body s env.allowed
  handle-IsTold env (patch id body) s = patch_device-IsTold id body s
  handle-IsTold env (take_back none) s = λ h. ground (arith, h)
  handle-IsTold env (take_back (some id)) s = revoke-IsTold env s _
  handle-IsTold env (give_back none) s = λ h. ground (arith, h)
  handle-IsTold env (give_back (some id)) s = reinstate-IsTold s _
  handle-IsTold env (delete none) s = λ h. ground (arith, h)
  handle-IsTold env (delete (some id)) s = delete-IsTold s _
  handle-IsTold env (generate fp) s = elim (Bool-cases env.allowed) [
    | inl e ↦ rw e (code_answer-IsTold s _)
    | inr e ↦ rw e (λ h. ground (arith, h))
  ]

-- The branches of `get_device_me` and those of `_device_state`.
fields-device_state :
    (p t : Option ℕ) → (if is_null t then state_unless_revoked p else revoked) ≡ device_state p t
unfolding device_state
fields-device_state p (some t) = refl
fields-device_state none none = refl
fields-device_state (some p) none = refl

-- The state that a cookie is told of: an empty one counts as none.
abbrev pub told_by_cookie : Text → DeviceState → DeviceState
told_by_cookie [] state = unpaired
told_by_cookie (c ∷ fp) state = state

cookie-state :
    (fp : Text) (s : State) (d : Device)
    → select_by_fingerprint fp s.devices ≡ some d
    → get_device_me (some fp) s ≡ told_by_cookie fp (device_state d.profile_id d.revoked_at)
unfolding get_device_me
cookie-state [] s d h = refl
cookie-state (c ∷ fp) s d h = ap state_of_row h ∙ fields-device_state d.profile_id d.revoked_at

-- When a request is answered with a device and its state, and no two devices had the same fingerprint
-- before, then the kiosk whose cookie is the fingerprint of that device is told the same state after it,
-- unless that fingerprint is the empty text, which is told that it is unpaired.
pub handle-get_device_me :
    (env : Environment) (request : Request) (s : State) (d : Device) (state : DeviceState)
    → IsDistinct s.devices
    → (handle env request s).0 ≡ summary d state
    → get_device_me (some d.fingerprint) (handle env request s).1
      ≡ told_by_cookie d.fingerprint state
unfolding handle_all
handle-get_device_me env request s d state distinct answered =
    let t = handle-IsTold d state env request s answered in
    let after : IsDistinct (handle env request s).1.devices =
      handle_all-IsDistinct ((env, request) ∷ []) s distinct in
    cookie-state d.fingerprint (handle env request s).1 d (select-found t.0.0 d _ t.0.1 after)
    ∙ ap (told_by_cookie d.fingerprint) t.1
