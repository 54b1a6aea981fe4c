-- ===== src/Devices/Invariant.antt =====
-- No two rows of gruvax.devices get the same fingerprint by any requests.
use gruvax.Base.{
  ℕ, ◌≡◌, refl, sym, ◌∙◌, Bool, true, false, ◌==◌, Option, none, some, List, [], ◌∷◌, Text, any,
  subst, Bool-cases, inl, inr,
}
use gruvax.Devices.{
  Device, PairingCode, State, Environment, EventName, update, has_id, Written, checked, returning,
  select_device, Response,
}
use gruvax.Devices.Bind.{
  BindRequest, reinstated, bind_device, name_of, committed, bind_code, bind_allowed, bind_profile,
  bind_active, answer, is_usable, consume, upsert,
}
use gruvax.Devices.Handlers.{
  PatchBody, ProfileChange, keep_profile, unbind, change, malformed, Patched, failed, done, rename,
  set_profile, apply_rename, patched_rows, change_profile, apply_profile, patch_device, Request,
  handle, handle_all, publish_device_event, publish_reassigned, patch_answer, patch_committed,
  patch_found, set_revoked, revoke_found, revoke_device, is_active_id, is_revoked_id,
  reinstate_answer, reinstate_committed, reinstate_device, delete_found, delete_device, code_answer,
  generate_pairing_code, bind, patch, take_back, give_back, delete, generate,
}
use gruvax.Devices.Distinct.{IsDistinct, update-IsDistinct, keep-IsDistinct}
use gruvax.Devices.Upsert.{checked-inv, upsert-IsDistinct}

-- The devices after a response.
abbrev After : Response × State → Type 0
After o = IsDistinct o.1.devices

answer-After : (s : State) (d : Option Device) → IsDistinct s.devices → After (answer s d)
answer-After s none h = h
answer-After s (some d) h = h

committed-After :
    (s s' : State) (o : Option Written)
    → IsDistinct s.devices
    → ((v : Written) → o ≡ some v → IsDistinct v.0)
    → After (committed s s' o)
committed-After s s' none h k = h
committed-After s s' (some (rows, id)) h k =
    answer-After (record s' { devices = rows }) (select_device rows id) (k (rows, id) refl)

module _ (env : Environment) (body : BindRequest) (s : State) (h : IsDistinct s.devices) where
  bind_code-After : (p : ℕ) (c : Option PairingCode) → After (bind_code env body p s c)
  bind_code-After p none = h
  bind_code-After p (some c) =
      committed-After s
        (record s { codes = update (is_usable env.now body.code) (consume env.now) s.codes })
        (upsert env p (name_of body.display_name) c.fingerprint s.devices) h
        (λ v e. upsert-IsDistinct p (name_of body.display_name) c.fingerprint env s.devices v h e)

  bind_active-After : (p : ℕ) (b : Bool) → After (bind_active env body p s b)
  bind_active-After p false = h
  bind_active-After p true = bind_code-After p _

  bind_profile-After : (p : Option ℕ) → After (bind_profile env body s p)
  bind_profile-After none = h
  bind_profile-After (some p) = bind_active-After p _

  bind_allowed-After : (b : Bool) → After (bind_allowed env body s b)
  bind_allowed-After false = h
  bind_allowed-After true = bind_profile-After _

publish-devices :
    (event : EventName) (id : ℕ) (p : Option ℕ) (s : State)
    → (publish_device_event event id p s).devices ≡ s.devices
unfolding publish_device_event
publish-devices event id none s = refl
publish-devices event id (some p) s = elim (Bool-cases (any (λ q. q == p) s.buses)) [
  | inl e ↦ rw e refl
  | inr e ↦ rw e refl
]

pub reassigned-devices :
    (c : ProfileChange) (d : Device) (s : State) → (publish_reassigned c d s).devices ≡ s.devices
unfolding publish_reassigned
reassigned-devices keep_profile d s = refl
reassigned-devices unbind d s = publish-devices _ d.id d.profile_id s
reassigned-devices (change p) d s = publish-devices _ d.id d.profile_id s
reassigned-devices malformed d s = publish-devices _ d.id d.profile_id s

AfterPatch : Patched → Type 0
AfterPatch (failed r) = Unit
AfterPatch (done rows) = IsDistinct rows

rename-IsDistinct :
    (name : Option Text) (id : ℕ) (rows : List Device)
    → IsDistinct rows
    → IsDistinct (apply_rename name id rows)
unfolding apply_rename
rename-IsDistinct none id rows h = h
rename-IsDistinct (some name) id rows h =
    update-IsDistinct (has_id id) (rename name) (λ d. refl) rows ∙ h

patched-AfterPatch :
    (o : Option Written)
    → ((v : Written) → o ≡ some v → IsDistinct v.0)
    → AfterPatch (patched_rows o)
unfolding AfterPatch
patched-AfterPatch none k = tt
patched-AfterPatch (some (rows, id)) k = k (rows, id) refl

change-AfterPatch :
    (b : Bool) (p id : ℕ) (rows : List Device)
    → IsDistinct rows
    → AfterPatch (change_profile b p id rows)
unfolding AfterPatch
change-AfterPatch false p id rows h = tt
change-AfterPatch true p id rows h = patched-AfterPatch _ (λ v e.
    subst (λ w. IsDistinct w.0) (checked-inv _ v e).0
      (update-IsDistinct (has_id id) (set_profile (some p)) (λ d. refl) rows ∙ h))

profile-AfterPatch :
    (c : ProfileChange) (id : ℕ) (s : State) (rows : List Device)
    → IsDistinct rows
    → AfterPatch (apply_profile c id s rows)
unfolding AfterPatch apply_profile
profile-AfterPatch keep_profile id s rows h = h
profile-AfterPatch unbind id s rows h =
    update-IsDistinct (has_id id) (set_profile none) (λ d. refl) rows ∙ h
profile-AfterPatch (change p) id s rows h = change-AfterPatch _ p id rows h
profile-AfterPatch malformed id s rows h = tt

patch_answer-After :
    (c : ProfileChange) (d : Device) (s : State) (o : Option Device)
    → IsDistinct s.devices
    → After (patch_answer c d s o)
patch_answer-After c d s none h = h
patch_answer-After c d s (some e) h = subst IsDistinct (sym (reassigned-devices c d s)) h

patch_committed-After :
    (c : ProfileChange) (d : Device) (s : State) (o : Patched)
    → IsDistinct s.devices
    → AfterPatch o
    → After (patch_committed c d s o)
unfolding AfterPatch
patch_committed-After c d s (failed r) h k = h
patch_committed-After c d s (done rows) h k =
    patch_answer-After c d (record s { devices = rows }) _ k

patch_found-After :
    (body : PatchBody) (s : State) (o : Option Device)
    → IsDistinct s.devices
    → After (patch_found body s o)
patch_found-After body s none h = h
patch_found-After body s (some d) h = patch_committed-After body.profile_id d s _ h (
    profile-AfterPatch body.profile_id d.id s _
      (rename-IsDistinct body.display_name d.id s.devices h))

patch_device-After :
    (id : Option ℕ) (body : Option PatchBody) (s : State)
    → IsDistinct s.devices
    → After (patch_device id body s)
unfolding patch_device
patch_device-After none body s h = h
patch_device-After (some id) none s h = h
patch_device-After (some id) (some body) s h = patch_found-After body s _ h

revoke_found-After :
    (env : Environment) (s : State) (o : Option Device)
    → IsDistinct s.devices
    → After (revoke_found env s o)
revoke_found-After env s none h = h
revoke_found-After env s (some d) h =
    subst IsDistinct (sym (publish-devices _ d.id d.profile_id _))
      (update-IsDistinct (is_active_id d.id) (set_revoked env.now) (λ d. refl) s.devices ∙ h)

reinstate_answer-After :
    (s : State) (rows : List Device) (id : Option ℕ)
    → IsDistinct s.devices
    → IsDistinct rows
    → After (reinstate_answer s rows id)
reinstate_answer-After s rows none h k = h
reinstate_answer-After s rows (some id) h k = k

reinstate_committed-After :
    (s : State) (o : Option Written)
    → IsDistinct s.devices
    → ((v : Written) → o ≡ some v → IsDistinct v.0)
    → After (reinstate_committed s o)
reinstate_committed-After s none h k = h
reinstate_committed-After s (some (rows, id)) h k =
    reinstate_answer-After s rows id h (k (rows, id) refl)

delete_found-After :
    (s : State) (o : Option Device) → IsDistinct s.devices → After (delete_found s o)
delete_found-After s none h = h
delete_found-After s (some d) h = keep-IsDistinct _ s.devices h

code_answer-After :
    (s : State) (o : Option Text × List PairingCode)
    → IsDistinct s.devices
    → After (code_answer s o)
code_answer-After s (none, rows) h = h
code_answer-After s (some code, rows) h = h

handle-After :
    (env : Environment) (request : Request) (s : State)
    → IsDistinct s.devices
    → After (handle env request s)
unfolding handle bind_device revoke_device reinstate_device delete_device generate_pairing_code
handle-After env (bind body) s h = bind_allowed-After env body s h env.allowed
handle-After env (patch id body) s h = patch_device-After id body s h
handle-After env (take_back none) s h = h
handle-After env (take_back (some id)) s h = revoke_found-After env s _ h
handle-After env (give_back none) s h = h
handle-After env (give_back (some id)) s h =
    reinstate_committed-After s
      (checked
        (update (is_revoked_id id) reinstated s.devices, returning (is_revoked_id id) s.devices))
      h
      (λ v e.
        subst (λ w. IsDistinct w.0) (checked-inv _ v e).0
          (update-IsDistinct (is_revoked_id id) reinstated (λ d. refl) s.devices ∙ h))
handle-After env (delete none) s h = h
handle-After env (delete (some id)) s h = delete_found-After s _ h
handle-After env (generate fp) s h = elim (Bool-cases env.allowed) [
  | inl e ↦ rw e (code_answer-After s _ h)
  | inr e ↦ rw e h
]

-- If no two devices have the same fingerprint, be they active or revoked, then none have it after any
-- requests, whatever these are answered with.
pub handle_all-IsDistinct :
    (requests : List (Environment × Request)) (s : State)
    → IsDistinct s.devices
    → IsDistinct (handle_all requests s).devices
unfolding handle_all
handle_all-IsDistinct [] s h = h
handle_all-IsDistinct ((env, request) ∷ requests) s h =
    handle_all-IsDistinct requests (handle env request s).1 (handle-After env request s h)
