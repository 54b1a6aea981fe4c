-- ===== src/Devices/Handlers.antt =====
-- The other handlers of gruvax/api/admin/devices.py and those of gruvax/api/devices.py.
use gruvax.Base.{
  ℕ, ◌+◌, Bool, true, false, not, ◌||◌, ◌&&◌, ◌==◌, ltb, Option, none, some, List, [], ◌∷◌, ◌++◌,
  Text, if◌then◌else◌, any, keep,
}
use gruvax.Devices.{
  Device, PairingCode, EventName, device_reassigned, device_revoked, State, Environment, Refusal,
  rate_limited, invalid_uuid, invalid_request, profile_not_found, profile_already_bound,
  device_not_found, reinstate_conflict, code_generation_failed, Response, refused, summary_of,
  changed, issued, find_row, update, is_active, has_id, Written, checked, returning,
  is_active_profile,
}
use gruvax.Devices.Bind.{BindRequest, bind_device, has_code, not_null, reinstated}

-- `_publish_device_event`.
unfoldable pub publish_device_event : EventName → ℕ → Option ℕ → State → State
publish_device_event event id none s = s
publish_device_event event id (some p) s =
    if any (λ q. q == p) s.buses
    then record s { published = s.published ++ (p, (event, id)) ∷ [] }
    else s

-- `profile_id` of the body of a PATCH: missing, null, a UUID, or another value.
pub data ProfileChange : Type 0 where
  keep_profile : ProfileChange
  unbind : ProfileChange
  change : ℕ → ProfileChange
  malformed : ProfileChange

pub record PatchBody : Type 0 where
  pub display_name : Option Text
  pub profile_id : ProfileChange

pub data Patched : Type 0 where
  failed : Refusal → Patched
  done : List Device → Patched

abbrev pub rename : Text → Device → Device
rename name d = record d { display_name = name }

abbrev pub set_profile : Option ℕ → Device → Device
set_profile profile_id d = record d { profile_id = profile_id }

unfoldable pub apply_rename : Option Text → ℕ → List Device → List Device
apply_rename none id rows = rows
apply_rename (some name) id rows = update (has_id id) (rename name) rows

abbrev pub patched_rows : Option Written → Patched
patched_rows none = failed profile_already_bound
patched_rows (some (rows, id)) = done rows

abbrev pub change_profile : Bool → ℕ → ℕ → List Device → Patched
change_profile false p id rows = failed profile_not_found
change_profile true p id rows =
    patched_rows
      (checked (update (has_id id) (set_profile (some p)) rows, returning (has_id id) rows))

unfoldable pub apply_profile : ProfileChange → ℕ → State → List Device → Patched
apply_profile keep_profile id s rows = done rows
apply_profile unbind id s rows = done (update (has_id id) (set_profile none) rows)
apply_profile (change p) id s rows = change_profile (is_active_profile p s) p id rows
apply_profile malformed id s rows = failed invalid_uuid

-- The SSE event goes to the profile that the device had.
unfoldable pub publish_reassigned : ProfileChange → Device → State → State
publish_reassigned keep_profile d s = s
publish_reassigned _ d s = publish_device_event device_reassigned d.id d.profile_id s

abbrev pub patch_answer : ProfileChange → Device → State → Option Device → Response × State
patch_answer profile_change d s none = (refused device_not_found, s)
patch_answer profile_change d s (some e) = (summary_of e, publish_reassigned profile_change d s)

abbrev pub patch_committed : ProfileChange → Device → State → Patched → Response × State
patch_committed profile_change d s (failed r) = (refused r, s)
patch_committed profile_change d s (done rows) =
    patch_answer profile_change d (record s { devices = rows }) (find_row (has_id d.id) rows)

abbrev pub patch_found : PatchBody → State → Option Device → Response × State
patch_found body s none = (refused device_not_found, s)
patch_found body s (some d) =
    patch_committed body.profile_id d s
      (apply_profile body.profile_id d.id s (apply_rename body.display_name d.id s.devices))

-- A body that is no JSON object is `none`, as is an id that is no UUID.
unfoldable pub patch_device : Option ℕ → Option PatchBody → State → Response × State
patch_device none body s = (refused invalid_uuid, s)
patch_device (some id) none s = (refused invalid_request, s)
patch_device (some id) (some body) s = patch_found body s (find_row (has_id id) s.devices)

abbrev pub is_active_id : ℕ → Device → Bool
is_active_id id d = has_id id d && is_active d

abbrev pub set_revoked : ℕ → Device → Device
set_revoked now d = record d { revoked_at = some now }

abbrev pub revoke_found : Environment → State → Option Device → Response × State
revoke_found env s none = (refused device_not_found, s)
revoke_found env s (some d) = (
  changed d.id,
  publish_device_event device_revoked d.id d.profile_id
      (record s { devices = update (is_active_id d.id) (set_revoked env.now) s.devices }),
)

unfoldable pub revoke_device : Environment → Option ℕ → State → Response × State
revoke_device env none s = (refused invalid_uuid, s)
revoke_device env (some id) s = revoke_found env s (find_row (is_active_id id) s.devices)

abbrev pub is_revoked_id : ℕ → Device → Bool
is_revoked_id id d = has_id id d && not_null d.revoked_at

abbrev pub reinstate_answer : State → List Device → Option ℕ → Response × State
reinstate_answer s rows none = (refused device_not_found, s)
reinstate_answer s rows (some id) = (changed id, record s { devices = rows })

abbrev pub reinstate_committed : State → Option Written → Response × State
reinstate_committed s none = (refused reinstate_conflict, s)
reinstate_committed s (some (rows, id)) = reinstate_answer s rows id

unfoldable pub reinstate_device : Option ℕ → State → Response × State
reinstate_device none s = (refused invalid_uuid, s)
reinstate_device (some id) s = reinstate_committed s (
    checked
      (update (is_revoked_id id) reinstated s.devices, returning (is_revoked_id id) s.devices))

abbrev pub delete_found : State → Option Device → Response × State
delete_found s none = (refused device_not_found, s)
delete_found s (some d) =
    (changed d.id, record s { devices = keep (λ e. not (has_id d.id e)) s.devices })

unfoldable pub delete_device : Option ℕ → State → Response × State
delete_device none s = (refused invalid_uuid, s)
delete_device (some id) s = delete_found s (find_row (has_id id) s.devices)

-- _SWEEP_EXPIRED_CODES.
unfoldable pub sweep : ℕ → List PairingCode → List PairingCode
sweep now rows = keep (λ c. not (ltb c.expires_at now || not_null c.consumed_at)) rows

abbrev pub new_code : ℕ → Text → Text → PairingCode
new_code now fp code = record {
  code = code;
  fingerprint = fp;
  consumed_at = none;
  expires_at = now + 300;
}

-- The loop over the candidates, which ends at the first that is new.
unfoldable pub issue : ℕ → Text → List Text → List PairingCode → Option Text × List PairingCode
issue now fp [] rows = (none, rows)
issue now fp (code ∷ candidates) rows =
    let rest = issue now fp candidates rows in
    if any (has_code code) rows then rest else (some code, rows ++ new_code now fp code ∷ [])

abbrev pub fingerprint_or : Text → Option Text → Text
fingerprint_or new none = new
fingerprint_or new (some fp) = fp

abbrev pub code_answer : State → Option Text × List PairingCode → Response × State
code_answer s (none, rows) = (refused code_generation_failed, record s { codes = rows })
code_answer s (some code, rows) = (issued code, record s { codes = rows })

-- `env.candidates` are the three codes that the loop draws.
unfoldable pub generate_pairing_code : Environment → Option Text → State → Response × State
generate_pairing_code env fp s =
    if env.allowed
    then code_answer s (
        issue env.now (fingerprint_or env.new_fingerprint fp) env.candidates
          (sweep env.now s.codes))
    else (refused rate_limited, s)

-- The handlers that change something.
pub data Request : Type 0 where
  bind : BindRequest → Request
  patch : Option ℕ → Option PatchBody → Request
  take_back : Option ℕ → Request
  give_back : Option ℕ → Request
  delete : Option ℕ → Request
  generate : Option Text → Request

unfoldable pub handle : Environment → Request → State → Response × State
handle env (bind body) s = bind_device env body s
handle env (patch id body) s = patch_device id body s
handle env (take_back id) s = revoke_device env id s
handle env (give_back id) s = reinstate_device id s
handle env (delete id) s = delete_device id s
handle env (generate fp) s = generate_pairing_code env fp s

unfoldable pub handle_all : List (Environment × Request) → State → State
handle_all [] s = s
handle_all ((env, request) ∷ requests) s = handle_all requests (handle env request s).1
