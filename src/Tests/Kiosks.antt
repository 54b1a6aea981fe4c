-- ===== src/Tests/Kiosks.antt =====
-- Two kiosks, one of them revoked, and a third that is paired.
use gruvax.Base.{◌≡◌, refl, true, none, some, List, [], ◌∷◌, codes, arith}
use gruvax.Base.Sort.{sort_by, insert_by}
use gruvax.Devices.{
  Device, State, Environment, paired, summary, checked, one_active, one_per_profile, returning,
  select_device, device_state, code_not_found, refused, issued, unpaired,
}
use gruvax.Devices.Bind.{
  BindRequest, default_profile, bind_device, profile_of, name_of, upsert, update_by_fingerprint,
  reactivate, latest_revoked, update_by_profile, no_code,
}
use gruvax.Devices.Handlers.{
  Request, bind, give_back, generate, handle_all, handle, generate_pairing_code, issue, sweep,
}
use gruvax.Devices.Distinct.{IsDistinct, is_distinct}
use gruvax.Devices.Invariant.{handle_all-IsDistinct}
use gruvax.Devices.Agree.{told_by_cookie, handle-get_device_me}
use gruvax.Devices.Again.{IsRefused, bind_device-again}
use gruvax.Devices.Show.{get_device_me, select_by_fingerprint, list_devices, group_devices}

abbrev old_kiosk : Device
old_kiosk = record {
  id = 7;
  fingerprint = codes "a";
  profile_id = some 2;
  display_name = codes "Den";
  revoked_at = some 50;
  last_seen_at = none;
  created_at = 10;
}

abbrev kiosk : Device
kiosk = record old_kiosk { id = 8; fingerprint = codes "b"; profile_id = some 1; revoked_at = none }

abbrev state : State
state = record {
  devices = old_kiosk ∷ kiosk ∷ [];
  codes =
      record { code = codes "1234"; fingerprint = codes "c"; consumed_at = none; expires_at = 400 }
      ∷ [];
  profiles = 1 ∷ 2 ∷ [];
  buses = 1 ∷ [];
  published = [];
}

abbrev env : Environment
env = record {
  now = 100;
  allowed = true;
  new_id = 9;
  new_fingerprint = codes "d";
  candidates = codes "1234" ∷ codes "5678" ∷ codes "9012" ∷ [];
}

abbrev later : Environment
later = record env { now = 200 }

abbrev body : BindRequest
body = record { code = codes "1234"; profile_id = default_profile; display_name = none }

start : IsDistinct state.devices
unfolding is_distinct
start = refl

-- The kiosk of the profile is replaced by the new one.
bound :
    (bind_device env body state).0
    ≡ summary
        (record kiosk { fingerprint = codes "c"; display_name = codes "Unnamed device" })
        (paired 1)
unfolding bind_device profile_of name_of upsert update_by_fingerprint checked one_active
    one_per_profile returning reactivate latest_revoked update_by_profile select_device device_state
bound = refl

shown : get_device_me (some (codes "c")) (bind_device env body state).1 ≡ paired 1
unfolding bind_device profile_of name_of upsert update_by_fingerprint checked one_active
    one_per_profile returning reactivate latest_revoked update_by_profile select_device device_state
    get_device_me select_by_fingerprint
shown = refl

listed : (list_devices state).revoked_devices ≡ old_kiosk ∷ []
unfolding list_devices group_devices device_state sort_by insert_by
listed = refl

unknown_code :
    (bind_device env (record body { code = codes "0000" }) state) ≡ (refused code_not_found, state)
unfolding bind_device profile_of no_code
unknown_code = refl

-- A second code, since the first candidate is taken.
issued_code :
    (handle_all ((env, generate none) ∷ []) state).codes
    ≡ record { code = codes "1234"; fingerprint = codes "c"; consumed_at = none; expires_at = 400 }
      ∷ record {
        code = codes "5678";
        fingerprint = codes "d";
        consumed_at = none;
        expires_at = 400;
      }
      ∷ []
unfolding handle_all handle generate_pairing_code issue sweep
issued_code = refl

abbrev requests : List (Environment × Request)
requests = (env, bind body) ∷ (later, give_back (some 7)) ∷ []

handle_all-IsDistinct_example : IsDistinct (handle_all requests state).devices
handle_all-IsDistinct_example = handle_all-IsDistinct requests state start

bind_device-again_example :
    IsRefused (bind_device env body state).1 (bind_device later body (bind_device env body state).1)
bind_device-again_example =
    bind_device-again env later body body state
      (record kiosk { fingerprint = codes "c"; display_name = codes "Unnamed device" }) (paired 1)
      bound refl (omega arith)

handled :
    (handle env (bind body) state).0
    ≡ summary
        (record kiosk { fingerprint = codes "c"; display_name = codes "Unnamed device" })
        (paired 1)
unfolding handle
handled = bound

handle-get_device_me_example :
    get_device_me (some (codes "c")) (handle env (bind body) state).1
    ≡ told_by_cookie (codes "c") (paired 1)
handle-get_device_me_example =
    handle-get_device_me env (bind body) state
      (record kiosk { fingerprint = codes "c"; display_name = codes "Unnamed device" }) (paired 1)
      start handled

-- A cookie that is there and empty: a code is issued for it, but the kiosk counts as unpaired.
empty_cookie_code : (handle env (generate (some [])) state).0 ≡ issued (codes "5678")
unfolding handle generate_pairing_code issue sweep
empty_cookie_code = refl

empty_cookie : get_device_me (some []) (handle env (generate (some [])) state).1 ≡ unpaired
unfolding get_device_me
empty_cookie = refl
