-- ===== src/Tests/Admin.antt =====
-- Two admin sessions, a PIN, and what their requests come to.
use gruvax.Base.{◌≡◌, ◌≢◌, ◌↔◌, refl, arith, true, none, some, [], ◌∷◌, codes, text_eq, ap, length}
use gruvax.Sessions.{
  AdminSession, Server, Request, admitted, find_session, csrf_check, row_check, check_session,
  get_session_id, require_admin, touch, admin_session_policy,
}
use gruvax.Sessions.Handlers.{Store, logout, behind_admin, after_check, replace_pin, verify_pin}
use gruvax.Sessions.History.{start, next, visit, run}
use gruvax.Sessions.LetIn.{IsLetIn, require_admin-IsLetIn}
use gruvax.Sessions.Lockout.{hard_cap_final, replace_pin_locks_out, logout_final}

-- A server whose signatures and hashes are the texts themselves.
abbrev server : Server
server = record {
  loads = λ t. some t;
  hash = λ _ pin. pin;
  verify = λ pin hashed. some (text_eq pin hashed);
  isdigit = λ _. true;
  idle_default = 600;
  settings_cache = record { idle_ttl_seconds = none; hard_cap_seconds = none };
}

abbrev session_1 : AdminSession
session_1 = record {
  id = codes "one";
  created_at = 0;
  last_seen_at = 0;
  expires_at = 600;
  hard_expires_at = 1800;
  revoked_at = none;
}

abbrev session_2 : AdminSession
session_2 = record session_1 { id = codes "second" }

abbrev store : Store
store = record { pin_hash = some (codes "1234"); sessions = session_1 ∷ session_2 ∷ [] }

abbrev request : Request
request = record {
  method = codes "POST";
  session_cookie = some (codes "one");
  csrf_header = codes "token";
  csrf_cookie = codes "token";
}

found_1 : find_session (codes "one") store.sessions ≡ some session_1
unfolding find_session
found_1 = refl

found_2 : find_session (codes "second") store.sessions ≡ some session_2
unfolding find_session
found_2 = refl

require_admin-IsLetIn_example :
    ((require_admin server 20 request store.sessions).0 ≡ admitted (codes "one"))
    ↔ IsLetIn server 20 request store.sessions (codes "one")
require_admin-IsLetIn_example = require_admin-IsLetIn server 20 request store.sessions (codes "one")

hard_cap_final_example :
    (require_admin server 2000 request (run server 20 (visit request) store).sessions).0
    ≢ admitted (codes "one")
hard_cap_final_example =
    hard_cap_final (next 10 server (visit request) start (omega arith)) server 2000 request
      (codes "one") session_1 found_1 (omega arith)

pin_replaced : (replace_pin server 20 [] (codes "1234") (codes "5678") (codes "one") store).0 ≡ true
unfolding replace_pin verify_pin
pin_replaced = refl

two_is_other : codes "second" ≢ codes "one"
two_is_other e = omega (arith, ap length e)

replace_pin_locks_out_example :
    (require_admin server 30 request
      (replace_pin server 20 [] (codes "1234") (codes "5678") (codes "one") store).1.sessions).0
    ≢ admitted (codes "second")
replace_pin_locks_out_example =
    replace_pin_locks_out server server 20 20 30 [] (codes "1234") (codes "5678") (codes "one")
      (codes "second") store _ session_2 request pin_replaced found_2 two_is_other start

logged_out_1 : (logout server 20 request store).0 ≡ admitted (codes "one")
unfolding logout behind_admin require_admin get_session_id csrf_check check_session row_check
    find_session after_check admin_session_policy touch
logged_out_1 = refl

logout_final_example :
    (require_admin server 30 request (logout server 20 request store).1.sessions).0
    ≢ admitted (codes "one")
logout_final_example =
    logout_final server server 20 20 30 request request (codes "one") store _ logged_out_1 start
