-- ===== src/Sessions/History.antt =====
-- What a row of the session table keeps over any history of requests.
use gruvax.Base.{ℕ, ◌≤◌, Text}
use gruvax.Sessions.{Server, Request, require_admin}
use gruvax.Sessions.Handlers.{
  Store, LoginAttempt, login, logout, change_pin, logout_session, replace_pin,
}
use gruvax.Sessions.Keeps.{Keeps, Keeps-refl, Keeps-trans}
use gruvax.Sessions.Handlers.Keeping.{
  login-Keeps, behind_admin-Keeps, logout_session-Keeps, replace_pin-Keeps, require_admin-Keeps,
}

-- A request to the server.
pub data Action : Type 0 where
  sign_in : LoginAttempt → Action
  sign_out : Request → Action
  new_pin : Request → Text → Text → Text → Action
  visit : Request → Action

unfoldable pub run : Server → ℕ → Action → Store → Store
run server now (sign_in attempt) store = (login server now attempt store).1
run server now (sign_out request) store = (logout server now request store).1
run server now (new_pin request salt current_pin pin) store =
    (change_pin server now request salt current_pin pin store).1
run server now (visit request) store = record store {
  sessions = (require_admin server now request store.sessions).1;
}

-- Requests in the order of their times, each under the settings of its moment.
pub data History : ℕ → Store → ℕ → Store → Type 0 where
  start : {now : ℕ} {store : Store} → History now store now store
  next :
      {now later : ℕ} {old store : Store} (before : ℕ) (server : Server) (action : Action)
      → History now old before store
      → before ≤ later
      → History now old later (run server later action store)

run-Keeps :
    (server : Server) (now : ℕ) (action : Action) (store : Store)
    → Keeps store.sessions (run server now action store).sessions
unfolding run logout change_pin
run-Keeps server now (sign_in attempt) store = login-Keeps server now attempt store
run-Keeps server now (sign_out request) store =
    behind_admin-Keeps server now request (λ _. logout_session server now request)
      (λ _ s. logout_session-Keeps server now request s) store
run-Keeps server now (new_pin request salt current_pin pin) store =
    behind_admin-Keeps server now request
      (λ id s. (replace_pin server now salt current_pin pin id s).1)
      (λ id s. replace_pin-Keeps server now salt current_pin pin id s) store
run-Keeps server now (visit request) store = require_admin-Keeps server now request store.sessions

-- Over any history, a row that a request can find stays findable, with the same hard cap; once it is
-- revoked it stays revoked, and once its expiry is within the cap it stays within.
pub History-Keeps :
    (now later : ℕ) (old store : Store)
    → History now old later store
    → Keeps old.sessions store.sessions
History-Keeps now later old store start = Keeps-refl old.sessions
History-Keeps now later old store (next {store = between} before server action h _) =
    Keeps-trans old.sessions between.sessions _ (History-Keeps now before old between h)
      (run-Keeps server later action between)
