-- ===== src/Sessions/Handlers.antt =====
-- The handlers that change sessions: login and logout (gruvax/api/admin/login.py), and the change of
-- the PIN (gruvax/api/admin/settings.py).
pub mod Keeping
use gruvax.Base.{
  ℕ, Bool, true, false, ◌||◌, not, ◌==◌, Option, none, some, Text, if◌then◌else◌, length,
}
use gruvax.Sessions.{
  Table, SessionInfo, Server, Request, Access, admitted, refused, create_session, revoke_session,
  revoke_all_sessions_except, require_admin, get_session_id, admin_session_policy, present,
}

-- The rows that the handlers share: the PIN's hash and the sessions.
pub record Store : Type 0 where
  pub pin_hash : Option Text
  pub sessions : Table

-- The results of a login; `store_failed` is the database's error.
pub data LoginResult : Type 0 where
  rate_limited invalid_request invalid_pin pin_not_configured store_failed : LoginResult
  logged_in : SessionInfo → LoginResult

-- What a login reads: the rate limiter's answer, the PIN (`none` where the body is not JSON), and
-- the fresh UUID.
pub record LoginAttempt : Type 0 where
  pub allowed : Bool
  pub pin : Option Text
  pub fresh_id : Text

unfoldable pub verify_pin : Server → Text → Text → Bool
verify_pin server pin hashed = elim (server.verify pin hashed) [ none ↦ false | some b ↦ b ]

abbrev pub is_four_digits : Server → Text → Bool
is_four_digits server pin = not (not (server.isdigit pin) || not (length pin == 4))

unfoldable pub start_session : Server → ℕ → Text → Store → LoginResult × Store
start_session server now fresh_id store =
    let (idle_ttl, hard_cap) = admin_session_policy server.settings_cache server.idle_default in
    elim (create_session fresh_id now idle_ttl hard_cap store.sessions) [
      | none ↦ (store_failed, store)
      | some made ↦ (logged_in made.0, record store { sessions = made.1 })
    ]

unfoldable pub login_with_pin : Server → ℕ → Text → Text → Store → LoginResult × Store
login_with_pin server now fresh_id pin store =
    if not (is_four_digits server pin) then (invalid_pin, store) else elim store.pin_hash [
      | none ↦ (pin_not_configured, store)
      | some hashed ↦
          if verify_pin server pin hashed
          then start_session server now fresh_id store
          else (invalid_pin, store)
    ]

unfoldable pub login : Server → ℕ → LoginAttempt → Store → LoginResult × Store
login server now attempt store =
    if not attempt.allowed then (rate_limited, store) else elim attempt.pin [
      | none ↦ (invalid_request, store)
      | some pin ↦ login_with_pin server now attempt.fresh_id pin store
    ]

-- The handler runs only where the request is admitted.
unfoldable pub after_check : Access → (Text → Store → Store) → Store → Access × Store
after_check (admitted id) handler store = (admitted id, handler id store)
after_check (refused refusal) handler store = (refused refusal, store)

-- A handler behind `require_admin`: the result of the check, and the store after it and the handler.
unfoldable pub behind_admin : Server → ℕ → Request → (Text → Store → Store) → Store → Access × Store
behind_admin server now request handler store =
    let (access, sessions) = require_admin server now request store.sessions in
    after_check access handler (record store { sessions = sessions })

unfoldable pub logout_session : Server → ℕ → Request → Store → Store
logout_session server now request store = elim (present (get_session_id server request)) [
  | none ↦ store
  | some id ↦ record store { sessions = revoke_session id now store.sessions }
]

unfoldable pub logout : Server → ℕ → Request → Store → Access × Store
logout server now request store =
    behind_admin server now request (λ _. logout_session server now request) store

-- The body of `change_pin` after the check, for the two PINs and the salt of the new hash: whether the
-- PIN was changed, and the store.
unfoldable pub replace_pin : Server → ℕ → Text → Text → Text → Text → Store → Bool × Store
replace_pin server now salt current_pin new_pin id store =
    if not (is_four_digits server new_pin) then (false, store) else elim store.pin_hash [
      | none ↦ (false, store)
      | some hashed ↦
          if verify_pin server current_pin hashed
          then (
            true,
            record {
              pin_hash = some (server.hash salt new_pin);
              sessions = revoke_all_sessions_except id now store.sessions;
            },
          )
          else (false, store)
    ]

unfoldable pub change_pin : Server → ℕ → Request → Text → Text → Text → Store → Access × Store
change_pin server now request salt current_pin new_pin store =
    behind_admin server now request
      (λ id store. (replace_pin server now salt current_pin new_pin id store).1) store
