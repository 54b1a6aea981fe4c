-- ===== src/Sessions/Handlers/Keeping.antt =====
-- Every handler keeps the rows of the session table.
use mathlib.Core.Option.{some-injective}
use gruvax.Base.{ℕ, ◌≡◌, subst, arith, not, some, Text, Bool-cases, Option-cases, inl, inr}
use gruvax.Sessions.{
  SessionInfo, Table, Server, Request, Access, admitted, refused, find_session, row_check,
  create_session, check_session, require_admin, get_session_id, admin_session_policy, present,
  csrf_check, is_free, new_session,
}
use gruvax.Sessions.Handlers.{
  Store, LoginAttempt, login, start_session, login_with_pin, after_check, behind_admin,
  logout_session, replace_pin, verify_pin, is_four_digits,
}
use gruvax.Sessions.Keeps.{
  Keeps, Keeps-refl, Keeps-trans, Keeps-append, Keeps-revoke_session, Keeps-revoke_all, Keeps-touch,
}

check_session-Keeps :
    (server : Server) (now : ℕ) (id : Text) (t : Table) → Keeps t (check_session server now id t).1
unfolding check_session
check_session-Keeps server now id t = elim (Option-cases (find_session id t)) [
  | inl e ↦ rw (check_session, e) (Keeps-refl t)
  | inr (s, e) ↦ elim (Option-cases (row_check now s)) [
    | inl f ↦ rw (check_session, e, f) (Keeps-touch id now _ t s e (ground arith))
    | inr (a, f) ↦ rw (check_session, e, f) (Keeps-refl t)
  ]
]

pub require_admin-Keeps :
    (server : Server) (now : ℕ) (request : Request) (t : Table)
    → Keeps t (require_admin server now request t).1
unfolding require_admin
require_admin-Keeps server now request t =
    elim (Option-cases (present (get_session_id server request))) [
      | inl e ↦ rw (require_admin, e) (Keeps-refl t)
      | inr (id, e) ↦ elim (Option-cases (csrf_check request)) [
        | inl f ↦ rw (require_admin, e, f) (check_session-Keeps server now id t)
        | inr (a, f) ↦ rw (require_admin, e, f) (Keeps-refl t)
      ]
    ]

create_session-Keeps :
    (id : Text) (now idle cap : ℕ) (t : Table) (made : SessionInfo × Table)
    → create_session id now idle cap t ≡ some made
    → Keeps t made.1
unfolding create_session
create_session-Keeps id now idle cap t made e = elim (Bool-cases (is_free (find_session id t))) [
  | inl f ↦
      subst (λ (m : SessionInfo × Table). Keeps t m.1) (some-injective _ made (rw f at e))
        (Keeps-append t (new_session id now idle cap) (ground arith))
  | inr f ↦ absurd (ground (arith, (rw f at e)))
]

start_session-Keeps :
    (server : Server) (now : ℕ) (id : Text) (store : Store)
    → Keeps store.sessions (start_session server now id store).1.sessions
unfolding start_session
start_session-Keeps server now id store =
    elim (Option-cases (
      create_session id now (admin_session_policy server.settings_cache server.idle_default).0
        (admin_session_policy server.settings_cache server.idle_default).1 store.sessions)) [
          | inl e ↦ rw (start_session, e) (Keeps-refl store.sessions)
          | inr (made, e) ↦
              rw (start_session, e) (create_session-Keeps id now _ _ store.sessions made e)
        ]

login_with_pin-Keeps :
    (server : Server) (now : ℕ) (id pin : Text) (store : Store)
    → Keeps store.sessions (login_with_pin server now id pin store).1.sessions
unfolding login_with_pin
login_with_pin-Keeps server now id pin store = elim (Bool-cases (not (is_four_digits server pin))) [
  | inl e ↦ rw (login_with_pin, e) (Keeps-refl store.sessions)
  | inr e ↦ elim (Option-cases store.pin_hash) [
    | inl f ↦ rw (login_with_pin, e, f) (Keeps-refl store.sessions)
    | inr (hashed, f) ↦ elim (Bool-cases (verify_pin server pin hashed)) [
      | inl g ↦ rw (login_with_pin, e, f, g) (start_session-Keeps server now id store)
      | inr g ↦ rw (login_with_pin, e, f, g) (Keeps-refl store.sessions)
    ]
  ]
]

pub login-Keeps :
    (server : Server) (now : ℕ) (attempt : LoginAttempt) (store : Store)
    → Keeps store.sessions (login server now attempt store).1.sessions
unfolding login
login-Keeps server now attempt store = elim (Bool-cases (not attempt.allowed)) [
  | inl e ↦ rw (login, e) (Keeps-refl store.sessions)
  | inr e ↦ elim (Option-cases attempt.pin) [
    | inl f ↦ rw (login, e, f) (Keeps-refl store.sessions)
    | inr (pin, f) ↦ rw (login, e, f) (login_with_pin-Keeps server now attempt.fresh_id pin store)
  ]
]

after_check-Keeps :
    (access : Access) (handler : Text → Store → Store)
    → ((id : Text) (s : Store) → Keeps s.sessions (handler id s).sessions)
    → (store : Store) → Keeps store.sessions (after_check access handler store).1.sessions
unfolding after_check
after_check-Keeps (admitted id) handler keeps store = keeps id store
after_check-Keeps (refused refusal) handler keeps store = Keeps-refl store.sessions

pub behind_admin-Keeps :
    (server : Server) (now : ℕ) (request : Request) (handler : Text → Store → Store)
    → ((id : Text) (s : Store) → Keeps s.sessions (handler id s).sessions)
    → (store : Store)
    → Keeps store.sessions (behind_admin server now request handler store).1.sessions
unfolding behind_admin
behind_admin-Keeps server now request handler keeps store =
    Keeps-trans store.sessions _ _ (require_admin-Keeps server now request store.sessions)
      (after_check-Keeps _ handler keeps _)

pub logout_session-Keeps :
    (server : Server) (now : ℕ) (request : Request) (store : Store)
    → Keeps store.sessions (logout_session server now request store).sessions
unfolding logout_session
logout_session-Keeps server now request store =
    elim (Option-cases (present (get_session_id server request))) [
      | inl e ↦ rw (logout_session, e) (Keeps-refl store.sessions)
      | inr (id, e) ↦ rw (logout_session, e) (Keeps-revoke_session id now store.sessions)
    ]

pub replace_pin-Keeps :
    (server : Server) (now : ℕ) (salt current_pin pin id : Text) (store : Store)
    → Keeps store.sessions (replace_pin server now salt current_pin pin id store).1.sessions
unfolding replace_pin
replace_pin-Keeps server now salt current_pin pin id store =
    elim (Bool-cases (not (is_four_digits server pin))) [
      | inl e ↦ rw (replace_pin, e) (Keeps-refl store.sessions)
      | inr e ↦ elim (Option-cases store.pin_hash) [
        | inl f ↦ rw (replace_pin, e, f) (Keeps-refl store.sessions)
        | inr (hashed, f) ↦ elim (Bool-cases (verify_pin server current_pin hashed)) [
          | inl g ↦ rw (replace_pin, e, f, g) (Keeps-revoke_all id now store.sessions)
          | inr g ↦ rw (replace_pin, e, f, g) (Keeps-refl store.sessions)
        ]
      ]
    ]
