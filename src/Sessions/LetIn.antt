-- ===== src/Sessions/LetIn.antt =====
-- Whom `require_admin` (gruvax/api/deps.py) lets in.
use gruvax.Base.{
  ℕ, ◌≡◌, ◌↔◌, refl, subst, arith, Bool, true, none, some, Text, Option-cases, inl, inr,
}
use gruvax.Sessions.{
  AdminSession, Table, Server, Request, admitted, find_session, row_check, is_session_valid,
  check_session, require_admin, get_session_id, present, csrf_check,
}

abbrev pub is_valid : ℕ → AdminSession → Bool
is_valid now s = is_session_valid now s.expires_at s.hard_expires_at s.revoked_at

-- The request carries the id of a session, passes the CSRF check, and the session's row is valid.
pub record IsLetIn (server : Server) (now : ℕ) (request : Request) (t : Table) (id : Text)
    : Type 0 where
  pub session_id : present (get_session_id server request) ≡ some id
  pub csrf_passed : csrf_check request ≡ none
  pub row : AdminSession
  pub found : find_session id t ≡ some row
  pub valid : is_valid now row ≡ true

row_check-is_valid : (now : ℕ) (s : AdminSession) → row_check now s ≡ none → is_valid now s ≡ true
unfolding row_check is_session_valid
row_check-is_valid now s e = elim (Option-cases s.revoked_at) [
  | inl h ↦ ground (arith, e, h)
  | inr (t, h) ↦ ground (arith, e, h)
]

is_valid-row_check : (now : ℕ) (s : AdminSession) → is_valid now s ≡ true → row_check now s ≡ none
unfolding row_check is_session_valid
is_valid-row_check now s e = elim (Option-cases s.revoked_at) [
  | inl h ↦ ground (arith, e, h)
  | inr (t, h) ↦ ground (arith, e, h)
]

check_session-IsLetIn :
    (server : Server) (now : ℕ) (id key : Text) (t : Table)
    → (check_session server now id t).0 ≡ admitted key
    → (id ≡ key) × ((s : AdminSession) × (find_session id t ≡ some s) × (is_valid now s ≡ true))
unfolding check_session
check_session-IsLetIn server now id key t e = elim (Option-cases (find_session id t)) [
  | inl f ↦ absurd (ground (arith, (rw (check_session, f) at e)))
  | inr (s, f) ↦ elim (Option-cases (row_check now s)) [
    | inl g ↦ (ground (arith, (rw (check_session, f, g) at e)), (s, f, row_check-is_valid now s g))
    | inr (r, g) ↦ absurd (ground (arith, (rw (check_session, f, g) at e)))
  ]
]

check_session_admits :
    (server : Server) (now : ℕ) (id : Text) (t : Table) (s : AdminSession)
    → find_session id t ≡ some s
    → is_valid now s ≡ true
    → (check_session server now id t).0 ≡ admitted id
unfolding check_session
check_session_admits server now id t s f v = rw (check_session, f, is_valid-row_check now s v) refl

admitted-IsLetIn :
    (server : Server) (now : ℕ) (request : Request) (t : Table) (key : Text)
    → (require_admin server now request t).0 ≡ admitted key
    → IsLetIn server now request t key
unfolding require_admin
admitted-IsLetIn server now request t key e =
    elim (Option-cases (present (get_session_id server request))) [
      | inl f ↦ absurd (ground (arith, (rw (require_admin, f) at e)))
      | inr (id, f) ↦ elim (Option-cases (csrf_check request)) [
        | inl g ↦
            let (same, (s, found, valid)) =
              check_session-IsLetIn server now id key t (rw (require_admin, f, g) at e) in
            record {
              session_id =
                  subst (λ (k : Text). present (get_session_id server request) ≡ some k) same f;
              csrf_passed = g;
              row = s;
              found = subst (λ (k : Text). find_session k t ≡ some s) same found;
              valid = valid;
            }
        | inr (r, g) ↦ absurd (ground (arith, (rw (require_admin, f, g) at e)))
      ]
    ]

-- `require_admin` admits a session id exactly where the signed cookie carries it, the CSRF check
-- passes, and `is_session_valid` holds of the row that the table has for it.
pub require_admin-IsLetIn :
    (server : Server) (now : ℕ) (request : Request) (t : Table) (id : Text)
    → ((require_admin server now request t).0 ≡ admitted id) ↔ IsLetIn server now request t id
unfolding require_admin
require_admin-IsLetIn server now request t id = (
  admitted-IsLetIn server now request t id,
  λ h.
      rw (require_admin, h.session_id, h.csrf_passed)
        (check_session_admits server now id t h.row h.found h.valid),
)
