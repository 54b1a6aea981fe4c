-- ===== src/Sessions/Capped.antt =====
-- The last check of `require_admin` (gruvax/api/deps.py), of the hard cap.
use gruvax.Base.{ℕ, ◌≡◌, ◌≢◌, ap, ◌∙◌, arith, some, [], Text, Option-cases, inl, inr}
use gruvax.Sessions.{
  AdminSession, Table, Server, Request, refused, hard_cap_exceeded, find_session, row_check,
  check_session, require_admin, get_session_id, present, csrf_check,
}
use gruvax.Sessions.Keeps.{IsCapped}
use gruvax.Sessions.Handlers.{Store}
use gruvax.Sessions.History.{History, History-Keeps}

csrf_check-other : (request : Request) → csrf_check request ≢ some hard_cap_exceeded
unfolding csrf_check
csrf_check-other request e = ground (arith, e)

row_check-capped :
    (now : ℕ) (s : AdminSession) → IsCapped s → row_check now s ≢ some hard_cap_exceeded
unfolding row_check
row_check-capped now s capped e = ground (arith, capped, e)

find_session-IsCapped :
    (before later : ℕ) (old store : Store)
    → old.sessions ≡ []
    → History before old later store
    → (id : Text) (s : AdminSession) → find_session id store.sessions ≡ some s
    → IsCapped s
unfolding find_session
find_session-IsCapped before later old store none_yet h id s found =
    elim ((History-Keeps before later old store h).backward id s found) [
      | inl capped ↦ capped
      | inr (r, old_found, _) ↦ absurd (ground (arith, none_yet, old_found))
    ]

check_session-capped :
    (server : Server) (now : ℕ) (id : Text) (t : Table)
    → ((s : AdminSession) → find_session id t ≡ some s → IsCapped s)
    → (check_session server now id t).0 ≢ refused hard_cap_exceeded
unfolding check_session
check_session-capped server now id t capped e = elim (Option-cases (find_session id t)) [
  | inl f ↦ ground (arith, (rw (check_session, f) at e))
  | inr (s, f) ↦ elim (Option-cases (row_check now s)) [
    | inl g ↦ ground (arith, (rw (check_session, f, g) at e))
    | inr (r, g) ↦
        row_check-capped now s (capped s f)
          (g ∙ ap some (ground (arith, (rw (check_session, f, g) at e))))
  ]
]

-- Where the first session was made by a login, the refusal for an exceeded hard cap never occurs: the
-- sliding expiry is never after the cap, and is checked first.
pub hard_cap_unreached :
    (server : Server) (before later now : ℕ) (old store : Store) (request : Request)
    → old.sessions ≡ []
    → History before old later store
    → (require_admin server now request store.sessions).0 ≢ refused hard_cap_exceeded
unfolding require_admin
hard_cap_unreached server before later now old store request none_yet h e =
    elim (Option-cases (present (get_session_id server request))) [
      | inl f ↦ ground (arith, (rw (require_admin, f) at e))
      | inr (id, f) ↦ elim (Option-cases (csrf_check request)) [
        | inl g ↦
            check_session-capped server now id store.sessions
              (find_session-IsCapped before later old store none_yet h id)
              (rw (require_admin, f, g) at e)
        | inr (r, g) ↦
            csrf_check-other request (g ∙ ap some (ground (arith, (rw (require_admin, f, g) at e))))
      ]
    ]
