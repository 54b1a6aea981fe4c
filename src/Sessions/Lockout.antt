-- ===== src/Sessions/Lockout.antt =====
-- Sessions that no later request is admitted for, over any history of the handlers.
use mathlib.Core.Option.{some-injective}
use gruvax.Base.{
  ℕ, ◌<◌, ◌≡◌, ◌≢◌, refl, sym, ap, subst, ◌∙◌, arith, true, false, ◌&&◌, not, some, Text, text_eq,
  text_eq_refl, text_eq_sound, Bool-cases, Option-cases, inl, inr,
}
use gruvax.Sessions.{
  AdminSession, Server, Request, Access, admitted, refused, find_session, is_session_valid,
  require_admin, get_session_id, present, is_open, revoke_session, revoke_all_sessions_except,
  revoked_if, revoked_unless,
}
use gruvax.Sessions.Keeps.{IsLater, find_session-id, find_session-map}
use gruvax.Sessions.Handlers.{
  Store, logout, behind_admin, after_check, logout_session, replace_pin, verify_pin, is_four_digits,
}
use gruvax.Sessions.Handlers.Keeping.{require_admin-Keeps}
use gruvax.Sessions.History.{History, History-Keeps}
use gruvax.Sessions.LetIn.{is_valid, require_admin-IsLetIn}

-- The later row of a row that was found once decides whether its id is let in.
module _ {before later : ℕ} {old store : Store} (h : History before old later store) where
  admitted_row :
      (server : Server) (now : ℕ) (request : Request) (id : Text) (s : AdminSession)
      → find_session id old.sessions ≡ some s
      → (require_admin server now request store.sessions).0 ≡ admitted id
      → (s' : AdminSession) × IsLater s s' × (is_valid now s' ≡ true)
  admitted_row server now request id s found let_in =
      let access = (require_admin-IsLetIn server now request store.sessions id).0 let_in in
      let (s', found', s_later) = (History-Keeps before later old store h).forward id s found in
      let same : access.row ≡ s' = some-injective access.row s' (sym access.found ∙ found') in
      (s', s_later, subst (λ (r : AdminSession). is_valid now r ≡ true) same access.valid)

  -- After a session's hard cap has passed, no request is admitted with its id: no history of logins,
  -- visits, PIN changes and changed settings moves the cap.
  pub hard_cap_final :
      (server : Server) (now : ℕ) (request : Request) (id : Text) (s : AdminSession)
      → find_session id old.sessions ≡ some s
      → s.hard_expires_at < now
      → (require_admin server now request store.sessions).0 ≢ admitted id
  unfolding is_session_valid
  hard_cap_final server now request id s found past let_in =
      let (s', s_later, valid) = admitted_row server now request id s found let_in in
      ground (arith, past, s_later.same_cap, valid)

  revoked_final :
      (server : Server) (now : ℕ) (request : Request) (id : Text) (s : AdminSession)
      → find_session id old.sessions ≡ some s
      → is_open s.revoked_at ≡ false
      → (require_admin server now request store.sessions).0 ≢ admitted id
  unfolding is_session_valid
  revoked_final server now request id s found revoked let_in =
      let (s', s_later, valid) = admitted_row server now request id s found let_in in
      let still : is_open s'.revoked_at ≡ false = s_later.stays_revoked revoked in
      ground (arith, still, valid)

revoked_unless-revokes :
    (current id : Text) (now : ℕ) (s : AdminSession)
    → s.id ≡ id
    → id ≢ current
    → is_open (revoked_unless current now s).revoked_at ≡ false
revoked_unless-revokes current id now s same other =
    elim (Bool-cases (is_open s.revoked_at && not (text_eq s.id current))) [
      | inl e ↦ rw e refl
      | inr e ↦ elim (Bool-cases (text_eq s.id current)) [
        | inl f ↦ absurd (other (sym same ∙ text_eq_sound s.id current f))
        | inr f ↦ rw e (ground (arith, e, f))
      ]
    ]

replaced-sessions :
    (server : Server) (t : ℕ) (salt current_pin pin id : Text) (store : Store)
    → (replace_pin server t salt current_pin pin id store).0 ≡ true
    → (replace_pin server t salt current_pin pin id store).1.sessions
      ≡ revoke_all_sessions_except id t store.sessions
unfolding replace_pin
replaced-sessions server t salt current_pin pin id store e =
    elim (Bool-cases (not (is_four_digits server pin))) [
      | inl f ↦ absurd (ground (arith, (rw (replace_pin, f) at e)))
      | inr f ↦ elim (Option-cases store.pin_hash) [
        | inl g ↦ absurd (ground (arith, (rw (replace_pin, f, g) at e)))
        | inr (hashed, g) ↦ elim (Bool-cases (verify_pin server current_pin hashed)) [
          | inl k ↦ rw (replace_pin, f, g, k) refl
          | inr k ↦ absurd (ground (arith, (rw (replace_pin, f, g, k) at e)))
        ]
      ]
    ]

-- Once the PIN is changed, no request is admitted ever again with the id of another session that was
-- in the table.
pub replace_pin_locks_out :
    (server server' : Server) (t later now : ℕ) (salt current_pin pin current id : Text)
    (store after : Store) (s : AdminSession) (request : Request)
    → (replace_pin server t salt current_pin pin current store).0 ≡ true
    → find_session id store.sessions ≡ some s
    → id ≢ current
    → History t (replace_pin server t salt current_pin pin current store).1 later after
    → (require_admin server' now request after.sessions).0 ≢ admitted id
unfolding revoke_all_sessions_except
replace_pin_locks_out server server' t later now salt current_pin pin current id store after s
      request changed found other h =
    revoked_final h server' now request id (revoked_unless current t s)
      (rw (replaced-sessions server t salt current_pin pin current store changed)
        (find_session-map (revoked_unless current t) (λ r. ground arith) id store.sessions s found))
      (revoked_unless-revokes current id t s (find_session-id id store.sessions s found) other)

after_check-admitted :
    (access : Access) (handler : Text → Store → Store) (store : Store) (id : Text)
    → (after_check access handler store).0 ≡ admitted id
    → (access ≡ admitted id) × ((after_check access handler store).1 ≡ handler id store)
unfolding after_check
after_check-admitted (refused r) handler store id e = absurd (ground (arith, e))
after_check-admitted (admitted key) handler store id e =
    let same : key ≡ id = ground (arith, e) in (e, ap (λ (k : Text). handler k store) same)

revoked_if-revokes :
    (id : Text) (now : ℕ) (s : AdminSession)
    → s.id ≡ id
    → is_open (revoked_if id now s).revoked_at ≡ false
revoked_if-revokes id now s same =
    let found : text_eq s.id id ≡ true =
      subst (λ (k : Text). text_eq s.id k ≡ true) same (text_eq_refl s.id) in
    rw found refl

logout_session-sessions :
    (server : Server) (now : ℕ) (request : Request) (id : Text) (store : Store)
    → present (get_session_id server request) ≡ some id
    → (logout_session server now request store).sessions ≡ revoke_session id now store.sessions
unfolding logout_session
logout_session-sessions server now request id store e = rw (logout_session, e) refl

logged_out :
    (server : Server) (t : ℕ) (request : Request) (id : Text) (store : Store)
    → (logout server t request store).0 ≡ admitted id
    → (s : AdminSession) × (find_session id (logout server t request store).1.sessions ≡ some s)
      × (is_open s.revoked_at ≡ false)
unfolding logout behind_admin revoke_session
logged_out server t request id store e =
    let (let_in, handled) = after_check-admitted _ (λ _. logout_session server t request) _ id e in
    let access = (require_admin-IsLetIn server t request store.sessions id).0 let_in in
    let (s, found, _) =
      (require_admin-Keeps server t request store.sessions).forward id access.row access.found in
    let revoked : (logout server t request store).1.sessions
        ≡ revoke_session id t (require_admin server t request store.sessions).1 =
      ap (λ (x : Store). x.sessions) handled
      ∙ logout_session-sessions server t request id _ access.session_id in
    (
      revoked_if id t s,
      ap (find_session id) revoked
          ∙ find_session-map (revoked_if id t) (λ r. ground arith) id _ s found,
      revoked_if-revokes id t s (find_session-id id _ s found),
    )

-- Once a session has logged out, no request is admitted ever again with its id.
pub logout_final :
    (server server' : Server) (t later now : ℕ) (request again : Request) (id : Text)
    (store after : Store)
    → (logout server t request store).0 ≡ admitted id
    → History t (logout server t request store).1 later after
    → (require_admin server' now again after.sessions).0 ≢ admitted id
logout_final server server' t later now request again id store after e h =
    let (s, found, revoked) = logged_out server t request id store e in
    revoked_final h server' now again id s found revoked
