-- ===== src/Sessions/Keeps.antt =====
-- What a change of the session table keeps of each row that a request can find.
use mathlib.Core.Option.{some-injective}
use gruvax.Base.{
  ℕ, ◌≤◌, ◌≡◌, ◌⊎◌, refl, sym, subst, ◌∙◌, arith, true, false, ◌&&◌, not, some, [], ◌∷◌, ◌++◌, map,
  Text, text_eq, text_eq_sound, Bool-cases, inl, inr,
}
use gruvax.Sessions.{
  AdminSession, Table, find_session, is_open, revoked_if, revoked_unless, touched_if,
  revoke_session, revoke_all_sessions_except, touch,
}

-- What a row keeps: its hard cap, a revocation, and an expiry within the cap.
pub record IsLater (s s' : AdminSession) : Type 0 where
  pub same_cap : s'.hard_expires_at ≡ s.hard_expires_at
  pub stays_revoked : is_open s.revoked_at ≡ false → is_open s'.revoked_at ≡ false
  pub stays_capped : s.expires_at ≤ s.hard_expires_at → s'.expires_at ≤ s'.hard_expires_at

abbrev pub IsCapped : AdminSession → Type 0
IsCapped s = s.expires_at ≤ s.hard_expires_at

-- Every row that is found in the old table is found in the new one, later.
abbrev pub Forward : Table → Table → Type 0
Forward old table =
    (id : Text) (s : AdminSession)
    → find_session id old ≡ some s
    → (s' : AdminSession) × (find_session id table ≡ some s') × IsLater s s'

-- Every row that is found in the new table comes from the old one, or its expiry is within its cap.
abbrev pub Backward : Table → Table → Type 0
Backward old table =
    (id : Text) (s' : AdminSession)
    → find_session id table ≡ some s'
    → IsCapped s' ⊎ ((s : AdminSession) × (find_session id old ≡ some s) × IsLater s s')

pub record Keeps (old table : Table) : Type 0 where
  pub forward : Forward old table
  pub backward : Backward old table

IsLater-refl : (s : AdminSession) → IsLater s s
IsLater-refl s = record { same_cap = refl; stays_revoked = λ h. h; stays_capped = λ h. h }

IsLater-trans : (a b c : AdminSession) → IsLater a b → IsLater b c → IsLater a c
IsLater-trans a b c h k = record {
  same_cap = k.same_cap ∙ h.same_cap;
  stays_revoked = λ r. k.stays_revoked (h.stays_revoked r);
  stays_capped = λ r. k.stays_capped (h.stays_capped r);
}

pub Keeps-refl : (t : Table) → Keeps t t
Keeps-refl t = record {
  forward = λ id s e. (s, e, IsLater-refl s);
  backward = λ id s e. inr (s, e, IsLater-refl s);
}

Backward-trans : (t u v : Table) → Backward t u → Backward u v → Backward t v
Backward-trans t u v h k id s'' e = elim (k id s'' e) [
  | inl capped ↦ inl capped
  | inr (s', e', last) ↦ elim (h id s' e') [
    | inl capped ↦ inl (last.stays_capped capped)
    | inr (s, e, later) ↦ inr (s, e, IsLater-trans s s' s'' later last)
  ]
]

pub Keeps-trans : (t u v : Table) → Keeps t u → Keeps u v → Keeps t v
Keeps-trans t u v h k = record {
  forward = λ id s e.
      (let (s', e', later) = h.forward id s e in
        let (s'', e'', last) = k.forward id s' e' in (s'', e'', IsLater-trans s s' s'' later last));
  backward = Backward-trans t u v h.backward k.backward;
}

pub find_session-id :
    (id : Text) (t : Table) (s : AdminSession) → find_session id t ≡ some s → s.id ≡ id
unfolding find_session
find_session-id id [] s e = ground arith
find_session-id id (r ∷ t) s e = ground (arith, find_session-id id t s, text_eq_sound r.id id)

find_session-append :
    (id : Text) (t : Table) (r s : AdminSession)
    → find_session id t ≡ some s
    → find_session id (t ++ r ∷ []) ≡ some s
unfolding find_session
find_session-append id [] r s e = ground arith
find_session-append id (x ∷ t) r s e = ground (arith, find_session-append id t r s)

find_session-append_inv :
    (id : Text) (t : Table) (r s : AdminSession)
    → find_session id (t ++ r ∷ []) ≡ some s
    → (r ≡ s) ⊎ (find_session id t ≡ some s)
unfolding find_session
find_session-append_inv id [] r s e = ground arith
find_session-append_inv id (x ∷ t) r s e = ground (arith, find_session-append_inv id t r s)

-- A new row hides no row.
pub Keeps-append : (t : Table) (r : AdminSession) → IsCapped r → Keeps t (t ++ r ∷ [])
Keeps-append t r capped = record {
  forward = λ id s e. (s, find_session-append id t r s e, IsLater-refl s);
  backward = λ id s e. elim (find_session-append_inv id t r s e) [
    | inl same ↦ inl (subst IsCapped same capped)
    | inr old ↦ inr (s, old, IsLater-refl s)
  ];
}

module _ (f : AdminSession → AdminSession) (same : (r : AdminSession) → (f r).id ≡ r.id) where
  pub find_session-map :
      (id : Text) (t : Table) (s : AdminSession)
      → find_session id t ≡ some s
      → find_session id (map f t) ≡ some (f s)
  unfolding find_session
  find_session-map id [] s e = ground arith
  find_session-map id (r ∷ t) s e = ground (arith, find_session-map id t s, same r)

  find_session-map_inv :
      (id : Text) (t : Table) (s' : AdminSession)
      → find_session id (map f t) ≡ some s'
      → (s : AdminSession) × (find_session id t ≡ some s) × (f s ≡ s')
  unfolding find_session
  find_session-map_inv id [] s' e = ground arith
  find_session-map_inv id (r ∷ t) s' e = elim (Bool-cases (text_eq (f r).id id)) [
    | inl h ↦
        let old : text_eq r.id id ≡ true = subst (λ (k : Text). text_eq k id ≡ true) (same r) h in
        (r, rw old refl, some-injective (f r) s' (rw h at e))
    | inr h ↦
        let old : text_eq r.id id ≡ false = subst (λ (k : Text). text_eq k id ≡ false) (same r) h in
        let (s, found, from) = find_session-map_inv id t s' (rw h at e) in (s, rw old found, from)
  ]

  -- An update of each row that keeps the ids.
  Keeps-map :
      (t : Table)
      → ((id : Text) (r : AdminSession) → find_session id t ≡ some r → IsLater r (f r))
      → Keeps t (map f t)
  Keeps-map t later = record {
    forward = λ id s e. (f s, find_session-map id t s e, later id s e);
    backward = λ id s' e.
        (let (s, found, from) = find_session-map_inv id t s' e in
          inr (s, found, subst (IsLater s) from (later id s found)));
  }

revoked_if-IsLater : (id : Text) (now : ℕ) (s : AdminSession) → IsLater s (revoked_if id now s)
revoked_if-IsLater id now s = elim (Bool-cases (text_eq s.id id)) [
  | inl e ↦ rw e (record { same_cap = refl; stays_revoked = λ h. refl; stays_capped = λ h. h })
  | inr e ↦ rw e (IsLater-refl s)
]

revoked_unless-IsLater :
    (id : Text) (now : ℕ) (s : AdminSession) → IsLater s (revoked_unless id now s)
revoked_unless-IsLater id now s =
    elim (Bool-cases (is_open s.revoked_at && not (text_eq s.id id))) [
      | inl e ↦ rw e (record { same_cap = refl; stays_revoked = λ h. refl; stays_capped = λ h. h })
      | inr e ↦ rw e (IsLater-refl s)
    ]

pub Keeps-revoke_session : (id : Text) (now : ℕ) (t : Table) → Keeps t (revoke_session id now t)
unfolding revoke_session
Keeps-revoke_session id now t =
    Keeps-map (revoked_if id now) (λ r. ground arith) t (λ _ r _. revoked_if-IsLater id now r)

pub Keeps-revoke_all :
    (id : Text) (now : ℕ) (t : Table) → Keeps t (revoke_all_sessions_except id now t)
unfolding revoke_all_sessions_except
Keeps-revoke_all id now t =
    Keeps-map (revoked_unless id now) (λ r. ground arith) t
      (λ _ r _. revoked_unless-IsLater id now r)

touched_if-IsLater :
    (id : Text) (now expires_at : ℕ) (s : AdminSession)
    → (text_eq s.id id ≡ true → expires_at ≤ s.hard_expires_at)
    → IsLater s (touched_if id now expires_at s)
touched_if-IsLater id now expires_at s capped = elim (Bool-cases (text_eq s.id id)) [
  | inl e ↦ rw e (record { same_cap = refl; stays_revoked = λ h. h; stays_capped = λ _. capped e })
  | inr e ↦ rw e (IsLater-refl s)
]

-- The new end of the window is within the cap of the row that was found.
pub Keeps-touch :
    (id : Text) (now expires_at : ℕ) (t : Table) (s : AdminSession)
    → find_session id t ≡ some s
    → expires_at ≤ s.hard_expires_at
    → Keeps t (touch id now expires_at t)
unfolding touch
Keeps-touch id now expires_at t s found capped =
    Keeps-map (touched_if id now expires_at) (λ r. ground arith) t
      (λ key r e. touched_if-IsLater id now expires_at r (λ same. within key r e same))
  where
    within :
        (key : Text) (r : AdminSession)
        → find_session key t ≡ some r
        → text_eq r.id id ≡ true
        → expires_at ≤ r.hard_expires_at
    within key r e same =
        let key_is : key ≡ id = sym (find_session-id key t r e) ∙ text_eq_sound r.id id same in
        let found_r : find_session id t ≡ some r =
          subst (λ (k : Text). find_session k t ≡ some r) key_is e in
        let row_is : s ≡ r = some-injective s r (sym found ∙ found_r) in
        subst (λ (x : AdminSession). expires_at ≤ x.hard_expires_at) row_is capped
