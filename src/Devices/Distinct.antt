-- ===== src/Devices/Distinct.antt =====
-- Rows of gruvax.devices of which no two have the same fingerprint, and the statements that keep it so.
use gruvax.Base.{
  ℕ, ◌≡◌, refl, Bool, true, false, not, ◌&&◌, List, [], ◌∷◌, ◌++◌, Text, text_eq, text_eq_refl,
  text_eq_sound, any, keep, arith, subst, Bool-cases, inl, inr,
}
use gruvax.Devices.{Device, update, is_active, has_fingerprint, one_active}
use gruvax.Devices.Bind.{is_active_for, rebind}

-- No row from here on has the fingerprint.
abbrev pub is_free : Text → List Device → Bool
is_free fp rows = not (any (has_fingerprint fp) rows)

unfoldable pub is_distinct : List Device → Bool
is_distinct [] = true
is_distinct (d ∷ rows) = is_distinct rows && is_free d.fingerprint rows

abbrev pub IsDistinct : List Device → Type 0
IsDistinct rows = is_distinct rows ≡ true

module _ (p : Device → Bool) (f : Device → Device)
    (keeps : (d : Device) → (f d).fingerprint ≡ d.fingerprint) where
  any-update :
      (fp : Text) (rows : List Device)
      → any (has_fingerprint fp) (update p f rows) ≡ any (has_fingerprint fp) rows
  any-update fp [] = refl
  any-update fp (d ∷ rows) = elim (Bool-cases (p d)) [
    | inl e ↦ rw (e, keeps d, any-update fp rows) refl
    | inr e ↦ rw (e, any-update fp rows) refl
  ]

  -- An UPDATE that leaves fingerprints alone.
  pub update-IsDistinct : (rows : List Device) → is_distinct (update p f rows) ≡ is_distinct rows
  unfolding is_distinct
  update-IsDistinct [] = refl
  update-IsDistinct (d ∷ rows) = elim (Bool-cases (p d)) [
    | inl e ↦ rw (e, keeps d, update-IsDistinct rows, any-update d.fingerprint rows) refl
    | inr e ↦ rw (e, update-IsDistinct rows, any-update d.fingerprint rows) refl
  ]

pub text_eq_comm : (a b : Text) → text_eq a b ≡ false → text_eq b a ≡ false
text_eq_comm a b h = elim (Bool-cases (text_eq b a)) [
  | inl e ↦ ground (
    arith,
    text_eq_sound b a e,
    text_eq_refl b,
    subst (λ c. text_eq c b ≡ true) (text_eq_sound b a e) (text_eq_refl b),
  )
  | inr e ↦ e
]

free-keep :
    (p : Device → Bool) (fp : Text) (rows : List Device)
    → is_free fp rows ≡ true
    → is_free fp (keep p rows) ≡ true
free-keep p fp [] h = refl
free-keep p fp (d ∷ rows) h = ground (arith, free-keep p fp rows)

pub keep-IsDistinct :
    (p : Device → Bool) (rows : List Device) → IsDistinct rows → IsDistinct (keep p rows)
unfolding is_distinct
keep-IsDistinct p [] h = refl
keep-IsDistinct p (d ∷ rows) h =
    ground (arith, keep-IsDistinct p rows, free-keep p d.fingerprint rows)

free-append :
    (fp : Text) (d : Device) (rows : List Device)
    → is_free fp rows ≡ true
    → text_eq d.fingerprint fp ≡ false
    → is_free fp (rows ++ d ∷ []) ≡ true
free-append fp d [] h k = ground arith
free-append fp d (e ∷ rows) h k = ground (arith, free-append fp d rows)

pub append-IsDistinct :
    (d : Device) (rows : List Device)
    → IsDistinct rows
    → is_free d.fingerprint rows ≡ true
    → IsDistinct (rows ++ d ∷ [])
unfolding is_distinct
append-IsDistinct d [] h k = refl
append-IsDistinct d (e ∷ rows) h k = ground (
  arith,
  append-IsDistinct d rows,
  free-append e.fingerprint d rows,
  text_eq_comm e.fingerprint d.fingerprint,
)

module _ (profile_id : ℕ) (name fp : Text) where
  abbrev pub rebound : List Device → List Device
  rebound rows = update (is_active_for profile_id) (rebind name fp) rows

  -- Other fingerprints stay free.
  free-rebound :
      (other : Text) (rows : List Device)
      → text_eq fp other ≡ false
      → is_free other rows ≡ true
      → is_free other (rebound rows) ≡ true
  free-rebound other [] h k = refl
  free-rebound other (d ∷ rows) h k = elim (Bool-cases (is_active_for profile_id d)) [
    | inl e ↦ ground (arith, e, free-rebound other rows)
    | inr e ↦ ground (arith, e, free-rebound other rows)
  ]

  -- The index lets no other row have the new fingerprint.
  free-indexed :
      (rows : List Device)
      → is_free fp rows ≡ true
      → any (λ e. is_active e && text_eq e.fingerprint fp) (rebound rows) ≡ false
      → is_free fp (rebound rows) ≡ true
  free-indexed [] h k = refl
  free-indexed (d ∷ rows) h k = elim (Bool-cases (is_active_for profile_id d)) [
    | inl e ↦ ground (arith, e, free-indexed rows, text_eq_refl fp)
    | inr e ↦ ground (arith, e, free-indexed rows)
  ]

  pub rebound-IsDistinct :
      (rows : List Device)
      → IsDistinct rows
      → is_free fp rows ≡ true
      → one_active (rebound rows) ≡ true
      → IsDistinct (rebound rows)
  unfolding is_distinct one_active
  rebound-IsDistinct [] h k l = refl
  rebound-IsDistinct (d ∷ rows) h k l = elim (Bool-cases (is_active_for profile_id d)) [
    | inl e ↦ ground (arith, e, rebound-IsDistinct rows, free-indexed rows)
    | inr e ↦ ground (
      arith,
      e,
      rebound-IsDistinct rows,
      free-rebound d.fingerprint rows,
      text_eq_comm d.fingerprint fp,
    )
  ]
