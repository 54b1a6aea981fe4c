-- ===== src/Editing/Validation/Occurrences.antt =====
-- Where a key occurs in a sequence, and whether a list of positions has a gap.
use mathlib.Core.Option.{some-injective}
use gruvax.Base.{
  ◌≡◌, refl, ap, subst, inl, inr, ℕ, zero, suc, ◌+◌, ◌≤◌, ◌<◌, Bool, true, false, some, List, [],
  ◌∷◌, ◌==◌, arith, if◌then◌else◌, Bool-cases, Text, text_eq, text_eq_refl, text_eq_sound,
  get_elem?, All, In,
}
use gruvax.Editing.Validation.{member, last_of, has_gap}

-- The positions of a key, counted from `i`.
unfoldable pub occurrences : Text → ℕ → List Text → List ℕ
occurrences a i [] = []
occurrences a i (k ∷ ks) =
    let rest = occurrences a (suc i) ks in if text_eq k a then i ∷ rest else rest

pub get-occurrences :
    (a : Text) (i j : ℕ) (ks : List Text)
    → get_elem? ks j ≡ some a
    → In (i + j) (occurrences a i ks)
unfolding occurrences
get-occurrences a i j [] h = ground arith
get-occurrences a i zero (k ∷ ks) h =
    let same : k ≡ a = some-injective k a h in rw (same, text_eq_refl a) (inl (omega arith))
get-occurrences a i (suc j) (k ∷ ks) h =
    let later = get-occurrences a (suc i) j ks h in
    let here : In (i + suc j) (occurrences a (suc i) ks) =
      subst (λ n. In n (occurrences a (suc i) ks)) (omega arith) later in
    elim (Bool-cases (text_eq k a)) [ inl e ↦ rw e (inr here) | inr e ↦ rw e here ]

pub occurrences-get :
    (a : Text) (i m : ℕ) (ks : List Text)
    → In m (occurrences a i ks)
    → (j : ℕ) × (m ≡ i + j) × (get_elem? ks j ≡ some a)
unfolding occurrences
occurrences-get a i m [] h = absurd h
occurrences-get a i m (k ∷ ks) h = found (text_eq k a) refl h (occurrences-get a (suc i) m ks)
  where
    later :
        (j : ℕ) × (m ≡ suc i + j) × (get_elem? ks j ≡ some a)
        → (j : ℕ) × (m ≡ i + j) × (get_elem? (k ∷ ks) j ≡ some a)
    later (j, e, g) = (suc j, omega (arith, e), g)

    found :
        (b : Bool)
        → text_eq k a ≡ b
        → In m (if b then i ∷ occurrences a (suc i) ks else occurrences a (suc i) ks)
        → (In m (occurrences a (suc i) ks) → (j : ℕ) × (m ≡ suc i + j) × (get_elem? ks j ≡ some a))
        → (j : ℕ) × (m ≡ i + j) × (get_elem? (k ∷ ks) j ≡ some a)
    found true e (inl here) again = (0, omega (arith, here), ap some (text_eq_sound k a e))
    found true e (inr h) again = later (again h)
    found false e h again = later (again h)

abbrev pub Above : ℕ → List ℕ → Type 0
Above i = All (λ m. i ≤ m)

abbrev pub IsAscending : List ℕ → Type 0
IsAscending [] = Unit
IsAscending (m ∷ ms) = Above m ms × IsAscending ms

Above-weaken : (i j : ℕ) (ms : List ℕ) → i ≤ j → Above j ms → Above i ms
Above-weaken i j [] h a = tt
Above-weaken i j (m ∷ ms) h a = (omega (arith, a.0), Above-weaken i j ms h a.1)

occurrences-Above : (a : Text) (i : ℕ) (ks : List Text) → Above i (occurrences a i ks)
unfolding occurrences
occurrences-Above a i [] = tt
occurrences-Above a i (k ∷ ks) =
    let later = Above-weaken i (suc i) _ (omega arith) (occurrences-Above a (suc i) ks) in
    elim (Bool-cases (text_eq k a)) [ inl e ↦ rw e (omega arith, later) | inr e ↦ rw e later ]

pub occurrences-IsAscending : (a : Text) (i : ℕ) (ks : List Text) → IsAscending (occurrences a i ks)
unfolding occurrences
occurrences-IsAscending a i [] = tt
occurrences-IsAscending a i (k ∷ ks) = elim (Bool-cases (text_eq k a)) [
  | inl e ↦ rw e (
    Above-weaken i (suc i) _ (omega arith) (occurrences-Above a (suc i) ks),
    occurrences-IsAscending a (suc i) ks,
  )
  | inr e ↦ rw e (occurrences-IsAscending a (suc i) ks)
]

pub last_of-In : (m : ℕ) (ms : List ℕ) → In (last_of m ms) (m ∷ ms)
last_of-In m [] = inl refl
last_of-In m (n ∷ ms) = inr (last_of-In n ms)

pub last_of-max : (m x : ℕ) (ms : List ℕ) → IsAscending (m ∷ ms) → In x (m ∷ ms) → x ≤ last_of m ms
last_of-max m x [] a (inl e) = omega (arith, e)
last_of-max m x [] a (inr h) = absurd h
last_of-max m x (n ∷ ms) a (inl e) =
    let above = last_of-max n n ms a.1 (inl refl) in omega (arith, e, above, a.0.0)
last_of-max m x (n ∷ ms) a (inr h) = last_of-max n x ms a.1 h

member-In : (x : ℕ) (ms : List ℕ) → member x ms ≡ true → In x ms
member-In x [] h = ground arith
member-In x (m ∷ ms) h = elim (Bool-cases (m == x)) [
  | inl e ↦ inl (ground (arith, e))
  | inr e ↦ inr (member-In x ms (rw e at h))
]

In-member : (x : ℕ) (ms : List ℕ) → In x ms → member x ms ≡ true
In-member x [] h = absurd h
In-member x (m ∷ ms) (inl e) = ground (arith, e)
In-member x (m ∷ ms) (inr h) = ground (arith, In-member x ms h)

pub no_gap-In :
    (ms : List ℕ) (pos n x : ℕ) → has_gap ms pos n ≡ false → pos ≤ x → x < pos + n → In x ms
unfolding has_gap
no_gap-In ms pos zero x h lo hi = ground arith
no_gap-In ms pos (suc n) x h lo hi = elim (Bool-cases (member pos ms)) [
  | inl e ↦ elim (Bool-cases (x == pos)) [
    | inl q ↦
        let same : pos ≡ x = ground (arith, q) in subst (λ y. In y ms) same (member-In pos ms e)
    | inr q ↦ no_gap-In ms (suc pos) n x (rw (has_gap, e) at h) (ground (arith, q)) (omega arith)
  ]
  | inr e ↦ let clash : true ≡ false = (rw (has_gap, e) at h) in ground (arith, clash)
]

pub In-no_gap :
    (ms : List ℕ) (pos n : ℕ)
    → ((x : ℕ) → pos ≤ x → x < pos + n → In x ms)
    → has_gap ms pos n ≡ false
unfolding has_gap
In-no_gap ms pos zero f = refl
In-no_gap ms pos (suc n) f =
    rw (has_gap, In-member pos ms (f pos (omega arith) (omega arith)))
      (In-no_gap ms (suc pos) n (λ x lo hi. f x (omega arith) (omega arith)))
