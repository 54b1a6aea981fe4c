-- ===== src/Editing/Validation/Contiguity.antt =====
-- What `validate_contiguity` decides.
use mathlib.Core.List.{append_assoc, append-nil}
use gruvax.Base.{
  ◌≡◌, refl, sym, ap, subst, ◌∙◌, ◌↔◌, inl, inr, ℕ, suc, ◌≤◌, ◌<◌, false, Option, none, some, List,
  [], ◌∷◌, ◌++◌, map, arith, Bool-cases, Option-cases, Text, text_eq, text_eq_sound, ◌==◌,
  get_elem?, All, All-In, All-at, In,
}
use gruvax.Base.Dict.{get, put, get-put_self, get-put_ne, IsDict, put-IsDict, get-In, In-get}
use gruvax.Unicode.{Unicode}
use gruvax.Boundaries.{BoundaryRow}
use gruvax.Editing.Validation.{
  text_key, Starts, add_position, last_of, is_scattered, first_scattered, label_starts,
  label_sequence, validate_contiguity,
}
use gruvax.Editing.Validation.Occurrences.{
  occurrences, get-occurrences, occurrences-get, IsAscending, occurrences-IsAscending, last_of-In,
  last_of-max, no_gap-In, In-no_gap,
}

-- The positions that the dict has for a key.
positions_of : Option Starts → List ℕ
positions_of none = []
positions_of (some (display, positions)) = positions

positions_of-add :
    (label : Text) (i : ℕ) (o : Option Starts)
    → positions_of (some (add_position label i o)) ≡ positions_of o ++ i ∷ []
unfolding positions_of
positions_of-add label i none = refl
positions_of-add label i (some (display, positions)) = refl

-- Equal keys have between them only keys that equal them.
abbrev pub IsContiguous : List Text → Type 0
IsContiguous keys =
    (i j k : ℕ) (a : Text)
    → i < j
    → j < k
    → get_elem? keys i ≡ some a
    → get_elem? keys k ≡ some a
    → get_elem? keys j ≡ some a

-- A list of positions that ascends is scattered where a number between its first and last is missing.
not_scattered-In :
    (m : ℕ) (ms : List ℕ) (x : ℕ)
    → is_scattered (m ∷ ms) ≡ false
    → m ≤ x
    → x ≤ last_of m ms
    → In x (m ∷ ms)
unfolding is_scattered
not_scattered-In m [] x h lo hi = inl (omega (arith, lo, hi))
not_scattered-In m (n ∷ ms) x h lo hi = no_gap-In (m ∷ n ∷ ms) m _ x h lo (omega (arith, lo, hi))

first_min : (m x : ℕ) (ms : List ℕ) → IsAscending (m ∷ ms) → In x (m ∷ ms) → m ≤ x
first_min m x ms a (inl e) = omega (arith, e)
first_min m x ms a (inr h) = All-at (λ y. m ≤ y) x ms a.0 h

not_scattered-between :
    (ps : List ℕ) (i j k : ℕ)
    → IsAscending ps
    → is_scattered ps ≡ false
    → In i ps
    → In k ps
    → i < j
    → j < k
    → In j ps
not_scattered-between [] i j k a h at_i at_k ij jk = absurd at_i
not_scattered-between (m ∷ ms) i j k a h at_i at_k ij jk =
    let lo = first_min m i ms a at_i in
    let hi = last_of-max m k ms a at_k in
    not_scattered-In m ms j h (omega (arith, lo)) (omega (arith, hi))

occurs_at :
    (a : Text) (j : ℕ) (ks : List Text) → In j (occurrences a 0 ks) → get_elem? ks j ≡ some a
occurs_at a j ks m =
    let (j', e, g) = occurrences-get a 0 j ks m in
    subst (λ n. get_elem? ks n ≡ some a) (omega (arith, e)) g

at_occurs :
    (a : Text) (j : ℕ) (ks : List Text) → get_elem? ks j ≡ some a → In j (occurrences a 0 ks)
at_occurs a j ks h =
    subst (λ n. In n (occurrences a 0 ks)) (omega arith) (get-occurrences a 0 j ks h)

In-not_scattered :
    (ms : List ℕ)
    → IsAscending ms
    → ((i j k : ℕ) → In i ms → In k ms → i < j → j < k → In j ms)
    → is_scattered ms ≡ false
unfolding is_scattered
In-not_scattered [] a f = refl
In-not_scattered (m ∷ []) a f = refl
In-not_scattered (m ∷ n ∷ ms) a f =
    let end = last_of-In m (n ∷ ms) in
    let le = last_of-max m m (n ∷ ms) a (inl refl) in
    In-no_gap (m ∷ n ∷ ms) m _ (λ x lo hi. between x lo (omega (arith, le, lo, hi)) end)
  where
    between :
        (x : ℕ) → m ≤ x → x ≤ last_of n ms → In (last_of n ms) (m ∷ n ∷ ms) → In x (m ∷ n ∷ ms)
    between x lo hi end = elim (Bool-cases (x == m)) [
      | inl e ↦ inl (ground (arith, e))
      | inr e ↦ elim (Bool-cases (x == last_of n ms)) [
        | inl q ↦
            let same : last_of n ms ≡ x = ground (arith, q) in
            subst (λ y. In y (m ∷ n ∷ ms)) same end
        | inr q ↦ f m x (last_of n ms) (inl refl) end (ground (arith, e)) (ground (arith, q))
      ]
    ]

first_scattered-All :
    (d : List (Text × Starts)) → first_scattered d ≡ none → All (λ e. is_scattered e.1.1 ≡ false) d
unfolding first_scattered
first_scattered-All [] h = tt
first_scattered-All ((lk, (display, ps)) ∷ d) h = elim (Bool-cases (is_scattered ps)) [
  | inl e ↦
      let clash : some display ≡ none = (rw (first_scattered, e) at h) in ground (arith, clash)
  | inr e ↦ (e, first_scattered-All d (rw (first_scattered, e) at h))
]

All-first_scattered :
    (d : List (Text × Starts)) → All (λ e. is_scattered e.1.1 ≡ false) d → first_scattered d ≡ none
unfolding first_scattered
All-first_scattered [] h = refl
All-first_scattered ((lk, (display, ps)) ∷ d) h =
    rw (first_scattered, h.0) (All-first_scattered d h.1)

module _ (u : Unicode) where
  open u use {casefold}

  label_starts-IsDict :
      (i : ℕ) (d : List (Text × Starts)) (labels : List Text)
      → IsDict text_key d
      → IsDict text_key (label_starts u i d labels)
  unfolding label_starts
  label_starts-IsDict i d [] h = h
  label_starts-IsDict i d (label ∷ labels) h =
      label_starts-IsDict (suc i) _ labels (put-IsDict text_key (casefold label) _ d h)

  -- The dict has the positions of each key.
  positions-label_starts :
      (a : Text) (i : ℕ) (d : List (Text × Starts)) (labels : List Text)
      → positions_of (get text_key a (label_starts u i d labels))
        ≡ positions_of (get text_key a d) ++ occurrences a i (map casefold labels)
  unfolding label_starts occurrences
  positions-label_starts a i d [] = sym (append-nil (positions_of (get text_key a d)))
  positions-label_starts a i d (label ∷ labels) =
      let lk = casefold label in
      let new = add_position label i (get text_key lk d) in
      let again = positions-label_starts a (suc i) (put text_key lk new d) labels in
      elim (Bool-cases (text_eq lk a)) [
        | inl e ↦
            let same : lk ≡ a = text_eq_sound lk a e in
            let stored : get text_key a (put text_key lk new d) ≡ some new =
              subst (λ x. get text_key x (put text_key lk new d) ≡ some new) same
                (get-put_self text_key lk new d) in
            let read : positions_of (some new) ≡ positions_of (get text_key a d) ++ i ∷ [] =
              positions_of-add label i (get text_key lk d)
              ∙ ap (λ x. positions_of (get text_key x d) ++ i ∷ []) same in
            let rest = occurrences a (suc i) (map casefold labels) in
            rw (occurrences, e)
              (again
                ∙ ap (λ o. positions_of o ++ rest) stored
                ∙ ap (λ l. l ++ rest) read
                ∙ append_assoc (positions_of (get text_key a d)) (i ∷ []) rest)
        | inr e ↦
            rw (occurrences, e)
              (again
                ∙ ap (λ o. positions_of o ++ occurrences a (suc i) (map casefold labels))
                    (get-put_ne text_key lk a new d e))
      ]

  -- The keys of the labels of an edit, in shelf order.
  abbrev pub keys_of : List BoundaryRow → List Text
  keys_of updates = map casefold (label_sequence updates)

  positions_at :
      (a : Text) (labels : List Text)
      → positions_of (get text_key a (label_starts u 0 [] labels))
        ≡ occurrences a 0 (map casefold labels)
  unfolding get positions_of
  positions_at a labels = positions-label_starts a 0 [] labels

  passes-IsContiguous :
      (labels : List Text)
      → All (λ e. is_scattered e.1.1 ≡ false) (label_starts u 0 [] labels)
      → IsContiguous (map casefold labels)
  unfolding positions_of
  passes-IsContiguous labels h i j k a ij jk at_i at_k =
      let ks = map casefold labels in
      let at = positions_at a labels in
      elim (Option-cases (get text_key a (label_starts u 0 [] labels))) [
        | inl e ↦
            let nowhere : [] ≡ occurrences a 0 ks = sym (ap positions_of e) ∙ at in
            absurd (subst (In i) (sym nowhere) (at_occurs a i ks at_i))
        | inr ((display, ps), e) ↦
            let (lk, m) = In-get text_key a (display, ps) _ e in
            let tight = All-at (λ x. is_scattered x.1.1 ≡ false) (lk, (display, ps)) _ h m in
            let same : ps ≡ occurrences a 0 ks = sym (ap positions_of e) ∙ at in
            occurs_at a j ks (
              not_scattered-between (occurrences a 0 ks) i j k (occurrences-IsAscending a 0 ks)
                (subst (λ l. is_scattered l ≡ false) same tight) (at_occurs a i ks at_i)
                (at_occurs a k ks at_k) ij jk)
      ]

  IsContiguous-passes :
      (labels : List Text)
      → IsContiguous (map casefold labels)
      → All (λ e. is_scattered e.1.1 ≡ false) (label_starts u 0 [] labels)
  unfolding positions_of
  IsContiguous-passes labels h = All-In (label_starts u 0 [] labels) entry
    where
      tight : (a : Text) → is_scattered (occurrences a 0 (map casefold labels)) ≡ false
      tight a =
          In-not_scattered _ (occurrences-IsAscending a 0 (map casefold labels)) (λ i j k m n ij jk.
            at_occurs a j _ (h i j k a ij jk (occurs_at a i _ m) (occurs_at a k _ n)))

      entry : (e : Text × Starts) → In e (label_starts u 0 [] labels) → is_scattered e.1.1 ≡ false
      entry (a, (display, ps)) m =
          let got = get-In text_key (a, (display, ps)) _ (label_starts-IsDict 0 [] labels tt) m in
          let same : ps ≡ occurrences a 0 (map casefold labels) =
            sym (ap positions_of got) ∙ positions_at a labels in
          subst (λ l. is_scattered l ≡ false) (sym same) (tight a)

  -- A set of updates passes exactly if, in the sequence of the casefolded labels of its filled cubes in
  -- shelf order, cubes without a label left out, two places with the same label have no other label
  -- between them.
  pub validate_contiguity-IsContiguous :
      (updates : List BoundaryRow)
      → (validate_contiguity u updates ≡ none) ↔ IsContiguous (keys_of updates)
  unfolding validate_contiguity
  validate_contiguity-IsContiguous updates = (
    λ h. passes-IsContiguous (label_sequence updates) (first_scattered-All _ h),
    λ h. All-first_scattered _ (IsContiguous-passes (label_sequence updates) h),
  )
