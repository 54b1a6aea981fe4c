-- ===== src/BinMath/Midpoint.antt =====
-- The midpoint of `suggest_midpoint` (gruvax/estimator/boundary_math.py).
use gruvax.Base.{
  ℕ, suc, ◌+◌, ◌/◌, ◌<◌, ◌≤◌, ◌≡◌, ◌⊎◌, subst, sym, refl, arith, true, false, ◌&&◌, ltb, Option,
  none, some, List, [], ◌∷◌, Text, length, get_elem?, get_elem?_total, is_nil, Bool-cases, inl, inr,
}
use gruvax.Unicode.{Unicode}
use gruvax.Snapshot.{RecordRow, CollectionSnapshot, get_label_records}
use gruvax.Segments.Bins.{sort_records}
use gruvax.BinMath.{between, last_index, suggest_midpoint}

module _ (u : Unicode) where
  swapped :
      (records : List RecordRow) (i j : ℕ)
      → ltb j i ≡ true
      → between u records (some i) (some j) ≡ between u records (some j) (some i)
  unfolding between
  swapped records i j e = let other : ltb i j ≡ false = ground arith in rw (e, other) refl

  between_comm :
      (records : List RecordRow) (i j : Option ℕ) → between u records i j ≡ between u records j i
  unfolding between
  between_comm records none none = refl
  between_comm records none (some j) = refl
  between_comm records (some i) none = refl
  between_comm records (some i) (some j) = elim (Bool-cases (ltb j i)) [
    | inl e ↦ swapped records i j e
    | inr e ↦ elim (Bool-cases (ltb i j)) [
      | inl f ↦ sym (swapped records j i f)
      | inr f ↦
          let same : i ≡ j = ground arith in
          subst
            (λ (k : ℕ). between u records (some i) (some k) ≡ between u records (some k) (some i))
            same refl
    ]
  ]

  -- The place of a release: the last index with its id.
  abbrev pub place_of : ℕ → List RecordRow → Option ℕ
  place_of release_id = last_index u release_id 0 none

  -- A record strictly between two places, in one order or the other.
  pub record IsBetween (records : List RecordRow) (i j : ℕ) (r : RecordRow) : Type 0 where
    pub place : ℕ
    pub found : get_elem? records place ≡ some r
    pub inside : ((i < place) × (place < j)) ⊎ ((j < place) × (place < i))

  -- What is suggested for two places: nothing where they touch, else a record between them.
  abbrev pub IsMidpoint : List RecordRow → ℕ → ℕ → Option RecordRow → Type 0
  IsMidpoint records i j result =
      ((result ≡ none) × ((i ≤ suc j) × (j ≤ suc i)))
      ⊎ ((r : RecordRow) × (result ≡ some r) × IsBetween records i j r)

  in_order :
      (records : List RecordRow) (i j : ℕ)
      → ltb j i ≡ false
      → j < length records
      → IsMidpoint records i j (between u records (some i) (some j))
  unfolding between
  in_order records i j f less = elim (Bool-cases (ltb i ((i + j) / 2) && ltb ((i + j) / 2) j)) [
    | inl inside ↦
        let (r, found) = get_elem?_total records ((i + j) / 2) (ground arith) in
        inr (
          r,
          rw (f, inside) found,
          record { place = (i + j) / 2; found = found; inside = inl (ground arith, ground arith) },
        )
    | inr outside ↦ inl (rw (f, outside) refl, (ground arith, ground arith))
  ]

  IsMidpoint-swap :
      (records : List RecordRow) (i j : ℕ) (result : Option RecordRow)
      → IsMidpoint records i j result
      → IsMidpoint records j i result
  IsMidpoint-swap records i j result (inl (e, (left, right))) = inl (e, (right, left))
  IsMidpoint-swap records i j result (inr (r, e, h)) =
      inr (r, e, record { place = h.place; found = h.found; inside = ground (arith, h.inside) })

  between-IsMidpoint :
      (records : List RecordRow) (i j : ℕ)
      → i < length records
      → j < length records
      → IsMidpoint records i j (between u records (some i) (some j))
  between-IsMidpoint records i j i_less j_less = elim (Bool-cases (ltb j i)) [
    | inl e ↦
        rw (between_comm records (some i) (some j))
          (IsMidpoint-swap records j i _ (in_order records j i (ground arith) i_less))
    | inr e ↦ in_order records i j e j_less
  ]

  last_index-in_range :
      (release_id i j : ℕ) (found : Option ℕ) (records : List RecordRow)
      → last_index u release_id i found records ≡ some j
      → (found ≡ some j) ⊎ (j < i + length records)
  unfolding last_index
  last_index-in_range release_id i j found [] e = inl e
  last_index-in_range release_id i j found (r ∷ records) e =
      ground (arith, last_index-in_range release_id (suc i) j _ records e)

  not_nil : {i : ℕ} (records : List RecordRow) → i < length records → is_nil records ≡ false
  not_nil [] h = ground arith
  not_nil (r ∷ records) h = refl

  place_of-in_range :
      (release_id i : ℕ) (records : List RecordRow)
      → place_of release_id records ≡ some i
      → i < length records
  place_of-in_range release_id i records e =
      ground (arith, last_index-in_range release_id 0 i none records e)

  -- For two anchors that have places in the label's sorted records, `suggest_midpoint` returns nothing
  -- exactly when no place is left between them, and else a record that is strictly between them.
  pub suggest_midpoint-IsMidpoint :
      (label : Text) (a b i j : ℕ) (snapshot : CollectionSnapshot)
      → place_of a (sort_records u (get_label_records u snapshot label)) ≡ some i
      → place_of b (sort_records u (get_label_records u snapshot label)) ≡ some j
      → IsMidpoint
          (sort_records u (get_label_records u snapshot label))
          i
          j
          (suggest_midpoint u label a b snapshot)
  unfolding suggest_midpoint
  suggest_midpoint-IsMidpoint label a b i j snapshot p q =
      let records = sort_records u (get_label_records u snapshot label) in
      let i_less = place_of-in_range a i records p in
      let some_records : is_nil records ≡ false = not_nil records i_less in
      rw (some_records, p, q)
        (between-IsMidpoint records i j i_less (place_of-in_range b j records q))

  -- `suggest_midpoint` gives the same record whichever anchor comes first.
  pub suggest_midpoint_comm :
      (label : Text) (a b : ℕ) (snapshot : CollectionSnapshot)
      → suggest_midpoint u label a b snapshot ≡ suggest_midpoint u label b a snapshot
  unfolding suggest_midpoint
  suggest_midpoint_comm label a b snapshot =
      elim (Bool-cases (is_nil (sort_records u (get_label_records u snapshot label)))) [
        | inl e ↦ rw e refl
        | inr e ↦ rw e (between_comm _ _ _)
      ]
