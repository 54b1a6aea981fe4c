-- ===== src/Base/Sort.antt =====
-- Python's `sorted(l, key=f)`: a stable sort by a key, as insertion from the right.
use Prim.Native.Nat.{suc}
use mathlib.Core.Path.{◌≡◌, refl, ap, ◌∙◌}
use mathlib.Core.Logic.{◌⊎◌, inl, inr}
use mathlib.Core.Bool.{Bool, true, false}
use mathlib.Core.List.{List, [], ◌∷◌, map, Perm}
use mathlib.Core.List.Perm
use native.Mathlib.Omega.{arith}
use gruvax.Base.Tests.{if◌then◌else◌, Bool-cases}
use gruvax.Base.Lists.{length, keep, In}
use gruvax.Base.Order.{Order, le_refl}

module _ {A K : Type 0} (o : Order K) (key : A → K) where
  unfoldable pub insert_by : A → List A → List A
  insert_by x [] = x ∷ []
  insert_by x (y ∷ ys) =
      let rest = insert_by x ys in if o.le (key x) (key y) then x ∷ y ∷ ys else y ∷ rest

  unfoldable pub sort_by : List A → List A
  unfolding insert_by
  sort_by [] = []
  sort_by (x ∷ xs) = insert_by x (sort_by xs)

  -- The key of `x` is below every key of the list.
  abbrev pub IsBelow : K → List A → Type 0
  IsBelow k [] = Unit
  IsBelow k (y ∷ ys) = (o.le k (key y) ≡ true) × IsBelow k ys

  -- Ascending by key.
  abbrev pub IsSorted : List A → Type 0
  IsSorted [] = Unit
  IsSorted (x ∷ xs) = IsBelow (key x) xs × IsSorted xs

  IsBelow-trans : (j k : K) (xs : List A) → o.le j k ≡ true → IsBelow k xs → IsBelow j xs
  IsBelow-trans j k [] h b = tt
  IsBelow-trans j k (y ∷ ys) h b = (o.trans j k (key y) h b.0, IsBelow-trans j k ys h b.1)

  IsBelow-insert :
      (k : K) (x : A) (xs : List A)
      → o.le k (key x) ≡ true
      → IsBelow k xs
      → IsBelow k (insert_by x xs)
  unfolding insert_by
  IsBelow-insert k x [] h b = (h, tt)
  IsBelow-insert k x (y ∷ ys) h b = elim (Bool-cases (o.le (key x) (key y))) [
    | inl e ↦ rw e (h, b)
    | inr e ↦ rw e (b.0, IsBelow-insert k x ys h b.1)
  ]

  insert_by-IsSorted : (x : A) (xs : List A) → IsSorted xs → IsSorted (insert_by x xs)
  unfolding insert_by
  insert_by-IsSorted x [] s = (tt, tt)
  insert_by-IsSorted x (y ∷ ys) s = elim (Bool-cases (o.le (key x) (key y))) [
    | inl e ↦ rw e ((e, IsBelow-trans (key x) (key y) ys e s.0), s)
    | inr e ↦ rw e (IsBelow-insert (key y) x ys (o.total _ _ e) s.0, insert_by-IsSorted x ys s.1)
  ]

  pub sort_by-IsSorted : (xs : List A) → IsSorted (sort_by xs)
  unfolding sort_by
  sort_by-IsSorted [] = tt
  sort_by-IsSorted (x ∷ xs) = insert_by-IsSorted x (sort_by xs) (sort_by-IsSorted xs)

  insert_below : (x : A) (xs : List A) → IsBelow (key x) xs → insert_by x xs ≡ x ∷ xs
  unfolding insert_by
  insert_below x [] b = refl
  insert_below x (y ∷ ys) b = rw b.0

  -- Sorting what is ascending changes nothing.
  pub sort_by_of_IsSorted : (xs : List A) → IsSorted xs → sort_by xs ≡ xs
  unfolding sort_by
  sort_by_of_IsSorted [] s = refl
  sort_by_of_IsSorted (x ∷ xs) s = rw (sort_by_of_IsSorted xs s.1) (insert_below x xs s.0)

  length-insert_by : (x : A) (xs : List A) → length (insert_by x xs) ≡ suc (length xs)
  unfolding insert_by
  length-insert_by x [] = refl
  length-insert_by x (y ∷ ys) = ground (arith, length-insert_by x ys)

  pub length-sort_by : (xs : List A) → length (sort_by xs) ≡ length xs
  unfolding sort_by
  length-sort_by [] = refl
  length-sort_by (x ∷ xs) = length-insert_by x (sort_by xs) ∙ ap suc (length-sort_by xs)

  In-insert_by : (a x : A) (xs : List A) → In a (insert_by x xs) → (a ≡ x) ⊎ In a xs
  unfolding insert_by
  In-insert_by a x [] m = m
  In-insert_by a x (y ∷ ys) m = ground (arith, In-insert_by a x ys)

  -- A sorted list has no other members than the list it comes from.
  pub In-sort_by : (a : A) (xs : List A) → In a (sort_by xs) → In a xs
  unfolding sort_by
  In-sort_by a [] m = m
  In-sort_by a (x ∷ xs) m = ground (arith, In-insert_by a x (sort_by xs), In-sort_by a xs)

  In-insert_by_self : (x : A) (xs : List A) → In x (insert_by x xs)
  unfolding insert_by
  In-insert_by_self x [] = inl refl
  In-insert_by_self x (y ∷ ys) = ground (arith, In-insert_by_self x ys)

  In-insert_by_of_In : (a x : A) (xs : List A) → In a xs → In a (insert_by x xs)
  unfolding insert_by
  In-insert_by_of_In a x [] m = absurd m
  In-insert_by_of_In a x (y ∷ ys) m = ground (arith, In-insert_by_of_In a x ys)

  -- And it has all of them.
  pub sort_by-In : (a : A) (xs : List A) → In a xs → In a (sort_by xs)
  unfolding sort_by
  sort_by-In a [] m = m
  sort_by-In a (x ∷ xs) (inl e) = rw e (In-insert_by_self x (sort_by xs))
  sort_by-In a (x ∷ xs) (inr m) = In-insert_by_of_In a x (sort_by xs) (sort_by-In a xs m)

  keep-insert_by_skip :
      (p : A → Bool) (x : A) (xs : List A) → p x ≡ false → keep p (insert_by x xs) ≡ keep p xs
  unfolding insert_by
  keep-insert_by_skip p x [] h = ground arith
  keep-insert_by_skip p x (y ∷ ys) h = ground (arith, keep-insert_by_skip p x ys)

  -- The elements that pass `p` are those of one key.
  abbrev pub SameKey : (A → Bool) → Type 0
  SameKey p = (a b : A) → p a ≡ true → p b ≡ true → key a ≡ key b

  keep-insert_by_same :
      (p : A → Bool) (x : A) (xs : List A)
      → SameKey p
      → p x ≡ true
      → keep p (insert_by x xs) ≡ x ∷ keep p xs
  unfolding insert_by
  keep-insert_by_same p x [] same h = ground arith
  keep-insert_by_same p x (y ∷ ys) same h =
      ground (arith, keep-insert_by_same p x ys same h, same x y h, le_refl o (key x))

  -- The sort is stable: the elements of one key keep their order.
  pub sort_by_stable : (p : A → Bool) (xs : List A) → SameKey p → keep p (sort_by xs) ≡ keep p xs
  unfolding sort_by
  sort_by_stable p [] same = refl
  sort_by_stable p (x ∷ xs) same = elim (Bool-cases (p x)) [
    | inl e ↦
        rw (keep-insert_by_same p x (sort_by xs) same e, e) (ap (◌∷◌ x) (sort_by_stable p xs same))
    | inr e ↦ rw (keep-insert_by_skip p x (sort_by xs) e, e) (sort_by_stable p xs same)
  ]

  pub le-IsBelow : (k : K) (x : A) (xs : List A) → IsBelow k xs → In x xs → o.le k (key x) ≡ true
  le-IsBelow k x [] b m = absurd m
  le-IsBelow k x (y ∷ ys) b (inl e) = rw e b.0
  le-IsBelow k x (y ∷ ys) b (inr m) = le-IsBelow k x ys b.1 m

-- The sort loses and repeats none of the elements that pass a test.
module _ {A K : Type 0} (o : Order K) (key : A → K) (p : A → Bool) where
  keep-insert_by-Perm :
      (x : A) (xs : List A) → Perm (keep p (insert_by o key x xs)) (keep p (x ∷ xs))
  unfolding insert_by
  keep-insert_by-Perm x [] = Perm.rfl
  keep-insert_by-Perm x (y ∷ ys) = elim (Bool-cases (o.le (key x) (key y))) [
    | inl e ↦ rw e Perm.rfl
    | inr e ↦ elim (Bool-cases (p y)) [
      | inr g ↦ rw (e, g) (keep-insert_by-Perm x ys)
      | inl g ↦ elim (Bool-cases (p x)) [
        | inl f ↦
            rw (e, g, f)
              (Perm.trans (Perm.cons y (rw f at (keep-insert_by-Perm x ys)))
                (Perm.swap x y (keep p ys)))
        | inr f ↦ rw (e, g, f) (Perm.cons y (rw f at (keep-insert_by-Perm x ys)))
      ]
    ]
  ]

  pub keep-sort_by-Perm : (xs : List A) → Perm (keep p (sort_by o key xs)) (keep p xs)
  unfolding sort_by
  keep-sort_by-Perm [] = Perm.rfl
  keep-sort_by-Perm (x ∷ xs) =
      Perm.trans (keep-insert_by-Perm x (sort_by o key xs)) (cons_keep (p x) (keep-sort_by-Perm xs))
    where
      cons_keep :
          (b : Bool)
          → Perm (keep p (sort_by o key xs)) (keep p xs)
          → Perm
              (if b then x ∷ keep p (sort_by o key xs) else keep p (sort_by o key xs))
              (if b then x ∷ keep p xs else keep p xs)
      cons_keep true h = Perm.cons x h
      cons_keep false h = h

-- A map that keeps the keys commutes with the sort.
module _ {A K : Type 0} (o : Order K) (key : A → K) (f : A → A)
    (same_key : (x : A) → key (f x) ≡ key x) where
  insert_by-map :
      (x : A) (xs : List A) → insert_by o key (f x) (map f xs) ≡ map f (insert_by o key x xs)
  unfolding insert_by
  insert_by-map x [] = refl
  insert_by-map x (y ∷ ys) = elim (Bool-cases (o.le (key x) (key y))) [
    | inl e ↦ rw (same_key x, same_key y, e) refl
    | inr e ↦ rw (same_key x, same_key y, e) (ap (◌∷◌ (f y)) (insert_by-map x ys))
  ]

  pub sort_by-map : (xs : List A) → sort_by o key (map f xs) ≡ map f (sort_by o key xs)
  unfolding sort_by
  sort_by-map [] = refl
  sort_by-map (x ∷ xs) =
      ap (insert_by o key (f x)) (sort_by-map xs) ∙ insert_by-map x (sort_by o key xs)
