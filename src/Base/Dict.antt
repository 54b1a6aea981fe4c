-- ===== src/Base/Dict.antt =====
-- A Python `dict`: an association list in insertion order. The key test is a parameter.
use mathlib.Core.Path.{◌≡◌, refl, sym, ap, subst}
use mathlib.Core.Logic.{inl, inr}
use mathlib.Core.Bool.{Bool, true, false, not}
use mathlib.Core.Option.{Option, none, some, some-injective}
use mathlib.Core.List.{List, [], ◌∷◌}
use native.Mathlib.Omega.{arith}
use gruvax.Base.Tests.{if◌then◌else◌, Bool-cases}
use gruvax.Base.Lists.{All, All-at, In, keep}

-- `==` on keys, with what the proofs need of it.
pub record KeyTest (K : Type 0) : Type 0 where
  pub same : K → K → Bool
  pub same_refl : (k : K) → same k k ≡ true
  pub same_sound : (j k : K) → same j k ≡ true → j ≡ k

module _ {K V : Type 0} (t : KeyTest K) where
  -- `d.get(k)`.
  unfoldable pub get : K → List (K × V) → Option V
  get k [] = none
  get k ((j, v) ∷ d) = let rest = get k d in if t.same j k then some v else rest

  -- `d[k] = v`: an old key keeps its place.
  unfoldable pub put : K → V → List (K × V) → List (K × V)
  put k v [] = (k, v) ∷ []
  put k v ((j, w) ∷ d) = let rest = put k v d in if t.same j k then (j, v) ∷ d else (j, w) ∷ rest

  -- `d.pop(k, None)`, and the DELETE of the rows of a key.
  unfoldable pub pop : K → List (K × V) → List (K × V)
  pop k d = keep (λ e. not (t.same e.0 k)) d

  pub get-pop_self : (k : K) (d : List (K × V)) → get k (pop k d) ≡ none
  unfolding get pop
  get-pop_self k [] = refl
  get-pop_self k ((j, w) ∷ d) = ground (arith, get-pop_self k d)

  pub get-pop_ne : (k j : K) (d : List (K × V)) → t.same k j ≡ false → get j (pop k d) ≡ get j d
  unfolding get pop
  get-pop_ne k j [] h = refl
  get-pop_ne k j ((i, w) ∷ d) h = ground (arith, get-pop_ne k j d, t.same_sound i k)

  pub get-put_self : (k : K) (v : V) (d : List (K × V)) → get k (put k v d) ≡ some v
  unfolding get put
  get-put_self k v [] = ground (arith, t.same_refl k)
  get-put_self k v ((j, w) ∷ d) = ground (arith, get-put_self k v d)

  pub get-put_ne :
      (k j : K) (v : V) (d : List (K × V)) → t.same k j ≡ false → get j (put k v d) ≡ get j d
  unfolding get put
  get-put_ne k j v [] h = ground arith
  get-put_ne k j v ((i, w) ∷ d) h = ground (arith, get-put_ne k j v d, t.same_sound i k)

  -- No key stands twice.
  abbrev pub IsDict : List (K × V) → Type 0
  IsDict [] = Unit
  IsDict ((k, v) ∷ d) = All (λ e. t.same k e.0 ≡ false) d × IsDict d

  put-All :
      (j k : K) (v : V) (d : List (K × V))
      → t.same j k ≡ false
      → All (λ e. t.same j e.0 ≡ false) d
      → All (λ e. t.same j e.0 ≡ false) (put k v d)
  unfolding put
  put-All j k v [] h a = (h, tt)
  put-All j k v ((i, w) ∷ d) h a = elim (Bool-cases (t.same i k)) [
    | inl e ↦ rw e a
    | inr e ↦ rw e (a.0, put-All j k v d h a.1)
  ]

  pub put-IsDict : (k : K) (v : V) (d : List (K × V)) → IsDict d → IsDict (put k v d)
  unfolding put
  put-IsDict k v [] h = (tt, tt)
  put-IsDict k v ((i, w) ∷ d) h = elim (Bool-cases (t.same i k)) [
    | inl e ↦ rw e h
    | inr e ↦ rw e (put-All i k v d e h.0, put-IsDict k v d h.1)
  ]

  -- An entry is what its key gives.
  pub get-In : (e : K × V) (d : List (K × V)) → IsDict d → In e d → get e.0 d ≡ some e.1
  unfolding get
  get-In e [] h m = absurd m
  get-In e ((i, w) ∷ d) h (inl s) =
      subst (λ x. get e.0 (x ∷ d) ≡ some e.1) s (rw (get, t.same_refl e.0) refl)
  get-In e ((i, w) ∷ d) h (inr m) =
      let other = All-at (λ x. t.same i x.0 ≡ false) e d h.0 m in rw (get, other) (get-In e d h.1 m)

  -- And what a key gives is an entry.
  pub In-get : (k : K) (v : V) (d : List (K × V)) → get k d ≡ some v → (j : K) × In (j, v) d
  unfolding get
  In-get k v [] h = ground arith
  In-get k v ((i, w) ∷ d) h = elim (Bool-cases (t.same i k)) [
    | inl e ↦ (i, inl (ap (λ x. (i, x)) (sym (some-injective w v (rw (get, e) at h)))))
    | inr e ↦ let (j, m) = In-get k v d (rw (get, e) at h) in (j, inr m)
  ]
