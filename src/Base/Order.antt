-- ===== src/Base/Order.antt =====
-- Total orders as Boolean tests, and Python's lexicographic order on tuples and lists.
use gruvax.Base.Tests.{leb, if◌then◌else◌, Bool-cases}
use Prim.Native.Nat.{ℕ}
use mathlib.Core.Path.{◌≡◌, refl, ap₂}
use mathlib.Core.Logic.{inl, inr}
use mathlib.Core.Bool.{Bool, true, false, not}
use mathlib.Core.List.{List, [], ◌∷◌}
use native.Mathlib.Omega.{arith}

-- `le a b` is Python's `a <= b`; `a < b` is `not (b <= a)`.
pub record Order {ℓ} (A : Type ℓ) : Type ℓ where
  pub le : A → A → Bool
  pub total : (a b : A) → le a b ≡ false → le b a ≡ true
  pub trans : (a b c : A) → le a b ≡ true → le b c ≡ true → le a c ≡ true
  pub antisym : (a b : A) → le a b ≡ true → le b a ≡ true → a ≡ b

module _ {ℓ} {A : Type ℓ} (o : Order A) where
  abbrev pub lt : A → A → Bool
  lt a b = not (o.le b a)

  pub le_refl : (a : A) → o.le a a ≡ true
  le_refl a = elim (Bool-cases (o.le a a)) [ inl e ↦ e | inr e ↦ o.total a a e ]

pub leb_total : (a b : ℕ) → leb a b ≡ false → leb b a ≡ true
leb_total a b h = ground arith

pub leb_trans : (a b c : ℕ) → leb a b ≡ true → leb b c ≡ true → leb a c ≡ true
leb_trans a b c p q = ground arith

pub leb_antisym : (a b : ℕ) → leb a b ≡ true → leb b a ≡ true → a ≡ b
leb_antisym a b p q = ground arith

abbrev pub nat_order : Order ℕ
nat_order = record { le = leb; total = leb_total; trans = leb_trans; antisym = leb_antisym }

-- Tuples: the first components decide unless they are equal.
module _ {ℓ κ} {A : Type ℓ} {B : Type κ} (o : Order A) (p : Order B) where
  abbrev pair_le : A × B → A × B → Bool
  pair_le (a, b) (c, d) = if o.le a c then (if o.le c a then p.le b d else true) else false

  pub pair_total : (x y : A × B) → pair_le x y ≡ false → pair_le y x ≡ true
  pair_total (a, b) (c, d) h = ground (arith, o.total a c, p.total b d)

  pub pair_trans : (x y z : A × B) → pair_le x y ≡ true → pair_le y z ≡ true → pair_le x z ≡ true
  pair_trans (a, b) (c, d) (e, f) h k =
      ground (arith, o.trans a c e, o.trans e a c, o.trans c e a, p.trans b d f)

  pub pair_antisym : (x y : A × B) → pair_le x y ≡ true → pair_le y x ≡ true → x ≡ y
  pair_antisym (a, b) (c, d) h k =
      ap₂ (λ (u : A) (v : B). (u, v)) (o.antisym a c (ground arith) (ground arith))
        (p.antisym b d (ground arith) (ground arith))

  abbrev pub pair_order : Order (A × B)
  pair_order = record {
    le = pair_le;
    total = pair_total;
    trans = pair_trans;
    antisym = pair_antisym;
  }

-- Lists: the first difference decides, and a proper prefix is smaller.
module _ {ℓ} {A : Type ℓ} (o : Order A) where
  abbrev list_le : List A → List A → Bool
  list_le [] ys = true
  list_le (x ∷ xs) [] = false
  list_le (x ∷ xs) (y ∷ ys) =
      let rest = list_le xs ys in if o.le x y then (if o.le y x then rest else true) else false

  pub list_total : (xs ys : List A) → list_le xs ys ≡ false → list_le ys xs ≡ true
  list_total [] ys h = ground arith
  list_total (x ∷ xs) [] h = refl
  list_total (x ∷ xs) (y ∷ ys) h = ground (arith, o.total x y, list_total xs ys)

  pub list_trans :
      (xs ys zs : List A) → list_le xs ys ≡ true → list_le ys zs ≡ true → list_le xs zs ≡ true
  list_trans [] ys zs h k = refl
  list_trans (x ∷ xs) [] zs h k = ground arith
  list_trans (x ∷ xs) (y ∷ ys) [] h k = ground arith
  list_trans (x ∷ xs) (y ∷ ys) (z ∷ zs) h k =
      ground (arith, o.trans x y z, o.trans z x y, o.trans y z x, list_trans xs ys zs)

  pub list_antisym : (xs ys : List A) → list_le xs ys ≡ true → list_le ys xs ≡ true → xs ≡ ys
  list_antisym [] [] h k = refl
  list_antisym [] (y ∷ ys) h k = ground arith
  list_antisym (x ∷ xs) [] h k = ground arith
  list_antisym (x ∷ xs) (y ∷ ys) h k =
      ap₂ ◌∷◌ (o.antisym x y (ground arith) (ground arith))
        (list_antisym xs ys (ground arith) (ground arith))

  abbrev pub list_order : Order (List A)
  list_order = record {
    le = list_le;
    total = list_total;
    trans = list_trans;
    antisym = list_antisym;
  }
