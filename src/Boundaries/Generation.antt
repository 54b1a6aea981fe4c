-- ===== src/Boundaries/Generation.antt =====
-- The publication counter of gruvax/estimator/boundary_cache.py tells every write.
use gruvax.Base.{◌+◌, ◌≤◌, ◌≡◌, refl, ◌⊎◌, inl, inr, Option, none, some, List, [], ◌∷◌, arith}
use gruvax.Boundaries.{
  BoundaryRow, Overrides, BoundaryCache, load, publish_from, load_rows, load_overrides, invalidate,
}

-- A call that may change a cache.
pub data Call : Type 0 where
  call_load : Option (List BoundaryRow) → Option Overrides → Call
  call_publish_from : BoundaryCache → Call
  call_load_rows : List BoundaryRow → Call
  call_load_overrides : Overrides → Call
  call_invalidate : Call

unfoldable pub perform : Call → BoundaryCache → BoundaryCache
unfolding load publish_from load_rows load_overrides invalidate
perform (call_load rows overrides) c = (load rows overrides c).0
perform (call_publish_from prepared) c = publish_from prepared c
perform (call_load_rows rows) c = load_rows rows c
perform (call_load_overrides overrides) c = load_overrides overrides c
perform call_invalidate c = invalidate c

unfoldable pub perform_all : List Call → BoundaryCache → BoundaryCache
perform_all [] c = c
perform_all (x ∷ l) c = perform_all l (perform x c)

perform_cases :
    (x : Call) (c : BoundaryCache)
    → (perform x c ≡ c) ⊎ ((perform x c).generation ≡ c.generation + 1)
unfolding perform
perform_cases (call_load none o) c = inl refl
perform_cases (call_load (some r) none) c = inl refl
perform_cases (call_load (some r) (some o)) c = inr refl
perform_cases (call_publish_from p) c = inr refl
perform_cases (call_load_rows r) c = inr refl
perform_cases (call_load_overrides o) c = inr refl
perform_cases call_invalidate c = inr refl

generation_le : (l : List Call) (c : BoundaryCache) → c.generation ≤ (perform_all l c).generation
unfolding perform_all
generation_le [] c = omega arith
generation_le (x ∷ l) c = ground (arith, perform_cases x c, generation_le l (perform x c))

-- If the generation is what it was, whatever calls were made in between, then no call took effect:
-- the rows and the overrides are what they were too.
pub generation_detects :
    (l : List Call) (c : BoundaryCache)
    → (perform_all l c).generation ≡ c.generation
    → perform_all l c ≡ c
unfolding perform_all
generation_detects [] c h = refl
generation_detects (x ∷ l) c h =
    ground
      (arith, perform_cases x c, generation_le l (perform x c), generation_detects l (perform x c))
