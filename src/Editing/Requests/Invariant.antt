-- ===== src/Editing/Requests/Invariant.antt =====
-- What no sequence of requests changes, and what every sequence keeps: refused requests, the keys of the
-- tables, the log of changes, and the boundary cache against its table.
use gruvax.Base.{
  ◌≡◌, refl, sym, ap, subst, ◌∙◌, Bool, true, false, List, [], ◌∷◌, ◌++◌, map, arith, if◌then◌else◌,
  All, Bool-cases, inl, inr,
}
use mathlib.Core.List.{append_assoc, append-nil}
use gruvax.Unicode.{Unicode}
use gruvax.Boundaries.{BoundaryRow, load}
use gruvax.Segments.Assign.{Position, position, shelf_order}
use gruvax.Editing.{
  Environment, Profile, answered, raised, Refusal, BoundaryChanged, announce, Database, HistoryRow,
  Cut, is_at, set_cut, write_boundary, write_history_row, rebuild_derived_caches, select_boundaries,
  select_overrides,
}
use gruvax.Editing.Requests.{Request, Status, client_error, handle, handle_all, status_of}
use gruvax.Editing.Requests.Steps.{IsStep, IsReached, write, store, same, step}
use gruvax.Editing.Requests.Handled.{IsHandled, declined, broken, quiet, told, handle-IsHandled}

position-set_cut :
    (p : Position) (c : Cut) (rows : List BoundaryRow)
    → map position (map (set_cut p c) rows) ≡ map position rows
position-set_cut p c [] = refl
position-set_cut p c (r ∷ rows) = elim (Bool-cases (is_at p r)) [
  | inl e ↦ rw e (ap (◌∷◌ (position r)) (position-set_cut p c rows))
  | inr e ↦ rw e (ap (◌∷◌ (position r)) (position-set_cut p c rows))
]

-- The tables have the same cubes and collection, and the log goes on from the old one.
abbrev pub Continues : Database → Database → Type 0
Continues a b =
    (map position b.boundaries ≡ map position a.boundaries)
    × (b.collection ≡ a.collection)
    × ((new : List HistoryRow) × (b.history ≡ a.history ++ new))

Continues-trans : (a b c : Database) → Continues a b → Continues b c → Continues a c
Continues-trans a b c (p, k, (new, h)) (p', k', (new', h')) =
    (p' ∙ p, k' ∙ k, (new ++ new', h' ∙ ap (λ l. l ++ new') h ∙ append_assoc a.history new new'))

step-Continues : (env : Environment) (a b : Database) → IsStep env a b → Continues a b
unfolding write_history_row write_boundary
step-Continues env a b (write p prev c source db n rows) =
    (position-set_cut p c db.boundaries, refl, (_, refl))
step-Continues env a b (store db rows overrides) = (refl, refl, ([], sym (append-nil db.history)))

reached-Continues : (env : Environment) (a b : Database) → IsReached env a b → Continues a b
reached-Continues env a b same = (refl, refl, ([], sym (append-nil a.history)))
reached-Continues env a b (step {b = m} s r) =
    Continues-trans a m b (step-Continues env a m s) (reached-Continues env m b r)

-- The boundary cache holds the rows of its table, in shelf order.
abbrev pub IsFresh : Profile → Type 0
IsFresh s = s.boundary_cache.rows ≡ shelf_order s.database.boundaries

-- What follows a commit is no client error.
announced_error :
    {A : Type 0} (answer : A) (returned : Bool) (r : Refusal)
    → status_of (if returned then answered answer else raised) ≡ client_error r
    → ⊥
unfolding status_of
announced_error answer true r h = ground arith
announced_error answer false r h = ground arith

module _ (u : Unicode) where
  pub announce-status :
      {A : Type 0} (env : Environment) (event : BoundaryChanged) (answer : A) (s : Profile)
      (r : Refusal)
      → status_of (announce u env event answer s).0 ≡ client_error r
      → ⊥
  unfolding announce
  announce-status env event answer s r h = announced_error answer _ r h

  pub rebuild-database :
      (env : Environment) (s : Profile) → (rebuild_derived_caches u env s).0.database ≡ s.database
  unfolding rebuild_derived_caches
  rebuild-database env s =
      elim (Bool-cases
        (load (select_boundaries env s.database) (select_overrides env s.database)
          s.boundary_cache).1) [ inl e ↦ rw e refl | inr e ↦ rw e refl ]

  rebuild-IsFresh :
      (env : Environment) (s : Profile)
      → env.reads ≡ true
      → IsFresh (rebuild_derived_caches u env s).0
  unfolding rebuild_derived_caches load select_boundaries select_overrides
  rebuild-IsFresh env s h = rw h refl

  handled_refused :
      (env : Environment) (s : Profile) (r : Refusal) {o : Status × Profile}
      → IsHandled u env s o
      → o.0 ≡ client_error r
      → o.1 ≡ s
  unfolding announce
  handled_refused env s r (declined q) h = refl
  handled_refused env s r broken h = refl
  handled_refused env s r quiet h = refl
  handled_refused env s r (told db event answer reached) h =
      absurd (announce-status env event answer (record s { database = db }) r h)

  -- A request that is answered with a client error leaves the tables, the caches and the published
  -- events of the profile as they were.
  pub handle_refused :
      (env : Environment) (request : Request) (s : Profile) (r : Refusal)
      → (handle u env request s).0 ≡ client_error r
      → (handle u env request s).1 ≡ s
  handle_refused env request s r h = handled_refused env s r (handle-IsHandled u env request s) h

  handled-Continues :
      (env : Environment) (s : Profile) (o : Status × Profile)
      → IsHandled u env s o
      → Continues s.database o.1.database
  unfolding announce
  handled-Continues env s o (declined r) = reached-Continues env s.database s.database same
  handled-Continues env s o broken = reached-Continues env s.database s.database same
  handled-Continues env s o quiet = reached-Continues env s.database s.database same
  handled-Continues env s o (told db event answer reached) =
      subst (Continues s.database) (sym (rebuild-database env _))
        (reached-Continues env _ _ reached)

  -- After any requests, whatever they are answered with, the table of boundaries has the same cubes in
  -- the same places, the collection is as before, and the log of changes is the old one with rows added
  -- at its end.
  pub handle_all-Continues :
      (requests : List (Environment × Request)) (s : Profile)
      → Continues s.database (handle_all u requests s).database
  unfolding handle_all
  handle_all-Continues [] s = (refl, refl, ([], sym (append-nil s.database.history)))
  handle_all-Continues ((env, request) ∷ requests) s =
      Continues-trans s.database (handle u env request s).1.database
        (handle_all u requests (handle u env request s).1).database
        (handled-Continues env s _ (handle-IsHandled u env request s))
        (handle_all-Continues requests (handle u env request s).1)

  handled-IsFresh :
      (env : Environment) (s : Profile) (o : Status × Profile)
      → env.reads ≡ true
      → IsHandled u env s o
      → IsFresh s
      → IsFresh o.1
  unfolding announce
  handled-IsFresh env s o reads (declined r) fresh = fresh
  handled-IsFresh env s o reads broken fresh = fresh
  handled-IsFresh env s o reads quiet fresh = fresh
  handled-IsFresh env s o reads (told db event answer reached) fresh =
      rebuild-IsFresh env (record s { database = db }) reads

  -- If the boundary cache holds the rows of its table in shelf order, it does so after any requests in
  -- whose rebuilds the SELECTs return, whatever the requests are answered with.
  pub handle_all-IsFresh :
      (requests : List (Environment × Request)) (s : Profile)
      → All (λ e. e.0.reads ≡ true) requests
      → IsFresh s
      → IsFresh (handle_all u requests s)
  unfolding handle_all
  handle_all-IsFresh [] s reads fresh = fresh
  handle_all-IsFresh ((env, request) ∷ requests) s reads fresh =
      handle_all-IsFresh requests (handle u env request s).1 reads.1
        (handled-IsFresh env s _ reads.0 (handle-IsHandled u env request s) fresh)
