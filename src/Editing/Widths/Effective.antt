-- ===== src/Editing/Widths/Effective.antt =====
-- The widths that the guard of `set_bin_overrides` judges are those that the table has afterwards.
use gruvax.Base.{
  ℕ, ◌≡◌, ◌≢◌, refl, sym, ap, subst, ◌∙◌, Bool, true, false, ◌&&◌, Option, none, some, List, [],
  ◌∷◌, map, Text, text_eq, text_eq_refl, text_eq_sound, arith, if◌then◌else◌, Bool-cases, inl, inr,
  is_nil,
}
use gruvax.Base.Dict.{get, put, pop, get-put_self, get-put_ne, get-pop_self, get-pop_ne}
use gruvax.Base.Ratio.{Ratio, ratio, one, lt, sum, ◌+ℚ◌}
use gruvax.Unicode.{Unicode}
use gruvax.Boundaries.{OverrideKey, Overrides, override_key, key_eq}
use gruvax.Segments.Assign.{Position}
use gruvax.Segments.Bins.{SegmentBin}
use gruvax.Segments.Derive.{get_bin}
use gruvax.Editing.{
  CachedResponse, overrides_response, BoundaryChanged, Environment, Database, Profile, Refusal,
}
use gruvax.Editing.Validation.{text_key}
use gruvax.Editing.Idempotency.{check_idempotency, store_idempotency, cleanup_idempotency}
use gruvax.Editing.Insert.Moves.{announced-database}
use gruvax.Editing.Requests.{client_error, status_of}
use gruvax.Editing.Requests.Invariant.{announce-status}
use gruvax.Editing.Widths.{
  LabelOverride, member, key_at, bin_overrides, Writes, key_of, edit_effective, edit_all,
  effective_overrides, validate_bin_override_sums, write_override, write_overrides, phantom_labels,
  bin_labels_of, all_overridden, is_inexact, set_bin_overrides, answer_overrides, with_bin,
  labels_checked, sums_checked, commit_overrides,
}

at_place : (p : Position) (a b : Text) → key_eq (key_at p a) (key_at p b) ≡ text_eq a b
at_place (u, (r, c)) a b = ground arith

get-bin_overrides :
    (p : Position) (bin_labels : List Text) (label : Text) (items : Overrides)
    → member label bin_labels ≡ true
    → get text_key label (bin_overrides p bin_labels items)
      ≡ get override_key (key_at p label) items
unfolding bin_overrides get
get-bin_overrides p bin_labels label [] h = refl
get-bin_overrides (u, (r, c)) bin_labels label (((u', r', c', l), fraction) ∷ items) h =
    let again = get-bin_overrides (u, (r, c)) bin_labels label items h in
    let rest = bin_overrides (u, (r, c)) bin_labels items in
    let later = get override_key (key_at (u, (r, c)) label) items in
    elim (Bool-cases (text_eq l label)) [
      | inl e ↦
          subst
            (λ x.
              get text_key label (
                if key_eq (u', r', c', x) (u, r, c, x) && member x bin_labels
                then (x, fraction) ∷ rest
                else rest)
              ≡ (if key_eq (u', r', c', x) (u, r, c, label) then some fraction else later))
            (sym (text_eq_sound l label e))
            (elim (Bool-cases (key_eq (u', r', c', label) (u, r, c, label))) [
              | inl k ↦ rw (k, h, get, text_eq_refl label) refl
              | inr k ↦ rw k again
            ])
      | inr e ↦
          let other : key_eq (u', r', c', l) (u, r, c, label) ≡ false = ground (arith, e) in
          elim (Bool-cases (key_eq (u', r', c', l) (u, r, c, l) && member l bin_labels)) [
            | inl k ↦ rw (k, other, get, e) again
            | inr k ↦ rw (k, other) again
          ]
    ]

get-edited :
    (p : Position) (label key : Text) (fraction : Option Ratio) (effective : List (Text × Ratio))
    (w : Writes)
    → get text_key label effective ≡ get override_key (key_at p label) w.rows
    → get text_key label (edit_effective key fraction effective)
      ≡ get override_key (key_at p label) (write_override p key fraction w).rows
unfolding edit_effective write_override
get-edited p label key none effective w h = elim (Bool-cases (text_eq key label)) [
  | inl e ↦
      let same = text_eq_sound key label e in
      subst
        (λ k.
          get text_key label (pop text_key k effective)
          ≡ get override_key (key_at p label) (pop override_key (key_at p k) w.rows))
        (sym same)
        (get-pop_self text_key label effective
          ∙ sym (get-pop_self override_key (key_at p label) w.rows))
  | inr e ↦
      get-pop_ne text_key key label effective e
      ∙ h
      ∙ sym (
          get-pop_ne override_key (key_at p key) (key_at p label) w.rows (at_place p key label ∙ e))
]
get-edited p label key (some f) effective w h = elim (Bool-cases (text_eq key label)) [
  | inl e ↦
      let same = text_eq_sound key label e in
      subst
        (λ k.
          get text_key label (put text_key k f effective)
          ≡ get override_key (key_at p label) (put override_key (key_at p k) f w.rows))
        (sym same)
        (get-put_self text_key label f effective
          ∙ sym (get-put_self override_key (key_at p label) f w.rows))
  | inr e ↦
      get-put_ne text_key key label f effective e
      ∙ h
      ∙ sym (
          get-put_ne override_key (key_at p key) (key_at p label) f w.rows
            (at_place p key label ∙ e))
]

stored-overrides :
    (env : Environment) (key : Option Text) (response : CachedResponse) (db : Database)
    → (cleanup_idempotency env (store_idempotency env key response db)).overrides ≡ db.overrides
unfolding cleanup_idempotency store_idempotency
stored-overrides env none response db = refl
stored-overrides env (some key) response db = elim (Bool-cases (is_nil key)) [
  | inl e ↦ rw e refl
  | inr e ↦ rw e refl
]

is_nil_sound : {A : Type 0} (xs : List A) → is_nil xs ≡ true → xs ≡ []
is_nil_sound [] h = refl
is_nil_sound (x ∷ xs) h = ground arith

-- The guard's bound, for any set of widths.
bounded :
    (effective : List (Text × Ratio)) (bin_labels : List Text)
    → (if is_nil effective
        then none
        else if lt (one +ℚ ratio 1 1000000000) (sum (map (λ e. e.1) effective))
        then some (sum (map (λ e. e.1) effective))
        else if all_overridden bin_labels effective && is_inexact (sum (map (λ e. e.1) effective))
        then some (sum (map (λ e. e.1) effective))
        else none)
      ≡ none
    → lt (one +ℚ ratio 1 1000000000) (sum (map (λ e. e.1) effective)) ≡ false
unfolding sum
bounded [] bin_labels h = refl
bounded (e ∷ effective) bin_labels h =
    over (lt (one +ℚ ratio 1 1000000000) (sum (map (λ d. d.1) (e ∷ effective)))) _ _ h
  where
    over :
        (b : Bool) (other : Option Ratio) (total : Ratio)
        → (if b then some total else other) ≡ none
        → b ≡ false
    over true other total h = ground arith
    over false other total h = refl

module _ (u : Unicode) where
  get-edit_all :
      (p : Position) (label : Text) (overrides : List LabelOverride)
      (effective : List (Text × Ratio)) (w : Writes)
      → get text_key label effective ≡ get override_key (key_at p label) w.rows
      → get text_key label (edit_all u overrides effective)
        ≡ get override_key (key_at p label) (write_overrides u p overrides w).rows
  unfolding edit_all write_overrides
  get-edit_all p label [] effective w h = h
  get-edit_all p label (ov ∷ overrides) effective w h =
      get-edit_all p label overrides _ _
        (get-edited p label (key_of u ov) ov.fraction effective w h)

  committed :
      (env : Environment) (key : Option Text) (row col unit_id : ℕ) (overrides : List LabelOverride)
      (s : Profile) (b : SegmentBin)
      → check_idempotency key s.database ≡ none
      → get_bin s.segment_cache unit_id row col ≡ some b
      → phantom_labels u (bin_labels_of b) overrides ≡ []
      → validate_bin_override_sums u s.boundary_cache.overrides overrides
          (unit_id, (row, col))
          (bin_labels_of b)
        ≡ none
      → set_bin_overrides u env key (unit_id, (row, col)) overrides s
        ≡ commit_overrides u env key (unit_id, (row, col)) overrides s
  unfolding set_bin_overrides answer_overrides with_bin labels_checked sums_checked
  committed env key row col unit_id overrides s b new found labels accepted =
      let p : Position = (unit_id, (row, col)) in
      ap (answer_overrides u env key p overrides s) new
      ∙ ap (with_bin u env key p overrides s) found
      ∙ ap (labels_checked u env key p overrides s (bin_labels_of b)) labels
      ∙ ap (sums_checked u env key p overrides s) accepted

  -- Let a request have a key that is not known, a bin that is there, labels that are all in the bin and
  -- widths that the guard accepts. Then it is not refused; the widths that the guard adds up are together
  -- at most one and a billionth; and where the cache gives every key the same width as the table did
  -- before, they are, label by label of the bin, those of the table after the request.
  pub set_bin_overrides-effective :
      (env : Environment) (key : Option Text) (row col unit_id : ℕ) (overrides : List LabelOverride)
      (s : Profile) (b : SegmentBin) (label : Text)
      → check_idempotency key s.database ≡ none
      → get_bin s.segment_cache unit_id row col ≡ some b
      → phantom_labels u (bin_labels_of b) overrides ≡ []
      → validate_bin_override_sums u s.boundary_cache.overrides overrides
          (unit_id, (row, col))
          (bin_labels_of b)
        ≡ none
      → ((k : OverrideKey)
          → get override_key k s.boundary_cache.overrides ≡ get override_key k s.database.overrides)
      → member label (bin_labels_of b) ≡ true
      → let p : Position = (unit_id, (row, col)) in
        let effective =
          effective_overrides u s.boundary_cache.overrides overrides p (bin_labels_of b) in
        let outcome = set_bin_overrides u env key p overrides s in
        ((r : Refusal) → status_of outcome.0 ≢ client_error r)
        × (lt (one +ℚ ratio 1 1000000000) (sum (map (λ e. e.1) effective)) ≡ false)
        × (get override_key (key_at p label) outcome.1.database.overrides
            ≡ get text_key label effective)
  unfolding commit_overrides validate_bin_override_sums effective_overrides
  set_bin_overrides-effective env key row col unit_id overrides s b label new found labels accepted
        fresh here =
      let p : Position = (unit_id, (row, col)) in
      let start : Writes = record { rows = s.database.overrides; applied = 0; cleared = 0 } in
      let w = write_overrides u p overrides start in
      let response = overrides_response p w.applied w.cleared in
      let db : Database = record s.database { overrides = w.rows } in
      let db' = cleanup_idempotency env (store_idempotency env key response db) in
      let event : BoundaryChanged = (p ∷ [], none) in
      let answered_by = committed env key row col unit_id overrides s b new found labels accepted in
      (
        λ r h.
            announce-status u env event response (record s { database = db' }) r
              (ap (λ o. status_of o.0) (sym answered_by) ∙ h),
        bounded _ (bin_labels_of b) accepted,
        ap (λ o. get override_key (key_at p label) o.1.database.overrides) answered_by
            ∙ ap (λ (d : Database). get override_key (key_at p label) d.overrides)
                (announced-database u env event response (record s { database = db' }))
            ∙ ap (get override_key (key_at p label)) (stored-overrides env key response db)
            ∙ sym (
                get-edit_all p label overrides _ start (
                  get-bin_overrides p (bin_labels_of b) label s.boundary_cache.overrides here
                  ∙ fresh (key_at p label))),
      )
