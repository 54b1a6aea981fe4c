-- ===== src/Editing/Requests/Replay.antt =====
-- A bulk request that is sent again under its key.
use gruvax.Base.{
  ◌≡◌, refl, sym, ap, ◌∙◌, ◌+◌, Bool, true, false, not, Option, none, some, List, [], ◌∷◌, ◌++◌,
  map, arith, if◌then◌else◌, Bool-cases, inl, inr, Text, text_eq, text_eq_refl, any, keep,
  keep-append, ltb, is_nil, ◌&&◌,
}
use gruvax.Unicode.{Unicode}
use gruvax.Segments.Assign.{Position}
use gruvax.Editing.{
  Cut, Edit, Environment, Source, Database, Profile, Outcome, answered, raised, refused,
  phantom_boundary, written, CachedResponse, IdempotencyRow, write_and_record, write_edit,
  write_boundary, write_history_row, announce,
}
use gruvax.Editing.Idempotency.{
  cached_response, check_idempotency, insert_key, store_idempotency, cleanup_idempotency, lifetime,
}
use gruvax.Editing.Bulk.{
  BoundaryEdit, Batch, failed, violated, done, edit_of, write_updates, is_complete, is_allowed,
  or_bulk, response_of, after_bulk, bulk_checked, write_bulk, unless_cached, bulk_write_cubes,
}
use gruvax.Editing.Requests.Steps.{Written-cases, write_and_record-written, tables_done}
use gruvax.Editing.Requests.Invariant.{rebuild-database}

abbrev Keys : Type 0
Keys = List IdempotencyRow

cached-append :
    (key : Text) (xs ys : Keys)
    → cached_response key xs ≡ none
    → cached_response key (xs ++ ys) ≡ cached_response key ys
unfolding cached_response
cached-append key [] ys h = refl
cached-append key (x ∷ xs) ys h = ground (arith, cached-append key xs ys)

cached-keep :
    (key : Text) (p : IdempotencyRow → Bool) (xs : Keys)
    → cached_response key xs ≡ none
    → cached_response key (keep p xs) ≡ none
unfolding cached_response
cached-keep key p [] h = refl
cached-keep key p (x ∷ xs) h = ground (arith, cached-keep key p xs)

unknown_key :
    (key : Text) (xs : Keys)
    → cached_response key xs ≡ none
    → any (λ r. text_eq r.key key) xs ≡ false
unfolding cached_response
unknown_key key [] h = refl
unknown_key key (x ∷ xs) h = ground (arith, unknown_key key xs)

-- A key that is stored outlives the cleanup of its own transaction.
stored_key :
    (env : Environment) (key : Text) (response : CachedResponse) (db : Database)
    → is_nil key ≡ false
    → cached_response key db.idempotency_keys ≡ none
    → cached_response key
        (cleanup_idempotency env (store_idempotency env (some key) response db)).idempotency_keys
      ≡ some response
unfolding cleanup_idempotency store_idempotency insert_key cached_response
stored_key env key response db filled h =
    let p = λ (r : IdempotencyRow). not (ltb (r.created_at + lifetime) env.now) in
    let new : IdempotencyRow = record { key = key; response = response; created_at = env.now } in
    rw (filled, unknown_key key db.idempotency_keys h)
      (ap (cached_response key) (keep-append p db.idempotency_keys (new ∷ []))
        ∙ cached-append key (keep p db.idempotency_keys) (keep p (new ∷ []))
            (cached-keep key p db.idempotency_keys h)
        ∙ ground (arith, text_eq_refl key))

write_and_record-keys :
    (env : Environment) (source : Source) (p : Position) (prev : Option Cut) (c : Cut)
    (db db' : Database)
    → write_and_record env source p prev c db ≡ written db'
    → db'.idempotency_keys ≡ db.idempotency_keys
unfolding write_boundary write_history_row
write_and_record-keys env source p prev c db db' h =
    let (n, e, result) = write_and_record-written env source p prev c db db' h in
    sym (ap (λ d. d.idempotency_keys) result)

write_updates-keys :
    (env : Environment) (source : Option Source) (edits : List Edit) (db db' : Database)
    → write_updates env source edits db ≡ done db'
    → db'.idempotency_keys ≡ db.idempotency_keys
unfolding write_updates write_edit
write_updates-keys env source [] db db' h = sym (ap (λ b. (tables_done db b).idempotency_keys) h)
write_updates-keys env source (e ∷ edits) db db' h =
    elim (Written-cases (write_edit env (or_bulk source) e db)) [
      | inl (r, w) ↦
          let clash : failed r ≡ done db' = (rw (write_updates, w) at h) in ground (arith, clash)
      | inr (db₁, w) ↦ elim (Bool-cases (is_complete e.1 && is_allowed source)) [
        | inl c ↦
            write_updates-keys env source edits db₁ db' (rw (write_updates, w, c) at h)
            ∙ write_and_record-keys env (or_bulk source) e.0 _ e.1 db db₁ w
        | inr c ↦
            let clash : violated ≡ done db' = (rw (write_updates, w, c) at h) in
            ground (arith, clash)
      ]
    ]

-- The answer of an outcome, for one that is none.
answer_of : CachedResponse → Outcome CachedResponse → CachedResponse
answer_of d (answered a) = a
answer_of d (refused r) = d
answer_of d raised = d

announced_answer :
    (a answer : CachedResponse) (returned : Bool)
    → (if returned then answered a else raised) ≡ answered answer
    → a ≡ answer
unfolding answer_of
announced_answer a answer true h = ap (answer_of a) h
announced_answer a answer false h = ground arith

module _ (u : Unicode) where
  -- Where a request under a new key is answered, its key is stored with the answer.
  module _ (env : Environment) (key : Text) (source : Option Source) (updates : List BoundaryEdit)
      (s : Profile) (answer : CachedResponse) (filled : is_nil key ≡ false)
      (unknown : cached_response key s.database.idempotency_keys ≡ none) where
    abbrev Stores : Outcome CachedResponse × Profile → Type 0
    Stores o = cached_response key o.1.database.idempotency_keys ≡ some answer

    batch-Stores :
        (b : Batch)
        → write_updates env source (map edit_of updates) s.database ≡ b
        → (after_bulk u env (some key) updates s b).0 ≡ answered answer
        → Stores (after_bulk u env (some key) updates s b)
    unfolding after_bulk announce
    batch-Stores (failed r) e h = ground arith
    batch-Stores violated e h = ground arith
    batch-Stores (done db) e h =
        let unknown' : cached_response key db.idempotency_keys ≡ none =
          ap (cached_response key) (write_updates-keys env source _ s.database db e) ∙ unknown in
        ap (λ d. cached_response key d.idempotency_keys) (rebuild-database u env _)
        ∙ stored_key env key (response_of env updates) db filled unknown'
        ∙ ap some (announced_answer _ answer _ h)

    check-Stores :
        (error : Option Text)
        → (bulk_checked u env (some key) source updates s error).0 ≡ answered answer
        → Stores (bulk_checked u env (some key) source updates s error)
    unfolding bulk_checked
    check-Stores (some label) h = ground arith
    check-Stores none h = batch-Stores _ refl h

    phantom-Stores :
        (phantom : Bool) (error : Option Text)
        → (if phantom
            then (refused phantom_boundary, s)
            else bulk_checked u env (some key) source updates s error).0
          ≡ answered answer
        → Stores (
            if phantom
            then (refused phantom_boundary, s)
            else bulk_checked u env (some key) source updates s error)
    phantom-Stores true error h = ground arith
    phantom-Stores false error h = check-Stores error h

    bulk-Stores :
        (write_bulk u env (some key) source updates s).0 ≡ answered answer
        → Stores (write_bulk u env (some key) source updates s)
    unfolding write_bulk
    bulk-Stores h = phantom-Stores _ _ h

  -- The lookup of a key that is not empty.
  looked_up :
      (env : Environment) (key : Text) (source : Option Source) (updates : List BoundaryEdit)
      (s : Profile) (cached : Option CachedResponse)
      → is_nil key ≡ false
      → cached_response key s.database.idempotency_keys ≡ cached
      → bulk_write_cubes u env (some key) source updates s
        ≡ unless_cached u env (some key) source updates s cached
  unfolding bulk_write_cubes check_idempotency
  looked_up env key source updates s cached filled e =
      ap (unless_cached u env (some key) source updates s)
        (ap (λ b. if b then none else cached_response key s.database.idempotency_keys) filled ∙ e)

  -- An answered request leaves its key with the answer, whether the key was there before or not.
  answered_key :
      (env : Environment) (key : Text) (source : Option Source) (updates : List BoundaryEdit)
      (s : Profile) (answer : CachedResponse) (cached : Option CachedResponse)
      → is_nil key ≡ false
      → cached_response key s.database.idempotency_keys ≡ cached
      → (unless_cached u env (some key) source updates s cached).0 ≡ answered answer
      → cached_response key
          (unless_cached u env (some key) source updates s cached).1.database.idempotency_keys
        ≡ some answer
  unfolding unless_cached answer_of
  answered_key env key source updates s answer none filled e h =
      bulk-Stores env key source updates s answer filled e h
  answered_key env key source updates s answer (some response) filled e h =
      e ∙ ap (λ o. some (answer_of response o)) h

  -- A bulk request under a key that is not empty, once it is answered, is answered the same whenever it
  -- is sent next under that key, whatever else it then holds, and changes nothing any more.
  pub bulk_write_cubes-again :
      (env env' : Environment) (key : Text) (source source' : Option Source)
      (updates updates' : List BoundaryEdit) (s : Profile) (answer : CachedResponse)
      → is_nil key ≡ false
      → (bulk_write_cubes u env (some key) source updates s).0 ≡ answered answer
      → bulk_write_cubes u env'
          (some key)
          source'
          updates'
          (bulk_write_cubes u env (some key) source updates s).1
        ≡ (answered answer, (bulk_write_cubes u env (some key) source updates s).1)
  unfolding unless_cached
  bulk_write_cubes-again env env' key source source' updates updates' s answer filled h =
      let cached = cached_response key s.database.idempotency_keys in
      let looked = looked_up env key source updates s cached filled refl in
      let stored =
        ap (λ o. cached_response key o.1.database.idempotency_keys) looked
        ∙ answered_key env key source updates s answer cached filled refl
            (sym (ap (λ o. o.0) looked) ∙ h) in
      looked_up env' key source' updates' (bulk_write_cubes u env (some key) source updates s).1
        (some answer) filled stored
