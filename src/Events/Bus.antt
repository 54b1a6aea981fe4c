-- ===== src/Events/Bus.antt =====
-- The bus as a whole: what each of its connections sees.
use gruvax.Base.{
  ℕ, suc, ◌<◌, ◌≡◌, refl, arith, true, false, ◌==◌, not, Option, none, some, List, [], ◌∷◌, ◌++◌,
  map, keep, if◌then◌else◌, Bool-cases, inl, inr,
}
use gruvax.Events.{
  Connection, Subscriber, EventBus, offer, send_next, subscribe, unsubscribe, publish, sent_if,
  serve, new_bus,
}
use gruvax.Events.Queue.{Turn, offered, looped, turn, turns}

-- A call of the bus, or a round of the loop of one subscriber.
pub data Call (A : Type 0) : Type 0 where
  join : Call A
  leave : ℕ → Call A
  announce : A → Call A
  go_round : ℕ → Call A

module _ {A : Type 0} where
  unfoldable pub call : Call A → EventBus A → EventBus A
  call join bus = (subscribe bus).1
  call (leave id) bus = unsubscribe id bus
  call (announce event) bus = publish event bus
  call (go_round id) bus = serve id bus

  unfoldable pub calls : List (Call A) → EventBus A → EventBus A
  calls [] bus = bus
  calls (c ∷ cs) bus = calls cs (call c bus)

  unfoldable pub connection : ℕ → List (Subscriber A) → Option (Connection A)
  connection id [] = none
  connection id (s ∷ l) = let rest = connection id l in if s.0 == id then some s.1 else rest

  -- What the calls are to one subscriber.
  unfoldable pub turns_of : ℕ → List (Call A) → List (Turn A)
  turns_of id [] = []
  turns_of id (announce event ∷ cs) = offered event ∷ turns_of id cs
  turns_of id (go_round other ∷ cs) =
      let rest = turns_of id cs in if other == id then looped ∷ rest else rest
  turns_of id (_ ∷ cs) = turns_of id cs

  abbrev pub Stays : ℕ → List (Call A) → Type 0
  Stays id [] = Unit
  Stays id (leave other ∷ cs) = ((other == id) ≡ false) × Stays id cs
  Stays id (_ ∷ cs) = Stays id cs

  connection-publish :
      (id : ℕ) (event : A) (l : List (Subscriber A)) (c : Connection A)
      → connection id l ≡ some c
      → connection id (map (λ s. (s.0, offer event s.1)) l) ≡ some (offer event c)
  unfolding connection
  connection-publish id event [] c e = ground (arith, e)
  connection-publish id event (s ∷ l) c e = ground (arith, connection-publish id event l c, e)

  connection-serve_other :
      (id other : ℕ) (l : List (Subscriber A)) (c : Connection A)
      → (other == id) ≡ false
      → connection id l ≡ some c
      → connection id (map (sent_if other) l) ≡ some c
  unfolding connection
  connection-serve_other id other [] c h e = ground (arith, e)
  connection-serve_other id other (s ∷ l) c h e =
      ground (arith, connection-serve_other id other l c h, h, e)

  connection-serve :
      (id other : ℕ) (l : List (Subscriber A)) (c : Connection A)
      → (other == id) ≡ true
      → connection id l ≡ some c
      → connection id (map (sent_if other) l) ≡ some (send_next c)
  unfolding connection
  connection-serve id other [] c h e = ground (arith, e)
  connection-serve id other (s ∷ l) c h e = ground (arith, connection-serve id other l c h, h, e)

  connection-join :
      (id : ℕ) (l : List (Subscriber A)) (s : Subscriber A) (c : Connection A)
      → connection id l ≡ some c
      → connection id (l ++ s ∷ []) ≡ some c
  unfolding connection
  connection-join id [] s c e = ground (arith, e)
  connection-join id (r ∷ l) s c e = ground (arith, connection-join id l s c, e)

  connection-leave :
      (id other : ℕ) (l : List (Subscriber A)) (c : Connection A)
      → (other == id) ≡ false
      → connection id l ≡ some c
      → connection id (keep (λ s. not (s.0 == other)) l) ≡ some c
  unfolding connection
  connection-leave id other [] c h e = ground (arith, e)
  connection-leave id other (s ∷ l) c h e = ground (arith, connection-leave id other l c h, h, e)

  connection-calls :
      (id : ℕ) (cs : List (Call A)) (bus : EventBus A) (c : Connection A)
      → connection id bus.subscribers ≡ some c
      → Stays id cs
      → connection id (calls cs bus).subscribers ≡ some (turns (turns_of id cs) c)
  unfolding calls call turns turn turns_of publish serve subscribe unsubscribe
  connection-calls id [] bus c e stays = e
  connection-calls id (join ∷ cs) bus c e stays =
      connection-calls id cs (subscribe bus).1 c (connection-join id bus.subscribers _ c e) stays
  connection-calls id (leave other ∷ cs) bus c e stays =
      connection-calls id cs (unsubscribe other bus) c
        (connection-leave id other bus.subscribers c stays.0 e) stays.1
  connection-calls id (announce event ∷ cs) bus c e stays =
      connection-calls id cs (publish event bus) (offer event c)
        (connection-publish id event bus.subscribers c e) stays
  connection-calls id (go_round other ∷ cs) bus c e stays = elim (Bool-cases (other == id)) [
    | inl same ↦ rw same (
        connection-calls id cs (serve other bus) (send_next c)
          (connection-serve id other bus.subscribers c same e) stays)
    | inr different ↦ rw different (
        connection-calls id cs (serve other bus) c
          (connection-serve_other id other bus.subscribers c different e) stays)
  ]

  -- Every subscriber's number is below the next.
  AreBelow : ℕ → List (Subscriber A) → Type 0
  AreBelow n [] = Unit
  AreBelow n (s ∷ l) = (s.0 < n) × AreBelow n l

  AreBelow-join :
      (n : ℕ) (l : List (Subscriber A)) → AreBelow n l → AreBelow (suc n) (l ++ (n, ([], [])) ∷ [])
  unfolding AreBelow
  AreBelow-join n [] b = (omega arith, tt)
  AreBelow-join n (s ∷ l) b = (omega (arith, b.0), AreBelow-join n l b.1)

  AreBelow-leave :
      (n id : ℕ) (l : List (Subscriber A))
      → AreBelow n l
      → AreBelow n (keep (λ s. not (s.0 == id)) l)
  unfolding AreBelow
  AreBelow-leave n id [] b = tt
  AreBelow-leave n id (s ∷ l) b = elim (Bool-cases (s.0 == id)) [
    | inl e ↦ rw e (AreBelow-leave n id l b.1)
    | inr e ↦ rw e (b.0, AreBelow-leave n id l b.1)
  ]

  AreBelow-map :
      (n : ℕ) (f : Subscriber A → Subscriber A) (l : List (Subscriber A))
      → ((s : Subscriber A) → (f s).0 ≡ s.0)
      → AreBelow n l
      → AreBelow n (map f l)
  unfolding AreBelow
  AreBelow-map n f [] same b = tt
  AreBelow-map n f (s ∷ l) same b = (rw (same s) b.0, AreBelow-map n f l same b.1)

  AreBelow-calls :
      (cs : List (Call A)) (bus : EventBus A)
      → AreBelow bus.created bus.subscribers
      → AreBelow (calls cs bus).created (calls cs bus).subscribers
  unfolding calls call publish serve subscribe unsubscribe
  AreBelow-calls [] bus b = b
  AreBelow-calls (join ∷ cs) bus b = AreBelow-calls cs (subscribe bus).1 (AreBelow-join _ _ b)
  AreBelow-calls (leave id ∷ cs) bus b =
      AreBelow-calls cs (unsubscribe id bus) (AreBelow-leave _ id _ b)
  AreBelow-calls (announce event ∷ cs) bus b =
      AreBelow-calls cs (publish event bus) (AreBelow-map _ _ _ (λ s. refl) b)
  AreBelow-calls (go_round id ∷ cs) bus b =
      AreBelow-calls cs (serve id bus) (AreBelow-map _ (sent_if id) _ (λ s. ground arith) b)

  connection-new :
      (n : ℕ) (l : List (Subscriber A))
      → AreBelow n l
      → connection n (l ++ (n, ([], [])) ∷ []) ≡ some ([], [])
  unfolding connection AreBelow
  connection-new n [] b = ground arith
  connection-new n (s ∷ l) b = ground (arith, b, connection-new n l)

  -- A client that joins a bus with any past, and stays, sees the events announced since and its own
  -- rounds and nothing else: it starts with an empty queue, and the subscribers that join, leave, are
  -- served or are slow do not matter.
  pub connection-subscribe :
      (past cs : List (Call A))
      → Stays (calls past new_bus).created cs
      → connection
          (calls past new_bus).created
          (calls cs (subscribe (calls past new_bus)).1).subscribers
        ≡ some (turns (turns_of (calls past new_bus).created cs) ([], []))
  unfolding subscribe AreBelow
  connection-subscribe past cs stays =
      connection-calls _ cs _ ([], []) (connection-new _ _ (AreBelow-calls past new_bus tt)) stays
