-- ===== src/Events.antt =====
-- The event bus of a profile: gruvax/events/bus.py, and the loop of gruvax/api/events.py that sends a
-- subscriber's events to its client.
pub mod Queue
pub mod Bus
use gruvax.Base.{
  ℕ, suc, Bool, true, false, ◌==◌, ltb, Option, none, some, List, [], ◌∷◌, ◌++◌, map, Text,
  if◌then◌else◌, length, keep, not,
}

abbrev pub maxsize : ℕ
maxsize = 64

-- The events are of a type `A`, for the pairs of a name and data that `Event` holds.
-- A client's connection: its queue, and the events sent to the client, oldest first.
abbrev pub Connection : Type 0 → Type 0
Connection A = List A × List A

abbrev pub Subscriber : Type 0 → Type 0
Subscriber A = ℕ × Connection A

-- The queues are told apart by the order of their creation.
pub record EventBus (A : Type 0) : Type 0 where
  pub created : ℕ
  pub subscribers : List (Subscriber A)

module _ {A : Type 0} where
  -- `asyncio.Queue.put_nowait`; `none` is `QueueFull`.
  unfoldable pub put_nowait : A → List A → Option (List A)
  put_nowait event q = if ltb (length q) maxsize then some (q ++ event ∷ []) else none

  -- The exception is suppressed.
  unfoldable pub put_or_drop : A → List A → List A
  put_or_drop event q = elim (put_nowait event q) [ none ↦ q | some q' ↦ q' ]

  unfoldable pub offer : A → Connection A → Connection A
  offer event (q, sent) = (put_or_drop event q, sent)

  -- One round of the loop: `q.get()` within the timeout, and the event sent.
  unfoldable pub send_next : Connection A → Connection A
  send_next ([], sent) = ([], sent)
  send_next (event ∷ q, sent) = (q, sent ++ event ∷ [])

  -- `EventBus()`.
  abbrev pub new_bus : EventBus A
  new_bus = record { created = 0; subscribers = [] }

  -- `subscribe`: the queue's number and the bus.
  unfoldable pub subscribe : EventBus A → ℕ × EventBus A
  subscribe bus = (
    bus.created,
    record {
      created = suc bus.created;
      subscribers = bus.subscribers ++ (bus.created, ([], [])) ∷ [];
    },
  )

  -- `unsubscribe`, which discards.
  unfoldable pub unsubscribe : ℕ → EventBus A → EventBus A
  unsubscribe id bus = record bus { subscribers = keep (λ s. not (s.0 == id)) bus.subscribers }

  unfoldable pub publish : A → EventBus A → EventBus A
  publish event bus = record bus { subscribers = map (λ s. (s.0, offer event s.1)) bus.subscribers }

  -- One round of the loop of one subscriber.
  abbrev pub sent_if : ℕ → Subscriber A → Subscriber A
  sent_if id s = if s.0 == id then (s.0, send_next s.1) else s

  unfoldable pub serve : ℕ → EventBus A → EventBus A
  serve id bus = record bus { subscribers = map (sent_if id) bus.subscribers }
