-- ===== src/Tests/Stream.antt =====
-- Two clients of an event bus, with numbers for events.
use gruvax.Base.{ℕ, ◌≡◌, refl, arith, some, List, [], ◌∷◌, ◌++◌, map, take}
use gruvax.Base.Subsequence.{IsSubsequence}
use gruvax.Events.{maxsize, subscribe, new_bus, offer, send_next, put_or_drop, put_nowait}
use gruvax.Events.Queue.{
  Turn, offered, looped, turn, turns, stream, events, stream-IsSubsequence, turns_lossless,
  turns_keep_oldest,
}
use gruvax.Events.Bus.{
  Call, join, leave, announce, go_round, calls, connection, turns_of, connection-subscribe,
}

abbrev news : List (Turn ℕ)
news = offered 7 ∷ looped ∷ offered 8 ∷ offered 9 ∷ looped ∷ []

stream-IsSubsequence_example : IsSubsequence (stream (turns news ([], []))) (events news)
stream-IsSubsequence_example = stream-IsSubsequence news

turns_lossless_example : stream (turns news ([], [])) ≡ 7 ∷ 8 ∷ 9 ∷ []
turns_lossless_example = turns_lossless news ([], []) refl

abbrev first : List ℕ
first = 7 ∷ []

abbrev later : List ℕ
later = 8 ∷ 9 ∷ []

turns_keep_oldest_example :
    turns (map offered later) (first, []) ≡ (take maxsize (first ++ later), [])
turns_keep_oldest_example = turns_keep_oldest later first [] (omega arith)

abbrev past : List (Call ℕ)
past = []

-- A second client that joins, is served, and leaves.
abbrev traffic : List (Call ℕ)
traffic = announce 7 ∷ join ∷ announce 8 ∷ go_round 1 ∷ go_round 0 ∷ leave 1 ∷ announce 9 ∷ []

connection-subscribe_example :
    connection
      (calls past new_bus).created
      (calls traffic (subscribe (calls past new_bus)).1).subscribers
    ≡ some (turns (turns_of (calls past new_bus).created traffic) ([], []))
unfolding calls
connection-subscribe_example = connection-subscribe past traffic (refl, tt)

-- One event has been sent, two wait.
seen : turns (turns_of 0 traffic) ([], []) ≡ (8 ∷ 9 ∷ [], 7 ∷ [])
unfolding turns turns_of turn offer send_next put_or_drop put_nowait
seen = refl
