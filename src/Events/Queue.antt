-- ===== src/Events/Queue.antt =====
-- What one client's connection does with the events that are offered to it.
use mathlib.Core.List.{append_assoc, append-nil}
use gruvax.Base.Subsequence.{
  IsSubsequence, done, IsSubsequence-append_skip, IsSubsequence-append_both,
}
use gruvax.Base.{
  map, subst, ℕ, zero, suc, ◌-◌, ◌&&◌, ◌≤◌, ◌<◌, ◌≡◌, refl, sym, ap, ◌∙◌, arith, Bool, true, ltb,
  List, [], ◌∷◌, ◌++◌, length, take, length-append, Bool-cases, inl, inr,
}
use gruvax.Events.{maxsize, put_nowait, put_or_drop, Connection, offer, send_next}

-- What happens to a connection: an event is offered, or the loop goes round.
pub data Turn (A : Type 0) : Type 0 where
  offered : A → Turn A
  looped : Turn A

module _ {A : Type 0} where
  unfoldable pub turn : Turn A → Connection A → Connection A
  turn (offered event) c = offer event c
  turn looped c = send_next c

  unfoldable pub turns : List (Turn A) → Connection A → Connection A
  turns [] c = c
  turns (t ∷ ts) c = turns ts (turn t c)

  -- The events of the offers.
  abbrev pub events : List (Turn A) → List A
  events [] = []
  events (offered event ∷ ts) = event ∷ events ts
  events (looped ∷ ts) = events ts

  -- Never more than the queue's size waits, for a queue without bound that starts with `n` events.
  abbrev pub fits : ℕ → List (Turn A) → Bool
  fits n [] = true
  fits n (offered event ∷ ts) = ltb n maxsize && fits (suc n) ts
  fits n (looped ∷ ts) = fits (n - 1) ts

  -- All that the client has had or will get.
  abbrev pub stream : Connection A → List A
  stream (q, sent) = sent ++ q

  put_or_drop-length :
      (event : A) (q : List A) → length q ≤ maxsize → length (put_or_drop event q) ≤ maxsize
  unfolding put_or_drop put_nowait
  put_or_drop-length event q h = ground (arith, length-append q (event ∷ []))

  take_all : (q : List A) (n : ℕ) → length q ≤ n → take n q ≡ q
  take_all [] zero h = refl
  take_all [] (suc n) h = refl
  take_all (x ∷ q) zero h = ground (arith, h)
  take_all (x ∷ q) (suc n) h = ap (◌∷◌ x) (take_all q n (omega (arith, h)))

  take-append : (q r : List A) (n : ℕ) → n ≤ length q → take n (q ++ r) ≡ take n q
  take-append q r zero h = refl
  take-append [] r (suc n) h = ground (arith, h)
  take-append (x ∷ q) r (suc n) h = ap (◌∷◌ x) (take-append q r n (omega (arith, h)))

  turn-length :
      (t : Turn A) (c : Connection A) → length c.0 ≤ maxsize → length (turn t c).0 ≤ maxsize
  unfolding turn offer send_next
  turn-length (offered event) (q, sent) h = put_or_drop-length event q h
  turn-length looped ([], sent) h = h
  turn-length looped (event ∷ q, sent) h = omega (arith, h)

  -- A queue never holds more than 64 events.
  pub turns-length :
      (ts : List (Turn A)) (c : Connection A)
      → length c.0 ≤ maxsize
      → length (turns ts c).0 ≤ maxsize
  unfolding turns
  turns-length [] c h = h
  turns-length (t ∷ ts) c h = turns-length ts (turn t c) (turn-length t c h)

  stream-send_next : (c : Connection A) → stream (send_next c) ≡ stream c
  unfolding send_next
  stream-send_next ([], sent) = refl
  stream-send_next (event ∷ q, sent) = append_assoc sent (event ∷ []) q

  put_or_drop_room :
      (event : A) (q : List A) → length q < maxsize → put_or_drop event q ≡ q ++ event ∷ []
  unfolding put_or_drop put_nowait
  put_or_drop_room event q h = ground (arith, h)

  put_or_drop_full : (event : A) (q : List A) → maxsize ≤ length q → put_or_drop event q ≡ q
  unfolding put_or_drop put_nowait
  put_or_drop_full event q h = ground (arith, h)

  stream-offer_room :
      (event : A) (c : Connection A)
      → length c.0 < maxsize
      → stream (offer event c) ≡ stream c ++ event ∷ []
  unfolding offer
  stream-offer_room event (q, sent) h =
      rw (put_or_drop_room event q h) (sym (append_assoc sent q (event ∷ [])))

  stream-offer_full :
      (event : A) (c : Connection A) → maxsize ≤ length c.0 → stream (offer event c) ≡ stream c
  unfolding offer
  stream-offer_full event (q, sent) h = rw (put_or_drop_full event q h) refl

  stream-offer-IsSubsequence :
      (event : A) (c : Connection A) (past : List A)
      → IsSubsequence (stream c) past
      → IsSubsequence (stream (offer event c)) (past ++ event ∷ [])
  stream-offer-IsSubsequence event c past s = elim (Bool-cases (ltb (length c.0) maxsize)) [
    | inl room ↦
        rw (stream-offer_room event c (ground (arith, room)))
          (IsSubsequence-append_both (stream c) past event s)
    | inr full ↦
        rw (stream-offer_full event c (ground (arith, full)))
          (IsSubsequence-append_skip (stream c) past event s)
  ]

  turns-IsSubsequence :
      (ts : List (Turn A)) (c : Connection A) (past : List A)
      → IsSubsequence (stream c) past
      → IsSubsequence (stream (turns ts c)) (past ++ events ts)
  unfolding turns turn
  turns-IsSubsequence [] c past s = rw (append-nil past) s
  turns-IsSubsequence (offered event ∷ ts) c past s =
      subst (IsSubsequence (stream (turns ts (offer event c))))
        (append_assoc past (event ∷ []) (events ts))
        (turns-IsSubsequence ts (offer event c) (past ++ event ∷ [])
          (stream-offer-IsSubsequence event c past s))
  turns-IsSubsequence (looped ∷ ts) c past s =
      turns-IsSubsequence ts (send_next c) past (rw (stream-send_next c) s)

  -- What a new client has had or will get is a subsequence of what was offered: nothing is invented,
  -- sent twice or put in another order.
  pub stream-IsSubsequence :
      (ts : List (Turn A)) → IsSubsequence (stream (turns ts ([], []))) (events ts)
  stream-IsSubsequence ts = turns-IsSubsequence ts ([], []) [] done

  waiting-offer :
      (event : A) (c : Connection A)
      → length c.0 < maxsize
      → length (offer event c).0 ≡ suc (length c.0)
  unfolding offer
  waiting-offer event (q, sent) h =
      rw (put_or_drop_room event q h) (omega (arith, length-append q (event ∷ [])))

  waiting-send_next : (c : Connection A) → length (send_next c).0 ≡ length c.0 - 1
  unfolding send_next
  waiting-send_next ([], sent) = refl
  waiting-send_next (event ∷ q, sent) = omega arith

  -- Nothing is lost as long as no more than 64 events would wait in a queue without bound: a client
  -- has had or will get all that was offered, in order.
  pub turns_lossless :
      (ts : List (Turn A)) (c : Connection A)
      → fits (length c.0) ts ≡ true
      → stream (turns ts c) ≡ stream c ++ events ts
  unfolding turns turn
  turns_lossless [] c h = sym (append-nil (stream c))
  turns_lossless (offered event ∷ ts) c h =
      let room : length c.0 < maxsize = ground (arith, h) in
      let fits_then : fits (length (offer event c).0) ts ≡ true =
        rw (waiting-offer event c room) (ground (arith, h)) in
      turns_lossless ts (offer event c) fits_then
      ∙ ap (λ (l : List A). l ++ events ts) (stream-offer_room event c room)
      ∙ append_assoc (stream c) (event ∷ []) (events ts)
  turns_lossless (looped ∷ ts) c h =
      turns_lossless ts (send_next c) (rw (waiting-send_next c) h)
      ∙ ap (λ (l : List A). l ++ events ts) (stream-send_next c)

  -- A client that is not served keeps the oldest 64 events: those that come after are dropped.
  pub turns_keep_oldest :
      (news q sent : List A)
      → length q ≤ maxsize
      → turns (map offered news) (q, sent) ≡ (take maxsize (q ++ news), sent)
  unfolding turns turn offer
  turns_keep_oldest [] q sent h =
      rw (append-nil q) (ap (λ (l : List A). (l, sent)) (sym (take_all q maxsize h)))
  turns_keep_oldest (event ∷ news) q sent h = elim (Bool-cases (ltb (length q) maxsize)) [
    | inl room ↦
        ap offered_to (put_or_drop_room event q (ground (arith, room)))
        ∙ turns_keep_oldest news (q ++ event ∷ []) sent
            (ground (arith, length-append q (event ∷ [])))
        ∙ ap (λ (l : List A). (take maxsize l, sent)) (append_assoc q (event ∷ []) news)
    | inr full ↦
        ap offered_to (put_or_drop_full event q (ground (arith, full)))
        ∙ turns_keep_oldest news q sent h
        ∙ ap (λ (l : List A). (l, sent))
            (take-append q news maxsize (ground (arith, full))
              ∙ sym (take-append q (event ∷ news) maxsize (ground (arith, full))))
  ]
    where
      offered_to : List A → Connection A
      offered_to l = turns (map offered news) (l, sent)
