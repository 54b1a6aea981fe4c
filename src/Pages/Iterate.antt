-- ===== src/Pages/Iterate.antt =====
-- The loop of `iter_pages` (gruvax/discogsography/client.py) ends, against a server that may answer as
-- it likes.
use gruvax.Base.{
  ℕ, zero, suc, ◌+◌, ◌≤◌, ◌<◌, ◌≡◌, ◌≢◌, ◌⊎◌, refl, sym, ap, ◌∙◌, arith, Bool, true, false, Option,
  none, some, List, [], ◌∷◌, Text, length, Bool-cases, Option-cases, inl, inr,
}
use gruvax.Pages.{
  Page, SnapshotPin, Server, Response, failed, malformed, envelope, Ending, finished, raised,
  out_of_fuel, validate_page, iter_from, iter_pages, with_page, in_range,
}
use gruvax.Pages.Valid.{IsValid, validate_page-IsValid}

module _ {R : Type 0} (server : Server R) (clock : ℕ → Text → Bool) (page_size : ℕ) where
  Response-cases :
      (r : Response R) → ((r ≡ failed) ⊎ (r ≡ malformed)) ⊎ ((page : Page R) × (r ≡ envelope page))
  Response-cases failed = inl (inl refl)
  Response-cases malformed = inl (inr refl)
  Response-cases (envelope page) = inr (page, refl)

  pub last_page :
      (page : Page R) (offset : ℕ) (pin : Option SnapshotPin) (current : SnapshotPin)
      → IsValid page offset page_size pin current
      → page.has_more ≡ false
      → page.total ≡ offset + length page.releases
  last_page page offset pin current v last = ground (arith, v.at.within, v.at.full, v.at.last last)

  more_page :
      (page : Page R) (offset : ℕ) (pin : Option SnapshotPin) (current : SnapshotPin)
      → 0 < page_size
      → IsValid page offset page_size pin current
      → page.has_more ≡ true
      → (0 < length page.releases) × (offset + length page.releases < page.total)
  more_page page offset pin current size v more =
      (ground (arith, v.at.within, v.at.full, v.at.more more, size), v.at.more more)

  -- A round raises, or it yields a valid page and goes on or finishes.
  unfoldable pub RoundOf : ℕ → ℕ → ℕ → Option SnapshotPin → List (Page R) × Ending → Type 0
  RoundOf fuel round offset pin result =
      (result ≡ ([], raised))
      ⊎ ((page : Page R) × (current : SnapshotPin) × (server round page_size offset pin
            ≡ envelope page)
          × IsValid page offset page_size pin current
          × (((page.has_more ≡ true)
                × (result
                    ≡ with_page page (
                        iter_from server clock page_size fuel (suc round)
                          (offset + length page.releases) (some current))))
              ⊎ ((page.has_more ≡ false) × (result ≡ (page ∷ [], finished)))))

  pub one_round :
      (fuel round offset : ℕ) (pin : Option SnapshotPin)
      → RoundOf fuel round offset pin (iter_from server clock page_size (suc fuel) round offset pin)
  unfolding RoundOf iter_from
  one_round fuel round offset pin = elim (Response-cases (server round page_size offset pin)) [
    | inl nothing ↦ elim nothing [
      | inl e ↦ inl (rw (iter_from, e) refl)
      | inr e ↦ inl (rw (iter_from, e) refl)
    ]
    | inr (page, e) ↦ elim (Option-cases (validate_page (clock round) page offset page_size pin)) [
      | inl f ↦ inl (rw (iter_from, e, f) refl)
      | inr (current, f) ↦
          let v = validate_page-IsValid (clock round) page offset page_size pin current f in
          elim (Bool-cases page.has_more) [
            | inl g ↦ inr (page, current, e, v, inl (g, rw (iter_from, e, f, g) refl))
            | inr g ↦ inr (page, current, e, v, inr (g, rw (iter_from, e, f, g) refl))
          ]
    ]
  ]

  with_page-ending :
      (page : Page R) (rest : List (Page R) × Ending) → (with_page page rest).1 ≡ rest.1
  unfolding with_page
  with_page-ending page (pages, ending) = refl

  round_ends :
      (fuel round offset : ℕ) (q : SnapshotPin)
      → 0 < page_size
      → offset ≤ q.total
      → q.total < fuel + offset
      → (iter_from server clock page_size fuel round offset (some q)).1 ≢ out_of_fuel
  unfolding RoundOf
  round_ends zero round offset q size below enough e = ground (arith, below, enough)
  round_ends (suc fuel) round offset q size below enough e =
      elim (one_round fuel round offset (some q)) [
        | inl r ↦ ground (arith, ap (λ (x : List (Page R) × Ending). x.1) r, e)
        | inr (page, current, answer, v, inl (more, r)) ↦
            let further = more_page page offset (some q) current size v more in
            let pinned : q.total ≡ page.total = v.pinned q refl in
            round_ends fuel (suc round) (offset + length page.releases) current size
              (ground (arith, further.1, v.same_total))
              (ground (arith, further.0, v.same_total, pinned, enough))
              (sym (with_page-ending page _) ∙ sym (ap (λ (x : List (Page R) × Ending). x.1) r) ∙ e)
        | inr (page, current, answer, v, inr (last, r)) ↦
            ground (arith, ap (λ (x : List (Page R) × Ending). x.1) r, e)
      ]

  first_round_ends :
      (bound : ℕ)
      → ((page : Page R) → server 0 page_size 0 none ≡ envelope page → page.total ≤ bound)
      → 0 < page_size
      → (iter_from server clock page_size (suc (suc bound)) 0 0 none).1 ≢ out_of_fuel
  unfolding RoundOf
  first_round_ends bound bounded size e = elim (one_round (suc bound) 0 0 none) [
    | inl r ↦ ground (arith, ap (λ (x : List (Page R) × Ending). x.1) r, e)
    | inr (page, current, answer, v, inl (more, r)) ↦
        let further = more_page page 0 none current size v more in
        round_ends (suc bound) 1 (0 + length page.releases) current size
          (ground (arith, further.1, v.same_total))
          (ground (arith, further.0, v.same_total, bounded page answer))
          (sym (with_page-ending page _) ∙ sym (ap (λ (x : List (Page R) × Ending). x.1) r) ∙ e)
    | inr (page, current, answer, v, inr (last, r)) ↦
        ground (arith, ap (λ (x : List (Page R) × Ending). x.1) r, e)
  ]

  -- With fuel for two rounds more than the total that the first page states, the loop ends, whatever
  -- the server answers: each page that goes on has a row at least, and the pin keeps the total.
  pub iter_pages_ends :
      (bound : ℕ)
      → ((page : Page R) → server 0 page_size 0 none ≡ envelope page → page.total ≤ bound)
      → (iter_pages server clock page_size (suc (suc bound))).1 ≢ out_of_fuel
  unfolding iter_pages
  iter_pages_ends bound bounded e = elim (Bool-cases (in_range 1 200 page_size)) [
    | inr bad ↦ ground (arith, (rw (iter_pages, bad) at e))
    | inl good ↦ first_round_ends bound bounded (ground (arith, good)) (rw (iter_pages, good) at e)
  ]
