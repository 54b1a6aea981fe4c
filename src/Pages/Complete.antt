-- ===== src/Pages/Complete.antt =====
-- Where `iter_pages` (gruvax/discogsography/client.py) ends without an error, it has read the whole of
-- one snapshot.
use gruvax.Base.{
  is_nil, subst, ℕ, zero, suc, ◌+◌, ◌≤◌, ◌≡◌, refl, sym, ap, ap₂, ◌∙◌, arith, Bool, false, Option,
  none, some, List, [], ◌∷◌, ◌++◌, Text, All, length, Bool-cases, inl, inr, take, drop, take-drop,
}
use gruvax.Pages.{
  Page, SnapshotPin, Server, envelope, Ending, finished, out_of_fuel, iter_from, iter_pages,
  with_page, releases_of, in_range,
}
use gruvax.Pages.Valid.{IsValid}
use gruvax.Pages.Iterate.{RoundOf, one_round, last_page}

drop-nil : {A : Type 0} (n : ℕ) → drop n (let l : List A = [] in l) ≡ []
drop-nil zero = refl
drop-nil (suc n) = refl

drop-drop : {A : Type 0} (n m : ℕ) (xs : List A) → drop n (drop m xs) ≡ drop (m + n) xs
drop-drop n zero xs = ap (λ k. drop k xs) (omega arith)
drop-drop n (suc m) [] = drop-nil n ∙ sym (drop-nil (suc m + n))
drop-drop n (suc m) (x ∷ xs) =
    drop-drop n m xs
    ∙ ap (λ (k : ℕ). drop k (x ∷ xs)) (let e : suc (m + n) ≡ suc m + n = omega arith in e)

drop-all : {A : Type 0} (n : ℕ) (xs : List A) → length xs ≤ n → drop n xs ≡ []
drop-all zero [] h = refl
drop-all zero (x ∷ xs) h = ground (arith, h)
drop-all (suc n) [] h = refl
drop-all (suc n) (x ∷ xs) h = drop-all n xs (omega arith)

module _ {R : Type 0} (contents : Text → List R) where
  -- An envelope of the server is a slice of the snapshot that its token names, and states that
  -- snapshot's size.
  pub record IsSlice (page : Page R) : Type 0 where
    pub whole : page.total ≡ length (contents page.snapshot_token)
    pub slice :
        page.releases
        ≡ take (length page.releases) (drop page.offset (contents page.snapshot_token))

  abbrev pub Serves : Server R → Type 0
  Serves server =
      (round limit offset : ℕ) (pin : Option SnapshotPin) (page : Page R)
      → server round limit offset pin ≡ envelope page
      → IsSlice page

module _ {R : Type 0} (server : Server R) (clock : ℕ → Text → Bool) (page_size : ℕ)
    (contents : Text → List R) where
  -- The pages are of the snapshot, which the pin names too, and hold what is in it from an offset on.
  abbrev Reads : Option SnapshotPin → ℕ → List (Page R) → Text → Type 0
  Reads pin offset pages token =
      All (λ page. page.snapshot_token ≡ token) pages
      × ((q : SnapshotPin) → pin ≡ some q → q.token ≡ token)
      × (releases_of pages ≡ drop offset (contents token))

  with_page-finished :
      (page : Page R) (rest : List (Page R) × Ending) (pages : List (Page R))
      → with_page page rest ≡ (pages, finished)
      → (tail : List (Page R)) × (rest ≡ (tail, finished)) × (page ∷ tail ≡ pages)
  unfolding with_page
  with_page-finished page (tail, ending) pages e = (
    tail,
    ap (λ (x : List (Page R) × Ending). (tail, x.1)) e,
    ap (λ (x : List (Page R) × Ending). x.0) e,
  )

  no_fuel :
      (round offset : ℕ) (pin : Option SnapshotPin)
      → (iter_from server clock page_size 0 round offset pin).1 ≡ out_of_fuel
  unfolding iter_from
  no_fuel round offset pin = refl

  -- A page goes on where it stops.
  slice_then_rest :
      (page : Page R) (offset : ℕ)
      → IsSlice contents page
      → page.offset ≡ offset
      → page.releases ++ drop (offset + length page.releases) (contents page.snapshot_token)
        ≡ drop offset (contents page.snapshot_token)
  slice_then_rest page offset s at =
      let c = contents page.snapshot_token in
      let n = length page.releases in
      let cut : page.releases ≡ take n (drop offset c) = s.slice ∙ ap (λ o. take n (drop o c)) at in
      ap₂ ◌++◌ cut (sym (drop-drop n offset c)) ∙ take-drop n (drop offset c)

  one_page-Reads :
      (page : Page R) (offset : ℕ) (pin : Option SnapshotPin) (current : SnapshotPin)
      → IsSlice contents page
      → IsValid page offset page_size pin current
      → page.has_more ≡ false
      → Reads pin offset (page ∷ []) page.snapshot_token
  unfolding releases_of
  one_page-Reads page offset pin current s v last =
      let all : page.total ≡ offset + length page.releases =
        last_page server clock page_size page offset pin current v last in
      (
        (refl, tt),
        v.pinned_token,
        ap (λ l. page.releases ++ l)
              (sym (
                drop-all (offset + length page.releases) (contents page.snapshot_token)
                  (omega (arith, all, s.whole))))
            ∙ slice_then_rest page offset s v.same_offset,
      )

  Reads-cons :
      (page : Page R) (offset : ℕ) (pin : Option SnapshotPin) (current : SnapshotPin)
      (tail : List (Page R)) (token : Text)
      → IsSlice contents page
      → IsValid page offset page_size pin current
      → Reads (some current) (offset + length page.releases) tail token
      → Reads pin offset (page ∷ tail) token
  unfolding releases_of
  Reads-cons page offset pin current tail token s v (all, pinned, rest) =
      let same : page.snapshot_token ≡ token = sym v.same_token ∙ pinned current refl in
      (
        (same, all),
        λ q e. v.pinned_token q e ∙ same,
        subst (λ t. page.releases ++ releases_of tail ≡ drop offset (contents t)) same
            (ap (λ l. page.releases ++ l)
                (rest ∙ ap (λ t. drop (offset + length page.releases) (contents t)) (sym same))
              ∙ slice_then_rest page offset s v.same_offset),
      )

  iter_from-Reads :
      (fuel round offset : ℕ) (pin : Option SnapshotPin) (pages : List (Page R))
      → Serves contents server
      → iter_from server clock page_size fuel round offset pin ≡ (pages, finished)
      → (is_nil pages ≡ false) × ((token : Text) × Reads pin offset pages token)
  unfolding RoundOf
  iter_from-Reads zero round offset pin pages serves e =
      absurd (ground (arith, no_fuel round offset pin, ap (λ (x : List (Page R) × Ending). x.1) e))
  iter_from-Reads (suc fuel) round offset pin pages serves e =
      elim (one_round server clock page_size fuel round offset pin) [
        | inl r ↦ absurd (ground (arith, sym r ∙ e))
        | inr (page, current, answer, v, inl (more, r)) ↦
            let (tail, rest, same) = with_page-finished page _ pages (sym r ∙ e) in
            let s = serves round page_size offset pin page answer in
            let (token, reads) =
              (iter_from-Reads fuel (suc round) (offset + length page.releases) (some current) tail
                serves rest).1 in
            subst (λ l. (is_nil l ≡ false) × ((t : Text) × Reads pin offset l t)) same
              (refl, (token, Reads-cons page offset pin current tail token s v reads))
        | inr (page, current, answer, v, inr (last, r)) ↦
            let same : page ∷ [] ≡ pages = ap (λ (x : List (Page R) × Ending). x.0) (sym r ∙ e) in
            let s = serves round page_size offset pin page answer in
            subst (λ l. (is_nil l ≡ false) × ((t : Text) × Reads pin offset l t)) same
              (refl, (page.snapshot_token, one_page-Reads page offset pin current s v last))
      ]

  -- Let each envelope that the server answers with be a slice, from the offset that it states, of the
  -- snapshot that its token names, and state that snapshot's size. Where the iteration then finishes
  -- without an error, it has yielded a page, all its pages are of one snapshot, and their releases, in
  -- order, are exactly what is in it.
  pub iter_pages_complete :
      (fuel : ℕ) (pages : List (Page R))
      → Serves contents server
      → iter_pages server clock page_size fuel ≡ (pages, finished)
      → (is_nil pages ≡ false)
        × ((token : Text) × All (λ page. page.snapshot_token ≡ token) pages
            × (releases_of pages ≡ contents token))
  unfolding iter_pages
  iter_pages_complete fuel pages serves e = elim (Bool-cases (in_range 1 200 page_size)) [
    | inr bad ↦ absurd (ground (arith, (rw (iter_pages, bad) at e)))
    | inl good ↦
        let loop = rw (iter_pages, good) at e in
        let (some_page, (token, (all, pinned, reads))) =
          iter_from-Reads fuel 0 0 none pages serves loop in
        (some_page, (token, all, reads))
  ]
