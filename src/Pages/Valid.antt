-- ===== src/Pages/Valid.antt =====
-- What `validate_page` (gruvax/discogsography/snapshot_pages.py) guarantees of a page.
use mathlib.Core.Option.{some-injective}
use gruvax.Base.{
  ℕ, ◌+◌, ◌-◌, ◌≤◌, ◌<◌, ◌≡◌, sym, ap, ◌∙◌, arith, Bool, true, false, ◌&&◌, Option, none, some,
  Text, length, Bool-cases, inl, inr, text_eq_sound,
}
use gruvax.Pages.{
  Page, SnapshotPin, pin_of, same_pin, counts_agree, is_identified, agrees, validate_page, smaller,
}

-- A page that fits the request: it is full, or ends at the total, and says which.
pub record IsPageAt {R : Type 0} (page : Page R) (offset limit : ℕ) : Type 0 where
  pub within : offset ≤ page.total
  pub full : length page.releases ≡ smaller limit (page.total - offset)
  pub more : page.has_more ≡ true → offset + length page.releases < page.total
  pub last : page.has_more ≡ false → page.total ≤ offset + length page.releases

same_pin-total : (p q : SnapshotPin) → same_pin p q ≡ true → p.total ≡ q.total
same_pin-total p q h = ground (arith, h)

same_pin-token : (p q : SnapshotPin) → same_pin p q ≡ true → p.token ≡ q.token
same_pin-token p q h = text_eq_sound p.token q.token (ground (arith, h))

module _ {R : Type 0} where
  counts_agree-IsPageAt :
      (page : Page R) (offset limit : ℕ)
      → counts_agree page offset limit ≡ true
      → IsPageAt page offset limit
  unfolding counts_agree
  counts_agree-IsPageAt page offset limit h = record {
    within = ground (arith, h);
    full = ground (arith, h);
    more = λ m. ground (arith, h, m);
    last = λ m. ground (arith, h, m);
  }

  -- What a page that passes has to do with the request and with the pin before it.
  pub record IsValid (page : Page R) (offset limit : ℕ) (pin : Option SnapshotPin)
      (current : SnapshotPin) : Type 0 where
    pub at : IsPageAt page offset limit
    pub same_total : current.total ≡ page.total
    pub pinned : (q : SnapshotPin) → pin ≡ some q → q.total ≡ page.total
    pub same_offset : page.offset ≡ offset
    pub same_token : current.token ≡ page.snapshot_token
    pub pinned_token : (q : SnapshotPin) → pin ≡ some q → q.token ≡ page.snapshot_token

  counts_agree-offset :
      (page : Page R) (offset limit : ℕ)
      → counts_agree page offset limit ≡ true
      → page.offset ≡ offset
  unfolding counts_agree
  counts_agree-offset page offset limit h = ground (arith, h)

  agrees-token :
      (page : Page R) (pin : Option SnapshotPin) (q : SnapshotPin)
      → agrees pin (pin_of page) ≡ true
      → pin ≡ some q
      → q.token ≡ page.snapshot_token
  agrees-token page none q h e = ground (arith, e)
  agrees-token page (some p) q h e =
      ap (λ (r : SnapshotPin). r.token) (some-injective q p (sym e))
      ∙ sym (same_pin-token (pin_of page) p h)

  agrees-total :
      (page : Page R) (pin : Option SnapshotPin) (q : SnapshotPin)
      → agrees pin (pin_of page) ≡ true
      → pin ≡ some q
      → q.total ≡ page.total
  agrees-total page none q h e = ground (arith, e)
  agrees-total page (some p) q h e =
      ap (λ (r : SnapshotPin). r.total) (some-injective q p (sym e))
      ∙ sym (same_pin-total (pin_of page) p h)

  pub validate_page-IsValid :
      (is_future : Text → Bool) (page : Page R) (offset limit : ℕ) (pin : Option SnapshotPin)
      (current : SnapshotPin)
      → validate_page is_future page offset limit pin ≡ some current
      → IsValid page offset limit pin current
  unfolding validate_page
  validate_page-IsValid is_future page offset limit pin current e =
      elim (Bool-cases (
        counts_agree page offset limit
        && is_identified is_future page
        && agrees pin (pin_of page))) [
          | inl h ↦
              let same : pin_of page ≡ current =
                some-injective (pin_of page) current (rw (validate_page, h) at e) in
              record {
                at = counts_agree-IsPageAt page offset limit (ground (arith, h));
                same_total = ap (λ (r : SnapshotPin). r.total) (sym same);
                pinned = λ q. agrees-total page pin q (ground (arith, h));
                same_offset = counts_agree-offset page offset limit (ground (arith, h));
                same_token = ap (λ (r : SnapshotPin). r.token) (sym same);
                pinned_token = λ q. agrees-token page pin q (ground (arith, h));
              }
          | inr h ↦ absurd (ground (arith, (rw (validate_page, h) at e)))
        ]
