-- ===== src/Pages.antt =====
-- The collection pages that a sync reads: gruvax/discogsography/snapshot_pages.py, and `iter_pages` of
-- gruvax/discogsography/client.py.
pub mod Valid
pub mod Iterate
pub mod Complete
use gruvax.Base.{
  ℕ, zero, suc, ◌+◌, ◌-◌, Bool, true, false, ◌&&◌, ◌||◌, not, ◌==◌, ltb, leb, Option, none, some,
  List, [], ◌∷◌, ◌++◌, Text, text_eq, codes, if◌then◌else◌, length, is_nil, drop,
}

-- `SnapshotPin`.
pub record SnapshotPin : Type 0 where
  pub user_id : Text
  pub token : Text
  pub generation : Text
  pub expires_at : Text
  pub total : ℕ

-- A page envelope whose fields pass the type tests; `R` is the type of a release row.
pub record Page (R : Type 0) : Type 0 where
  pub releases : List R
  pub total : ℕ
  pub offset : ℕ
  pub limit : ℕ
  pub has_more : Bool
  pub user_id : Text
  pub snapshot_generation : Text
  pub snapshot_token : Text
  pub snapshot_expires_at : Text
  pub snapshot_source : Text

-- What a request for a page comes to: an exception of the transport, a body that fails a type test of
-- `validate_page`, or an envelope.
pub data Response (R : Type 0) : Type 0 where
  failed malformed : Response R
  envelope : Page R → Response R

abbrev pub in_range : ℕ → ℕ → ℕ → Bool
in_range first last c = leb first c && leb c last

-- The hexadecimal digits that `str(UUID(...))` writes.
abbrev pub is_hex : ℕ → Bool
is_hex c = in_range 48 57 c || in_range 97 102 c

-- As many digits as the first group asks for, a hyphen between the groups, and no more.
abbrev pub has_groups : ℕ → List ℕ → Text → Bool
has_groups zero [] [] = true
has_groups zero (suc n ∷ groups) (c ∷ t) = c == 45 && has_groups (suc n) groups t
has_groups (suc n) groups (c ∷ t) = is_hex c && has_groups n groups t
has_groups _ _ _ = false

-- `_uuid`: the canonical form of a UUID.
unfoldable pub is_uuid : Text → Bool
is_uuid = has_groups 8 (4 ∷ 4 ∷ 4 ∷ 12 ∷ [])

abbrev pub is_token_char : ℕ → Bool
is_token_char c = in_range 65 90 c || in_range 97 122 c || in_range 48 57 c || c == 95 || c == 45

-- At most two closing `=`.
abbrev pub is_padding : ℕ → Text → Bool
is_padding n [] = true
is_padding zero (c ∷ t) = false
is_padding (suc n) (c ∷ t) = c == 61 && is_padding n t

abbrev pub is_token_rest : Text → Bool
is_token_rest [] = true
is_token_rest (c ∷ t) =
    let rest = is_token_rest t in if is_token_char c then rest else is_padding 2 (c ∷ t)

-- `_TOKEN.fullmatch`.
unfoldable pub is_token : Text → Bool
is_token [] = false
is_token (c ∷ t) = is_token_char c && is_token_rest t

abbrev pub smaller : ℕ → ℕ → ℕ
smaller a b = if ltb b a then b else a

abbrev pub same_pin : SnapshotPin → SnapshotPin → Bool
same_pin p q =
    text_eq p.user_id q.user_id
    && text_eq p.token q.token
    && text_eq p.generation q.generation
    && text_eq p.expires_at q.expires_at
    && p.total == q.total

abbrev pub agrees : Option SnapshotPin → SnapshotPin → Bool
agrees none current = true
agrees (some pin) current = same_pin current pin

-- How an iteration ends; `out_of_fuel` is no outcome of the source.
pub data Ending : Type 0 where
  finished raised out_of_fuel : Ending

-- The server, which may answer each round as it likes: the round, limit, offset and pin of a request.
abbrev pub Server : Type 0 → Type 0
Server R = ℕ → ℕ → ℕ → Option SnapshotPin → Response R

module _ {R : Type 0} where
  abbrev pub pin_of : Page R → SnapshotPin
  pin_of page = record {
    user_id = page.user_id;
    token = page.snapshot_token;
    generation = page.snapshot_generation;
    expires_at = page.snapshot_expires_at;
    total = page.total;
  }

  -- The tests of the paging fields.
  unfoldable pub counts_agree : Page R → ℕ → ℕ → Bool
  counts_agree page offset limit =
      page.offset == offset
      && page.limit == limit
      && leb offset page.total
      && length page.releases == smaller limit (page.total - offset)
      && (if page.has_more
          then ltb (offset + length page.releases) page.total
          else leb page.total (offset + length page.releases))

  -- The tests of the identifying fields; `is_future` is `_expiry` against the clock.
  unfoldable pub is_identified : (Text → Bool) → Page R → Bool
  is_identified is_future page =
      is_uuid page.user_id
      && is_uuid page.snapshot_generation
      && is_token page.snapshot_token
      && is_future page.snapshot_expires_at
      && text_eq page.snapshot_source (codes "completed_collection_sync")

  -- `none` is `SnapshotMismatch`.
  unfoldable pub validate_page :
      (Text → Bool) → Page R → ℕ → ℕ → Option SnapshotPin → Option SnapshotPin
  validate_page is_future page offset limit pin =
      if counts_agree page offset limit && is_identified is_future page && agrees pin (pin_of page)
      then some (pin_of page)
      else none

  -- What follows a page: the rest of the pages, or the end.
  unfoldable pub with_page : Page R → List (Page R) × Ending → List (Page R) × Ending
  with_page page (pages, ending) = (page ∷ pages, ending)

  -- The loop of `iter_pages`: the pages that are yielded and the ending. `clock` is `_expiry` at the
  -- time of each round.
  unfoldable pub iter_from :
      Server R → (ℕ → Text → Bool) → ℕ → ℕ → ℕ → ℕ → Option SnapshotPin → List (Page R) × Ending
  iter_from server clock page_size zero round offset pin = ([], out_of_fuel)
  iter_from server clock page_size (suc fuel) round offset pin =
      elim (server round page_size offset pin) [
        | failed ↦ ([], raised)
        | malformed ↦ ([], raised)
        | envelope page ↦ elim (validate_page (clock round) page offset page_size pin) [
          | none ↦ ([], raised)
          | some current ↦
              let rest =
                iter_from server clock page_size fuel (suc round) (offset + length page.releases)
                  (some current) in
              if page.has_more then with_page page rest else (page ∷ [], finished)
        ]
      ]

  -- `ValueError` for a page size out of range.
  unfoldable pub iter_pages : Server R → (ℕ → Text → Bool) → ℕ → ℕ → List (Page R) × Ending
  iter_pages server clock page_size fuel =
      if in_range 1 200 page_size
      then iter_from server clock page_size fuel 0 0 none
      else ([], raised)

  -- `iter_collection`: the releases of the pages, in order.
  unfoldable pub releases_of : List (Page R) → List R
  releases_of [] = []
  releases_of (page ∷ pages) = page.releases ++ releases_of pages
