-- ===== src/Tests/Paging.antt =====
-- A collection of three releases, numbered, on two pages.
use gruvax.Base.{
  is_nil, ℕ, zero, suc, ◌≡◌, ◌≢◌, ◌≤◌, refl, arith, Bool, true, false, [], ◌∷◌, All, Text, codes,
  List, subst, ap, ◌⊎◌, inl, inr,
}
use gruvax.Pages.{
  Page, Server, envelope, malformed, finished, out_of_fuel, iter_pages, iter_from, with_page,
  releases_of, validate_page, counts_agree, is_identified, is_uuid, is_token,
}
use gruvax.Pages.Iterate.{iter_pages_ends}
use gruvax.Pages.Complete.{IsSlice, Serves, iter_pages_complete}

abbrev page_1 : Page ℕ
page_1 = record {
  releases = 1 ∷ 2 ∷ [];
  total = 3;
  offset = 0;
  limit = 2;
  has_more = true;
  user_id = codes "00000000-0000-0000-0000-00000000000a";
  snapshot_generation = codes "00000000-0000-0000-0000-00000000000b";
  snapshot_token = codes "Zm9v-_=";
  snapshot_expires_at = codes "2099-01-01T00:00:00.000000Z";
  snapshot_source = codes "completed_collection_sync";
}

abbrev page_2 : Page ℕ
page_2 = record page_1 { releases = 3 ∷ []; offset = 2; has_more = false }

abbrev server : Server ℕ
server zero limit offset pin = envelope page_1
server (suc zero) limit offset pin = envelope page_2
server _ limit offset pin = malformed

abbrev clock : ℕ → Text → Bool
clock round expiry = true

two_pages : iter_pages server clock 2 5 ≡ (page_1 ∷ page_2 ∷ [], finished)
unfolding iter_pages iter_from with_page validate_page counts_agree is_identified is_uuid is_token
two_pages = refl

-- There is one snapshot.
abbrev contents : Text → List ℕ
contents token = 1 ∷ 2 ∷ 3 ∷ []

is_slice : (page : Page ℕ) → (page_1 ≡ page) ⊎ (page_2 ≡ page) → IsSlice contents page
is_slice page (inl e) = subst (IsSlice contents) e (record { whole = refl; slice = refl })
is_slice page (inr e) = subst (IsSlice contents) e (record { whole = refl; slice = refl })

served : (p page : Page ℕ) → envelope p ≡ envelope page → p ≡ page
served p page e = ap (λ r. elim r as (λ _. Page ℕ) [ envelope q ↦ q | _ ↦ p ]) e

serves : Serves contents server
serves zero limit offset pin page e = is_slice page (inl (served page_1 page e))
serves (suc zero) limit offset pin page e = is_slice page (inr (served page_2 page e))
serves (suc (suc round)) limit offset pin page e = ground (arith, e)

iter_pages_complete_example :
    (is_nil (page_1 ∷ page_2 ∷ []) ≡ false)
    × ((token : Text) × All (λ (page : Page ℕ). page.snapshot_token ≡ token) (page_1 ∷ page_2 ∷ [])
        × (releases_of (page_1 ∷ page_2 ∷ []) ≡ contents token))
iter_pages_complete_example =
    iter_pages_complete server clock 2 contents 5 (page_1 ∷ page_2 ∷ []) serves two_pages

first_total : (page : Page ℕ) → envelope page_1 ≡ envelope page → page.total ≤ 3
first_total page e = ground (arith, e)

iter_pages_ends_example : (iter_pages server clock 2 5).1 ≢ out_of_fuel
iter_pages_ends_example = iter_pages_ends server clock 2 3 first_total
