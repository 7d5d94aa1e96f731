-- ===== src/Platform/Market/Listings.antt =====
-- The listings of internal/platform/app.go: the memory repository with its one listing, and the
-- search.
use tok.Prelude.{
  ℕ, ℤ, pos, Bool, false, not, ◌&&◌, ◌||◌, Option, List, [], ◌∷◌, String, ◌==◌, if◌then◌else◌,
  ltb_ℤ, is_empty, numbered,
}
use tok.Prelude.Keyed.{find}
use tok.Prelude.Casing.{equal_fold}
use tok.Prelude.Search.{contains}
use tok.Platform.App.State.{M, missing_required_fields, now, pure, fail_if, ◌>>=◌, ◌>>◌}
use tok.Platform.Rfqs.{validate_execution_profile}

pub record Listing : Type 0 where
  pub id : String
  pub provider_org_id : String
  pub title : String
  pub category : String
  pub base_price_cents : ℤ
  pub tags : List String
  pub execution_profile_id : String

-- `DefaultListings`, which is what `memoryListingRepository` holds; no call adds to it.
abbrev pub default_listings : List Listing
default_listings =
    record {
      id = "listing_1";
      provider_org_id = "provider_1";
      title = "Managed Agent Operations";
      category = "agent-ops";
      base_price_cents = pos 1500;
      tags = "carrier-compatible" ∷ "milestone-ready" ∷ [];
      execution_profile_id = "";
    }
    ∷ []

-- `App.ListListings` and `App.GetListing`; `none` is an error.
abbrev pub list_listings : List Listing
list_listings = default_listings

unfoldable pub get_listing : String → Option Listing
get_listing id = find (λ l. l.id) id default_listings

-- `ListListingsInput`
pub record ListingFilter : Type 0 where
  pub query : String
  pub category : String
  pub tags : List String
  pub provider_org_id : String
  pub min_price_cents : ℤ
  pub max_price_cents : ℤ

abbrev has_tag : String → List String → Bool
has_tag tag [] = false
has_tag tag (t ∷ ts) = equal_fold tag t || has_tag tag ts

abbrev shares_tag : List String → List String → Bool
shares_tag [] tags = false
shares_tag (w ∷ wanted) tags = has_tag w tags || shares_tag wanted tags

-- `matchesListingFilter`; `to_lower` is `strings.ToLower`.
unfoldable pub matches_listing_filter : (String → String) → Listing → ListingFilter → Bool
unfolding contains equal_fold
matches_listing_filter to_lower l f =
    (f.query == "" || contains (to_lower l.title) (to_lower f.query))
    && (f.category == "" || equal_fold l.category f.category)
    && (f.provider_org_id == "" || l.provider_org_id == f.provider_org_id)
    && not (ltb_ℤ (pos 0) f.min_price_cents && ltb_ℤ l.base_price_cents f.min_price_cents)
    && not (ltb_ℤ (pos 0) f.max_price_cents && ltb_ℤ f.max_price_cents l.base_price_cents)
    && (is_empty f.tags || shares_tag f.tags l.tags)

abbrev pub listings_that_match : (String → String) → ListingFilter → List Listing → List Listing
listings_that_match to_lower f [] = []
listings_that_match to_lower f (l ∷ ls) =
    let rest = listings_that_match to_lower f ls in
    if matches_listing_filter to_lower l f then l ∷ rest else rest

-- `App.SearchListings`
unfoldable pub search_listings : (String → String) → ListingFilter → List Listing
unfolding matches_listing_filter
search_listings to_lower f = listings_that_match to_lower f default_listings

pub record CreateListingInput : Type 0 where
  pub provider_org_id : String
  pub title : String
  pub category : String
  pub base_price_cents : ℤ
  pub tags : List String
  pub execution_profile_id : String

-- `App.CreateListing`: the listing is returned and stored nowhere. `unix_nano` is `time.Time.UnixNano`.
unfoldable pub create_listing : (ℕ → ℕ) → CreateListingInput → M Listing
create_listing unix_nano input = do
  fail_if (input.title == "" || input.category == "") missing_required_fields
  validate_execution_profile input.execution_profile_id
  at ← now
  pure (record {
    id = numbered "listing_" (unix_nano at);
    provider_org_id = input.provider_org_id;
    title = input.title;
    category = input.category;
    base_price_cents = input.base_price_cents;
    tags = input.tags;
    execution_profile_id = input.execution_profile_id;
  })
