-- ===== src/Platform/Market/Providers.antt =====
-- The providers of internal/platform/app.go: the memory repository with its one profile, their
-- ratings, and the search. Go's `float64` is the record `FloatRating`.
use tok.Prelude.{
  ℤ, pos, Bool, false, not, ◌&&◌, ◌||◌, Option, some, none, List, [], ◌∷◌, String, ◌==◌,
  if◌then◌else◌, ltb_ℤ, add64,
}
use tok.Prelude.Keyed.{find}
use tok.Prelude.Casing.{equal_fold}
use tok.Prelude.Search.{contains}
use tok.Platform.Types.{OrderRating}

pub record FloatRating : Type 1 where
  pub Carrier : Type 0
  pub of_int : ℤ → Carrier
  pub div : Carrier → Carrier → Carrier
  pub times : Carrier → Carrier → Carrier
  pub less : Carrier → Carrier → Bool

module _ (fl : FloatRating) where
  open fl use {Carrier, of_int, div, less}

  pub record ProviderProfile : Type 0 where
    pub id : String
    pub name : String
    pub capabilities : List String
    pub reputation_tier : String
    pub rating : Carrier
    pub rating_count : ℤ

  -- `DefaultProviderProfiles`, which is what `memoryProviderRepository` holds.
  abbrev pub default_provider_profiles : List ProviderProfile
  default_provider_profiles =
      record {
        id = "provider_1";
        name = "Atlas Ops";
        capabilities = "carrier" ∷ "diagnostics" ∷ "token_metering" ∷ [];
        reputation_tier = "gold";
        rating = of_int (pos 0);
        rating_count = pos 0;
      }
      ∷ []

  -- The sum and the number of the scores of a provider.
  abbrev pub scores : String → List OrderRating → ℤ → ℤ → ℤ × ℤ
  scores id [] total count = (total, count)
  scores id (r ∷ rs) total count =
      let mine = r.provider_org_id == id in
      scores id rs (if mine then add64 total r.score else total)
        (if mine then add64 count (pos 1) else count)

  abbrev pub rated : List OrderRating → ProviderProfile → ProviderProfile
  rated rs p =
      let (total, count) = scores p.id rs (pos 0) (pos 0) in
      if ltb_ℤ (pos 0) count
      then record p { rating = div (of_int total) (of_int count); rating_count = count }
      else p

  -- `App.GetProvider`; `none` is an error.
  unfoldable pub get_provider : String → List OrderRating → Option ProviderProfile
  unfolding add64
  get_provider id rs = elim (find (λ p. p.id) id default_provider_profiles) [
    | none ↦ none
    | some p ↦ some (rated rs p)
  ]

  -- `SearchProvidersInput`
  pub record ProviderFilter : Type 0 where
    pub capability : String
    pub tier : String
    pub min_rating : Carrier

  -- `to_lower` is `strings.ToLower`.
  abbrev has_capability : (String → String) → String → List String → Bool
  has_capability to_lower wanted [] = false
  has_capability to_lower wanted (c ∷ cs) =
      contains (to_lower c) (to_lower wanted) || has_capability to_lower wanted cs

  abbrev pub matches_provider_filter : (String → String) → ProviderFilter → ProviderProfile → Bool
  matches_provider_filter to_lower f p =
      not (less (of_int (pos 0)) f.min_rating && less p.rating f.min_rating)
      && (f.tier == "" || equal_fold p.reputation_tier f.tier)
      && (f.capability == "" || has_capability to_lower f.capability p.capabilities)

  abbrev providers_that_match :
      (String → String)
      → ProviderFilter
      → List OrderRating
      → List ProviderProfile
      → List ProviderProfile
  providers_that_match to_lower f rs [] = []
  providers_that_match to_lower f rs (p ∷ ps) =
      let rest = providers_that_match to_lower f rs ps in
      if matches_provider_filter to_lower f (rated rs p) then rated rs p ∷ rest else rest

  -- `App.SearchProviders`
  unfoldable pub search_providers :
      (String → String) → ProviderFilter → List OrderRating → List ProviderProfile
  unfolding contains equal_fold add64
  search_providers to_lower f rs = providers_that_match to_lower f rs default_provider_profiles
