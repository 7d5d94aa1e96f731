-- ===== src/Platform/Market/Leaderboard.antt =====
-- `GetProviderLeaderboard` of internal/platform/app.go, with its exchange sort: the element at a place is
-- exchanged with each later one that has a higher rating.
use tok.Prelude.{
  ℕ, zero, suc, ℤ, pos, Bool, List, [], ◌∷◌, map, String, ◌==◌, if◌then◌else◌, length, ltb_ℤ, add64,
}
use tok.Core.Types.{Order}
use tok.Platform.Types.{OrderRating}
use tok.Platform.App.State.{App}
use tok.Platform.App.Repositories.{list_orders}
use tok.Platform.Market.Providers.{FloatRating, ProviderProfile, default_provider_profiles, scores}
use tok.Platform.Market.Summaries.{count_if}

-- The exchange sort by any comparison: `better y x` exchanges the two.
module _ {ℓ} {A : Type ℓ} (better : A → A → Bool) where
  -- One run of the inner loop over the later places: what ends at the place, and what is left there.
  unfoldable pub exchange : A → List A → A × List A
  exchange x [] = (x, [])
  exchange x (y ∷ ys) =
      let (best, rest) = exchange (if better y x then y else x) ys in
      (best, (if better y x then x else y) ∷ rest)

  unfoldable pub exchange_sort_from : ℕ → List A → List A
  unfolding exchange
  exchange_sort_from zero xs = xs
  exchange_sort_from (suc n) [] = []
  exchange_sort_from (suc n) (x ∷ xs) =
      let (best, rest) = exchange x xs in best ∷ exchange_sort_from n rest

  -- The outer loop makes one round per place.
  unfoldable pub exchange_sort : List A → List A
  unfolding exchange_sort_from
  exchange_sort xs = exchange_sort_from (length xs) xs

module _ (fl : FloatRating) where
  open fl use {Carrier, of_int, div, less}

  pub record LeaderboardEntry : Type 0 where
    pub provider_id : String
    pub name : String
    pub rating : Carrier
    pub rating_count : ℤ
    pub total_orders : ℤ
    pub reputation_tier : String

  abbrev pub entry_of : List Order → List OrderRating → ProviderProfile fl → LeaderboardEntry
  entry_of os rs p =
      let (total, count) = scores fl p.id rs (pos 0) (pos 0) in
      record {
        provider_id = p.id;
        name = p.name;
        rating = if ltb_ℤ (pos 0) count then div (of_int total) (of_int count) else of_int (pos 0);
        rating_count = count;
        total_orders = count_if (λ o. o.provider_org_id == p.id) os (pos 0);
        reputation_tier = p.reputation_tier;
      }

  abbrev pub better_rated : LeaderboardEntry → LeaderboardEntry → Bool
  better_rated y x = less x.rating y.rating

  -- The ranking of the profiles of any repository.
  unfoldable pub leaderboard :
      List (ProviderProfile fl) → List Order → List OrderRating → List LeaderboardEntry
  unfolding exchange_sort add64
  leaderboard ps os rs = exchange_sort better_rated (map (entry_of os rs) ps)

  -- `App.GetProviderLeaderboard`
  unfoldable pub get_provider_leaderboard : App → List LeaderboardEntry
  unfolding leaderboard list_orders
  get_provider_leaderboard a = leaderboard (default_provider_profiles fl) (list_orders a) a.ratings
