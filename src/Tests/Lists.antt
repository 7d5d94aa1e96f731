-- ===== src/Tests/Lists.antt =====
-- The theorems on pages and on the leaderboard at short lists, with whole numbers for ratings.
use tok.Prelude.{
  ℕ, ℤ, pos, ◌≤◌, ◌≡◌, refl, List, [], ◌∷◌, map, String, length, ltb_ℤ, ◌*ℤ◌, quot, arith, wrap64,
  ◌+ℤ◌,
}
use mathlib.Core.List.{Permᴰ}
use tok.Platform.Types.{OrderRating}
use tok.Platform.Market.Providers.{FloatRating, ProviderProfile}
use tok.Platform.Market.Leaderboard.{leaderboard, better_rated, entry_of}
use tok.Platform.Market.Ranking.{IsWeakOrder, IsRanked, leaderboard_ranks}
use tok.Pagination.{parse_pagination, pages}
use tok.Pagination.Pages.{pages_cover}

abbrev items : List ℕ
items = 1 ∷ 2 ∷ 3 ∷ 4 ∷ 5 ∷ []

pages_cover_example :
    (1 ≤ (parse_pagination "2" "").limit)
    × ((parse_pagination "2" "").limit ≤ 200)
    × (pages items (parse_pagination "2" "").limit (length items) 0 ≡ items)
pages_cover_example = pages_cover "2" items

abbrev whole : FloatRating
whole = record { Carrier = ℤ; of_int = λ n. n; div = quot; times = ◌*ℤ◌; less = ltb_ℤ }

whole-IsWeakOrder : IsWeakOrder whole.less
whole-IsWeakOrder = record {
  asymmetric = λ x y h. ground arith;
  cotransitive = λ x y z h k. ground arith;
}

abbrev profile : String → ProviderProfile whole
profile id = record {
  id = id;
  name = id;
  capabilities = [];
  reputation_tier = "gold";
  rating = pos 0;
  rating_count = pos 0;
}

abbrev score : String → ℤ → OrderRating
score provider n = record {
  order_id = "";
  provider_org_id = provider;
  buyer_org_id = "";
  score = n;
  comment = "";
  created_at = 0;
}

abbrev profiles : List (ProviderProfile whole)
profiles = profile "a" ∷ profile "b" ∷ profile "c" ∷ []

abbrev ratings : List OrderRating
ratings = score "b" (pos 5) ∷ score "c" (pos 3) ∷ score "b" (pos 4) ∷ []

leaderboard_ranks_example :
    IsRanked (better_rated whole) (leaderboard whole profiles [] ratings)
    × Permᴰ (leaderboard whole profiles [] ratings) (map (entry_of whole [] ratings) profiles)
leaderboard_ranks_example = leaderboard_ranks whole profiles [] ratings whole-IsWeakOrder

ranking : map (λ e. e.provider_id) (leaderboard whole profiles [] ratings) ≡ "b" ∷ "c" ∷ "a" ∷ []
unfolding leaderboard quot wrap64 ◌+ℤ◌
ranking = refl
