-- ===== src/Tests/Limits.antt =====
-- The theorems on rate limits at a store that two callers share.
use tok.Prelude.{pos, ◌≡◌, refl, true, arith, List, [], ◌∷◌}
use tok.Prelude.Dict.{get}
use tok.RateLimit.Service.{allow_key}
use tok.RateLimit.Windows.{
  Request, ask, store_after, allowed_of, calls_of, smaller, allowed_in_window, retry_succeeds,
}

abbrev opening : Request
opening = record { key = "a"; limit = pos 2; window = pos 60; now = 100 }

abbrev more : List Request
more =
    record opening { now = 110 }
    ∷ record opening { key = "ab"; now = 115 }
    ∷ record opening { now = 120 }
    ∷ []

allowed_in_window_example :
    allowed_of "a" (opening ∷ more) [] ≡ smaller 2 (calls_of "a" (opening ∷ more))
unfolding get
allowed_in_window_example =
    allowed_in_window opening more [] 2 refl refl (omega arith, (omega arith, (omega arith, tt)))
      ((λ h. refl), ((λ h. refl), ((λ h. refl), tt)))

two_of_three : allowed_of "a" (opening ∷ more) [] ≡ 2
unfolding allowed_of
two_of_three = refl

retry_succeeds_example :
    (ask (record opening { now = 160 }) (store_after more (ask opening []).1)).0.allowed ≡ true
unfolding allow_key
retry_succeeds_example =
    retry_succeeds opening more (record opening { now = 160 }) [] 1
      (omega arith, (omega arith, (omega arith, tt))) refl refl (omega arith)
