-- ===== src/Platform/Market/Ranking.antt =====
-- The leaderboard of internal/platform/app.go is in order, and loses and repeats nobody.
use tok.Prelude.{
  ℕ, zero, suc, ◌≤◌, ◌≡◌, refl, sym, ap, inl, inr, Bool, true, false, List, [], ◌∷◌, map, arith,
  Bool-cases, subst, if◌then◌else◌, length, All,
}
use mathlib.Core.List.{Permᴰ}
use mathlib.Core.List as List
use tok.Core.Types.{Order}
use tok.Platform.Types.{OrderRating}
use tok.Platform.Market.Providers.{FloatRating, ProviderProfile}
use tok.Platform.Market.Leaderboard.{
  exchange, exchange_sort_from, leaderboard, better_rated, entry_of,
}

-- A strict order whose incomparable elements are interchangeable, such as `<` on numbers.
pub record IsWeakOrder {ℓ} {A : Type ℓ} (less : A → A → Bool) : Type ℓ where
  pub asymmetric : (x y : A) → less x y ≡ true → less y x ≡ false
  pub cotransitive : (x y z : A) → less x y ≡ false → less y z ≡ false → less x z ≡ false

-- No element is better than one that stands before it.
abbrev pub IsRanked {ℓ} : {A : Type ℓ} → (A → A → Bool) → List A → Type 0
IsRanked better [] = Unit
IsRanked better (x ∷ xs) = All (λ y. better y x ≡ false) xs × IsRanked better xs

All-perm {ℓ} : {A : Type ℓ} (P : A → Type 0) {xs ys : List A} → Permᴰ xs ys → All P xs → All P ys
All-perm P Permᴰ.nil h = h
All-perm P (Permᴰ.cons e p) (h, hs) = (rw⁻¹ e h, All-perm P p hs)
All-perm P (Permᴰ.swap e f) (h, (k, hs)) = (rw⁻¹ f k, (rw⁻¹ e h, hs))
All-perm P (Permᴰ.trans p q) h = All-perm P q (All-perm P p h)

module _ {ℓ} {A : Type ℓ} (better : A → A → Bool) where
  exchange-perm :
      (x : A) (ys : List A) → Permᴰ ((exchange better x ys).0 ∷ (exchange better x ys).1) (x ∷ ys)
  unfolding exchange
  exchange-perm x [] = Permᴰ.cons refl Permᴰ.nil
  exchange-perm x (y ∷ ys) = elim (Bool-cases (better y x)) [
    | inl higher ↦
        rw (exchange, higher)
          (Permᴰ.trans (Permᴰ.swap refl refl) (Permᴰ.cons refl (exchange-perm y ys)))
    | inr lower ↦
        rw (exchange, lower)
          (Permᴰ.trans (Permᴰ.swap refl refl)
            (Permᴰ.trans (Permᴰ.cons refl (exchange-perm x ys)) (Permᴰ.swap refl refl)))
  ]

  length-exchange : (x : A) (ys : List A) → length (exchange better x ys).1 ≡ length ys
  unfolding exchange
  length-exchange x [] = refl
  length-exchange x (y ∷ ys) = ap suc (length-exchange (if better y x then y else x) ys)

  exchange_sort_from-perm : (n : ℕ) (xs : List A) → Permᴰ (exchange_sort_from better n xs) xs
  unfolding exchange_sort_from
  exchange_sort_from-perm zero xs = List.Permᴰ.refl xs
  exchange_sort_from-perm (suc n) [] = Permᴰ.nil
  exchange_sort_from-perm (suc n) (x ∷ xs) =
      Permᴰ.trans (Permᴰ.cons refl (exchange_sort_from-perm n (exchange better x xs).1))
        (exchange-perm x xs)

  exchange_higher :
      (x y : A) (ys : List A)
      → better y x ≡ true
      → exchange better x (y ∷ ys) ≡ ((exchange better y ys).0, x ∷ (exchange better y ys).1)
  unfolding exchange
  exchange_higher x y ys h = rw (exchange, h) refl

  exchange_lower :
      (x y : A) (ys : List A)
      → better y x ≡ false
      → exchange better x (y ∷ ys) ≡ ((exchange better x ys).0, y ∷ (exchange better x ys).1)
  unfolding exchange
  exchange_lower x y ys h = rw (exchange, h) refl

  abbrev IsBest : A → A × List A → Type 0
  IsBest x r = (better x r.0 ≡ false) × All (λ e. better e r.0 ≡ false) r.1

  module _ (order : IsWeakOrder better) where
    irreflexive : (x : A) → better x x ≡ false
    irreflexive x = elim (Bool-cases (better x x)) [
      | inl better_than_itself ↦ order.asymmetric x x better_than_itself
      | inr h ↦ h
    ]

    -- What ends at the place is at least as good as what was there, and as all that is left.
    exchange-IsBest : (x : A) (ys : List A) → IsBest x (exchange better x ys)
    unfolding exchange
    exchange-IsBest x [] = (irreflexive x, tt)
    exchange-IsBest x (y ∷ ys) = elim (Bool-cases (better y x)) [
      | inl higher ↦
          let (here, rest) = exchange-IsBest y ys in
          let left =
            order.cotransitive x y (exchange better y ys).0 (order.asymmetric y x higher) here in
          subst (IsBest x) (sym (exchange_higher x y ys higher)) (left, (left, rest))
      | inr lower ↦
          let (here, rest) = exchange-IsBest x ys in
          subst (IsBest x) (sym (exchange_lower x y ys lower))
            (here, (order.cotransitive y x (exchange better x ys).0 lower here, rest))
    ]

    exchange_sort_from-IsRanked :
        (n : ℕ) (xs : List A) → length xs ≤ n → IsRanked better (exchange_sort_from better n xs)
    unfolding exchange_sort_from
    exchange_sort_from-IsRanked zero [] h = tt
    exchange_sort_from-IsRanked zero (x ∷ xs) h = absurd (omega arith)
    exchange_sort_from-IsRanked (suc n) [] h = tt
    exchange_sort_from-IsRanked (suc n) (x ∷ xs) h =
        let best = (exchange better x xs).0 in
        let rest = (exchange better x xs).1 in
        (
          All-perm (λ r. better r best ≡ false) (List.Permᴰ.symm (exchange_sort_from-perm n rest))
              (exchange-IsBest x xs).1,
          exchange_sort_from-IsRanked n rest (omega (arith, length-exchange x xs)),
        )

-- For every list of provider profiles, orders and ratings, and ratings compared by a strict weak
-- order, as floats that are numbers are, the leaderboard has no entry with a higher rating than
-- one before it, and is a permutation of one entry for each provider.
pub leaderboard_ranks :
    (fl : FloatRating) (ps : List (ProviderProfile fl)) (os : List Order) (rs : List OrderRating)
    → IsWeakOrder fl.less
    → IsRanked (better_rated fl) (leaderboard fl ps os rs)
      × Permᴰ (leaderboard fl ps os rs) (map (entry_of fl os rs) ps)
unfolding leaderboard
leaderboard_ranks fl ps os rs order = (
  exchange_sort_from-IsRanked (better_rated fl) by_rating (length (map (entry_of fl os rs) ps))
      (map (entry_of fl os rs) ps) (omega arith),
  exchange_sort_from-perm (better_rated fl) (length (map (entry_of fl os rs) ps))
      (map (entry_of fl os rs) ps),
)
  where
    by_rating : IsWeakOrder (better_rated fl)
    by_rating = record {
      asymmetric = λ x y h. order.asymmetric y.rating x.rating h;
      cotransitive = λ x y z h k. order.cotransitive z.rating y.rating x.rating k h;
    }
