-- ===== src/Platform/SplitBounds.antt =====
-- What the default milestones of internal/platform/milestones.go sum to.
use tok.Prelude.{
  ℕ, pos, ◌≡◌, refl, ap, ◌∙◌, true, List, [], ◌∷◌, String, arith, ◌≤◌, ◌<◌, ◌*◌, ◌/◌, ◌+◌, ◌-◌,
  ltb_ℤ, quot, quot64, mul64, sub64, add64, ◌+ℤ◌, ◌-ℤ◌, ◌*ℤ◌, wrap64_id, max_int64, All, Bool-cases,
  ltb, inl, inr,
}
use tok.Platform.Types.{MilestonePlan}
use tok.Platform.Split.{default_milestone_split, share, plan, titled}
use tok.Platform.Orders.{total_budget}

times20 : (b : ℕ) → b * 20 ≤ max_int64 → mul64 (pos b) (pos 20) ≡ pos (b * 20)
unfolding mul64 ◌*ℤ◌
times20 b h = wrap64_id (pos b *ℤ pos 20) (ground arith) ∙ ground arith

share_exact : (b : ℕ) → b * 20 ≤ max_int64 → share (pos b) (pos 20) ≡ pos (b * 20 / 100)
unfolding share quot64 quot
share_exact b h = rw (times20 b h) (wrap64_id (pos (b * 20 / 100)) (ground arith))

sub64_exact : (a b : ℕ) → b ≤ a → a ≤ max_int64 → sub64 (pos a) (pos b) ≡ pos (a - b)
unfolding sub64 ◌-ℤ◌
sub64_exact a b h bound = wrap64_id (pos a -ℤ pos b) (ground arith) ∙ ground arith

add64_exact : (a b : ℕ) → a + b ≤ max_int64 → add64 (pos a) (pos b) ≡ pos (a + b)
unfolding add64 ◌+ℤ◌
add64_exact a b bound = wrap64_id (pos a +ℤ pos b) (ground arith) ∙ ground arith

-- A plan with a positive price that is its whole budget.
pub record IsWhole (p : MilestonePlan) : Type 0 where
  pub positive : ltb_ℤ (pos 0) p.budget_cents ≡ true
  pub whole : p.base_price_cents ≡ p.budget_cents

three : ℕ → ℕ → ℕ → List MilestonePlan
three b part middle =
    plan "ms_1" (titled "Setup" (pos part) (pos b)) (pos part)
    ∷ plan "ms_2" (titled "Execution" (pos middle) (pos b)) (pos middle)
    ∷ plan "ms_3" (titled "Delivery" (pos part) (pos b)) (pos part)
    ∷ []

small_split :
    (b : ℕ)
    → 0 < b
    → b < 1000
    → default_milestone_split (pos b) ≡ plan "ms_1" "Execution" (pos b) ∷ []
unfolding default_milestone_split
small_split b positive small = ground arith

large_split :
    (b : ℕ)
    → 1000 ≤ b
    → b * 20 ≤ max_int64
    → default_milestone_split (pos b) ≡ three b (b * 20 / 100) (b - b * 20 / 100 - b * 20 / 100)
unfolding default_milestone_split three
large_split b large bound =
    let part = b * 20 / 100 in
    let setup = share_exact b bound in
    let rest = sub64_exact b part (omega arith) (omega arith) in
    let middle = sub64_exact (b - part) part (omega arith) (omega arith) in
    rw (setup, rest, middle) (ground arith)

one_total :
    (b : ℕ) (id title : String)
    → b ≤ max_int64
    → total_budget (pos 0) (plan id title (pos b) ∷ []) ≡ pos b
unfolding total_budget
one_total b id title bound = add64_exact 0 b (omega arith) ∙ ap pos (omega arith)

three_total :
    (b part middle : ℕ)
    → part + middle + part ≡ b
    → b ≤ max_int64
    → total_budget (pos 0) (three b part middle) ≡ pos b
unfolding total_budget three
three_total b part middle sum bound =
    let first : add64 (pos 0) (pos part) ≡ pos part =
      add64_exact 0 part (omega arith) ∙ ap pos (omega arith) in
    let second = add64_exact part middle (omega arith) in
    let third = add64_exact (part + middle) part (omega arith) in
    rw (first, second, third) (ap pos sum)

three-IsWhole : (b part middle : ℕ) → 0 < part → 0 < middle → All IsWhole (three b part middle)
unfolding three
three-IsWhole b part middle positive positive' = (
  record { positive = ground arith; whole = refl },
  (
    record { positive = ground arith; whole = refl },
    (record { positive = ground arith; whole = refl }, tt),
  ),
)

-- The default milestones of a positive budget that twenty times fits in 64 bits have positive
-- prices, each its milestone's whole budget, and their budgets sum to the budget exactly.
pub default_milestone_split_total :
    (b : ℕ)
    → 0 < b
    → b * 20 ≤ max_int64
    → (total_budget (pos 0) (default_milestone_split (pos b)) ≡ pos b)
      × All IsWhole (default_milestone_split (pos b))
default_milestone_split_total b positive bound = elim (Bool-cases (ltb b 1000)) [
  | inl small ↦ rw (small_split b positive (ground arith)) (
    one_total b "ms_1" "Execution" (omega arith),
    (record { positive = ground arith; whole = refl }, tt),
  )
  | inr large ↦
      let part = b * 20 / 100 in
      let middle = b - part - part in
      rw (large_split b (ground arith) bound) (
        three_total b part middle (omega arith) (omega arith),
        three-IsWhole b part middle (ground arith) (ground arith),
      )
]
