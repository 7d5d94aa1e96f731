-- ===== src/Platform/Split.antt =====
-- internal/platform/milestones.go: the default milestones of a budget.
use tok.Prelude.{
  ℤ, pos, List, [], ◌∷◌, String, sub64, mul64, quot64, leb_ℤ, ltb_ℤ, eqb_ℤ, if◌then◌else◌,
}
use tok.Prelude.Format.{◌<>◌, decimal_ℤ}
use tok.Platform.Types.{MilestonePlan}

unfoldable pub percent : ℤ → ℤ → ℤ
percent part total = if eqb_ℤ total (pos 0) then pos 0 else quot64 (mul64 part (pos 100)) total

-- A title such as "Setup (20%)".
unfoldable pub titled : String → ℤ → ℤ → String
unfolding percent decimal_ℤ
titled name part total = name <> " (" <> decimal_ℤ (percent part total) <> "%)"

-- A milestone whose price is its whole budget.
abbrev pub plan : String → String → ℤ → MilestonePlan
plan id title budget_cents = record {
  id = id;
  title = title;
  base_price_cents = budget_cents;
  budget_cents = budget_cents;
}

abbrev pub small_budget_threshold_cents : ℤ
small_budget_threshold_cents = pos 1000

abbrev pub setup_percent : ℤ
setup_percent = pos 20

abbrev pub delivery_percent : ℤ
delivery_percent = pos 20

unfoldable pub share : ℤ → ℤ → ℤ
share budget percentage = quot64 (mul64 budget percentage) (pos 100)

-- `DefaultMilestoneSplit`
unfoldable pub default_milestone_split : ℤ → List MilestonePlan
default_milestone_split budget =
    let setup = share budget setup_percent in
    let delivery = share budget delivery_percent in
    let execution = sub64 (sub64 budget setup) delivery in
    if leb_ℤ budget (pos 0)
    then []
    else if ltb_ℤ budget small_budget_threshold_cents
    then plan "ms_1" "Execution" budget ∷ []
    else plan "ms_1" (titled "Setup" setup budget) setup
      ∷ plan "ms_2" (titled "Execution" execution budget) execution
      ∷ plan "ms_3" (titled "Delivery" delivery budget) delivery
      ∷ []
