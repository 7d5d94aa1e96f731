-- ===== src/Reconciliation.antt =====
-- internal/reconciliation/reconciler.go: the settled amount against the metered usage. Go's
-- `float64`, its conversions and its "%.2f" are the record `Float`.
use tok.Prelude.{ℤ, pos, Bool, ◌&&◌, List, [], ◌∷◌, ◌++◌, String, eqb_ℤ, ltb_ℤ, if◌then◌else◌}
use tok.Prelude.Format.{◌<>◌, decimal_ℤ}
use tok.Core.Types.{Milestone}
use tok.Core.Order.{current_spend_cents}

pub record Float : Type 1 where
  pub Carrier : Type 0
  pub of_int64 : ℤ → Carrier
  pub tenth : Carrier
  pub sub : Carrier → Carrier → Carrier
  pub abs : Carrier → Carrier
  pub div : Carrier → Carrier → Carrier
  pub less : Carrier → Carrier → Bool
  pub equal : Carrier → Carrier → Bool
  pub two_decimals : Carrier → String

module _ (fl : Float) where
  open fl use {Carrier, of_int64, tenth, sub, abs, div, less, equal, two_decimals}

  pub record Reconciled : Type 0 where
    pub cumulative_cents : ℤ
    pub settled_cents : ℤ
    pub deviation_ratio : Carrier
    pub anomalies : List String

  deviation : Carrier → ℤ → ℤ → Carrier
  deviation zero_value cumulative settled =
      let base : Carrier =
        if equal (of_int64 cumulative) zero_value then of_int64 settled else of_int64 cumulative in
      div (abs (sub (of_int64 settled) (of_int64 cumulative))) base

  -- `Reconcile`
  unfoldable pub reconcile : Milestone → Carrier → Reconciled
  unfolding deviation
  reconcile m threshold =
      let zero_value = of_int64 (pos 0) in
      let limit : Carrier = if less zero_value threshold then threshold else tenth in
      let cumulative = current_spend_cents m in
      let settled = m.settled_cents in
      let ratio = deviation zero_value cumulative settled in
      let deviates : List String =
        if less limit ratio
        then ("settlement_deviation: settled="
            <> decimal_ℤ settled
            <> " cumulative="
            <> decimal_ℤ cumulative
            <> " ratio="
            <> two_decimals ratio
            <> " threshold="
            <> two_decimals limit)
          ∷ []
        else [] in
      let unused : List String =
        if eqb_ℤ cumulative (pos 0) && ltb_ℤ (pos 0) settled
        then ("zero_usage_settlement: settled=" <> decimal_ℤ settled <> " with no usage charges")
          ∷ []
        else [] in
      if eqb_ℤ cumulative (pos 0) && eqb_ℤ settled (pos 0)
      then record {
        cumulative_cents = cumulative;
        settled_cents = settled;
        deviation_ratio = zero_value;
        anomalies = [];
      }
      else record {
        cumulative_cents = cumulative;
        settled_cents = settled;
        deviation_ratio = ratio;
        anomalies = deviates ++ unused;
      }
