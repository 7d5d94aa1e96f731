-- ===== src/Core/Credit.antt =====
-- `CreditDecisionEngine.Decide` of internal/core/workflow.go, in `int64` arithmetic.
use tok.Prelude.{
  ℤ, pos, Bool, true, false, ◌||◌, String, ltb_ℤ, leb_ℤ, if◌then◌else◌, add64, sub64, mul64, quot64,
}

pub record CreditDecisionEngine : Type 0 where
  pub base_limit_cents : ℤ
  pub max_limit_cents : ℤ
  pub dispute_penalty_cents : ℤ
  pub failure_penalty_cents : ℤ
  pub consumption_multiplier : ℤ

-- Go's `int` counts are 64 bits wide too.
pub record CreditHistory : Type 0 where
  pub completed_orders : ℤ
  pub successful_payments : ℤ
  pub failed_payments : ℤ
  pub disputed_orders : ℤ
  pub lifetime_spend_cents : ℤ

pub record CreditDecision : Type 0 where
  pub approved : Bool
  pub recommended_limit_cents : ℤ
  pub reason : String

unfoldable pub max64 : ℤ → ℤ → ℤ
max64 a b = if ltb_ℤ b a then a else b

-- The limit before it is clamped.
unfoldable pub raw_limit : CreditDecisionEngine → CreditHistory → ℤ
unfolding max64
raw_limit e h =
    let earned =
      add64 e.base_limit_cents
        (quot64 h.lifetime_spend_cents (max64 e.consumption_multiplier (pos 1))) in
    let after_disputes = sub64 earned (mul64 h.disputed_orders e.dispute_penalty_cents) in
    sub64 after_disputes (mul64 h.failed_payments e.failure_penalty_cents)

unfoldable pub decide : CreditDecisionEngine → CreditHistory → CreditDecision
decide e h =
    let limit = raw_limit e h in
    if ltb_ℤ h.completed_orders (pos 3) || ltb_ℤ h.successful_payments (pos 3)
    then record {
      approved = false;
      recommended_limit_cents = pos 0;
      reason = "insufficient history";
    }
    else if leb_ℤ limit (pos 0)
    then record {
      approved = false;
      recommended_limit_cents = pos 0;
      reason = "risk signals exceeded threshold";
    }
    else record {
      approved = true;
      recommended_limit_cents = if ltb_ℤ e.max_limit_cents limit then e.max_limit_cents else limit;
      reason = "approved by rule engine";
    }

-- The engine that `NewApp` and `NewAppWithMemory` configure.
abbrev pub default_engine : CreditDecisionEngine
default_engine = record {
  base_limit_cents = pos 50_000;
  max_limit_cents = pos 500_000;
  dispute_penalty_cents = pos 75_000;
  failure_penalty_cents = pos 50_000;
  consumption_multiplier = pos 2;
}
