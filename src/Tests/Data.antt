-- ===== src/Tests/Data.antt =====
-- An order of two milestones, and the inputs of calls on it.
use tok.Prelude.{pos, some, none, [], ◌∷◌}
use tok.Core.Types.{
  Order, Milestone, FundingMode, OrderStatus, MilestoneState, DisputeStatus, UsageChargeKind,
  SettleMilestoneInput, RecordUsageChargeInput, OpenDisputeInput, ResolveDisputeInput,
}

abbrev pub working : Milestone
working = record {
  id = "ms_1";
  title = "Build";
  base_price_cents = pos 1000;
  budget_cents = pos 1500;
  settled_cents = pos 0;
  summary = "";
  state = MilestoneState.running;
  dispute_status = DisputeStatus.none;
  usage_charges =
      record {
        kind = UsageChargeKind.token;
        amount_cents = pos 200;
        proof_ref = "p1";
        proof_signature = "";
        proof_timestamp = "";
      }
      ∷ [];
  settled_at = none;
  anomaly_flags = [];
}

abbrev pub waiting : Milestone
waiting = record working {
  id = "ms_2";
  title = "Deliver";
  state = MilestoneState.pending;
  usage_charges = [];
}

abbrev pub paid : Milestone
paid = record working {
  state = MilestoneState.settled;
  settled_cents = pos 1000;
  settled_at = some 7;
}

abbrev pub running_order : Order
running_order = record {
  id = "ord_1";
  buyer_org_id = "buyer";
  provider_org_id = "provider";
  funding_mode = FundingMode.prepaid;
  credit_line_id = "";
  platform_wallet = "platform_main";
  status = OrderStatus.running;
  milestones = working ∷ waiting ∷ [];
}

abbrev pub paid_order : Order
paid_order = record running_order { milestones = paid ∷ waiting ∷ [] }

abbrev pub settle_first : SettleMilestoneInput
settle_first = record { milestone_id = "ms_1"; summary = "done"; source = "test"; occurred_at = 9 }

abbrev pub settle_second : SettleMilestoneInput
settle_second = record settle_first { milestone_id = "ms_2" }

abbrev pub charge_first : RecordUsageChargeInput
charge_first = record {
  milestone_id = "ms_1";
  kind = UsageChargeKind.step;
  amount_cents = pos 400;
  proof_ref = "p2";
  proof_signature = "";
  proof_timestamp = "";
}

abbrev pub complaint : OpenDisputeInput
complaint = record { milestone_id = "ms_1"; reason = "late"; refund_cents = pos 600 }

abbrev pub verdict : ResolveDisputeInput
verdict = record { milestone_id = "ms_1" }
