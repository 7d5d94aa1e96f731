-- ===== src/Tests/Orders.antt =====
-- The theorems on orders and on credit decisions at concrete data.
use tok.Prelude.{
  mul64, quot64, quot, sub64, add64, ◌-ℤ◌, ◌*ℤ◌, pos, ◌≡◌, refl, true, false, ◌⊎◌, arith, some,
  none, [], ◌∷◌, wrap64, ◌+ℤ◌, ◌≤ℤ◌, ◌<ℤ◌,
}
use tok.Prelude.Keyed.{find, update}
use tok.Core.Types.{
  Order, Milestone, LedgerEntry, LedgerEntryKind, MilestoneState, FundingMode, is_prepaid,
}
use tok.Core.Order.{
  ok, err, find_milestone, open_dispute, resolve_dispute, freeze, resolve, settle_milestone,
  dispute_entry, charge_of, record_usage_charge, current_spend_cents, is_payable, not_payable,
  milestone_not_found, dispute_not_open,
}
use tok.Core.Credit.{raw_limit, max64, decide, default_engine}
use tok.Core.Settlement.{Settles, settle-Settles, settle_refused}
use tok.Core.Usage.{Charges, record-Charges, spend-exact, total_charges}
use tok.Core.Dispute.{Disputes, open_dispute-Disputes, dispute-settle_again, resolve_dispute_once}
use tok.Core.CreditBounds.{
  decide_bounds, decide-eq-policy, decide_antitone, reported, policy, limit_of,
}
use mathlib.Core.Option
use tok.Tests.Data.{
  working, waiting, paid, running_order, paid_order, settle_first, settle_second, charge_first,
  complaint, verdict,
}

settle-Settles_example :
    (o' : Order) × (entry : LedgerEntry) × (settle_milestone settle_first running_order
      ≡ ok (o', entry))
    × Settles settle_first running_order working o' entry
unfolding find
settle-Settles_example = settle-Settles settle_first running_order working refl refl

settle_refused_example :
    ((find_milestone "ms_2" running_order ≡ none)
      × (not_payable MilestoneState.pending ≡ milestone_not_found "ms_2"))
    ⊎ ((m : Milestone) × (find_milestone "ms_2" running_order ≡ some m)
        × (is_payable m.state ≡ false)
        × (not_payable MilestoneState.pending ≡ not_payable m.state))
unfolding find settle_milestone
settle_refused_example =
    settle_refused settle_second running_order (not_payable MilestoneState.pending) refl

record-Charges_example :
    (o' : Order) × (record_usage_charge charge_first running_order
      ≡ ok (o', charge_of charge_first))
    × Charges charge_first running_order working o'
unfolding find
record-Charges_example = record-Charges charge_first running_order working refl (omega arith) refl

spend-exact_example :
    current_spend_cents working ≡ wrap64 (pos 1000 +ℤ total_charges working.usage_charges)
spend-exact_example = spend-exact working (omega arith)

abbrev frozen_order : Order
frozen_order = record paid_order { milestones = freeze paid ∷ waiting ∷ [] }

abbrev refund : LedgerEntry
refund = dispute_entry LedgerEntryKind.buyer_reimbursement paid_order complaint paid 11

abbrev recovery : LedgerEntry
recovery = dispute_entry LedgerEntryKind.provider_recovery paid_order complaint paid 11

opened_dispute : open_dispute 11 complaint paid_order ≡ ok (frozen_order, refund, recovery)
unfolding open_dispute find update
opened_dispute = refl

open_dispute-Disputes_example :
    (m : Milestone) × (find_milestone "ms_1" paid_order ≡ some m)
    × Disputes complaint paid_order m frozen_order refund recovery
open_dispute-Disputes_example =
    open_dispute-Disputes 11 complaint paid_order frozen_order refund recovery opened_dispute

dispute-settle_again_example :
    (m : Milestone) × (o'' : Order) × (entry : LedgerEntry) × (find_milestone "ms_1" paid_order
      ≡ some m)
    × (m.state ≡ MilestoneState.settled)
    × (settle_milestone settle_first frozen_order ≡ ok (o'', entry))
    × (entry.amount_cents ≡ m.base_price_cents)
    × (is_prepaid FundingMode.prepaid ≡ true → entry.kind ≡ LedgerEntryKind.provider_payout)
dispute-settle_again_example =
    dispute-settle_again 11 complaint paid_order frozen_order refund recovery opened_dispute
      settle_first refl

abbrev resolved_order : Order
resolved_order = record paid_order { milestones = resolve (freeze paid) ∷ waiting ∷ [] }

resolve_dispute_once_example : resolve_dispute verdict resolved_order ≡ err dispute_not_open
unfolding resolve_dispute find update
resolve_dispute_once_example = resolve_dispute_once verdict frozen_order resolved_order refl

decide_bounds_example :
    ((decide default_engine (reported 5 5 1 0 300_000)).approved ≡ true
      → (pos 0 <ℤ (decide default_engine (reported 5 5 1 0 300_000)).recommended_limit_cents)
        × ((decide default_engine (reported 5 5 1 0 300_000)).recommended_limit_cents
            ≤ℤ pos 500_000)
        × (pos 3 ≤ℤ pos 5)
        × (pos 3 ≤ℤ pos 5))
    × ((decide default_engine (reported 5 5 1 0 300_000)).approved ≡ false
        → (decide default_engine (reported 5 5 1 0 300_000)).recommended_limit_cents ≡ pos 0)
decide_bounds_example = decide_bounds default_engine (reported 5 5 1 0 300_000) (omega arith)

decide-eq-policy_example :
    limit_of (decide default_engine (reported 5 5 1 0 300_000))
    ≡ Option.map pos (policy 5 5 1 0 300_000)
decide-eq-policy_example =
    decide-eq-policy 5 5 1 0 300_000 (omega arith) (omega arith) (omega arith)

policy_value : policy 5 5 1 0 300_000 ≡ some 150_000
policy_value = refl

approved_with_more : (decide default_engine (reported 5 5 1 1 300_000)).approved ≡ true
unfolding decide raw_limit max64 mul64 quot64 quot sub64 add64 wrap64 ◌*ℤ◌ ◌-ℤ◌ ◌+ℤ◌
approved_with_more = refl

decide_antitone_example :
    let d = decide default_engine (reported 5 5 0 0 300_000) in
    let d' = decide default_engine (reported 5 5 1 1 300_000) in
    (d.approved ≡ true) × (d'.recommended_limit_cents ≤ℤ d.recommended_limit_cents)
decide_antitone_example =
    decide_antitone 5 5 0 0 300_000 1 1 (omega arith) (omega arith) (omega arith) (omega arith)
      (omega arith) approved_with_more
