-- ===== src/Core/Dispute.antt =====
-- Disputes: what opening one requires and does, and what a dispute does not prevent.
use tok.Prelude.{
  pos, ◌≡◌, ◌≢◌, refl, true, some, inl, inr, arith, Option-cases, String, ap, ◌∙◌, ◌≤ℤ◌, ◌<ℤ◌,
}
use tok.Prelude.Keyed.{find-update_self, find-update_ne}
use tok.Core.Types.{
  Time, Order, Milestone, LedgerEntry, LedgerEntryKind, OpenDisputeInput, ResolveDisputeInput,
  MilestoneState, DisputeStatus, SettleMilestoneInput, is_open_or_frozen, is_prepaid,
}
use tok.Core.Order.{
  ok, err, find_milestone, milestone_id, open_dispute, resolve_dispute, freeze, resolve,
  settle_milestone, dispute_not_open, update_milestone, dispute_entry,
}
use tok.Core.Settlement.{settle-Settles}

-- What an accepted dispute required of milestone `m`, and what it leaves.
pub record Disputes (input : OpenDisputeInput) (o : Order) (m : Milestone) (o' : Order)
    (refund recovery : LedgerEntry) : Type 0 where
  pub was_settled : m.state ≡ MilestoneState.settled
  pub positive : pos 0 <ℤ input.refund_cents
  pub covered : input.refund_cents ≤ℤ m.settled_cents
  pub frozen :
      find_milestone input.milestone_id o'
      ≡ some (record m { dispute_status = DisputeStatus.frozen; state = MilestoneState.paused })
  pub others : (j : String) → j ≢ input.milestone_id → find_milestone j o' ≡ find_milestone j o
  pub same_status : o'.status ≡ o.status
  pub same_mode : o'.funding_mode ≡ o.funding_mode
  pub refunds :
      (refund.kind ≡ LedgerEntryKind.buyer_reimbursement)
      × (refund.amount_cents ≡ input.refund_cents)
  pub recovers :
      (recovery.kind ≡ LedgerEntryKind.provider_recovery)
      × (recovery.amount_cents ≡ input.refund_cents)
  pub booked_on :
      (refund.order_id ≡ o.id)
      × (refund.milestone_id ≡ m.id)
      × (recovery.order_id ≡ o.id)
      × (recovery.milestone_id ≡ m.id)

-- What an accepted dispute says of its input.
pub open_inverse :
    (now : Time) (input : OpenDisputeInput) (o o' : Order) (refund recovery : LedgerEntry)
    → open_dispute now input o ≡ ok (o', refund, recovery)
    → (m : Milestone) × (find_milestone input.milestone_id o ≡ some m)
      × (m.state ≡ MilestoneState.settled)
      × (pos 0 <ℤ input.refund_cents)
      × (input.refund_cents ≤ℤ m.settled_cents)
      × (o' ≡ record o { milestones = update_milestone input.milestone_id freeze o.milestones })
      × (refund ≡ dispute_entry LedgerEntryKind.buyer_reimbursement o input m now)
      × (recovery ≡ dispute_entry LedgerEntryKind.provider_recovery o input m now)
unfolding open_dispute
open_inverse now input o o' refund recovery h =
    elim (Option-cases (find_milestone input.milestone_id o)) [
      | inl missing ↦ absurd (ground arith)
      | inr (m, found) ↦ (
        m,
        found,
        ground arith,
        ground arith,
        ground arith,
        ground arith,
        ground arith,
        ground arith,
      )
    ]

-- A dispute is accepted only on a settled milestone, for a positive refund within what was
-- settled; it pauses that milestone with the dispute status frozen and changes nothing else of
-- it, leaves the others and the order's status and mode, and books a reimbursement of the buyer
-- and a recovery from the provider, each of the refund's amount and on that order and milestone.
pub open_dispute-Disputes :
    (now : Time) (input : OpenDisputeInput) (o o' : Order) (refund recovery : LedgerEntry)
    → open_dispute now input o ≡ ok (o', refund, recovery)
    → (m : Milestone) × (find_milestone input.milestone_id o ≡ some m)
      × Disputes input o m o' refund recovery
open_dispute-Disputes now input o o' refund recovery h =
    let (m, found, was_settled, positive, covered, e, refunds, recovers) =
      open_inverse now input o o' refund recovery h in
    (
      m,
      found,
      record {
        was_settled = was_settled;
        positive = positive;
        covered = covered;
        frozen = rw e (
            find-update_self milestone_id input.milestone_id freeze (λ x. refl) o.milestones m
              found);
        others = λ j ne.
            rw e
              (find-update_ne milestone_id input.milestone_id freeze (λ x. refl) j o.milestones ne);
        same_status = rw e;
        same_mode = rw e;
        refunds = rw refunds (refl, refl);
        recovers = rw recovers (refl, refl);
        booked_on = rw (refunds, recovers) (refl, refl, refl, refl);
      },
    )

-- Every settled milestone can be disputed for any positive amount up to what was settled.
open_dispute_total :
    (now : Time) (input : OpenDisputeInput) (o : Order) (m : Milestone)
    → find_milestone input.milestone_id o ≡ some m
    → m.state ≡ MilestoneState.settled
    → pos 0 <ℤ input.refund_cents
    → input.refund_cents ≤ℤ m.settled_cents
    → (o' : Order) × (refund : LedgerEntry) × (recovery : LedgerEntry) × (open_dispute now input o
        ≡ ok (o', refund, recovery))
unfolding open_dispute
open_dispute_total now input o m found settled positive covered = (
  record o { milestones = update_milestone input.milestone_id freeze o.milestones },
  dispute_entry LedgerEntryKind.buyer_reimbursement o input m now,
  dispute_entry LedgerEntryKind.provider_recovery o input m now,
  ground arith,
)

-- After a dispute on a milestone the same milestone can be settled again, and its base price is
-- booked a second time, as a provider payout if the order is prepaid.
pub dispute-settle_again :
    (now : Time) (input : OpenDisputeInput) (o o' : Order) (refund recovery : LedgerEntry)
    → open_dispute now input o ≡ ok (o', refund, recovery)
    → (again : SettleMilestoneInput) → again.milestone_id ≡ input.milestone_id
    → (m : Milestone) × (o'' : Order) × (entry : LedgerEntry) × (find_milestone input.milestone_id o
        ≡ some m)
      × (m.state ≡ MilestoneState.settled)
      × (settle_milestone again o' ≡ ok (o'', entry))
      × (entry.amount_cents ≡ m.base_price_cents)
      × (is_prepaid o.funding_mode ≡ true → entry.kind ≡ LedgerEntryKind.provider_payout)
dispute-settle_again now input o o' refund recovery h again same =
    let (m, found, d) = open_dispute-Disputes now input o o' refund recovery h in
    let found' : find_milestone again.milestone_id o' ≡ some (freeze m) = rw same d.frozen in
    let (o'', entry, done, s) = settle-Settles again o' (freeze m) found' refl in
    (
      m,
      o'',
      entry,
      found,
      d.was_settled,
      done,
      s.pays,
      λ p. s.prepaid_pays_out (ap is_prepaid d.same_mode ∙ p),
    )

-- What a resolved dispute says of its input.
pub resolve_inverse :
    (input : ResolveDisputeInput) (o o' : Order)
    → resolve_dispute input o ≡ ok o'
    → (m : Milestone) × (find_milestone input.milestone_id o ≡ some m)
      × (is_open_or_frozen m.dispute_status ≡ true)
      × (o' ≡ record o { milestones = update_milestone input.milestone_id resolve o.milestones })
unfolding resolve_dispute
resolve_inverse input o o' h = elim (Option-cases (find_milestone input.milestone_id o)) [
  | inl missing ↦ absurd (ground arith)
  | inr (m, found) ↦ (m, found, ground arith, ground arith)
]

resolve_refused :
    (input : ResolveDisputeInput) (o : Order) (m : Milestone)
    → find_milestone input.milestone_id o ≡ some (resolve m)
    → resolve_dispute input o ≡ err dispute_not_open
unfolding resolve_dispute
resolve_refused input o m found = ground arith

-- A dispute is resolved once: after a resolution that succeeds, the same call is refused.
pub resolve_dispute_once :
    (input : ResolveDisputeInput) (o o' : Order)
    → resolve_dispute input o ≡ ok o'
    → resolve_dispute input o' ≡ err dispute_not_open
resolve_dispute_once input o o' h =
    let (m, found, _, e) = resolve_inverse input o o' h in
    resolve_refused input o' m (
      rw e
        (find-update_self milestone_id input.milestone_id resolve (λ x. refl) o.milestones m found))
