-- ===== src/Core/Soundness.antt =====
-- The invariant of an order between two calls, and that each method of `Order` keeps it.
use tok.Prelude.{
  pos, ◌≡◌, ◌≢◌, refl, Bool, true, false, some, none, ◌⊎◌, inl, inr, arith, if◌then◌else◌,
  Bool-cases, List, String, ◌∷◌, [], ◌<ℤ◌, All, All-append,
}
use tok.Prelude.Keyed.{All-update}
use tok.Core.Types.{
  Time, Order, Milestone, UsageCharge, LedgerEntry, MilestoneState, OrderStatus, DisputeStatus,
  SettleMilestoneInput, RecordUsageChargeInput, OpenDisputeInput, ResolveDisputeInput,
  is_open_or_frozen,
}
use tok.Core.Order.{
  ok, find_milestone, update_milestone, milestone_id, settle_milestone, settle, all_settled,
  record_usage_charge, add_charge, charge_of, charge_and_pause, open_dispute, freeze,
  resolve_dispute, resolve, is_payable, hits_wall,
}
use tok.Core.Settlement.{settle_inverse}
use tok.Core.Usage.{record_inverse}
use tok.Core.Dispute.{open_inverse, resolve_inverse}

-- The milestone has been settled for its base price, now or before a dispute.
abbrev pub IsPaid : Milestone → Type 0
IsPaid m = m.settled_cents ≡ m.base_price_cents

abbrev pub IsPositive : UsageCharge → Type 0
IsPositive c = pos 0 <ℤ c.amount_cents

pub record IsSoundMilestone (m : Milestone) : Type 0 where
  pub settled_paid : m.state ≡ MilestoneState.settled → IsPaid m
  pub settled_stamped : m.state ≡ MilestoneState.settled → m.settled_at ≢ none
  pub disputed_paid : m.dispute_status ≢ DisputeStatus.none → IsPaid m
  pub charges_positive : All IsPositive m.usage_charges
  pub pending_fresh :
      m.state ≡ MilestoneState.pending → (m.usage_charges ≡ []) × (m.settled_cents ≡ pos 0)

pub record IsSound (o : Order) : Type 0 where
  pub each : All IsSoundMilestone o.milestones
  pub completed_paid : o.status ≡ OrderStatus.completed → All IsPaid o.milestones

-- If all are settled, all are paid.
pub all_settled-IsPaid :
    (ms : List Milestone) → all_settled ms ≡ true → All IsSoundMilestone ms → All IsPaid ms
unfolding all_settled
all_settled-IsPaid [] h s = tt
all_settled-IsPaid (m ∷ ms) h s =
    (s.0.settled_paid (ground arith), all_settled-IsPaid ms (ground arith) s.1)

pub settle-IsSoundMilestone :
    (input : SettleMilestoneInput) (m : Milestone)
    → IsSoundMilestone m
    → IsSoundMilestone (settle input m)
settle-IsSoundMilestone input m s = record {
  settled_paid = λ _. refl;
  settled_stamped = λ _. ground arith;
  disputed_paid = λ _. refl;
  charges_positive = s.charges_positive;
  pending_fresh = λ e. absurd (cc);
}

-- A charge needs a milestone that is not pending.
pub add_charge-IsSoundMilestone :
    (c : UsageCharge) (m : Milestone)
    → IsPositive c
    → m.state ≢ MilestoneState.pending
    → IsSoundMilestone m
    → IsSoundMilestone (add_charge c m)
add_charge-IsSoundMilestone c m p ne s = record {
  settled_paid = s.settled_paid;
  settled_stamped = s.settled_stamped;
  disputed_paid = s.disputed_paid;
  charges_positive = All-append IsPositive m.usage_charges (c ∷ []) s.charges_positive (p, tt);
  pending_fresh = λ e. absurd (ne e);
}

charge_and_pause-IsSoundMilestone :
    (c : UsageCharge) (m : Milestone)
    → IsPositive c
    → IsSoundMilestone m
    → IsSoundMilestone (charge_and_pause c m)
charge_and_pause-IsSoundMilestone c m p s = record {
  settled_paid = λ e. absurd (cc);
  settled_stamped = λ e. absurd (cc);
  disputed_paid = s.disputed_paid;
  charges_positive = All-append IsPositive m.usage_charges (c ∷ []) s.charges_positive (p, tt);
  pending_fresh = λ e. absurd (cc);
}

freeze-IsSoundMilestone :
    (m : Milestone)
    → m.state ≡ MilestoneState.settled
    → IsSoundMilestone m
    → IsSoundMilestone (freeze m)
freeze-IsSoundMilestone m was s = record {
  settled_paid = λ e. absurd (cc);
  settled_stamped = λ e. absurd (cc);
  disputed_paid = λ _. s.settled_paid was;
  charges_positive = s.charges_positive;
  pending_fresh = λ e. absurd (cc);
}

resolve-IsSoundMilestone :
    (m : Milestone)
    → is_open_or_frozen m.dispute_status ≡ true
    → IsSoundMilestone m
    → IsSoundMilestone (resolve m)
resolve-IsSoundMilestone m was s = record {
  settled_paid = s.settled_paid;
  settled_stamped = s.settled_stamped;
  disputed_paid = λ _. s.disputed_paid (λ e. ground arith);
  charges_positive = s.charges_positive;
  pending_fresh = s.pending_fresh;
}

-- A milestone that takes charges is not pending.
pub payable-not-pending : (s : MilestoneState) → is_payable s ≡ true → s ≢ MilestoneState.pending
payable-not-pending s h e = ground arith

-- A write that keeps each milestone sound and paid keeps the order sound, whatever it does to a
-- status that is not `completed`.
pub update-IsSound :
    (o : Order) (id : String) (f : Milestone → Milestone) (status : OrderStatus)
    → IsSound o
    → ((m : Milestone) → find_milestone id o ≡ some m → IsSoundMilestone m → IsSoundMilestone (f m))
    → ((m : Milestone) → IsPaid m → IsPaid (f m))
    → (status ≡ OrderStatus.completed
        → (o.status ≡ OrderStatus.completed)
          ⊎ (all_settled (update_milestone id f o.milestones) ≡ true))
    → IsSound (record o { status = status; milestones = update_milestone id f o.milestones })
update-IsSound o id f status s keeps paid only = record {
  each = each';
  completed_paid = λ e. elim (only e) [
    | inl before ↦
        All-update milestone_id IsPaid id f o.milestones (s.completed_paid before)
          (λ m _ p. paid m p)
    | inr all ↦ all_settled-IsPaid (update_milestone id f o.milestones) all each'
  ];
}
  where
    each' : All IsSoundMilestone (update_milestone id f o.milestones)
    each' = All-update milestone_id IsSoundMilestone id f o.milestones s.each keeps

completed_by :
    (all : Bool) (status : OrderStatus)
    → (if all then OrderStatus.completed else status) ≡ OrderStatus.completed
    → (status ≡ OrderStatus.completed) ⊎ (all ≡ true)
completed_by true status h = inr refl
completed_by false status h = inl h

-- Settling a milestone keeps the order sound.
pub settle_milestone-IsSound :
    (input : SettleMilestoneInput) (o o' : Order) (entry : LedgerEntry)
    → IsSound o
    → settle_milestone input o ≡ ok (o', entry)
    → IsSound o'
settle_milestone-IsSound input o o' entry s h =
    let (m, found, payable, e) = settle_inverse input o o' entry h in
    rw e (
      update-IsSound o input.milestone_id (settle input) _ s
        (λ x _ sx. settle-IsSoundMilestone input x sx) (λ x _. refl)
        (λ c.
          completed_by
            (all_settled (update_milestone input.milestone_id (settle input) o.milestones)) o.status
            c))

-- Recording a charge keeps the order sound.
pub record_usage_charge-IsSound :
    (input : RecordUsageChargeInput) (o o' : Order) (c : UsageCharge)
    → IsSound o
    → record_usage_charge input o ≡ ok (o', c)
    → IsSound o'
record_usage_charge-IsSound input o o' c s h =
    let (m, found, payable, positive, e) = record_inverse input o o' c h in
    elim (Bool-cases (hits_wall input m)) [
      | inl wall ↦
          rw (e, wall)
            (update-IsSound o input.milestone_id (charge_and_pause (charge_of input))
              OrderStatus.awaiting_budget s
              (λ x _ sx. charge_and_pause-IsSoundMilestone (charge_of input) x positive sx)
              (λ x paid. paid) (λ c. absurd (cc)))
      | inr free ↦
          rw (e, free)
            (update-IsSound o input.milestone_id (add_charge (charge_of input)) o.status s
              (λ x fx sx.
                add_charge-IsSoundMilestone (charge_of input) x positive
                  (payable-not-pending x.state (ground arith)) sx)
              (λ x paid. paid) (λ c. inl c))
    ]

-- Opening a dispute keeps the order sound.
pub open_dispute-IsSound :
    (now : Time) (input : OpenDisputeInput) (o o' : Order) (refund recovery : LedgerEntry)
    → IsSound o
    → open_dispute now input o ≡ ok (o', refund, recovery)
    → IsSound o'
open_dispute-IsSound now input o o' refund recovery s h =
    let (m, found, was, _, _, e, _, _) = open_inverse now input o o' refund recovery h in
    rw e (
      update-IsSound o input.milestone_id freeze o.status s
        (λ x fx sx. freeze-IsSoundMilestone x (ground arith) sx) (λ x paid. paid) (λ c. inl c))

-- Resolving a dispute keeps the order sound.
pub resolve_dispute-IsSound :
    (input : ResolveDisputeInput) (o o' : Order)
    → IsSound o
    → resolve_dispute input o ≡ ok o'
    → IsSound o'
resolve_dispute-IsSound input o o' s h =
    let (m, found, was, e) = resolve_inverse input o o' h in
    rw e (
      update-IsSound o input.milestone_id resolve o.status s
        (λ x fx sx. resolve-IsSoundMilestone x (ground arith) sx) (λ x paid. paid) (λ c. inl c))
