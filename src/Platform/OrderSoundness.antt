-- ===== src/Platform/OrderSoundness.antt =====
-- What the platform does to an order by itself keeps the order sound: a new order, the start of the
-- next milestone, anomaly flags, a top-up, a disconnection and a recovery.
use tok.Prelude.{
  ℤ, ◌≡◌, ◌≢◌, refl, Bool, true, false, ◌&&◌, inl, inr, arith, Bool-cases, List, ◌∷◌, [], String,
  ◌==◌, All, map,
}
use tok.Core.Types.{Order, Milestone, MilestoneState, is_paused, is_pending}
use tok.Core.Soundness.{IsPaid, IsSoundMilestone, IsSound, update-IsSound}
use tok.Platform.Types.{MilestonePlan, CreateOrderInput, TopUpInput}
use tok.Platform.Orders.{
  planned, new_milestones, new_order, advance_from, advance_next_milestone, topped_up, top_up,
}
use tok.Platform.Settlement.{flagged, flag_milestone}
use tok.Platform.Liquidity.Incidents.{
  disconnect_milestone, disconnect_order, resume_milestone, resume_order, contains,
  disconnected_flag,
}

planned-IsSoundMilestone :
    (s : MilestoneState) (p : MilestonePlan)
    → s ≢ MilestoneState.settled
    → IsSoundMilestone (planned s p)
planned-IsSoundMilestone s p ne = record {
  settled_paid = λ e. absurd (ne e);
  settled_stamped = λ e. absurd (ne e);
  disputed_paid = λ ne'. absurd (ne' refl);
  charges_positive = tt;
  pending_fresh = λ _. (refl, refl);
}

all_pending :
    (ps : List MilestonePlan) → All IsSoundMilestone (map (planned MilestoneState.pending) ps)
all_pending [] = tt
all_pending (p ∷ ps) = (planned-IsSoundMilestone MilestoneState.pending p (λ e. cc), all_pending ps)

all_new : (ps : List MilestonePlan) → All IsSoundMilestone (new_milestones ps)
unfolding new_milestones
all_new [] = tt
all_new (p ∷ ps) = (planned-IsSoundMilestone MilestoneState.running p (λ e. cc), all_pending ps)

-- A new order is sound.
pub new_order-IsSound : (id : String) (input : CreateOrderInput) → IsSound (new_order id input)
new_order-IsSound id input = record {
  each = all_new input.milestones;
  completed_paid = λ e. absurd (cc);
}

module _ {P : Milestone → Type 0} where
  pub All-map :
      (f : Milestone → Milestone) (ms : List Milestone)
      → ((m : Milestone) → P m → P (f m))
      → All P ms
      → All P (map f ms)
  All-map f [] k h = tt
  All-map f (m ∷ ms) k h = (k m h.0, All-map f ms k h.1)

start-IsSoundMilestone :
    (m : Milestone)
    → is_pending m.state ≡ true
    → IsSoundMilestone m
    → IsSoundMilestone (record m { state = MilestoneState.running })
start-IsSoundMilestone m p s = record {
  settled_paid = λ e. absurd (cc);
  settled_stamped = λ e. absurd (cc);
  disputed_paid = s.disputed_paid;
  charges_positive = s.charges_positive;
  pending_fresh = λ e. absurd (cc);
}

-- The start of the next milestone keeps a predicate that it keeps at a pending milestone.
All-advance :
    (P : Milestone → Type 0)
    → ((m : Milestone)
        → is_pending m.state ≡ true
        → P m
        → P (record m { state = MilestoneState.running }))
    → (found : Bool) (id : String) (ms : List Milestone) → All P ms
    → All P (advance_from found id ms)
unfolding advance_from
All-advance P k found id [] h = tt
All-advance P k found id (m ∷ ms) h = elim (Bool-cases (m.id == id)) [
  | inl e ↦ rw e (h.0, All-advance P k true id ms h.1)
  | inr e ↦ elim (Bool-cases (found && is_pending m.state)) [
    | inl b ↦ rw (e, b) (k m (ground arith) h.0, h.1)
    | inr b ↦ rw (e, b) (h.0, All-advance P k found id ms h.1)
  ]
]

-- Starting the next milestone keeps an order sound.
pub advance-IsSound : (id : String) (o : Order) → IsSound o → IsSound (advance_next_milestone id o)
advance-IsSound id o s = record {
  each = All-advance IsSoundMilestone start-IsSoundMilestone false id o.milestones s.each;
  completed_paid = λ e. All-advance IsPaid (λ m _ p. p) false id o.milestones (s.completed_paid e);
}

-- Flagging anomalies keeps an order sound.
pub flag-IsSound :
    (id : String) (flags : List String) (o : Order)
    → IsSound o
    → IsSound (flag_milestone id flags o)
flag-IsSound id [] o s = s
flag-IsSound id (f ∷ flags) o s =
    update-IsSound o id (flagged (f ∷ flags)) o.status s
      (λ m _ sm. record {
        settled_paid = sm.settled_paid;
        settled_stamped = sm.settled_stamped;
        disputed_paid = sm.disputed_paid;
        charges_positive = sm.charges_positive;
        pending_fresh = sm.pending_fresh;
      })
      (λ m p. p) (λ c. inl c)

topped_up-IsSoundMilestone :
    (extra : ℤ) (m : Milestone) → IsSoundMilestone m → IsSoundMilestone (topped_up extra m)
topped_up-IsSoundMilestone extra m s = record {
  settled_paid = λ e. s.settled_paid (ground arith);
  settled_stamped = λ e. s.settled_stamped (ground arith);
  disputed_paid = s.disputed_paid;
  charges_positive = s.charges_positive;
  pending_fresh = λ e. s.pending_fresh (ground arith);
}

-- A top-up keeps an order sound.
pub top_up-IsSound :
    (input : TopUpInput) (m : Milestone) (o : Order) → IsSound o → IsSound (top_up input m o)
top_up-IsSound input m o s =
    update-IsSound o input.milestone_id (topped_up input.additional_cents) _ s
      (λ x _ sx. topped_up-IsSoundMilestone input.additional_cents x sx) (λ x p. p)
      (λ c. inl (ground arith))

disconnect-IsSoundMilestone :
    (m : Milestone) → IsSoundMilestone m → IsSoundMilestone (disconnect_milestone m)
disconnect-IsSoundMilestone m s = record {
  settled_paid = λ e. s.settled_paid (ground arith);
  settled_stamped = λ e. s.settled_stamped (ground arith);
  disputed_paid = s.disputed_paid;
  charges_positive = s.charges_positive;
  pending_fresh = λ e. s.pending_fresh (ground arith);
}

-- A disconnection keeps an order sound.
pub disconnect-IsSound : (o : Order) → IsSound o → IsSound (disconnect_order o)
disconnect-IsSound o s = record {
  each = All-map disconnect_milestone o.milestones disconnect-IsSoundMilestone s.each;
  completed_paid = λ e. absurd (cc);
}

resume-IsSoundMilestone :
    (m : Milestone) → IsSoundMilestone m → IsSoundMilestone (resume_milestone m)
resume-IsSoundMilestone m s =
    elim (Bool-cases (is_paused m.state && contains disconnected_flag m.anomaly_flags)) [
      | inl b ↦ rw b (record {
        settled_paid = λ e. absurd (cc);
        settled_stamped = λ e. absurd (cc);
        disputed_paid = s.disputed_paid;
        charges_positive = s.charges_positive;
        pending_fresh = λ e. absurd (cc);
      })
      | inr b ↦ rw b s
    ]

resume-IsPaid : (m : Milestone) → IsPaid m → IsPaid (resume_milestone m)
resume-IsPaid m p =
    elim (Bool-cases (is_paused m.state && contains disconnected_flag m.anomaly_flags)) [
      | inl b ↦ rw b p
      | inr b ↦ rw b p
    ]

-- A recovery keeps an order sound.
pub resume-IsSound : (o : Order) → IsSound o → IsSound (resume_order o)
resume-IsSound o s = record {
  each = All-map resume_milestone o.milestones resume-IsSoundMilestone s.each;
  completed_paid =
      λ e. All-map resume_milestone o.milestones resume-IsPaid (s.completed_paid (ground arith));
}
