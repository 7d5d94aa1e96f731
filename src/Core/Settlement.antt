-- ===== src/Core/Settlement.antt =====
-- What a settlement does to an order, and when it is refused.
use tok.Prelude.{
  ◌≡◌, ◌≢◌, refl, true, false, some, none, ◌⊎◌, inl, inr, arith, if◌then◌else◌, Option-cases,
  Bool-cases, String, List, map,
}
use tok.Prelude.Keyed.{find-update_self, find-update_ne, map-update}
use tok.Core.Types.{
  Order, Milestone, LedgerEntry, LedgerEntryKind, OrderStatus, SettleMilestoneInput, is_prepaid,
}
use tok.Core.Order.{
  ok, err, OrderError, find_milestone, update_milestone, milestone_id, is_payable, settle,
  settlement_entry, settle_milestone, all_settled, milestone_not_found, not_payable,
}

-- What the order and the entry are after the settlement of milestone `m`.
pub record Settles (input : SettleMilestoneInput) (o : Order) (m : Milestone) (o' : Order)
    (entry : LedgerEntry) : Type 0 where
  pub written : find_milestone input.milestone_id o' ≡ some (settle input m)
  pub others : (j : String) → j ≢ input.milestone_id → find_milestone j o' ≡ find_milestone j o
  pub same_ids : map milestone_id o'.milestones ≡ map milestone_id o.milestones
  pub completes : all_settled o'.milestones ≡ true → o'.status ≡ OrderStatus.completed
  pub keeps_status : all_settled o'.milestones ≡ false → o'.status ≡ o.status
  pub pays : entry.amount_cents ≡ m.base_price_cents
  pub prepaid_pays_out :
      is_prepaid o.funding_mode ≡ true → entry.kind ≡ LedgerEntryKind.provider_payout
  pub credit_exposes :
      is_prepaid o.funding_mode ≡ false → entry.kind ≡ LedgerEntryKind.platform_exposure

settle_unfolds :
    (input : SettleMilestoneInput) (o : Order) (m : Milestone)
    → find_milestone input.milestone_id o ≡ some m
    → is_payable m.state ≡ true
    → let milestones = update_milestone input.milestone_id (settle input) o.milestones in
      settle_milestone input o
      ≡ ok (
        record o {
          status = if all_settled milestones then OrderStatus.completed else o.status;
          milestones = milestones;
        },
        settlement_entry o input m,
      )
unfolding settle_milestone
settle_unfolds input o m found payable = ground arith

-- A settlement of a milestone that is running or paused succeeds: it writes that milestone,
-- leaves every other milestone and the ids, completes the order if all its milestones are
-- settled then and keeps its status otherwise, and pays the base price, to the provider if the
-- order is prepaid and as platform exposure otherwise.
pub settle-Settles :
    (input : SettleMilestoneInput) (o : Order) (m : Milestone)
    → find_milestone input.milestone_id o ≡ some m
    → is_payable m.state ≡ true
    → (o' : Order) × (entry : LedgerEntry) × (settle_milestone input o ≡ ok (o', entry))
      × Settles input o m o' entry
settle-Settles input o m found payable = (
  record o {
    status = if all_settled milestones then OrderStatus.completed else o.status;
    milestones = milestones;
  },
  settlement_entry o input m,
  settle_unfolds input o m found payable,
  record {
    written =
        find-update_self milestone_id input.milestone_id (settle input) (λ x. refl) o.milestones m
          found;
    others = λ j ne.
        find-update_ne milestone_id input.milestone_id (settle input) (λ x. refl) j o.milestones ne;
    same_ids = map-update milestone_id input.milestone_id (settle input) (λ x. refl) o.milestones;
    completes = λ e. rw e;
    keeps_status = λ e. rw e;
    pays = refl;
    prepaid_pays_out = λ e. rw e;
    credit_exposes = λ e. rw e;
  },
)
  where
    milestones : List Milestone
    milestones = update_milestone input.milestone_id (settle input) o.milestones

-- A settlement that is refused names a milestone that does not exist, or one that is neither
-- running nor paused, and the error says which.
pub settle_refused :
    (input : SettleMilestoneInput) (o : Order) (e : OrderError)
    → settle_milestone input o ≡ err e
    → ((find_milestone input.milestone_id o ≡ none) × (e ≡ milestone_not_found input.milestone_id))
      ⊎ ((m : Milestone) × (find_milestone input.milestone_id o ≡ some m)
          × (is_payable m.state ≡ false)
          × (e ≡ not_payable m.state))
unfolding settle_milestone
settle_refused input o e h = elim (Option-cases (find_milestone input.milestone_id o)) [
  | inl missing ↦ inl (missing, ground arith)
  | inr (m, found) ↦ elim (Bool-cases (is_payable m.state)) [
    | inl p ↦ absurd (ground arith)
    | inr p ↦ inr (m, found, p, ground arith)
  ]
]

abbrev pub settled_order : SettleMilestoneInput → Order → Order
settled_order input o =
    let milestones = update_milestone input.milestone_id (settle input) o.milestones in
    record o {
      status = if all_settled milestones then OrderStatus.completed else o.status;
      milestones = milestones;
    }

-- What a successful settlement says of its input.
pub settle_inverse :
    (input : SettleMilestoneInput) (o o' : Order) (entry : LedgerEntry)
    → settle_milestone input o ≡ ok (o', entry)
    → (m : Milestone) × (find_milestone input.milestone_id o ≡ some m)
      × (is_payable m.state ≡ true)
      × (o' ≡ settled_order input o)
unfolding settle_milestone
settle_inverse input o o' entry h = elim (Option-cases (find_milestone input.milestone_id o)) [
  | inl missing ↦ absurd (ground arith)
  | inr (m, found) ↦ elim (Bool-cases (is_payable m.state)) [
    | inl p ↦ (m, found, p, ground arith)
    | inr p ↦ absurd (ground arith)
  ]
]
