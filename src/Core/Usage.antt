-- ===== src/Core/Usage.antt =====
-- Usage charges: the spend of a milestone, and the budget wall.
use tok.Prelude.{
  ℤ, pos, add64, ◌≡◌, ◌≢◌, refl, true, false, some, inl, inr, arith, if◌then◌else◌, Option-cases,
  Bool-cases, String, List, ◌∷◌, [], ◌++◌, ◌≤ℤ◌, ◌<ℤ◌, ◌+ℤ◌, wrap64, InRange64, wrap64_id,
  wrap64-sum, ◌∙◌, sym, ap, int_laws, eq_of_parts,
}
use tok.Prelude.Keyed.{find-update_self, find-update_ne}
use tok.Core.Types.{
  Order, Milestone, UsageCharge, OrderStatus, RecordUsageChargeInput, MilestoneState,
}
use tok.Core.Order.{
  ok, find_milestone, milestone_id, is_payable, charge_of, add_charge, charge_and_pause, walled,
  charged, hits_wall, sum_charges, current_spend_cents, record_usage_charge,
}

-- The exact sum of the charges.
abbrev pub total_charges : List UsageCharge → ℤ
total_charges [] = pos 0
total_charges (c ∷ cs) = c.amount_cents +ℤ total_charges cs

sum_charges-append :
    (total : ℤ) (cs : List UsageCharge) (c : UsageCharge)
    → sum_charges total (cs ++ c ∷ []) ≡ add64 (sum_charges total cs) c.amount_cents
unfolding sum_charges
sum_charges-append total [] c = refl
sum_charges-append total (d ∷ cs) c = sum_charges-append (add64 total d.amount_cents) cs c

-- A charge adds its amount to the milestone's spend.
pub spend-add_charge :
    (c : UsageCharge) (m : Milestone)
    → current_spend_cents (add_charge c m) ≡ add64 (current_spend_cents m) c.amount_cents
unfolding current_spend_cents
spend-add_charge c m = sum_charges-append m.base_price_cents m.usage_charges c

sum_charges-wrap :
    (total : ℤ) (cs : List UsageCharge)
    → sum_charges (wrap64 total) cs ≡ wrap64 (total +ℤ total_charges cs)
unfolding sum_charges
sum_charges-wrap total [] = ap wrap64 (eq_of_parts _ _ (omega int_laws))
sum_charges-wrap total (c ∷ cs) =
    ap (λ t. sum_charges t cs) (wrap64-sum total c.amount_cents)
    ∙ sum_charges-wrap (total +ℤ c.amount_cents) cs
    ∙ ap wrap64 (eq_of_parts _ _ (omega int_laws))

-- Where the base price fits in 64 bits, the spend of a milestone is the exact sum of base price
-- and charges, brought into 64 bits once.
pub spend-exact :
    (m : Milestone)
    → InRange64 m.base_price_cents
    → current_spend_cents m ≡ wrap64 (m.base_price_cents +ℤ total_charges m.usage_charges)
unfolding current_spend_cents
spend-exact m range =
    ap (λ t. sum_charges t m.usage_charges) (sym (wrap64_id m.base_price_cents range))
    ∙ sum_charges-wrap m.base_price_cents m.usage_charges

-- Where an accepted charge leaves the milestone and the order.
pub record Charges (input : RecordUsageChargeInput) (o : Order) (m : Milestone) (o' : Order)
    : Type 0 where
  pub positive : pos 0 <ℤ input.amount_cents
  pub after : Milestone
  pub written : find_milestone input.milestone_id o' ≡ some after
  pub appended : after.usage_charges ≡ m.usage_charges ++ charge_of input ∷ []
  pub spent : current_spend_cents after ≡ add64 (current_spend_cents m) input.amount_cents
  pub same_budget : after.budget_cents ≡ m.budget_cents
  pub within :
      current_spend_cents after ≤ℤ m.budget_cents → (after.state ≡ m.state) × (o'.status ≡ o.status)
  pub beyond :
      m.budget_cents <ℤ current_spend_cents after
      → (after.state ≡ MilestoneState.paused) × (o'.status ≡ OrderStatus.awaiting_budget)
  pub others : (j : String) → j ≢ input.milestone_id → find_milestone j o' ≡ find_milestone j o

module _ (input : RecordUsageChargeInput) (o : Order) (m : Milestone)
    (found : find_milestone input.milestone_id o ≡ some m)
    (positive : pos 0 <ℤ input.amount_cents) where
  record_unfolds :
      is_payable m.state ≡ true
      → record_usage_charge input o
        ≡ ok (if hits_wall input m then walled input o else charged input o, charge_of input)
  unfolding record_usage_charge
  record_unfolds payable = ground arith

  walled-Charges : hits_wall input m ≡ true → Charges input o m (walled input o)
  unfolding current_spend_cents
  walled-Charges wall = record {
    positive = positive;
    after = charge_and_pause (charge_of input) m;
    written =
        find-update_self milestone_id input.milestone_id (charge_and_pause (charge_of input))
          (λ x. refl) o.milestones m found;
    appended = refl;
    spent = spend-add_charge (charge_of input) m;
    same_budget = refl;
    within = λ le. absurd (ground arith);
    beyond = λ _. (refl, refl);
    others = λ j ne.
        find-update_ne milestone_id input.milestone_id (charge_and_pause (charge_of input))
          (λ x. refl) j o.milestones ne;
  }

  charged-Charges : hits_wall input m ≡ false → Charges input o m (charged input o)
  charged-Charges free = record {
    positive = positive;
    after = add_charge (charge_of input) m;
    written =
        find-update_self milestone_id input.milestone_id (add_charge (charge_of input)) (λ x. refl)
          o.milestones m found;
    appended = refl;
    spent = spend-add_charge (charge_of input) m;
    same_budget = refl;
    within = λ _. (refl, refl);
    beyond = λ lt. absurd (ground arith);
    others = λ j ne.
        find-update_ne milestone_id input.milestone_id (add_charge (charge_of input)) (λ x. refl) j
          o.milestones ne;
  }

  -- A positive charge on a running or paused milestone is accepted and appended, and adds its
  -- amount to the spend; the milestone pauses and the order awaits budget when the spend is above
  -- the budget, and both keep their state when it is not; the other milestones stand.
  pub record-Charges :
      is_payable m.state ≡ true
      → (o' : Order) × (record_usage_charge input o ≡ ok (o', charge_of input))
        × Charges input o m o'
  record-Charges payable = elim (Bool-cases (hits_wall input m)) [
    | inl wall ↦ (walled input o, rw (record_unfolds payable, wall), walled-Charges wall)
    | inr free ↦ (charged input o, rw (record_unfolds payable, free), charged-Charges free)
  ]

-- What an accepted charge says of its input.
pub record_inverse :
    (input : RecordUsageChargeInput) (o o' : Order) (c : UsageCharge)
    → record_usage_charge input o ≡ ok (o', c)
    → (m : Milestone) × (find_milestone input.milestone_id o ≡ some m)
      × (is_payable m.state ≡ true)
      × (pos 0 <ℤ input.amount_cents)
      × (o' ≡ (if hits_wall input m then walled input o else charged input o))
unfolding record_usage_charge
record_inverse input o o' c h = elim (Option-cases (find_milestone input.milestone_id o)) [
  | inl missing ↦ absurd (ground arith)
  | inr (m, found) ↦ (m, found, ground arith, ground arith, ground arith)
]
