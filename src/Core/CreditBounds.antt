-- ===== src/Core/CreditBounds.antt =====
-- The credit decision: its bounds, and its value on exact numbers.
use tok.Prelude.{
  ℕ, ℤ, pos, true, false, ◌||◌, ◌≡◌, arith, ◌≤ℤ◌, ◌<ℤ◌, ◌-◌, ◌+ℤ◌, ◌-ℤ◌, ◌*ℤ◌, quot, wrap64_id, ◌≤◌,
  ◌/◌, ◌*◌, ◌+◌, if◌then◌else◌, add64, sub64, mul64, quot64, sub_ℕ, max_int64, ltb, leb, Option,
  some, none, ◌∙◌, add64_id, sub64_id,
}
use mathlib.Core.Option
use Prim.Native.Nat.{min}
use tok.Core.Credit.{
  CreditDecisionEngine, CreditHistory, CreditDecision, decide, raw_limit, default_engine,
}

-- With any engine whose maximum is positive, an approval recommends a positive limit within the
-- maximum and needs three completed orders and three successful payments, and a refusal
-- recommends nothing.
pub decide_bounds :
    (e : CreditDecisionEngine) (h : CreditHistory)
    → pos 0 <ℤ e.max_limit_cents
    → let d = decide e h in
      (d.approved ≡ true
        → (pos 0 <ℤ d.recommended_limit_cents)
          × (d.recommended_limit_cents ≤ℤ e.max_limit_cents)
          × (pos 3 ≤ℤ h.completed_orders)
          × (pos 3 ≤ℤ h.successful_payments))
      × (d.approved ≡ false → d.recommended_limit_cents ≡ pos 0)
unfolding decide
decide_bounds e h positive = ground arith

mul64_pos : (a k : ℕ) → a * k ≤ max_int64 → mul64 (pos a) (pos k) ≡ pos (a * k)
unfolding mul64 ◌*ℤ◌
mul64_pos a k h = wrap64_id _ (ground arith) ∙ ground arith

add64_pos : (a b : ℕ) → a + b ≤ max_int64 → add64 (pos a) (pos b) ≡ pos (a + b)
unfolding ◌+ℤ◌
add64_pos a b h = add64_id (pos a) (pos b) (ground arith) ∙ ground arith

half64_pos : (s : ℕ) → s ≤ max_int64 → quot64 (pos s) (pos 2) ≡ pos (s / 2)
unfolding quot64 quot
half64_pos s h = wrap64_id (pos (s / 2)) (omega arith)

sub64_pos : (a b : ℕ) → a ≤ max_int64 → b ≤ max_int64 → sub64 (pos a) (pos b) ≡ sub_ℕ a b
unfolding ◌-ℤ◌
sub64_pos a b h k = sub64_id (pos a) (pos b) (ground arith) ∙ ground arith

sub64_chain :
    (a b c : ℕ) → a ≤ max_int64 → b + c ≤ max_int64 → sub64 (sub_ℕ a b) (pos c) ≡ sub_ℕ a (b + c)
unfolding ◌-ℤ◌
sub64_chain a b c h k = sub64_id (sub_ℕ a b) (pos c) (ground arith) ∙ ground arith

-- A history with counts that are not negative.
abbrev pub reported : ℕ → ℕ → ℕ → ℕ → ℕ → CreditHistory
reported completed paid failed disputed spend = record {
  completed_orders = pos completed;
  successful_payments = pos paid;
  failed_payments = pos failed;
  disputed_orders = pos disputed;
  lifetime_spend_cents = pos spend;
}

-- 2 ^ 40, far above any count of orders.
abbrev pub max_count : ℕ
max_count = 1_099_511_627_776

-- With the configured engine no step overflows: the limit is the exact sum.
pub raw_limit_exact :
    (completed paid failed disputed spend : ℕ)
    → failed ≤ max_count
    → disputed ≤ max_count
    → spend ≤ max_int64
    → raw_limit default_engine (reported completed paid failed disputed spend)
      ≡ sub_ℕ (50_000 + spend / 2) (disputed * 75_000 + failed * 50_000)
unfolding raw_limit
raw_limit_exact completed paid failed disputed spend hf hd hs =
    rw
      (
        half64_pos spend hs,
        mul64_pos disputed 75_000 (omega arith),
        mul64_pos failed 50_000 (omega arith),
        add64_pos 50_000 (spend / 2) (omega arith),
        sub64_pos (50_000 + spend / 2) (disputed * 75_000) (omega arith) (omega arith),
      )
      (sub64_chain (50_000 + spend / 2) (disputed * 75_000) (failed * 50_000) (omega arith)
        (omega arith))

-- The decision as the credit policy states it, on exact numbers: half of the spend is added to the
-- base limit, each dispute costs 75,000 and each failed payment 50,000, and the limit is capped.
abbrev pub policy : ℕ → ℕ → ℕ → ℕ → ℕ → Option ℕ
policy completed paid failed disputed spend =
    let credit = 50_000 + spend / 2 in
    let penalty = disputed * 75_000 + failed * 50_000 in
    if ltb completed 3 || ltb paid 3
    then none
    else if leb credit penalty
    then none
    else some (min 500_000 (credit - penalty))

abbrev pub limit_of : CreditDecision → Option ℤ
limit_of d = if d.approved then some d.recommended_limit_cents else none

-- With the configured engine and counts below 2^40, the 64-bit credit decision is the policy on
-- exact numbers: half of the spend on top of the base limit, less the penalties, capped.
pub decide-eq-policy :
    (completed paid failed disputed spend : ℕ)
    → failed ≤ max_count
    → disputed ≤ max_count
    → spend ≤ max_int64
    → limit_of (decide default_engine (reported completed paid failed disputed spend))
      ≡ Option.map pos (policy completed paid failed disputed spend)
unfolding decide
decide-eq-policy completed paid failed disputed spend hf hd hs =
    ground (arith, raw_limit_exact completed paid failed disputed spend hf hd hs)

-- With the configured engine and counts below 2^40, more failed payments and more disputes never
-- raise the limit.
pub decide_antitone :
    (completed paid failed disputed spend failed' disputed' : ℕ)
    → failed ≤ failed'
    → disputed ≤ disputed'
    → failed' ≤ max_count
    → disputed' ≤ max_count
    → spend ≤ max_int64
    → let d = decide default_engine (reported completed paid failed disputed spend) in
      let d' = decide default_engine (reported completed paid failed' disputed' spend) in
      d'.approved ≡ true
      → (d.approved ≡ true) × (d'.recommended_limit_cents ≤ℤ d.recommended_limit_cents)
unfolding decide
decide_antitone completed paid failed disputed spend failed' disputed' hf hd hf' hd' hs = ground (
  arith,
  raw_limit_exact completed paid failed disputed spend (omega arith) (omega arith) hs,
  raw_limit_exact completed paid failed' disputed' spend hf' hd' hs,
)
