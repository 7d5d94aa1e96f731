-- ===== src/Deposits/Loop.antt =====
-- `RunReconcilerLoop` of internal/services/settlement/reconciler.go gives up after five failures in a
-- row, and not before.
use tok.Prelude.{
  ◌-◌, ◌+◌, eqb, Bool-cases, inl, inr, Option, none, Option-cases, ℕ, suc, zero, ◌≡◌, ◌<◌, ◌≤◌,
  refl, true, false, some, List, [], ◌∷◌, ◌++◌, arith, leb,
}
use tok.Deposits.Types.{ReconcileSummary}
use tok.Deposits.Service.{Deposits}
use tok.Deposits.Reconciler.{
  Reconciler, Event, tick, waiting, too_many_errors, ticking, sync, count_errors,
  max_consecutive_errors, run_reconciler_loop,
}

-- The state after the runs of the first `n` ticks, when nothing ends the loop.
unfoldable pub after_ticks : Reconciler → ℕ → Deposits → Deposits
unfolding sync
after_ticks r zero s = s
after_ticks r (suc n) s = after_ticks r n (sync r s).1

-- The number of failures in a row at the end of the first `n` ticks, when there were some before.
unfoldable failures_in_a_row : Reconciler → ℕ → ℕ → Deposits → ℕ
unfolding sync
failures_in_a_row r zero errors s = errors
failures_in_a_row r (suc n) errors s =
    failures_in_a_row r n (count_errors (sync r s).0 errors) (sync r s).1

abbrev pub ticks : ℕ → List Event
ticks zero = []
ticks (suc n) = tick ∷ ticks n

-- Below five failures in a row at every tick the loop waits on; at five it ends.
ticking_waits :
    (r : Reconciler) (n errors : ℕ) (s : Deposits)
    → ((k : ℕ) → k < n → failures_in_a_row r (suc k) errors s < max_consecutive_errors)
    → ticking r (ticks n) errors s ≡ (waiting, after_ticks r n s)
unfolding ticking after_ticks failures_in_a_row
ticking_waits r zero errors s few = refl
ticking_waits r (suc n) errors s few =
    let first : leb max_consecutive_errors (count_errors (sync r s).0 errors) ≡ false =
      ground (arith, few 0 (omega arith)) in
    rw first (
      ticking_waits r n (count_errors (sync r s).0 errors) (sync r s).1
        (λ k h. few (suc k) (omega arith)))

ticking_gives_up :
    (r : Reconciler) (n errors : ℕ) (es : List Event) (s : Deposits)
    → ((k : ℕ) → k < n → failures_in_a_row r (suc k) errors s < max_consecutive_errors)
    → max_consecutive_errors ≤ failures_in_a_row r (suc n) errors s
    → ticking r (ticks (suc n) ++ es) errors s ≡ (too_many_errors, after_ticks r (suc n) s)
unfolding ticking after_ticks failures_in_a_row
ticking_gives_up r zero errors es s few many =
    let first : leb max_consecutive_errors (count_errors (sync r s).0 errors) ≡ true =
      ground arith in
    rw first refl
ticking_gives_up r (suc n) errors es s few many =
    let first : leb max_consecutive_errors (count_errors (sync r s).0 errors) ≡ false =
      ground (arith, few 0 (omega arith)) in
    rw first (
      ticking_gives_up r n (count_errors (sync r s).0 errors) es (sync r s).1
        (λ k h. few (suc k) (omega arith)) many)

-- What the run of tick `k`, counted from 0, answers.
abbrev pub outcome : Reconciler → ℕ → Deposits → Option ReconcileSummary
outcome r k s = (sync r (after_ticks r k s)).0

last_tick :
    (r : Reconciler) (n errors : ℕ) (s : Deposits)
    → failures_in_a_row r (suc n) errors s
      ≡ count_errors (outcome r n s) (failures_in_a_row r n errors s)
unfolding after_ticks failures_in_a_row
last_tick r zero errors s = refl
last_tick r (suc n) errors s = last_tick r n (count_errors (sync r s).0 errors) (sync r s).1

-- As many failures in a row as are counted, the last runs did fail.
row_fails :
    (r : Reconciler) (c n : ℕ) (s : Deposits)
    → c ≤ failures_in_a_row r n 0 s
    → (c ≤ n) × ((k : ℕ) → k < n → n ≤ k + c → outcome r k s ≡ none)
unfolding failures_in_a_row
row_fails r zero n s many = (omega arith, λ k below late. absurd (omega arith))
row_fails r (suc c) zero s many = absurd (omega arith)
row_fails r (suc c) (suc n) s many = elim (Option-cases (outcome r n s)) [
  | inr (summary, good) ↦ let last = last_tick r n 0 s in absurd (omega (arith, rw good at last))
  | inl bad ↦
      let last = rw bad at (last_tick r n 0 s) in
      let (within, before) = row_fails r c n s (omega arith) in
      (
        omega arith,
        λ k below late. elim (Bool-cases (eqb k n)) [
          | inl same ↦ let at_n : k ≡ n = ground arith in rw at_n bad
          | inr other ↦ before k (ground arith) (omega arith)
        ],
      )
]

-- When the last runs failed, so many failures in a row are counted.
fails_row :
    (r : Reconciler) (c n : ℕ) (s : Deposits)
    → c ≤ n
    → ((k : ℕ) → k < n → n ≤ k + c → outcome r k s ≡ none)
    → c ≤ failures_in_a_row r n 0 s
fails_row r zero n s within fails = omega arith
fails_row r (suc c) zero s within fails = absurd (omega arith)
fails_row r (suc c) (suc n) s within fails =
    let bad = fails n (omega arith) (omega arith) in
    let last = rw bad at (last_tick r n 0 s) in
    let rest =
      fails_row r c n s (omega arith) (λ k below late. fails k (omega arith) (omega arith)) in
    omega arith

-- Where every five runs before have one that succeeds, fewer than five failures in a row are counted.
few_before :
    (r : Reconciler) (n : ℕ) (s : Deposits)
    → ((j : ℕ)
        → j < n
        → (k : ℕ) × (good : ReconcileSummary) × (j ≤ k) × (k < j + 5) × (outcome r k s ≡ some good))
    → (k : ℕ) → k < n + 4
    → failures_in_a_row r (suc k) 0 s < max_consecutive_errors
few_before r n s recovers k below = elim (Bool-cases (leb 5 (failures_in_a_row r (suc k) 0 s))) [
  | inr fewer ↦ ground arith
  | inl many ↦
      let (within, fails) = row_fails r 5 (suc k) s (ground arith) in
      let (i, good, from, until, answered) = recovers (k - 4) (omega arith) in
      let failed = fails i (omega arith) (omega arith) in absurd (cc)
]

gives_up_after :
    (r : Reconciler) (n t : ℕ) (es : List Event) (s : Deposits)
    → t ≡ suc n
    → ((k : ℕ) → k < n → failures_in_a_row r (suc k) 0 s < max_consecutive_errors)
    → max_consecutive_errors ≤ failures_in_a_row r (suc n) 0 s
    → ticking r (ticks t ++ es) 0 s ≡ (too_many_errors, after_ticks r t s)
gives_up_after r n t es s next few many = rw next (ticking_gives_up r n 0 es s few many)

-- After a first run that succeeds, when the runs of five ticks in a row fail and every five in a
-- row that start before them have one that succeeds, the reconciler's loop gives up at the last
-- of the five, whatever would follow, and waits after each of the ticks before it.
pub gives_up_at_five :
    (r : Reconciler) (n : ℕ) (es : List Event) (s : Deposits) (first : ReconcileSummary)
    → (sync r s).0 ≡ some first
    → ((j : ℕ)
        → j < n
        → (k : ℕ) × (good : ReconcileSummary) × (j ≤ k)
          × (k < j + 5)
          × (outcome r k (sync r s).1 ≡ some good))
    → ((k : ℕ) → n ≤ k → k < n + 5 → outcome r k (sync r s).1 ≡ none)
    → ((m : ℕ)
        → m < n + 5
        → run_reconciler_loop r (ticks m) s ≡ (waiting, after_ticks r m (sync r s).1))
      × (run_reconciler_loop r (ticks (n + 5) ++ es) s
          ≡ (too_many_errors, after_ticks r (n + 5) (sync r s).1))
unfolding run_reconciler_loop
gives_up_at_five r n es s first ran recovers fails =
    let s' = (sync r s).1 in
    let many : 5 ≤ failures_in_a_row r (suc (n + 4)) 0 s' =
      fails_row r 5 (suc (n + 4)) s' (omega arith)
        (λ k below late. fails k (omega arith) (omega arith)) in
    (
      (λ m below.
          rw (run_reconciler_loop, ran)
            (ticking_waits r m 0 s' (λ k h. few_before r n s' recovers k (omega arith)))),
      rw (run_reconciler_loop, ran)
          (gives_up_after r (n + 4) (n + 5) es s' (omega arith) (few_before r n s' recovers) many),
    )
