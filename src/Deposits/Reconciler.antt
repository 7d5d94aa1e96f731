-- ===== src/Deposits/Reconciler.antt =====
-- internal/services/settlement/reconciler.go: the states of invoices and withdrawals are read from the
-- Fiber client, and deposits are synchronised. The client is a parameter: `none` is an error. The
-- order in which Go visits the set of providers is that of their first records.
use tok.Prelude.{
  ℕ, suc, ℤ, pos, Bool, true, false, ◌||◌, Option, some, none, List, [], ◌∷◌, ◌++◌, String, ◌==◌,
  if◌then◌else◌, add64, leb,
}
use tok.Prelude.Blank.{is_blank}
use tok.Prelude.Trim.{trim}
use tok.Prelude.Casing.{equal_fold, upper_is}
use tok.Core.Types.{Time}
use tok.Deposits.Types.{FundingRecord, ReconcileSummary, withdrawal_kind}
use tok.Deposits.Repositories.{Filter, list_funding, update_invoice_state, update_external_state}
use tok.Deposits.Service.{Settings, Deposits}
use tok.Deposits.Sync.{Outcome, sync_deposits}

-- What the reconciler uses of `fiberclient.InvoiceClient`, and `time.Now()`; the first argument
-- numbers the calls.
pub record FiberClient : Type 0 where
  pub get_invoice_status : ℕ → String → Option String
  pub list_withdrawal_statuses : ℕ → String → Option (List (String × String))
  pub now : ℕ → Time

-- `Reconciler`; the funding repository is the one of the deposits.
pub record Reconciler : Type 0 where
  pub fiber : FiberClient
  pub deposits : Option Settings

-- `isSettledInvoiceState`
unfoldable pub is_settled_invoice_state : String → Bool
unfolding equal_fold trim
is_settled_invoice_state state = equal_fold (trim state) "SETTLED"

-- `isTerminalWithdrawalState`
unfoldable pub is_terminal_withdrawal_state : String → Bool
unfolding upper_is trim
is_terminal_withdrawal_state state =
    let s = trim state in
    upper_is s "COMPLETED" || upper_is s "FAILED" || upper_is s "CANCELLED" || upper_is s "REJECTED"

-- The updates so far, whether an error ended the loop, and the repositories.
abbrev pub Pass : Type 0
Pass = ℤ × Bool × Deposits

-- A loop goes on unless there was an error.
abbrev pub go_on : Pass → (ℤ → Deposits → Pass) → Pass
go_on (n, true, s) k = (n, true, s)
go_on (n, false, s) k = k n s

abbrev pub set_invoice_state : FiberClient → String → String → Deposits → Deposits
set_invoice_state f invoice state s = record s {
  funding = update_invoice_state invoice state (f.now s.calls) s.funding;
  calls = suc s.calls;
}

unfoldable pub sync_invoice : FiberClient → FundingRecord → ℤ → Deposits → Pass
unfolding is_settled_invoice_state is_blank equal_fold
sync_invoice f v n s =
    if is_blank v.invoice || is_settled_invoice_state v.state
    then (n, false, s)
    else let asked = record s { calls = suc s.calls } in
      elim (f.get_invoice_status s.calls v.invoice) [
        | none ↦ (n, true, asked)
        | some state ↦
            if is_blank state || equal_fold state v.state
            then (n, false, asked)
            else (add64 n (pos 1), false, set_invoice_state f v.invoice state asked)
      ]

unfoldable pub sync_invoices : FiberClient → List FundingRecord → ℤ → Deposits → Pass
unfolding sync_invoice
sync_invoices f [] n s = (n, false, s)
sync_invoices f (v ∷ vs) n s = go_on (sync_invoice f v n s) (sync_invoices f vs)

abbrev pub any_record : Filter
any_record = record { kind = ""; order_id = ""; buyer_org_id = ""; provider_org_id = "" }

abbrev pub any_withdrawal : Filter
any_withdrawal = record any_record { kind = withdrawal_kind }

-- `syncPendingInvoices`
unfoldable pub sync_pending_invoices : FiberClient → Deposits → Pass
unfolding sync_invoices
sync_pending_invoices f s = sync_invoices f (list_funding any_record s.funding) (pos 0) s

abbrev contains : String → List String → Bool
contains x [] = false
contains x (y ∷ ys) = y == x || contains x ys

-- The providers with a withdrawal that is not at its end.
unfoldable pub pending_providers : List FundingRecord → List String → List String
unfolding is_blank is_terminal_withdrawal_state
pending_providers [] seen = seen
pending_providers (v ∷ vs) seen = pending_providers vs (
    if is_blank v.provider_org_id
      || is_terminal_withdrawal_state v.state
      || contains v.provider_org_id seen
    then seen
    else seen ++ v.provider_org_id ∷ [])

abbrev pub set_external_state : FiberClient → String → String → Deposits → Deposits
set_external_state f id state s = record s {
  funding = update_external_state id state (f.now s.calls) s.funding;
  calls = suc s.calls;
}

unfoldable pub apply_statuses : FiberClient → List (String × String) → ℤ → Deposits → Pass
unfolding is_blank
apply_statuses f [] n s = (n, false, s)
apply_statuses f ((id, state) ∷ items) n s =
    let skip = is_blank id || is_blank state in
    apply_statuses f items (if skip then n else add64 n (pos 1))
      (if skip then s else set_external_state f id state s)

unfoldable pub sync_provider : FiberClient → String → ℤ → Deposits → Pass
unfolding apply_statuses
sync_provider f provider n s =
    let asked = record s { calls = suc s.calls } in
    elim (f.list_withdrawal_statuses s.calls provider) [
      | none ↦ (n, true, asked)
      | some items ↦ apply_statuses f items n asked
    ]

unfoldable pub sync_providers : FiberClient → List String → ℤ → Deposits → Pass
unfolding sync_provider
sync_providers f [] n s = (n, false, s)
sync_providers f (p ∷ ps) n s = go_on (sync_provider f p n s) (sync_providers f ps)

-- `syncPendingWithdrawals`
unfoldable pub sync_pending_withdrawals : FiberClient → Deposits → Pass
unfolding sync_providers pending_providers
sync_pending_withdrawals f s =
    sync_providers f (pending_providers (list_funding any_withdrawal s.funding) []) (pos 0) s

abbrev sweep_pass : Outcome → Pass
sweep_pass (n, none, s) = (n.sweep_count, false, s)
sweep_pass (n, some e, s) = (pos 0, true, s)

-- `syncBuyerDeposits`
unfoldable pub sync_buyer_deposits : Option Settings → Deposits → Pass
unfolding sync_deposits
sync_buyer_deposits none s = (pos 0, false, s)
sync_buyer_deposits (some c) s = sweep_pass (sync_deposits c s)

-- `Sync`: no summary after an error.
abbrev pub Synced : Type 0
Synced = Option ReconcileSummary × Deposits

abbrev then_pass : Pass → (ℤ → Deposits → Synced) → Synced
then_pass (n, true, s) k = (none, s)
then_pass (n, false, s) k = k n s

unfoldable pub sync : Reconciler → Deposits → Synced
unfolding sync_pending_invoices sync_pending_withdrawals sync_buyer_deposits
sync r s = then_pass (sync_pending_invoices r.fiber s) (λ invoices s.
    then_pass (sync_pending_withdrawals r.fiber s) (λ withdrawals s.
      then_pass (sync_buyer_deposits r.deposits s) (λ sweeps s. (
        some (record {
          invoice_updates = invoices;
          withdrawal_updates = withdrawals;
          deposit_sweep_updates = sweeps;
        }),
        s,
      ))))

-- `MaxConsecutiveErrors`
abbrev pub max_consecutive_errors : ℕ
max_consecutive_errors = 5

-- What the loop receives: a tick, or the end of its context.
pub data Event : Type 0 where
  tick cancelled : Event

-- How the loop stands: waiting, or ended by its context, by the first run or by repeated errors.
pub data LoopEnd : Type 0 where
  waiting context_done first_run_failed too_many_errors : LoopEnd

abbrev pub count_errors : Option ReconcileSummary → ℕ → ℕ
count_errors none errors = suc errors
count_errors (some n) errors = 0

unfoldable pub ticking : Reconciler → List Event → ℕ → Deposits → LoopEnd × Deposits
unfolding sync
ticking r [] errors s = (waiting, s)
ticking r (cancelled ∷ es) errors s = (context_done, s)
ticking r (tick ∷ es) errors s =
    let (outcome, s') = sync r s in
    let counted = count_errors outcome errors in
    let rest = ticking r es counted s' in
    if leb max_consecutive_errors counted then (too_many_errors, s') else rest

-- `RunReconcilerLoop`, with the first run before the ticks.
unfoldable pub run_reconciler_loop : Reconciler → List Event → Deposits → LoopEnd × Deposits
unfolding ticking
run_reconciler_loop r es s = elim (sync r s).0 [
  | none ↦ (first_run_failed, (sync r s).1)
  | some n ↦ ticking r es 0 (sync r s).1
]
