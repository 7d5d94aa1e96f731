-- ===== src/Tests/Treasury.antt =====
-- The theorems on deposits at a wallet that always finds the same transfer.
use tok.Prelude.{
  ℤ, eqb, ◌||◌, if◌then◌else◌, ℕ, zero, suc, mul64, add64, wrap64, ◌*ℤ◌, ◌+ℤ◌, pos, negsuc, ◌≡◌,
  ◌≢◌, ◌≤◌, ◌<◌, refl, false, some, none, List, [], ◌∷◌, ◌++◌, All, arith,
}
use tok.Prelude.Blank.{is_blank}
use tok.Deposits.Types.{ReconcileSummary, DepositAddress, FundingRecord}
use tok.Deposits.Amounts.{parse_amount_to_cents64, cents_to_amount_string}
use tok.Deposits.RoundTrip.{parse_amount_to_cents64-cents_to_amount_string}
use tok.Deposits.Repositories.{entries}
use tok.Deposits.Service.{
  Wallet, Settings, Deposits, ok, empty_deposits, with_defaults, ensure_address, new_address,
}
use tok.Deposits.Lists.{credits}
use tok.Deposits.Accounted.{IsBacked}
use tok.Deposits.Reachable.{
  Call, ensure, synchronise, run, credited_once, credits_stand_for_sweeps, ensure_address_again,
}
use tok.Deposits.Indices.{ensure_all, own_indices}
use tok.Deposits.Reconciler.{
  FiberClient, Reconciler, sync_pending_invoices, sync_pending_withdrawals, sync,
  run_reconciler_loop, waiting, too_many_errors,
}
use tok.Deposits.Passes.{AgreeButStates, passes_write_states}
use tok.Deposits.Settling.{sync_pending_invoices_settles}
use tok.Deposits.Loop.{ticks, after_ticks, outcome, gives_up_at_five}

parse_amount_to_cents64-cents_to_amount_string_example :
    parse_amount_to_cents64 (cents_to_amount_string (negsuc 1204)) ≡ negsuc 1204
parse_amount_to_cents64-cents_to_amount_string_example =
    parse_amount_to_cents64-cents_to_amount_string (negsuc 1204) (omega arith)
      (λ h. absurd (ground arith))

-- Every balance is 25 USDI, and every sweep the same transaction.
abbrev wallet : Wallet
wallet = record {
  derive_address = λ call index. some "ckt1";
  query_balance = λ call a. some (record {
    address = a.address;
    raw_on_chain_units = pos 25000000;
    raw_confirmed_units = pos 25000000;
    confirmation_blocks = 24;
  });
  sweep_to_treasury = λ call a treasury blocks.
      some
        (record { sweep_tx_hash = "0xaa"; swept_raw_units = pos 25000000; treasury_address = "" });
}

abbrev settings : Settings
settings = with_defaults (record {
  wallet = some wallet;
  asset = "";
  treasury_address = "treasury";
  min_sweep_amount_raw = pos 0;
  confirmation_blocks = 0;
  raw_units_per_whole = pos 0;
  now = λ call. call;
})

abbrev calls : List Call
calls = ensure "acme" ∷ synchronise ∷ synchronise ∷ []

credited_once_example :
    credits "acme" "0xaa" (entries (run settings calls empty_deposits).funding.data_) ≤ 1
unfolding is_blank
credited_once_example = credited_once settings calls "acme" "0xaa" refl

credits_stand_for_sweeps_example :
    All
      (IsBacked (pos 1000000) (entries (run settings calls empty_deposits).sweeps.data_))
      (entries (run settings calls empty_deposits).funding.data_)
credits_stand_for_sweeps_example = credits_stand_for_sweeps settings calls

-- The second synchronisation finds the sweep credited.
credited_by_the_first :
    credits "acme" "0xaa" (entries (run settings calls empty_deposits).funding.data_) ≡ 1
unfolding run mul64 wrap64 ◌*ℤ◌
credited_by_the_first = refl

abbrev first_address : DepositAddress
first_address = new_address settings "acme" 0 "ckt1" 0 1

abbrev addressed : Deposits
addressed = (ensure_address settings "acme" empty_deposits).1

ensure_address_again_example :
    ensure_address settings "acme" addressed ≡ (ok first_address, addressed)
unfolding ensure_address
ensure_address_again_example =
    ensure_address_again settings "acme" empty_deposits addressed first_address refl settings

abbrev second_address : DepositAddress
second_address = new_address settings "acme2" 1 "ckt1" 1 3

own_indices_example : first_address.derivation_index ≢ second_address.derivation_index
unfolding ensure_all
own_indices_example =
    own_indices settings ("acme" ∷ "acme2" ∷ []) "acme" "acme2" first_address second_address refl
      refl (λ h. absurd (cc))

-- A client that knows one paid invoice, and fails on withdrawals.
abbrev client : FiberClient
client = record {
  get_invoice_status = λ call invoice. some "SETTLED";
  list_withdrawal_statuses = λ call provider. none;
  now = λ call. call;
}

abbrev pending : FundingRecord
pending = record {
  id = "fund_1";
  kind = "invoice";
  order_id = "ord_1";
  milestone_id = "ms_1";
  buyer_org_id = "acme";
  provider_org_id = "";
  asset = "USDI";
  amount = "12.05";
  invoice = "inv_1";
  external_id = "";
  state = "UNPAID";
  destination = [];
  created_at = 1;
  updated_at = 1;
}

abbrev with_invoice : Deposits
with_invoice = record empty_deposits {
  funding = record { seq = 1; data_ = ("fund_1", pending) ∷ [] };
}

passes_write_states_example :
    AgreeButStates with_invoice (sync_pending_invoices client with_invoice).2
    × AgreeButStates with_invoice (sync_pending_withdrawals client with_invoice).2
passes_write_states_example = passes_write_states client with_invoice

sync_pending_invoices_settles_example :
    ((sync_pending_invoices client (sync_pending_invoices client with_invoice).2).0 ≡ pos 0)
    × ((sync_pending_invoices client (sync_pending_invoices client with_invoice).2).1 ≡ false)
    × ((sync_pending_invoices client (sync_pending_invoices client with_invoice).2).2.funding
        ≡ (sync_pending_invoices client with_invoice).2.funding)
unfolding sync_pending_invoices add64 wrap64 ◌+ℤ◌
sync_pending_invoices_settles_example =
    sync_pending_invoices_settles client with_invoice (sync_pending_invoices client with_invoice).2
      (pos 1) (λ i invoice. refl) refl

-- A client that is down at the first tick, answers at the second, and is down from the third on.
abbrev failing : Reconciler
failing = record {
  fiber = record client {
    get_invoice_status = λ call invoice. if eqb call 0 || eqb call 3 then some "OPEN" else none;
  };
  deposits = none;
}

abbrev summary : ℤ → ReconcileSummary
summary updates = record {
  invoice_updates = updates;
  withdrawal_updates = pos 0;
  deposit_sweep_updates = pos 0;
}

gives_up_at_five_example :
    ((m : ℕ)
      → m < 7
      → run_reconciler_loop failing (ticks m) with_invoice
        ≡ (waiting, after_ticks failing m (sync failing with_invoice).1))
    × (run_reconciler_loop failing (ticks 7 ++ []) with_invoice
        ≡ (too_many_errors, after_ticks failing 7 (sync failing with_invoice).1))
unfolding sync after_ticks add64 wrap64 ◌+ℤ◌
gives_up_at_five_example =
    gives_up_at_five failing 2 [] with_invoice (summary (pos 1)) refl
      (λ j below. (1, summary (pos 0), omega arith, omega arith, refl)) down
  where
    down : (k : ℕ) → 2 ≤ k → k < 7 → outcome failing k (sync failing with_invoice).1 ≡ none
    down zero h below = absurd (omega arith)
    down (suc zero) h below = absurd (omega arith)
    down (suc (suc zero)) h below = refl
    down (suc (suc (suc zero))) h below = refl
    down (suc (suc (suc (suc zero)))) h below = refl
    down (suc (suc (suc (suc (suc zero))))) h below = refl
    down (suc (suc (suc (suc (suc (suc zero)))))) h below = refl
    down (suc (suc (suc (suc (suc (suc (suc k))))))) h below = absurd (omega arith)
