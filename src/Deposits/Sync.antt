-- ===== src/Deposits/Sync.antt =====
-- `SyncDeposits` of internal/services/settlement/buyer_deposits.go: every confirmed deposit is swept
-- to the treasury, recorded, and credited to its buyer.
use tok.Prelude.{
  ℕ, suc, ℤ, pos, Bool, false, ◌&&◌, ◌||◌, Option, some, none, List, [], ◌∷◌, String, ◌==◌,
  if◌then◌else◌, ltb_ℤ, leb_ℤ, add64,
}
use tok.Prelude.Dict.{put}
use tok.Prelude.Blank.{is_blank}
use tok.Core.Types.{Time}
use tok.Deposits.Types.{
  DepositAddress, SweepResult, SweepRecord, buyer_topup_kind, FundingRecord, SyncSummary,
}
use tok.Deposits.Amounts.{raw_units_to_cents, cents_to_amount_string, first_non_empty_sweep_address}
use tok.Deposits.Repositories.{
  Funding, next_sweep_id, next_funding_id, list_addresses, save_sweep, list_sweeps, save_funding,
  list_funding,
}
use tok.Deposits.Service.{Wallet, Settings, Deposits, DepositError, wallet_failed, is_settled}

-- `findBuyerDepositSweepByTxHash`
abbrev pub first_with_hash : String → List SweepRecord → Option SweepRecord
first_with_hash hash [] = none
first_with_hash hash (v ∷ vs) = if v.tx_hash == hash then some v else first_with_hash hash vs

unfoldable pub find_sweep_by_tx_hash : List SweepRecord → String → Option SweepRecord
find_sweep_by_tx_hash vs hash = if is_blank hash then none else first_with_hash hash vs

abbrev pub any_settled : String → List FundingRecord → Bool
any_settled id [] = false
any_settled id (v ∷ vs) = (v.external_id == id && is_settled v) || any_settled id vs

-- `hasSettledBuyerTopUp`
unfoldable pub has_settled_top_up : String → String → Funding → Bool
has_settled_top_up buyer external_id r =
    if is_blank external_id
    then false
    else any_settled external_id (
        list_funding
          (record {
            kind = buyer_topup_kind;
            order_id = "";
            buyer_org_id = buyer;
            provider_org_id = "";
          })
          r)

abbrev pub new_top_up : Settings → DepositAddress → String → String → ℤ → ℕ → Time → FundingRecord
new_top_up c v treasury external_id cents seq now = record {
  id = next_funding_id seq;
  kind = buyer_topup_kind;
  order_id = "";
  milestone_id = "";
  buyer_org_id = v.buyer_org_id;
  provider_org_id = "";
  asset = c.asset;
  amount = cents_to_amount_string cents;
  invoice = "";
  external_id = external_id;
  state = "SETTLED";
  destination =
      ("kind", "CKB_ADDRESS_SWEEP")
      ∷ ("depositAddress", v.address)
      ∷ ("treasuryAddress", treasury)
      ∷ [];
  created_at = now;
  updated_at = now;
}

-- `saveBuyerTopUpFunding`
unfoldable pub save_top_up_funding :
    Settings → DepositAddress → String → String → ℤ → Deposits → Deposits
unfolding put cents_to_amount_string
save_top_up_funding c v treasury external_id cents s =
    let added = new_top_up c v treasury external_id cents s.funding.seq (c.now s.calls) in
    let counted = record s.funding { seq = suc s.funding.seq } in
    record s { funding = save_funding added counted; calls = suc s.calls }

abbrev pub new_sweep : Settings → DepositAddress → SweepResult → ℕ → Time → SweepRecord
new_sweep c v r seq now = record {
  id = next_sweep_id seq;
  buyer_org_id = v.buyer_org_id;
  asset = c.asset;
  deposit_address = v.address;
  treasury_address = first_non_empty_sweep_address r.treasury_address c.treasury_address;
  amount_raw = r.swept_raw_units;
  tx_hash = r.sweep_tx_hash;
  state = "SETTLED";
  created_at = now;
  updated_at = now;
}

unfoldable pub save_new_sweep : Settings → DepositAddress → SweepResult → Deposits → Deposits
unfolding put first_non_empty_sweep_address
save_new_sweep c v r s =
    let added = new_sweep c v r s.sweeps.seq (c.now s.calls) in
    let counted = record s.sweeps { seq = suc s.sweeps.seq } in
    record s { sweeps = save_sweep added counted; calls = suc s.calls }

-- The loop goes on to the next address, or ends with an error; both keep the summary so far.
pub data Step : Type 0 where
  next : SyncSummary → Step
  stop : SyncSummary → DepositError → Step

abbrev pub credited_more : ℤ → SyncSummary → SyncSummary
credited_more cents n = record {
  credited_cents = add64 n.credited_cents cents;
  sweep_count = add64 n.sweep_count (pos 1);
}

-- A sweep of that transaction is known: it is credited unless it has been.
unfoldable pub credit_known :
    Settings → DepositAddress → SweepRecord → String → SyncSummary → Deposits → Step × Deposits
unfolding has_settled_top_up save_top_up_funding raw_units_to_cents first_non_empty_sweep_address
credit_known c v known hash n s =
    if has_settled_top_up v.buyer_org_id hash s.funding
    then (next n, s)
    else let cents = raw_units_to_cents known.amount_raw c.raw_units_per_whole in
      let treasury = first_non_empty_sweep_address known.treasury_address c.treasury_address in
      (next (credited_more cents n), save_top_up_funding c v treasury known.tx_hash cents s)

unfoldable pub credit_new :
    Settings → DepositAddress → SweepResult → SyncSummary → Deposits → Step × Deposits
unfolding save_new_sweep save_top_up_funding raw_units_to_cents first_non_empty_sweep_address
credit_new c v r n s =
    let cents = raw_units_to_cents r.swept_raw_units c.raw_units_per_whole in
    let treasury = first_non_empty_sweep_address r.treasury_address c.treasury_address in
    (
      next (credited_more cents n),
      save_top_up_funding c v treasury r.sweep_tx_hash cents (save_new_sweep c v r s),
    )

unfoldable pub credit_sweep :
    Settings → DepositAddress → SweepResult → SyncSummary → Deposits → Step × Deposits
unfolding credit_known credit_new find_sweep_by_tx_hash
credit_sweep c v r n s =
    elim (find_sweep_by_tx_hash (list_sweeps v.buyer_org_id s.sweeps) r.sweep_tx_hash) [
      | some known ↦ credit_known c v known r.sweep_tx_hash n s
      | none ↦ credit_new c v r n s
    ]

-- One round of the loop.
unfoldable pub sync_one :
    Settings → Wallet → DepositAddress → SyncSummary → Deposits → Step × Deposits
unfolding credit_sweep
sync_one c w v n s =
    let asked = record s { calls = suc s.calls } in
    let swept = record s { calls = suc (suc s.calls) } in
    elim (w.query_balance s.calls v) [
      | none ↦ (stop n wallet_failed, asked)
      | some balance ↦
          if ltb_ℤ balance.raw_confirmed_units c.min_sweep_amount_raw
          then (next n, asked)
          else elim (w.sweep_to_treasury asked.calls v c.treasury_address c.confirmation_blocks) [
            | none ↦ (stop n wallet_failed, swept)
            | some r ↦
                if leb_ℤ r.swept_raw_units (pos 0)
                then (next n, swept)
                else credit_sweep c v r n swept
          ]
    ]

abbrev pub Outcome : Type 0
Outcome = SyncSummary × Option DepositError × Deposits

abbrev pub resume : Step × Deposits → (SyncSummary → Deposits → Outcome) → Outcome
resume (next n, s) k = k n s
resume (stop n e, s) k = (n, some e, s)

unfoldable pub sync_addresses :
    Settings → Wallet → List DepositAddress → SyncSummary → Deposits → Outcome
unfolding sync_one
sync_addresses c w [] n s = (n, none, s)
sync_addresses c w (v ∷ vs) n s = resume (sync_one c w v n s) (sync_addresses c w vs)

abbrev pub no_sync : SyncSummary
no_sync = record { credited_cents = pos 0; sweep_count = pos 0 }

-- `SyncDeposits`
unfoldable pub sync_deposits : Settings → Deposits → Outcome
unfolding sync_addresses
sync_deposits c s = elim c.wallet [
  | none ↦ (no_sync, none, s)
  | some w ↦ sync_addresses c w (list_addresses s.addresses) no_sync s
]
