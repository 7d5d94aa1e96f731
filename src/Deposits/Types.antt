-- ===== src/Deposits/Types.antt =====
-- The data of internal/services/settlement: buyer_deposits.go, funding.go and reconciler.go.
use tok.Prelude.{ℕ, ℤ, String}
use tok.Prelude.Dict.{Dict}
use tok.Core.Types.{Time}

pub record DepositAddress : Type 0 where
  pub id : String
  pub buyer_org_id : String
  pub asset : String
  pub address : String
  pub derivation_index : ℕ
  pub created_at : Time
  pub updated_at : Time

pub record ChainBalance : Type 0 where
  pub address : String
  pub raw_on_chain_units : ℤ
  pub raw_confirmed_units : ℤ
  pub confirmation_blocks : ℕ

pub record SweepResult : Type 0 where
  pub sweep_tx_hash : String
  pub swept_raw_units : ℤ
  pub treasury_address : String

pub record DepositSummary : Type 0 where
  pub buyer_org_id : String
  pub asset : String
  pub address : String
  pub on_chain_balance : String
  pub confirmed_balance : String
  pub credited_balance : String
  pub credited_balance_cents : ℤ
  pub minimum_sweep_amount : String
  pub confirmation_blocks : ℕ
  pub raw_on_chain_units : ℤ
  pub raw_confirmed_units : ℤ
  pub raw_minimum_sweep_units : ℤ
  pub treasury_address : String

pub record SweepRecord : Type 0 where
  pub id : String
  pub buyer_org_id : String
  pub asset : String
  pub deposit_address : String
  pub treasury_address : String
  pub amount_raw : ℤ
  pub tx_hash : String
  pub state : String
  pub created_at : Time
  pub updated_at : Time

-- The values of `FundingRecordKind`, a string type.
abbrev pub invoice_kind : String
invoice_kind = "invoice"

abbrev pub withdrawal_kind : String
withdrawal_kind = "withdrawal"

abbrev pub buyer_topup_kind : String
buyer_topup_kind = "buyer_topup"

abbrev pub provider_payout_kind : String
provider_payout_kind = "provider_payout"

pub record FundingRecord : Type 0 where
  pub id : String
  pub kind : String
  pub order_id : String
  pub milestone_id : String
  pub buyer_org_id : String
  pub provider_org_id : String
  pub asset : String
  pub amount : String
  pub invoice : String
  pub external_id : String
  pub state : String
  pub destination : Dict String
  pub created_at : Time
  pub updated_at : Time

-- `BuyerDepositSyncSummary`
pub record SyncSummary : Type 0 where
  pub credited_cents : ℤ
  pub sweep_count : ℤ

-- `ReconcileSummary`
pub record ReconcileSummary : Type 0 where
  pub invoice_updates : ℤ
  pub withdrawal_updates : ℤ
  pub deposit_sweep_updates : ℤ
