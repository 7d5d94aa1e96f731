-- ===== src/Deposits/Service.antt =====
-- internal/services/settlement/buyer_deposits.go: the addresses of the buyers, the sweeps to the
-- treasury and the credits. The wallet is a parameter: its answers, and those of the clock, may
-- differ from one call to the next, so they are functions of the number of calls so far, and `none`
-- is an error. The memory repositories return no errors.
use tok.Prelude.{
  ℕ, suc, ℤ, pos, Bool, Option, some, none, List, [], ◌∷◌, String, ◌==◌, if◌then◌else◌, eqb, leb_ℤ,
  add64, mul64,
}
use tok.Prelude.Dict.{get, put}
use tok.Prelude.Blank.{is_blank}
use tok.Prelude.Trim.{trim}
use tok.Prelude.Casing.{equal_fold}
use tok.Core.Types.{Time}
use tok.Deposits.Types.{
  DepositAddress, ChainBalance, SweepResult, DepositSummary, buyer_topup_kind, FundingRecord,
}
use tok.Deposits.Amounts.{
  cents_to_amount_string, raw_units_to_amount_string, parse_amount_to_cents64,
}
use tok.Deposits.Repositories.{
  Addresses, Sweeps, Funding, no_addresses, no_sweeps, no_funding, next_address_id, save_address,
  get_by_buyer_org_id, list_funding,
}

-- `BuyerDepositWallet`; the first argument numbers the calls.
pub record Wallet : Type 0 where
  pub derive_address : ℕ → ℕ → Option String
  pub query_balance : ℕ → DepositAddress → Option ChainBalance
  pub sweep_to_treasury : ℕ → DepositAddress → String → ℕ → Option SweepResult

-- The settings of a `BuyerDepositService`.
pub record Settings : Type 0 where
  pub wallet : Option Wallet
  pub asset : String
  pub treasury_address : String
  pub min_sweep_amount_raw : ℤ
  pub confirmation_blocks : ℕ
  pub raw_units_per_whole : ℤ
  pub now : ℕ → Time

-- Its repositories, and the number of calls of the wallet and the clock so far.
pub record Deposits : Type 0 where
  pub addresses : Addresses
  pub sweeps : Sweeps
  pub funding : Funding
  pub calls : ℕ

-- `NewBuyerDepositService`: what is missing takes its default.
abbrev pub with_defaults : Settings → Settings
with_defaults o = record o {
  asset = if o.asset == "" then "USDI" else o.asset;
  min_sweep_amount_raw =
      if leb_ℤ o.min_sweep_amount_raw (pos 0)
      then mul64 (pos 10) (pos 1000000)
      else o.min_sweep_amount_raw;
  confirmation_blocks = if eqb o.confirmation_blocks 0 then 24 else o.confirmation_blocks;
  raw_units_per_whole =
      if leb_ℤ o.raw_units_per_whole (pos 0) then pos 1000000 else o.raw_units_per_whole;
}

abbrev pub empty_deposits : Deposits
empty_deposits = record {
  addresses = no_addresses;
  sweeps = no_sweeps;
  funding = no_funding;
  calls = 0;
}

pub data DepositError : Type 0 where
  buyer_required wallet_required wallet_failed empty_address : DepositError

pub data Result (A : Type 0) : Type 0 where
  ok : A → Result A
  err : DepositError → Result A

abbrev pub new_address : Settings → String → ℕ → String → ℕ → Time → DepositAddress
new_address c buyer seq address index now = record {
  id = next_address_id seq;
  buyer_org_id = buyer;
  asset = c.asset;
  address = address;
  derivation_index = index;
  created_at = now;
  updated_at = now;
}

abbrev pub save_new_address : Settings → String → String → ℕ → Deposits → DepositAddress × Deposits
save_new_address c buyer address index s =
    let added = new_address c buyer s.addresses.seq address index (c.now s.calls) in
    let counted = record s.addresses { seq = suc s.addresses.seq } in
    (added, record s { addresses = save_address added counted; calls = suc s.calls })

abbrev pub derive_address : Settings → Wallet → String → Deposits → Result DepositAddress × Deposits
derive_address c w buyer s =
    let index = s.addresses.next_index in
    let counted = record s {
      addresses = record s.addresses { next_index = suc index };
      calls = suc s.calls;
    } in
    elim (w.derive_address s.calls index) [
      | none ↦ (err wallet_failed, counted)
      | some address ↦
          if is_blank address
          then (err empty_address, counted)
          else let (added, saved) = save_new_address c buyer address index counted in
            (ok added, saved)
    ]

-- `EnsureAddress`
unfoldable pub ensure_address : Settings → String → Deposits → Result DepositAddress × Deposits
unfolding is_blank trim get put
ensure_address c buyer s =
    if is_blank buyer
    then (err buyer_required, s)
    else elim (get_by_buyer_org_id (trim buyer) s.addresses) [
      | some existing ↦ (ok existing, s)
      | none ↦ elim c.wallet [
        | none ↦ (err wallet_required, s)
        | some w ↦ derive_address c w (trim buyer) s
      ]
    ]

abbrev pub is_settled : FundingRecord → Bool
is_settled v = equal_fold v.state "SETTLED"

abbrev credited : List FundingRecord → ℤ → ℤ
credited [] total = total
credited (v ∷ vs) total =
    credited vs (if is_settled v then add64 total (parse_amount_to_cents64 v.amount) else total)

abbrev summary_of : Settings → String → DepositAddress → ChainBalance → Deposits → DepositSummary
summary_of c buyer v balance s =
    let credits =
      list_funding
        (record {
          kind = buyer_topup_kind;
          order_id = "";
          buyer_org_id = buyer;
          provider_org_id = "";
        })
        s.funding in
    let cents = credited credits (pos 0) in
    record {
      buyer_org_id = buyer;
      asset = c.asset;
      address = v.address;
      on_chain_balance =
          raw_units_to_amount_string balance.raw_on_chain_units c.raw_units_per_whole;
      confirmed_balance =
          raw_units_to_amount_string balance.raw_confirmed_units c.raw_units_per_whole;
      credited_balance = cents_to_amount_string cents;
      credited_balance_cents = cents;
      minimum_sweep_amount =
          raw_units_to_amount_string c.min_sweep_amount_raw c.raw_units_per_whole;
      confirmation_blocks = c.confirmation_blocks;
      raw_on_chain_units = balance.raw_on_chain_units;
      raw_confirmed_units = balance.raw_confirmed_units;
      raw_minimum_sweep_units = c.min_sweep_amount_raw;
      treasury_address = c.treasury_address;
    }

abbrev pub summary_with :
    Settings → String → DepositAddress → Deposits → Result DepositSummary × Deposits
summary_with c buyer v s = elim c.wallet [
  | none ↦
      let balance : ChainBalance = record {
        address = v.address;
        raw_on_chain_units = pos 0;
        raw_confirmed_units = pos 0;
        confirmation_blocks = 0;
      } in
      (ok (summary_of c buyer v balance s), s)
  | some w ↦
      let counted = record s { calls = suc s.calls } in
      elim (w.query_balance s.calls v) [
        | none ↦ (err wallet_failed, counted)
        | some balance ↦ (ok (summary_of c buyer v balance counted), counted)
      ]
]

abbrev pub after_address :
    Settings → String → Result DepositAddress × Deposits → Result DepositSummary × Deposits
after_address c buyer (err e, s) = (err e, s)
after_address c buyer (ok v, s) = summary_with c buyer v s

-- `GetSummary`
unfoldable pub get_summary : Settings → String → Deposits → Result DepositSummary × Deposits
unfolding ensure_address equal_fold parse_amount_to_cents64 raw_units_to_amount_string
get_summary c buyer s = after_address c buyer (ensure_address c buyer s)
