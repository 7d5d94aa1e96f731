-- ===== src/Deposits/Repositories.antt =====
-- The memory repositories of internal/services/settlement. A map is ranged over in the order of its
-- association list; `time.Now()` is an argument.
use tok.Prelude.{
  ℕ, suc, Bool, ◌&&◌, ◌||◌, Option, List, [], ◌∷◌, ◌==◌, String, numbered, if◌then◌else◌,
}
use tok.Prelude.Dict.{Dict, get, put}
use tok.Core.Types.{Time}
use tok.Deposits.Types.{DepositAddress, SweepRecord, FundingRecord}

-- `memoryBuyerDepositAddressRepository`
pub record Addresses : Type 0 where
  pub seq : ℕ
  pub next_index : ℕ
  pub data_ : Dict DepositAddress

-- `memoryBuyerDepositSweepRepository`
pub record Sweeps : Type 0 where
  pub seq : ℕ
  pub data_ : Dict SweepRecord

-- `memoryFundingRecordRepository`
pub record Funding : Type 0 where
  pub seq : ℕ
  pub data_ : Dict FundingRecord

-- `NewMemoryBuyerDepositAddressRepository`, and those of the other two.
abbrev pub no_addresses : Addresses
no_addresses = record { seq = 0; next_index = 0; data_ = [] }

abbrev pub no_sweeps : Sweeps
no_sweeps = record { seq = 0; data_ = [] }

abbrev pub no_funding : Funding
no_funding = record { seq = 0; data_ = [] }

-- The values of a map.
abbrev pub entries {ℓ} : {A : Type ℓ} → Dict A → List A
entries [] = []
entries ((k, v) ∷ d) = v ∷ entries d

abbrev pub keep_if {ℓ} : {A : Type ℓ} → (A → Bool) → List A → List A
keep_if p [] = []
keep_if p (x ∷ xs) = if p x then x ∷ keep_if p xs else keep_if p xs

abbrev pub next_address_id : ℕ → String
next_address_id n = numbered "depaddr_" (suc n)

abbrev pub next_sweep_id : ℕ → String
next_sweep_id n = numbered "depsweep_" (suc n)

abbrev pub next_funding_id : ℕ → String
next_funding_id n = numbered "fund_" (suc n)

abbrev pub save_address : DepositAddress → Addresses → Addresses
save_address v r = record r { data_ = put v.buyer_org_id v r.data_ }

abbrev pub get_by_buyer_org_id : String → Addresses → Option DepositAddress
get_by_buyer_org_id buyer r = get buyer r.data_

abbrev pub list_addresses : Addresses → List DepositAddress
list_addresses r = entries r.data_

-- A filter on an organisation: the empty one takes everything.
abbrev pub matches : String → String → Bool
matches wanted actual = wanted == "" || actual == wanted

abbrev pub save_sweep : SweepRecord → Sweeps → Sweeps
save_sweep v r = record r { data_ = put v.id v r.data_ }

abbrev pub list_sweeps : String → Sweeps → List SweepRecord
list_sweeps buyer r = keep_if (λ v. matches buyer v.buyer_org_id) (entries r.data_)

-- `FundingRecordFilter`
pub record Filter : Type 0 where
  pub kind : String
  pub order_id : String
  pub buyer_org_id : String
  pub provider_org_id : String

abbrev pub save_funding : FundingRecord → Funding → Funding
save_funding v r = record r { data_ = put v.id v r.data_ }

abbrev pub is_selected : Filter → FundingRecord → Bool
is_selected f v =
    matches f.kind v.kind
    && matches f.order_id v.order_id
    && matches f.buyer_org_id v.buyer_org_id
    && matches f.provider_org_id v.provider_org_id

abbrev pub list_funding : Filter → Funding → List FundingRecord
list_funding f r = keep_if (is_selected f) (entries r.data_)

-- Both updates write the new state into every record that matches.
abbrev pub set_state :
    (FundingRecord → Bool) → String → Time → Dict FundingRecord → Dict FundingRecord
set_state p state now [] = []
set_state p state now ((id, v) ∷ d) =
    let rest = set_state p state now d in
    (id, if p v then record v { state = state; updated_at = now } else v) ∷ rest

abbrev pub update_invoice_state : String → String → Time → Funding → Funding
update_invoice_state invoice state now r = record r {
  data_ = set_state (λ v. v.invoice == invoice) state now r.data_;
}

abbrev pub update_external_state : String → String → Time → Funding → Funding
update_external_state external_id state now r = record r {
  data_ = set_state (λ v. v.external_id == external_id) state now r.data_;
}
