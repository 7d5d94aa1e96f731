-- ===== src/Deposits/Accounted.antt =====
-- What stays true of the repositories of internal/services/settlement while addresses are handed
-- out and deposits are synchronised.
use tok.Prelude.{
  ◌≤◌, ◌≡◌, refl, sym, ap, ◌∙◌, inl, inr, Bool, true, false, ◌&&◌, List, [], ◌∷◌, ◌++◌, All,
  All-append, String, ◌==◌, eq_iff, ℤ, arith, Bool-cases,
}
use tok.Prelude.Blank.{is_blank}
use tok.Deposits.Types.{DepositAddress, SweepResult, SweepRecord, FundingRecord, buyer_topup_kind}
use tok.Deposits.Amounts.{raw_units_to_cents, cents_to_amount_string}
use tok.Deposits.Repositories.{Addresses, Sweeps, Funding, entries}
use tok.Deposits.Service.{Settings, Deposits, is_settled}
use tok.Deposits.Sync.{save_top_up_funding, save_new_sweep, new_top_up, new_sweep}
use tok.Deposits.Lists.{
  AnyOf, AnyOf-append_left, entries-put, HasRoomFrom, put-HasRoomFrom, is_credit, credits,
  credits-append, IsSweepOf,
}

-- A sweep to the treasury from the same buyer, with the same transaction and amount.
abbrev pub Backs : ℤ → FundingRecord → SweepRecord → Type 0
Backs per v s =
    IsSweepOf v.buyer_org_id v.external_id s
    × (v.amount ≡ cents_to_amount_string (raw_units_to_cents s.amount_raw per))

abbrev pub is_settled_top_up : FundingRecord → Bool
is_settled_top_up v = v.kind == buyer_topup_kind && is_settled v

abbrev pub IsBacked : ℤ → List SweepRecord → FundingRecord → Type 0
IsBacked per ss v = is_settled_top_up v ≡ true → AnyOf (Backs per v) ss

abbrev pub IsNamed : DepositAddress → Type 0
IsNamed a = (a.buyer_org_id == "") ≡ false

pub record AreAccounted (per : ℤ) (a : Addresses) (ss : Sweeps) (f : Funding) : Type 0 where
  pub named : All IsNamed (entries a.data_)
  pub sweep_room : HasRoomFrom "depsweep_" ss.seq ss.data_
  pub funding_room : HasRoomFrom "fund_" f.seq f.data_
  pub backed : All (IsBacked per (entries ss.data_)) (entries f.data_)
  pub once :
      (buyer hash : String) → is_blank hash ≡ false → credits buyer hash (entries f.data_) ≤ 1

abbrev pub IsAccounted : Settings → Deposits → Type 0
IsAccounted c s = AreAccounted c.raw_units_per_whole s.addresses s.sweeps s.funding

IsBacked-append :
    (per : ℤ) (ss : List SweepRecord) (s : SweepRecord) (vs : List FundingRecord)
    → All (IsBacked per ss) vs
    → All (IsBacked per (ss ++ s ∷ [])) vs
IsBacked-append per ss s [] h = tt
IsBacked-append per ss s (v ∷ vs) (h, hs) =
    ((λ e. AnyOf-append_left (Backs per v) ss (s ∷ []) (h e)), IsBacked-append per ss s vs hs)

-- A settled top-up is backed, so without a sweep of its buyer and hash there is no credit.
pub credits-backed :
    (per : ℤ) (buyer hash : String) (ss : List SweepRecord) (vs : List FundingRecord)
    → (AnyOf (IsSweepOf buyer hash) ss → ⊥)
    → All (IsBacked per ss) vs
    → credits buyer hash vs ≡ 0
credits-backed per buyer hash ss [] no_sweep h = refl
credits-backed per buyer hash ss (v ∷ vs) no_sweep (h, hs) =
    elim (Bool-cases (is_credit buyer hash v)) [
      | inl counted ↦
          let same_buyer : v.buyer_org_id ≡ buyer = ground (arith, eq_iff v.buyer_org_id buyer) in
          let same_hash : v.external_id ≡ hash = ground (arith, eq_iff v.external_id hash) in
          absurd (no_sweep (weaken same_buyer same_hash ss (h (ground arith))))
      | inr other ↦ rw other (credits-backed per buyer hash ss vs no_sweep hs)
    ]
  where
    weaken :
        v.buyer_org_id ≡ buyer
        → v.external_id ≡ hash
        → (ss : List SweepRecord) → AnyOf (Backs per v) ss
        → AnyOf (IsSweepOf buyer hash) ss
    weaken b t [] found = found
    weaken b t (s ∷ ss) (inl ((sb, st), _)) = inl (sb ∙ b, st ∙ t)
    weaken b t (s ∷ ss) (inr found) = inr (weaken b t ss found)

-- A saved sweep backs more, and is found again.
pub save_new_sweep-IsAccounted :
    (c : Settings) (v : DepositAddress) (r : SweepResult) (s : Deposits)
    → IsAccounted c s
    → IsAccounted c (save_new_sweep c v r s)
unfolding save_new_sweep
save_new_sweep-IsAccounted c v r s h =
    let added = new_sweep c v r s.sweeps.seq (c.now s.calls) in
    let grown =
      entries-put added.id added s.sweeps.data_ (h.sweep_room s.sweeps.seq (omega arith)) in
    record {
      named = h.named;
      sweep_room = put-HasRoomFrom "depsweep_" s.sweeps.seq added s.sweeps.data_ h.sweep_room;
      funding_room = h.funding_room;
      backed = rw grown (IsBacked-append c.raw_units_per_whole _ added _ h.backed);
      once = h.once;
    }

-- A credit keeps the accounts if a sweep backs it and the transaction has not been credited.
pub save_top_up_funding-IsAccounted :
    (c : Settings) (v : DepositAddress) (treasury hash : String) (raw : ℤ) (s : Deposits)
    → IsAccounted c s
    → AnyOf (λ k. IsSweepOf v.buyer_org_id hash k × (k.amount_raw ≡ raw)) (entries s.sweeps.data_)
    → (is_blank hash ≡ false → credits v.buyer_org_id hash (entries s.funding.data_) ≡ 0)
    → IsAccounted c
        (save_top_up_funding c v treasury hash (raw_units_to_cents raw c.raw_units_per_whole) s)
unfolding save_top_up_funding
save_top_up_funding-IsAccounted c v treasury hash raw s h swept fresh =
    let per = c.raw_units_per_whole in
    let added =
      new_top_up c v treasury hash (raw_units_to_cents raw per) s.funding.seq (c.now s.calls) in
    let grown =
      entries-put added.id added s.funding.data_ (h.funding_room s.funding.seq (omega arith)) in
    record {
      named = h.named;
      sweep_room = h.sweep_room;
      funding_room = put-HasRoomFrom "fund_" s.funding.seq added s.funding.data_ h.funding_room;
      backed = rw grown (All-append (IsBacked per _) _ _ h.backed ((λ _. backing _ swept), tt));
      once = λ b t filled. rw grown (
          one_more b t (entries s.funding.data_) added (h.once b t filled)
            (λ sb st. first b t filled sb st));
    }
  where
    backing :
        (ss : List SweepRecord)
        → AnyOf (λ k. IsSweepOf v.buyer_org_id hash k × (k.amount_raw ≡ raw)) ss
        → AnyOf
            (λ k.
              IsSweepOf v.buyer_org_id hash k
              × (cents_to_amount_string (raw_units_to_cents raw c.raw_units_per_whole)
                  ≡ cents_to_amount_string (raw_units_to_cents k.amount_raw c.raw_units_per_whole)))
            ss
    backing [] found = found
    backing (k ∷ ks) (inl (of_buyer, amount)) = inl (
      of_buyer,
      ap (λ x. cents_to_amount_string (raw_units_to_cents x c.raw_units_per_whole)) (sym amount),
    )
    backing (k ∷ ks) (inr found) = inr (backing ks found)

    first :
        (b t : String)
        → is_blank t ≡ false
        → v.buyer_org_id ≡ b
        → hash ≡ t
        → credits b t (entries s.funding.data_) ≡ 0
    first b t filled sb st =
        ap (λ x. credits x t (entries s.funding.data_)) (sym sb)
        ∙ ap (λ x. credits v.buyer_org_id x (entries s.funding.data_)) (sym st)
        ∙ fresh (ap is_blank st ∙ filled)

    one_more :
        (b t : String) (vs : List FundingRecord) (added : FundingRecord)
        → credits b t vs ≤ 1
        → (added.buyer_org_id ≡ b → added.external_id ≡ t → credits b t vs ≡ 0)
        → credits b t (vs ++ added ∷ []) ≤ 1
    one_more b t vs added few none_yet = elim (Bool-cases (is_credit b t added)) [
      | inl counted ↦
          let empty : credits b t vs ≡ 0 =
            none_yet (ground (arith, eq_iff added.buyer_org_id b))
              (ground (arith, eq_iff added.external_id t)) in
          ground (arith, credits-append b t vs added)
      | inr other ↦ ground (arith, credits-append b t vs added)
    ]
