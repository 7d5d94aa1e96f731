-- ===== src/Deposits/Once.antt =====
-- Sequences of calls of a `BuyerDepositService`: no transaction is credited twice to a buyer, and every
-- credit stands for a sweep.
use tok.Prelude.{
  ℕ, suc, ◌≡◌, refl, inl, inr, false, some, none, List, [], ◌∷◌, All, String, ◌==◌, arith,
  Bool-cases, Option-cases, ltb_ℤ, leb_ℤ, pos,
}
use tok.Prelude.Dict.{get}
use tok.Prelude.Blank.{is_blank}
use tok.Prelude.Trim.{trim}
use tok.Prelude.Reading.{trim-ne}
use tok.Deposits.Types.{DepositAddress, SweepResult, SweepRecord, SyncSummary}
use tok.Deposits.Repositories.{entries, list_sweeps}
use tok.Deposits.Service.{
  Wallet, Settings, Deposits, ensure_address, derive_address, save_new_address, new_address,
}
use tok.Deposits.Sync.{
  Step, credit_known, credit_new, credit_sweep, sync_one, sync_addresses, sync_deposits, resume,
  has_settled_top_up, find_sweep_by_tx_hash, no_sync, new_sweep, save_new_sweep, Outcome,
}
use tok.Deposits.Lists.{
  AnyOf-append_last, All-put, entries-put, credits, credits-any_settled, first_with_hash-none,
  first_with_hash-some,
}
use tok.Deposits.Accounted.{
  AreAccounted, IsAccounted, IsNamed, save_new_sweep-IsAccounted, save_top_up_funding-IsAccounted,
  credits-backed,
}

module _ (c : Settings) where
  credit_known-IsAccounted :
      (v : DepositAddress) (known : SweepRecord) (hash : String) (n : SyncSummary) (s : Deposits)
      → IsNamed v
      → IsAccounted c s
      → find_sweep_by_tx_hash (list_sweeps v.buyer_org_id s.sweeps) hash ≡ some known
      → IsAccounted c (credit_known c v known hash n s).1
  unfolding credit_known find_sweep_by_tx_hash has_settled_top_up
  credit_known-IsAccounted v known hash n s named h found = elim (Bool-cases (is_blank hash)) [
    | inl blank ↦ absurd (ground arith)
    | inr filled ↦
        let (same, swept) =
          first_with_hash-some v.buyer_org_id hash (entries s.sweeps.data_) known named
            (ground arith) in
        elim (Bool-cases (has_settled_top_up v.buyer_org_id hash s.funding)) [
          | inl credited ↦ rw (credit_known, credited) h
          | inr fresh ↦
              let first : credits v.buyer_org_id hash (entries s.funding.data_) ≡ 0 =
                credits-any_settled v.buyer_org_id hash (entries s.funding.data_) (ground arith) in
              rw (credit_known, fresh)
                (save_top_up_funding-IsAccounted c v _ known.tx_hash known.amount_raw s h
                  (rw same swept) (λ _. rw same first))
        ]
  ]

  credit_new-IsAccounted :
      (v : DepositAddress) (r : SweepResult) (n : SyncSummary) (s : Deposits)
      → IsAccounted c s
      → find_sweep_by_tx_hash (list_sweeps v.buyer_org_id s.sweeps) r.sweep_tx_hash ≡ none
      → IsAccounted c (credit_new c v r n s).1
  unfolding credit_new find_sweep_by_tx_hash save_new_sweep
  credit_new-IsAccounted v r n s h missing =
      let added = new_sweep c v r s.sweeps.seq (c.now s.calls) in
      let grown =
        entries-put added.id added s.sweeps.data_ (h.sweep_room s.sweeps.seq (omega arith)) in
      save_top_up_funding-IsAccounted c v _ r.sweep_tx_hash r.swept_raw_units
        (save_new_sweep c v r s) (save_new_sweep-IsAccounted c v r s h)
        (rw grown (AnyOf-append_last _ (entries s.sweeps.data_) added ((refl, refl), refl)))
        (λ filled.
          credits-backed c.raw_units_per_whole v.buyer_org_id r.sweep_tx_hash
            (entries s.sweeps.data_) (entries s.funding.data_)
            (first_with_hash-none v.buyer_org_id r.sweep_tx_hash _ (ground arith)) h.backed)

  credit_sweep-IsAccounted :
      (v : DepositAddress) (r : SweepResult) (n : SyncSummary) (s : Deposits)
      → IsNamed v
      → IsAccounted c s
      → IsAccounted c (credit_sweep c v r n s).1
  unfolding credit_sweep
  credit_sweep-IsAccounted v r n s named h =
      elim (Option-cases
        (find_sweep_by_tx_hash (list_sweeps v.buyer_org_id s.sweeps) r.sweep_tx_hash)) [
          | inl missing ↦ rw (credit_sweep, missing) (credit_new-IsAccounted v r n s h missing)
          | inr (known, found) ↦
              rw (credit_sweep, found)
                (credit_known-IsAccounted v known r.sweep_tx_hash n s named h found)
        ]

  sync_one-IsAccounted :
      (w : Wallet) (v : DepositAddress) (n : SyncSummary) (s : Deposits)
      → IsNamed v
      → IsAccounted c s
      → IsAccounted c (sync_one c w v n s).1
  unfolding sync_one
  sync_one-IsAccounted w v n s named h = elim (Option-cases (w.query_balance s.calls v)) [
    | inl failed ↦ rw (sync_one, failed) h
    | inr (balance, known) ↦
        elim (Bool-cases (ltb_ℤ balance.raw_confirmed_units c.min_sweep_amount_raw)) [
          | inl few ↦ rw (sync_one, known, few) h
          | inr many ↦
              elim (Option-cases
                (w.sweep_to_treasury (suc s.calls) v c.treasury_address c.confirmation_blocks)) [
                  | inl failed ↦ rw (sync_one, known, many, failed) h
                  | inr (r, swept) ↦ elim (Bool-cases (leb_ℤ r.swept_raw_units (pos 0))) [
                    | inl nothing ↦ rw (sync_one, known, many, swept, nothing) h
                    | inr something ↦
                        rw (sync_one, known, many, swept, something)
                          (credit_sweep-IsAccounted v r n (record s { calls = suc (suc s.calls) })
                            named h)
                  ]
                ]
        ]
  ]

  resume-IsAccounted :
      (r : Step × Deposits) (rest : SyncSummary → Deposits → Outcome)
      → IsAccounted c r.1
      → ((m : SyncSummary) (t : Deposits) → IsAccounted c t → IsAccounted c (rest m t).2)
      → IsAccounted c (resume r rest).2
  resume-IsAccounted (Step.next m, t) rest h keeps = keeps m t h
  resume-IsAccounted (Step.stop m e, t) rest h keeps = h

  sync_addresses-IsAccounted :
      (w : Wallet) (vs : List DepositAddress) (n : SyncSummary) (s : Deposits)
      → All IsNamed vs
      → IsAccounted c s
      → IsAccounted c (sync_addresses c w vs n s).2
  unfolding sync_addresses
  sync_addresses-IsAccounted w [] n s named h = h
  sync_addresses-IsAccounted w (v ∷ vs) n s (named, all) h =
      resume-IsAccounted (sync_one c w v n s) (sync_addresses c w vs)
        (sync_one-IsAccounted w v n s named h) (λ m t k. sync_addresses-IsAccounted w vs m t all k)

  pub sync_deposits-IsAccounted :
      (s : Deposits) → IsAccounted c s → IsAccounted c (sync_deposits c s).2
  unfolding sync_deposits
  sync_deposits-IsAccounted s h = elim (Option-cases c.wallet) [
    | inl without ↦ rw (sync_deposits, without) h
    | inr (w, given) ↦
        rw (sync_deposits, given)
          (sync_addresses-IsAccounted w (entries s.addresses.data_) no_sync s h.named h)
  ]

  -- A buyer gets one address: a second call finds it.
  save_new_address-IsAccounted :
      (buyer address : String) (index : ℕ) (s : Deposits)
      → (buyer == "") ≡ false
      → IsAccounted c s
      → IsAccounted c (save_new_address c buyer address index s).1
  save_new_address-IsAccounted buyer address index s filled h = record {
    named =
        All-put IsNamed buyer (new_address c buyer s.addresses.seq address index (c.now s.calls))
          s.addresses.data_ filled h.named;
    sweep_room = h.sweep_room;
    funding_room = h.funding_room;
    backed = h.backed;
    once = h.once;
  }

  derive_address-IsAccounted :
      (w : Wallet) (buyer : String) (s : Deposits)
      → (buyer == "") ≡ false
      → IsAccounted c s
      → IsAccounted c (derive_address c w buyer s).1
  derive_address-IsAccounted w buyer s filled h =
      elim (Option-cases (w.derive_address s.calls s.addresses.next_index)) [
        | inl failed ↦ rw (derive_address, failed) (moved h)
        | inr (address, derived) ↦ elim (Bool-cases (is_blank address)) [
          | inl blank ↦ rw (derive_address, derived, blank) (moved h)
          | inr usable ↦
              rw (derive_address, derived, usable)
                (save_new_address-IsAccounted buyer address s.addresses.next_index _ filled
                  (moved h))
        ]
      ]
    where
      moved :
          IsAccounted c s
          → AreAccounted c.raw_units_per_whole
              (record s.addresses { next_index = suc s.addresses.next_index })
              s.sweeps
              s.funding
      moved h = record {
        named = h.named;
        sweep_room = h.sweep_room;
        funding_room = h.funding_room;
        backed = h.backed;
        once = h.once;
      }

  pub ensure_address-IsAccounted :
      (buyer : String) (s : Deposits) → IsAccounted c s → IsAccounted c (ensure_address c buyer s).1
  unfolding ensure_address
  ensure_address-IsAccounted buyer s h = elim (Bool-cases (is_blank buyer)) [
    | inl blank ↦ rw (ensure_address, blank) h
    | inr filled ↦ elim (Option-cases (get (trim buyer) s.addresses.data_)) [
      | inr (a, known) ↦ rw (ensure_address, filled, known) h
      | inl unknown ↦ elim (Option-cases c.wallet) [
        | inl without ↦ rw (ensure_address, filled, unknown, without) h
        | inr (w, given) ↦
            rw (ensure_address, filled, unknown, given)
              (derive_address-IsAccounted w (trim buyer) s (trim-ne buyer filled) h)
      ]
    ]
  ]
