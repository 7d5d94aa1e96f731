-- ===== src/Deposits/Passes.antt =====
-- The passes of the reconciler: what they leave alone, and when nothing is left to do.
use tok.Prelude.{
  suc, ℤ, pos, ◌≡◌, refl, ap, ◌∙◌, inl, inr, Bool, true, false, ◌||◌, List, [], ◌∷◌, map, String,
  ◌==◌, Bool-cases, Option-cases, add64,
}
use tok.Prelude.Dict.{Dict}
use tok.Prelude.Blank.{is_blank}
use tok.Prelude.Casing.{equal_fold}
use tok.Core.Types.{Time}
use tok.Deposits.Types.{FundingRecord}
use tok.Deposits.Repositories.{entries, set_state, list_funding}
use tok.Deposits.Service.{Deposits}
use tok.Deposits.Reconciler.{
  FiberClient, Pass, go_on, sync_invoice, sync_invoices, sync_pending_invoices,
  is_settled_invoice_state, sync_pending_withdrawals, sync_providers, sync_provider, apply_statuses,
  pending_providers, any_record, any_withdrawal,
}

-- A record without what the reconciler may write.
abbrev pub frozen : FundingRecord → FundingRecord
frozen v = record v { state = ""; updated_at = 0 }

abbrev pub frozen_entries : Dict FundingRecord → List FundingRecord
frozen_entries d = map frozen (entries d)

-- The repositories agree but for the states of the funding records.
pub record AgreeButStates (s t : Deposits) : Type 0 where
  pub addresses : t.addresses ≡ s.addresses
  pub sweeps : t.sweeps ≡ s.sweeps
  pub seq : t.funding.seq ≡ s.funding.seq
  pub records : frozen_entries t.funding.data_ ≡ frozen_entries s.funding.data_

AgreeButStates-trans :
    {s t u : Deposits} → AgreeButStates s t → AgreeButStates t u → AgreeButStates s u
AgreeButStates-trans h k = record {
  addresses = k.addresses ∙ h.addresses;
  sweeps = k.sweeps ∙ h.sweeps;
  seq = k.seq ∙ h.seq;
  records = k.records ∙ h.records;
}

AgreeButStates-refl :
    (s t : Deposits)
    → t.addresses ≡ s.addresses
    → t.sweeps ≡ s.sweeps
    → t.funding ≡ s.funding
    → AgreeButStates s t
AgreeButStates-refl s t a w f = record {
  addresses = a;
  sweeps = w;
  seq = ap (λ x. x.seq) f;
  records = ap (λ x. frozen_entries x.data_) f;
}

set_state-frozen :
    (p : FundingRecord → Bool) (state : String) (now : Time) (d : Dict FundingRecord)
    → frozen_entries (set_state p state now d) ≡ frozen_entries d
set_state-frozen p state now [] = refl
set_state-frozen p state now ((id, v) ∷ d) = elim (Bool-cases (p v)) [
  | inl chosen ↦ rw (chosen, set_state-frozen p state now d) refl
  | inr other ↦ rw (other, set_state-frozen p state now d) refl
]

go_on-AgreeButStates :
    (s : Deposits) (r : Pass) (rest : ℤ → Deposits → Pass)
    → AgreeButStates s r.2
    → ((n : ℤ) (t : Deposits) → AgreeButStates t (rest n t).2)
    → AgreeButStates s (go_on r rest).2
go_on-AgreeButStates s (n, true, t) rest h keeps = h
go_on-AgreeButStates s (n, false, t) rest h keeps = AgreeButStates-trans h (keeps n t)

module _ (f : FiberClient) where
  sync_invoice-AgreeButStates :
      (v : FundingRecord) (n : ℤ) (s : Deposits) → AgreeButStates s (sync_invoice f v n s).2
  unfolding sync_invoice
  sync_invoice-AgreeButStates v n s =
      elim (Bool-cases (is_blank v.invoice || is_settled_invoice_state v.state)) [
        | inl skip ↦ rw (sync_invoice, skip) (AgreeButStates-refl s s refl refl refl)
        | inr ask ↦ elim (Option-cases (f.get_invoice_status s.calls v.invoice)) [
          | inl failed ↦ rw (sync_invoice, ask, failed) (AgreeButStates-refl s _ refl refl refl)
          | inr (state, known) ↦ elim (Bool-cases (is_blank state || equal_fold state v.state)) [
            | inl same ↦
                rw (sync_invoice, ask, known, same) (AgreeButStates-refl s _ refl refl refl)
            | inr changed ↦
                rw (sync_invoice, ask, known, changed)
                  (record {
                    addresses = refl;
                    sweeps = refl;
                    seq = refl;
                    records =
                        set_state-frozen (λ w. w.invoice == v.invoice) state (f.now (suc s.calls))
                          s.funding.data_;
                  })
          ]
        ]
      ]

  sync_invoices-AgreeButStates :
      (vs : List FundingRecord) (n : ℤ) (s : Deposits) → AgreeButStates s (sync_invoices f vs n s).2
  unfolding sync_invoices
  sync_invoices-AgreeButStates [] n s = AgreeButStates-refl s s refl refl refl
  sync_invoices-AgreeButStates (v ∷ vs) n s =
      go_on-AgreeButStates s (sync_invoice f v n s) (sync_invoices f vs)
        (sync_invoice-AgreeButStates v n s) (sync_invoices-AgreeButStates vs)

  apply_statuses-AgreeButStates :
      (items : List (String × String)) (n : ℤ) (s : Deposits)
      → AgreeButStates s (apply_statuses f items n s).2
  unfolding apply_statuses
  apply_statuses-AgreeButStates [] n s = AgreeButStates-refl s s refl refl refl
  apply_statuses-AgreeButStates ((id, state) ∷ items) n s =
      elim (Bool-cases (is_blank id || is_blank state)) [
        | inl skip ↦ rw (apply_statuses, skip) (apply_statuses-AgreeButStates items n s)
        | inr write ↦
            rw (apply_statuses, write)
              (AgreeButStates-trans
                (record {
                  addresses = refl;
                  sweeps = refl;
                  seq = refl;
                  records =
                      set_state-frozen (λ w. w.external_id == id) state (f.now s.calls)
                        s.funding.data_;
                })
                (apply_statuses-AgreeButStates items (add64 n (pos 1)) _))
      ]

  sync_provider-AgreeButStates :
      (p : String) (n : ℤ) (s : Deposits) → AgreeButStates s (sync_provider f p n s).2
  unfolding sync_provider
  sync_provider-AgreeButStates p n s = elim (Option-cases (f.list_withdrawal_statuses s.calls p)) [
    | inl failed ↦ rw (sync_provider, failed) (AgreeButStates-refl s _ refl refl refl)
    | inr (items, known) ↦
        rw (sync_provider, known)
          (AgreeButStates-trans (AgreeButStates-refl s _ refl refl refl)
            (apply_statuses-AgreeButStates items n (record s { calls = suc s.calls })))
  ]

  sync_providers-AgreeButStates :
      (ps : List String) (n : ℤ) (s : Deposits) → AgreeButStates s (sync_providers f ps n s).2
  unfolding sync_providers
  sync_providers-AgreeButStates [] n s = AgreeButStates-refl s s refl refl refl
  sync_providers-AgreeButStates (p ∷ ps) n s =
      go_on-AgreeButStates s (sync_provider f p n s) (sync_providers f ps)
        (sync_provider-AgreeButStates p n s) (sync_providers-AgreeButStates ps)

  -- The passes over invoices and withdrawals, whether they end in an error or not, change nothing
  -- but the state and the update time of funding records: addresses, sweeps and every other field
  -- of the records stay, in their order.
  pub passes_write_states :
      (s : Deposits)
      → AgreeButStates s (sync_pending_invoices f s).2
        × AgreeButStates s (sync_pending_withdrawals f s).2
  unfolding sync_pending_invoices sync_pending_withdrawals
  passes_write_states s = (
    sync_invoices-AgreeButStates (list_funding any_record s.funding) (pos 0) s,
    sync_providers-AgreeButStates (pending_providers (list_funding any_withdrawal s.funding) [])
        (pos 0) s,
  )
