-- ===== src/Deposits/Settling.antt =====
-- `syncPendingInvoices` of internal/services/settlement/reconciler.go reaches a state in which it has
-- nothing left to do, when the answers of the Fiber client stay the same.
use tok.Prelude.{
  ℕ, suc, ℤ, pos, ◌≡◌, refl, sym, ap, ◌∙◌, ◌⊎◌, inl, inr, Bool, true, false, ◌||◌, Option, some,
  none, List, [], ◌∷◌, All, String, ◌==◌, eq_iff, eq_refl, arith, Bool-cases, Option-cases,
  if◌then◌else◌,
}
use tok.Prelude.Dict.{Dict}
use tok.Prelude.Blank.{is_blank}
use tok.Prelude.Casing.{equal_fold, equal_fold_refl}
use tok.Core.Types.{Time}
use tok.Deposits.Types.{FundingRecord}
use tok.Deposits.Repositories.{entries, keep_if, is_selected, set_state, list_funding}
use tok.Deposits.Service.{Deposits}
use tok.Deposits.Lists.{AnyOf}
use tok.Deposits.Reconciler.{
  FiberClient, sync_invoice, sync_invoices, sync_pending_invoices, is_settled_invoice_state,
  any_record,
}

-- The answers do not depend on when the client is asked.
abbrev pub IsSteady : FiberClient → Type 0
IsSteady f =
    (i : ℕ) (invoice : String) → f.get_invoice_status i invoice ≡ f.get_invoice_status 0 invoice

-- The status says no more than the record does.
abbrev says_the_same : Option String → String → Bool
says_the_same none state = false
says_the_same (some s) state = is_blank s || equal_fold s state

abbrev is_quiet : FiberClient → FundingRecord → Bool
is_quiet f v =
    is_blank v.invoice
    || is_settled_invoice_state v.state
    || says_the_same (f.get_invoice_status 0 v.invoice) v.state

abbrev IsQuiet : FiberClient → FundingRecord → Type 0
IsQuiet f v = is_quiet f v ≡ true

-- A record is quiet, or the pass has it still before it.
abbrev IsHandled : FiberClient → List FundingRecord → FundingRecord → Type 0
IsHandled f vs v = IsQuiet f v ⊎ AnyOf (λ w. v ≡ w) vs

module _ (f : FiberClient) where
  -- The first record of the pass is quiet, so it need not be before it.
  pass_by :
      (u : FundingRecord) (us ws : List FundingRecord)
      → IsQuiet f u
      → All (IsHandled f (u ∷ us)) ws
      → All (IsHandled f us) ws
  pass_by u us [] quiet h = tt
  pass_by u us (w ∷ ws) quiet (h, hs) = (now h, pass_by u us ws quiet hs)
    where
      now : IsHandled f (u ∷ us) w → IsHandled f us w
      now (inl q) = inl q
      now (inr (inl same)) = inl (rw same quiet)
      now (inr (inr later)) = inr later

  -- A write of the status makes quiet what it reaches.
  written :
      (u : FundingRecord) (us : List FundingRecord) (state : String) (now : Time)
      (d : Dict FundingRecord)
      → f.get_invoice_status 0 u.invoice ≡ some state
      → All (IsHandled f (u ∷ us)) (entries d)
      → All (IsHandled f us) (entries (set_state (λ w. w.invoice == u.invoice) state now d))
  written u us state now [] known h = tt
  written u us state now ((id, w) ∷ d) known (h, hs) =
      (here (Bool-cases (w.invoice == u.invoice)), written u us state now d known hs)
    where
      unreached : (w.invoice == u.invoice) ≡ false → IsHandled f (u ∷ us) w → IsHandled f us w
      unreached other (inl q) = inl q
      unreached other (inr (inl same)) =
          absurd (ground (arith, ap (λ x. x.invoice) same, eq_iff w.invoice u.invoice))
      unreached other (inr (inr later)) = inr later

      here :
          ((w.invoice == u.invoice) ≡ true) ⊎ ((w.invoice == u.invoice) ≡ false)
          → IsHandled f us
              (if w.invoice == u.invoice then record w { state = state; updated_at = now } else w)
      here (inl reached) =
          let same : w.invoice ≡ u.invoice = ground (arith, eq_iff w.invoice u.invoice) in
          let answer : f.get_invoice_status 0 w.invoice ≡ some state =
            ap (f.get_invoice_status 0) same ∙ known in
          rw reached (inl (rw answer (ground (arith, equal_fold_refl state))))
      here (inr other) = rw other (unreached other h)

  pub quiet_after :
      IsSteady f
      → (us : List FundingRecord) (n m : ℤ) (s t : Deposits)
      → All (IsHandled f us) (entries s.funding.data_)
      → sync_invoices f us n s ≡ (m, false, t)
      → All (IsHandled f []) (entries t.funding.data_)
  unfolding sync_invoices sync_invoice
  quiet_after steady [] n m s t h e = rw⁻¹ (ap (λ r. r.2) e) h
  quiet_after steady (u ∷ us) n m s t h e =
      elim (Bool-cases (is_blank u.invoice || is_settled_invoice_state u.state)) [
        | inl skip ↦ quiet_after steady us n m s t (pass_by u us _ (ground arith) h) (rw skip at e)
        | inr ask ↦ elim (Option-cases (f.get_invoice_status s.calls u.invoice)) [
          | inl failed ↦ absurd (ground arith)
          | inr (state, known) ↦
              let now : f.get_invoice_status 0 u.invoice ≡ some state =
                sym (steady s.calls u.invoice) ∙ known in
              elim (Bool-cases (is_blank state || equal_fold state u.state)) [
                | inl same ↦
                    quiet_after steady us n m (record s { calls = suc s.calls }) t
                      (pass_by u us _ (rw now (ground arith)) h) (rw (ask, known, same) at e)
                | inr changed ↦
                    quiet_after steady us _ m _ t
                      (written u us state (f.now (suc s.calls)) s.funding.data_ now h)
                      (rw (ask, known, changed) at e)
              ]
        ]
      ]

  -- A pass over quiet records changes nothing.
  idle :
      (us : List FundingRecord) (n : ℤ) (s : Deposits)
      → IsSteady f
      → All (IsHandled f []) us
      → ((sync_invoices f us n s).0 ≡ n)
        × ((sync_invoices f us n s).1 ≡ false)
        × ((sync_invoices f us n s).2.funding ≡ s.funding)
  unfolding sync_invoices sync_invoice
  idle [] n s steady h = (refl, refl, refl)
  idle (u ∷ us) n s steady (inr none_left, h) = absurd none_left
  idle (u ∷ us) n s steady (inl quiet, h) =
      elim (Bool-cases (is_blank u.invoice || is_settled_invoice_state u.state)) [
        | inl skip ↦ rw skip (idle us n s steady h)
        | inr ask ↦ elim (Option-cases (f.get_invoice_status s.calls u.invoice)) [
          | inl failed ↦
              let never : f.get_invoice_status 0 u.invoice ≡ none =
                sym (steady s.calls u.invoice) ∙ failed in
              absurd (ground arith)
          | inr (state, known) ↦
              let now : f.get_invoice_status 0 u.invoice ≡ some state =
                sym (steady s.calls u.invoice) ∙ known in
              let same : (is_blank state || equal_fold state u.state) ≡ true = ground arith in
              rw (ask, known, same) (idle us n (record s { calls = suc s.calls }) steady h)
        ]
      ]

keep_everything : (vs : List FundingRecord) → keep_if (is_selected any_record) vs ≡ vs
keep_everything [] = refl
keep_everything (v ∷ vs) = ground (arith, eq_refl "", keep_everything vs)

each_is_before :
    (f : FiberClient) (vs ws : List FundingRecord)
    → ((w : FundingRecord) → AnyOf (λ v. w ≡ v) ws → AnyOf (λ v. w ≡ v) vs)
    → All (IsHandled f vs) ws
each_is_before f vs [] into = tt
each_is_before f vs (w ∷ ws) into =
    (inr (into w (inl refl)), each_is_before f vs ws (λ v h. into v (inr h)))

-- When the answers of the Fiber client stay the same, a pass over the pending invoices that ends
-- without an error leaves nothing to do: the next pass ends without an error too, updates no
-- invoice and changes no record.
pub sync_pending_invoices_settles :
    (f : FiberClient) (s t : Deposits) (updates : ℤ)
    → IsSteady f
    → sync_pending_invoices f s ≡ (updates, false, t)
    → ((sync_pending_invoices f t).0 ≡ pos 0)
      × ((sync_pending_invoices f t).1 ≡ false)
      × ((sync_pending_invoices f t).2.funding ≡ t.funding)
unfolding sync_pending_invoices
sync_pending_invoices_settles f s t updates steady e =
    let all = keep_everything (entries s.funding.data_) in
    let handled : All (IsHandled f (list_funding any_record s.funding)) (entries s.funding.data_) =
      rw all (each_is_before f _ (entries s.funding.data_) (λ w h. h)) in
    let quiet =
      quiet_after f steady (list_funding any_record s.funding) (pos 0) updates s t handled e in
    idle f (list_funding any_record t.funding) (pos 0) t steady
      (rw (keep_everything (entries t.funding.data_)) quiet)
