-- ===== src/Deposits/Reachable.antt =====
-- Every state that the calls of a `BuyerDepositService` reach from its empty memory repositories.
use tok.Prelude.{
  suc, ◌≤◌, ◌≡◌, refl, inl, inr, false, List, [], ◌∷◌, All, String, arith, Bool-cases, Option-cases,
}
use tok.Prelude.Dict.{get, get-put_self}
use tok.Prelude.Blank.{is_blank}
use tok.Prelude.Trim.{trim}
use tok.Deposits.Types.{DepositAddress}
use tok.Deposits.Repositories.{entries}
use tok.Deposits.Service.{
  Settings, Deposits, Result, ok, err, empty_deposits, ensure_address, get_summary, new_address,
  after_address, summary_with,
}
use tok.Deposits.Sync.{sync_deposits}
use tok.Deposits.Lists.{credits}
use tok.Deposits.Accounted.{IsAccounted, IsBacked}
use tok.Deposits.Once.{ensure_address-IsAccounted, sync_deposits-IsAccounted}

-- A call of the service.
pub data Call : Type 0 where
  ensure : String → Call
  summary : String → Call
  synchronise : Call

abbrev pub state_after : Settings → Call → Deposits → Deposits
state_after c (ensure buyer) s = (ensure_address c buyer s).1
state_after c (summary buyer) s = (get_summary c buyer s).1
state_after c synchronise s = (sync_deposits c s).2

unfoldable pub run : Settings → List Call → Deposits → Deposits
unfolding ensure_address get_summary sync_deposits
run c [] s = s
run c (x ∷ xs) s = run c xs (state_after c x s)

module _ (c : Settings) where
  after_address-IsAccounted :
      (buyer : String) (r : Result DepositAddress × Deposits)
      → IsAccounted c r.1
      → IsAccounted c (after_address c buyer r).1
  after_address-IsAccounted buyer (err e, s) h = h
  after_address-IsAccounted buyer (ok v, s) h = elim (Option-cases c.wallet) [
    | inl without ↦ rw (after_address, without) h
    | inr (w, given) ↦ elim (Option-cases (w.query_balance s.calls v)) [
      | inl failed ↦ rw (summary_with, given, failed) h
      | inr (balance, asked) ↦ rw (summary_with, given, asked) h
    ]
  ]

  state_after-IsAccounted :
      (x : Call) (s : Deposits) → IsAccounted c s → IsAccounted c (state_after c x s)
  unfolding get_summary
  state_after-IsAccounted (ensure buyer) s h = ensure_address-IsAccounted c buyer s h
  state_after-IsAccounted (summary buyer) s h =
      after_address-IsAccounted buyer (ensure_address c buyer s)
        (ensure_address-IsAccounted c buyer s h)
  state_after-IsAccounted synchronise s h = sync_deposits-IsAccounted c s h

  pub run-IsAccounted :
      (xs : List Call) (s : Deposits) → IsAccounted c s → IsAccounted c (run c xs s)
  unfolding run
  run-IsAccounted [] s h = h
  run-IsAccounted (x ∷ xs) s h =
      run-IsAccounted xs (state_after c x s) (state_after-IsAccounted x s h)

  empty-IsAccounted : IsAccounted c empty_deposits
  unfolding get
  empty-IsAccounted = record {
    named = tt;
    sweep_room = λ n h. refl;
    funding_room = λ n h. refl;
    backed = tt;
    once = λ buyer hash filled. omega arith;
  }

  -- In every state that a buyer deposit service reaches from empty memory repositories by any
  -- sequence of EnsureAddress, GetSummary and SyncDeposits, whatever the wallet answers, at most
  -- one settled top-up stands for a buyer and a transaction hash that is not blank.
  pub credited_once :
      (xs : List Call) (buyer hash : String)
      → is_blank hash ≡ false
      → credits buyer hash (entries (run c xs empty_deposits).funding.data_) ≤ 1
  credited_once xs buyer hash filled =
      (run-IsAccounted xs empty_deposits empty-IsAccounted).once buyer hash filled

  -- In the same states every settled top-up has a sweep to the treasury of the same buyer and
  -- transaction hash, and its amount is that of the sweep in cents, written as text.
  pub credits_stand_for_sweeps :
      (xs : List Call)
      → All
          (IsBacked c.raw_units_per_whole (entries (run c xs empty_deposits).sweeps.data_))
          (entries (run c xs empty_deposits).funding.data_)
  credits_stand_for_sweeps xs = (run-IsAccounted xs empty_deposits empty-IsAccounted).backed

-- Once EnsureAddress has returned an address for a buyer, the next call for the buyer returns
-- the same one and changes nothing, whatever the settings are.
pub ensure_address_again :
    (c : Settings) (buyer : String) (s s' : Deposits) (a : DepositAddress)
    → ensure_address c buyer s ≡ (ok a, s')
    → (d : Settings) → ensure_address d buyer s' ≡ (ok a, s')
unfolding ensure_address
ensure_address_again c buyer s s' a h d = elim (Bool-cases (is_blank buyer)) [
  | inl blank ↦ absurd (ground arith)
  | inr filled ↦ elim (Option-cases (get (trim buyer) s.addresses.data_)) [
    | inr (known, found) ↦ ground arith
    | inl unknown ↦ elim (Option-cases c.wallet) [
      | inl without ↦ absurd (ground arith)
      | inr (w, given) ↦ elim (Option-cases (w.derive_address s.calls s.addresses.next_index)) [
        | inl failed ↦ absurd (ground arith)
        | inr (address, derived) ↦ elim (Bool-cases (is_blank address)) [
          | inl blank ↦ absurd (ground arith)
          | inr usable ↦
              let saved =
                get-put_self (trim buyer)
                  (new_address c (trim buyer) s.addresses.seq address s.addresses.next_index
                    (c.now (suc s.calls)))
                  s.addresses.data_ in
              ground (arith, saved)
        ]
      ]
    ]
  ]
]
