-- ===== src/Deposits/Indices.antt =====
-- Two buyers never share a derivation index of the deposit wallet.
use tok.Prelude.{
  ℕ, suc, ◌<◌, ◌≡◌, ◌≢◌, refl, sym, inl, inr, false, some, List, [], ◌∷◌, String, ◌==◌, arith,
  Bool-cases, Option-cases, eq_iff,
}
use tok.Prelude.Dict.{get, put, get-put}
use tok.Prelude.Blank.{is_blank}
use tok.Prelude.Trim.{trim}
use tok.Deposits.Types.{DepositAddress}
use tok.Deposits.Repositories.{Addresses}
use tok.Deposits.Service.{
  Wallet, Settings, Deposits, empty_deposits, ensure_address, derive_address,
}

-- The indices in use are below the next one and differ.
pub record HaveOwnIndices (a : Addresses) : Type 0 where
  pub below :
      (k : String) (v : DepositAddress) → get k a.data_ ≡ some v → v.derivation_index < a.next_index
  pub distinct :
      (j k : String) (v w : DepositAddress)
      → get j a.data_ ≡ some v
      → get k a.data_ ≡ some w
      → j ≢ k
      → v.derivation_index ≢ w.derivation_index

-- A new entry takes the index that the counter has just left.
put-HaveOwnIndices :
    (a : Addresses) (seq : ℕ) (key : String) (added : DepositAddress)
    → HaveOwnIndices a
    → added.derivation_index ≡ a.next_index
    → HaveOwnIndices
        (record { seq = seq; next_index = suc a.next_index; data_ = put key added a.data_ })
put-HaveOwnIndices a seq key added h e = record {
  below = λ k v found. elim (Bool-cases (key == k)) [
    | inl here ↦ ground (arith, get-put key k added a.data_)
    | inr other ↦
        let old : get k a.data_ ≡ some v = ground (arith, get-put key k added a.data_) in
        omega (arith, h.below k v old)
  ];
  distinct = λ j k v w found_j found_k apart. elim (Bool-cases (key == j)) [
    | inl first ↦
        let second : (key == k) ≡ false = ground (arith, eq_iff key j, eq_iff key k) in
        let old : get k a.data_ ≡ some w = ground (arith, get-put key k added a.data_) in
        let new : v ≡ added = ground (arith, get-put key j added a.data_) in
        (λ same. absurd (new_differs v w new same (h.below k w old)))
    | inr other_j ↦
        let old_j : get j a.data_ ≡ some v = ground (arith, get-put key j added a.data_) in
        elim (Bool-cases (key == k)) [
          | inl second ↦
              let new : w ≡ added = ground (arith, get-put key k added a.data_) in
              (λ same. absurd (new_differs w v new (sym same) (h.below j v old_j)))
          | inr other_k ↦
              h.distinct j k v w old_j (ground (arith, get-put key k added a.data_)) apart
        ]
  ];
}
  where
    new_differs :
        (v w : DepositAddress)
        → v ≡ added
        → v.derivation_index ≡ w.derivation_index
        → w.derivation_index < a.next_index
        → ⊥
    new_differs v w new same low = absurd (ground arith)

ensure_address-HaveOwnIndices :
    (c : Settings) (buyer : String) (s : Deposits)
    → HaveOwnIndices s.addresses
    → HaveOwnIndices (ensure_address c buyer s).1.addresses
unfolding ensure_address
ensure_address-HaveOwnIndices c buyer s h = elim (Bool-cases (is_blank buyer)) [
  | inl blank ↦ rw (ensure_address, blank) h
  | inr filled ↦ elim (Option-cases (get (trim buyer) s.addresses.data_)) [
    | inr (a, known) ↦ rw (ensure_address, filled, known) h
    | inl unknown ↦ elim (Option-cases c.wallet) [
      | inl without ↦ rw (ensure_address, filled, unknown, without) h
      | inr (w, given) ↦ rw (ensure_address, filled, unknown, given) (derived w)
    ]
  ]
]
  where
    moved : HaveOwnIndices (record s.addresses { next_index = suc s.addresses.next_index })
    moved = record { below = λ k v found. omega (arith, h.below k v found); distinct = h.distinct }

    derived : (w : Wallet) → HaveOwnIndices (derive_address c w (trim buyer) s).1.addresses
    derived w = elim (Option-cases (w.derive_address s.calls s.addresses.next_index)) [
      | inl failed ↦ rw (derive_address, failed) moved
      | inr (address, given) ↦ elim (Bool-cases (is_blank address)) [
        | inl blank ↦ rw (derive_address, given, blank) moved
        | inr usable ↦
            rw (derive_address, given, usable)
              (put-HaveOwnIndices s.addresses _ (trim buyer) _ h refl)
      ]
    ]

-- The addresses that are handed out to a list of buyers.
unfoldable pub ensure_all : Settings → List String → Deposits → Deposits
unfolding ensure_address
ensure_all c [] s = s
ensure_all c (buyer ∷ buyers) s = ensure_all c buyers (ensure_address c buyer s).1

ensure_all-HaveOwnIndices :
    (c : Settings) (buyers : List String) (s : Deposits)
    → HaveOwnIndices s.addresses
    → HaveOwnIndices (ensure_all c buyers s).addresses
unfolding ensure_all
ensure_all-HaveOwnIndices c [] s h = h
ensure_all-HaveOwnIndices c (buyer ∷ buyers) s h =
    ensure_all-HaveOwnIndices c buyers (ensure_address c buyer s).1
      (ensure_address-HaveOwnIndices c buyer s h)

empty-HaveOwnIndices : HaveOwnIndices empty_deposits.addresses
unfolding get
empty-HaveOwnIndices = record { below = λ k v h. absurd (cc); distinct = λ j k v w h. absurd (cc) }

-- When EnsureAddress has been called for a list of buyers from empty repositories, two buyers
-- with an address never have the same derivation index.
pub own_indices :
    (c : Settings) (buyers : List String) (j k : String) (v w : DepositAddress)
    → get j (ensure_all c buyers empty_deposits).addresses.data_ ≡ some v
    → get k (ensure_all c buyers empty_deposits).addresses.data_ ≡ some w
    → j ≢ k
    → v.derivation_index ≢ w.derivation_index
own_indices c buyers =
    (ensure_all-HaveOwnIndices c buyers empty_deposits empty-HaveOwnIndices).distinct
