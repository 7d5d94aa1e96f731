-- ===== src/Deposits/Lists.antt =====
-- The entries of the repositories of internal/services/settlement: what a save adds to them, and what
-- the searches for a sweep and for a settled credit find in them.
use tok.Prelude.{
  ℕ, suc, ◌≤◌, ◌≡◌, refl, sym, ap, ◌∙◌, ◌⊎◌, inl, inr, Bool, false, ◌&&◌, some, none, List, [], ◌∷◌,
  ◌++◌, length, All, String, ◌==◌, eq_iff, eq_refl, numbered, numbered_inj, arith, Bool-cases,
  if◌then◌else◌,
}
use tok.Prelude.Dict.{Dict, get, put, put_fresh, get-put_ne}
use tok.Deposits.Types.{SweepRecord, FundingRecord, buyer_topup_kind}
use tok.Deposits.Repositories.{entries, keep_if, matches, is_selected}
use tok.Deposits.Service.{is_settled}
use tok.Deposits.Sync.{first_with_hash, any_settled}

-- Some element has the property.
abbrev pub AnyOf {ℓ} : {A : Type ℓ} → (A → Type 0) → List A → Type 0
AnyOf P [] = ⊥
AnyOf P (x ∷ xs) = P x ⊎ AnyOf P xs

module _ {ℓ} {A : Type ℓ} where
  pub AnyOf-append_left : (P : A → Type 0) (xs ys : List A) → AnyOf P xs → AnyOf P (xs ++ ys)
  AnyOf-append_left P [] ys h = absurd h
  AnyOf-append_left P (x ∷ xs) ys (inl h) = inl h
  AnyOf-append_left P (x ∷ xs) ys (inr h) = inr (AnyOf-append_left P xs ys h)

  pub AnyOf-append_last : (P : A → Type 0) (xs : List A) (y : A) → P y → AnyOf P (xs ++ y ∷ [])
  AnyOf-append_last P [] y h = inl h
  AnyOf-append_last P (x ∷ xs) y h = inr (AnyOf-append_last P xs y h)

  entries-append :
      (d : Dict A) (k : String) (v : A) → entries (d ++ (k, v) ∷ []) ≡ entries d ++ v ∷ []
  entries-append [] k v = refl
  entries-append ((j, w) ∷ d) k v = ap (λ xs. w ∷ xs) (entries-append d k v)

  pub entries-put :
      (k : String) (v : A) (d : Dict A) → get k d ≡ none → entries (put k v d) ≡ entries d ++ v ∷ []
  entries-put k v d h = ap entries (put_fresh k v d h) ∙ entries-append d k v

  -- A write keeps what holds of all entries, if it holds of the value that is written.
  pub All-put :
      (P : A → Type 0) (k : String) (v : A) (d : Dict A)
      → P v
      → All P (entries d)
      → All P (entries (put k v d))
  unfolding put
  All-put P k v [] p h = (p, tt)
  All-put P k v ((j, w) ∷ d) p h = elim (Bool-cases (j == k)) [
    | inl same ↦ rw same (p, h.1)
    | inr other ↦ rw other (h.0, All-put P k v d p h.1)
  ]

  -- No key of a dictionary has a number from `seq` on.
  abbrev pub HasRoomFrom : String → ℕ → Dict A → Type ℓ
  HasRoomFrom prefix seq d = (n : ℕ) → seq ≤ n → get (numbered prefix (suc n)) d ≡ none

  pub put-HasRoomFrom :
      (prefix : String) (seq : ℕ) (v : A) (d : Dict A)
      → HasRoomFrom prefix seq d
      → HasRoomFrom prefix (suc seq) (put (numbered prefix (suc seq)) v d)
  put-HasRoomFrom prefix seq v d room n h =
      get-put_ne (numbered prefix (suc seq)) (numbered prefix (suc n)) v d
        (λ e. absurd (omega (arith, numbered_inj prefix (suc seq) (suc n) e)))
      ∙ room n (omega arith)

-- The credits of one buyer for one transaction.
abbrev pub is_credit : String → String → FundingRecord → Bool
is_credit buyer hash v =
    v.kind == buyer_topup_kind && v.buyer_org_id == buyer && v.external_id == hash && is_settled v

abbrev pub credits : String → String → List FundingRecord → ℕ
credits buyer hash vs = length (keep_if (is_credit buyer hash) vs)

pub credits-append :
    (buyer hash : String) (vs : List FundingRecord) (v : FundingRecord)
    → credits buyer hash (vs ++ v ∷ [])
      ≡ (if is_credit buyer hash v then suc (credits buyer hash vs) else credits buyer hash vs)
credits-append buyer hash [] v = ground arith
credits-append buyer hash (w ∷ vs) v = ground (arith, credits-append buyer hash vs v)

-- No settled top-up with the hash is listed, so there is no credit.
pub credits-any_settled :
    (buyer hash : String) (vs : List FundingRecord)
    → any_settled hash (
        keep_if
          (is_selected (record {
            kind = buyer_topup_kind;
            order_id = "";
            buyer_org_id = buyer;
            provider_org_id = "";
          }))
          vs)
      ≡ false
    → credits buyer hash vs ≡ 0
credits-any_settled buyer hash [] h = refl
credits-any_settled buyer hash (v ∷ vs) h =
    ground (arith, eq_refl "", credits-any_settled buyer hash vs)

-- A sweep of the buyer with the hash.
abbrev pub IsSweepOf : String → String → SweepRecord → Type 0
IsSweepOf buyer hash s = (s.buyer_org_id ≡ buyer) × (s.tx_hash ≡ hash)

pub first_with_hash-none :
    (buyer hash : String) (vs : List SweepRecord)
    → first_with_hash hash (keep_if (λ v. matches buyer v.buyer_org_id) vs) ≡ none
    → AnyOf (IsSweepOf buyer hash) vs
    → ⊥
first_with_hash-none buyer hash [] h found = found
first_with_hash-none buyer hash (v ∷ vs) h (inl (b, t)) =
    absurd (ground (arith, eq_iff v.buyer_org_id buyer, eq_iff v.tx_hash hash))
first_with_hash-none buyer hash (v ∷ vs) h (inr found) =
    first_with_hash-none buyer hash vs
      (ground (arith, eq_iff v.buyer_org_id buyer, eq_iff v.tx_hash hash)) found

pub first_with_hash-some :
    (buyer hash : String) (vs : List SweepRecord) (known : SweepRecord)
    → (buyer == "") ≡ false
    → first_with_hash hash (keep_if (λ v. matches buyer v.buyer_org_id) vs) ≡ some known
    → (known.tx_hash ≡ hash)
      × AnyOf (λ s. IsSweepOf buyer hash s × (s.amount_raw ≡ known.amount_raw)) vs
first_with_hash-some buyer hash [] known named h = absurd (cc)
first_with_hash-some buyer hash (v ∷ vs) known named h =
    elim (Bool-cases (v.buyer_org_id == buyer && v.tx_hash == hash)) [
      | inl here ↦
          let buyer_is : v.buyer_org_id ≡ buyer = ground (arith, eq_iff v.buyer_org_id buyer) in
          let hash_is : v.tx_hash ≡ hash = ground (arith, eq_iff v.tx_hash hash) in
          let same : v ≡ known = ground arith in
          (
            ap (λ s. s.tx_hash) (sym same) ∙ hash_is,
            inl ((buyer_is, hash_is), ap (λ s. s.amount_raw) same),
          )
      | inr there ↦
          let (t, found) = first_with_hash-some buyer hash vs known named (ground arith) in
          (t, inr found)
    ]
