-- ===== src/Prelude/Keyed.antt =====
-- Go slices that the program scans for an element with a given id: a read or a write through the
-- first hit, and the `Save` of the memory repositories, which replaces it or appends.
use mathlib.Core.Path.{◌≡◌, refl}
use mathlib.Core.Logic.{◌≢◌, inl, inr}
use mathlib.Core.Option.{Option, none, some}
use mathlib.Core.List.{List, [], ◌∷◌, map}
use native.Mathlib.Omega.{arith}
use tok.Prelude.Tests.{if◌then◌else◌, Bool-cases}
use tok.Prelude.Lists.{All}
use tok.Prelude.Text.{String, ◌==◌, eq_iff, eq_refl}

module _ {ℓ} {A : Type ℓ} (key : A → String) where
  unfoldable pub find : String → List A → Option A
  find id [] = none
  find id (x ∷ xs) = if key x == id then some x else find id xs

  unfoldable pub update : String → (A → A) → List A → List A
  update id f [] = []
  update id f (x ∷ xs) = if key x == id then f x ∷ xs else x ∷ update id f xs

  unfoldable pub save : A → List A → List A
  save v [] = v ∷ []
  save v (x ∷ xs) = if key x == key v then v ∷ xs else x ∷ save v xs

  -- A found element has the id that was asked for.
  pub find-key : (id : String) (xs : List A) (a : A) → find id xs ≡ some a → key a ≡ id
  unfolding find
  find-key id [] a h = cc
  find-key id (x ∷ xs) a h = ground (arith, eq_iff (key x) id, find-key id xs a)

  pub find-save :
      (j : String) (v : A) (xs : List A)
      → find j (save v xs) ≡ (if key v == j then some v else find j xs)
  unfolding find save
  find-save j v [] = refl
  find-save j v (x ∷ xs) =
      ground (arith, eq_iff (key x) (key v), eq_iff (key v) j, eq_iff (key x) j, find-save j v xs)

  pub find-save_self : (v : A) (xs : List A) → find (key v) (save v xs) ≡ some v
  find-save_self v xs = rw (find-save (key v) v xs, eq_refl (key v))

  pub find-save_ne : (j : String) (v : A) (xs : List A) → key v ≢ j → find j (save v xs) ≡ find j xs
  find-save_ne j v xs h = ground (arith, find-save j v xs, eq_iff (key v) j)

  -- A predicate of all elements gives it at the one that is found.
  pub All-find {κ} :
      (P : A → Type κ) (id : String) (xs : List A) (a : A) → All P xs → find id xs ≡ some a → P a
  unfolding find
  All-find P id [] a h e = absurd (cc)
  All-find P id (x ∷ xs) a h e = elim (Bool-cases (key x == id)) [
    | inl here ↦ let same : x ≡ a = ground arith in rw same at h.0
    | inr there ↦ All-find P id xs a h.1 (ground arith)
  ]

  pub All-save {κ} : (P : A → Type κ) (v : A) (xs : List A) → All P xs → P v → All P (save v xs)
  unfolding save
  All-save P v [] h p = (p, tt)
  All-save P v (x ∷ xs) h p = elim (Bool-cases (key x == key v)) [
    | inl e ↦ rw e (p, h.1)
    | inr e ↦ rw e (h.0, All-save P v xs h.1 p)
  ]

  -- A predicate of all elements survives a write that keeps it at the element that is written.
  pub All-update {κ} :
      (P : A → Type κ) (id : String) (f : A → A) (xs : List A)
      → All P xs
      → ((a : A) → find id xs ≡ some a → P a → P (f a))
      → All P (update id f xs)
  unfolding update find
  All-update P id f [] h k = h
  All-update P id f (x ∷ xs) h k = elim (Bool-cases (key x == id)) [
    | inl e ↦ rw e (k x (rw e) h.0, h.1)
    | inr e ↦ rw e (h.0, All-update P id f xs h.1 (λ a p. k a (rw e p)))
  ]

  module _ (id : String) (f : A → A) (keeps : (a : A) → key (f a) ≡ key a) where
    pub find-update_self :
        (xs : List A) (a : A) → find id xs ≡ some a → find id (update id f xs) ≡ some (f a)
    unfolding find update
    find-update_self [] a h = cc
    find-update_self (x ∷ xs) a h = ground (arith, keeps x, find-update_self xs a)

    pub find-update_ne : (j : String) (xs : List A) → j ≢ id → find j (update id f xs) ≡ find j xs
    unfolding find update
    find-update_ne j [] h = refl
    find-update_ne j (x ∷ xs) h =
        ground (arith, keeps x, eq_iff (key x) id, eq_iff (key x) j, find-update_ne j xs)

    -- The ids stand in the same order.
    pub map-update : (xs : List A) → map key (update id f xs) ≡ map key xs
    unfolding update
    map-update [] = refl
    map-update (x ∷ xs) = ground (arith, keeps x, map-update xs)
