-- ===== src/Pagination/Pages.antt =====
-- The pages of internal/httputil/pagination.go, one after the other, are the whole list.
use tok.Prelude.{
  ℕ, zero, suc, ◌+◌, ◌-◌, ◌≤◌, ◌≡◌, refl, sym, ap, ◌∙◌, ℤ, pos, negsuc, inl, inr, Bool-cases, List,
  [], ◌∷◌, ◌++◌, String, ltb, leb, pos_part, length, arith,
}
use tok.Pagination.{int_param, parse_pagination, take, drop, apply, pages, clamp_limit}

module _ {ℓ} {A : Type ℓ} where
  drop_end : (n : ℕ) (xs : List A) → length xs ≤ n → drop n xs ≡ []
  drop_end zero [] h = refl
  drop_end zero (x ∷ xs) h = absurd (omega arith)
  drop_end (suc n) [] h = refl
  drop_end (suc n) (x ∷ xs) h = drop_end n xs (omega arith)

  length-drop : (n : ℕ) (xs : List A) → length (drop n xs) ≡ length xs - n
  length-drop zero xs = omega arith
  length-drop (suc n) [] = omega arith
  length-drop (suc n) (x ∷ xs) = length-drop n xs ∙ omega arith

  take_end : (n : ℕ) (xs : List A) → length xs ≤ n → take n xs ≡ xs
  take_end zero [] h = refl
  take_end zero (x ∷ xs) h = absurd (omega arith)
  take_end (suc n) [] h = refl
  take_end (suc n) (x ∷ xs) h = ap (λ ys. x ∷ ys) (take_end n xs (omega arith))

  take-drop : (n : ℕ) (xs : List A) → take n xs ++ drop n xs ≡ xs
  take-drop zero xs = refl
  take-drop (suc n) [] = refl
  take-drop (suc n) (x ∷ xs) = ap (λ ys. x ∷ ys) (take-drop n xs)

  drop-drop : (m n : ℕ) (xs : List A) → drop m (drop n xs) ≡ drop (n + m) xs
  drop-drop m zero xs = let e : m ≡ 0 + m = omega arith in ap (λ k. drop k xs) e
  drop-drop zero (suc n) [] = let e : suc n ≡ suc n + 0 = omega arith in ap (λ k. drop k []) e
  drop-drop (suc m) (suc n) [] = sym (drop_end (suc n + suc m) [] (omega arith))
  drop-drop m (suc n) (x ∷ xs) =
      let e : suc (n + m) ≡ suc n + m = omega arith in
      drop-drop m n xs ∙ ap (λ k. drop k (x ∷ xs)) e

  -- `Apply` is the slice from the offset, as long as the limit or as what is left.
  apply_slice :
      (items : List A) (limit offset : ℕ)
      → apply items (record { limit = limit; offset = offset }) ≡ take limit (drop offset items)
  unfolding apply
  apply_slice items limit offset = elim (Bool-cases (leb (length items) offset)) [
    | inl past ↦
        let empty : drop offset items ≡ [] = drop_end offset items (ground arith) in
        rw (apply, past, empty) (sym (take_end limit [] (omega arith)))
    | inr within ↦ elim (Bool-cases (ltb (length items) (offset + limit))) [
      | inl short ↦
          rw (apply, within, short)
            (take_end (length items - offset) (drop offset items)
                (omega (arith, length-drop offset items))
              ∙ sym (take_end limit (drop offset items) (ground (arith, length-drop offset items))))
      | inr full ↦
          rw (apply, within, full)
            (let e : offset + limit - offset ≡ limit = omega arith in
              ap (λ k. take k (drop offset items)) e)
    ]
  ]

  -- Enough pages of a positive limit are what is left from the offset.
  pages_from :
      (items : List A) (limit n offset : ℕ)
      → 1 ≤ limit
      → length items ≤ offset + n
      → pages items limit n offset ≡ drop offset items
  unfolding pages
  pages_from items limit zero offset positive h = sym (drop_end offset items (omega arith))
  pages_from items limit (suc n) offset positive h =
      let rest = pages_from items limit n (offset + limit) positive (omega arith) in
      rw (apply_slice items limit offset, rest, sym (drop-drop limit offset items))
        (take-drop limit (drop offset items))

limit_range :
    (raw : String) → (1 ≤ (parse_pagination raw "").limit) × ((parse_pagination raw "").limit ≤ 200)
unfolding parse_pagination
limit_range raw = range (int_param raw (pos 50))
  where
    range : (n : ℤ) → (1 ≤ pos_part (clamp_limit n)) × (pos_part (clamp_limit n) ≤ 200)
    range (pos n) = ground arith
    range (negsuc n) = ground arith

-- Whatever limit a request gives, it is read as one from 1 to 200, and the pages of that limit
-- that follow one another from the start of a list, as many as the list is long, are together
-- the whole list.
pub pages_cover {ℓ} :
    {A : Type ℓ} (raw : String) (items : List A)
    → (1 ≤ (parse_pagination raw "").limit)
      × ((parse_pagination raw "").limit ≤ 200)
      × (pages items (parse_pagination raw "").limit (length items) 0 ≡ items)
pages_cover raw items =
    let (low, high) = limit_range raw in
    (low, high, pages_from items (parse_pagination raw "").limit (length items) 0 low (omega arith))
