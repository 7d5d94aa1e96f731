-- ===== src/Pagination.antt =====
-- internal/httputil/pagination.go: the page that a request asks for, and the slice that it gets. A query
-- parameter is its text, empty when it is missing.
pub mod Pages
use tok.Prelude.{
  ℕ, zero, suc, ◌+◌, ◌-◌, ◌*◌, ◌≤◌, ◌≡◌, refl, sym, ap, ◌∙◌, ℤ, pos, negsuc, inl, inr, Bool-cases,
  Option, some, none, List, [], ◌∷◌, ◌++◌, String, ◌==◌, if◌then◌else◌, ltb, leb, ltb_ℤ, leb_ℤ,
  pos_part, length, arith,
}
use tok.Prelude.Numerals.{atoi}

pub record Pagination : Type 0 where
  pub limit : ℕ
  pub offset : ℕ

abbrev or_else : Option ℤ → ℤ → ℤ
or_else none fallback = fallback
or_else (some n) fallback = n

-- `intParam`
unfoldable pub int_param : String → ℤ → ℤ
unfolding atoi
int_param raw fallback = if raw == "" then fallback else or_else (atoi raw) fallback

-- `DefaultPageLimit` and `MaxPageLimit`
abbrev clamp_limit : ℤ → ℤ
clamp_limit limit =
    if ltb_ℤ (pos 200) limit then pos 200 else if leb_ℤ limit (pos 0) then pos 50 else limit

-- `ParsePagination`
unfoldable pub parse_pagination : String → String → Pagination
unfolding int_param
parse_pagination limit offset = record {
  limit = pos_part (clamp_limit (int_param limit (pos 50)));
  offset = pos_part (int_param offset (pos 0));
}

module _ {ℓ} {A : Type ℓ} where
  abbrev pub take : ℕ → List A → List A
  take zero xs = []
  take (suc n) [] = []
  take (suc n) (x ∷ xs) = x ∷ take n xs

  abbrev pub drop : ℕ → List A → List A
  drop zero xs = xs
  drop (suc n) [] = []
  drop (suc n) (x ∷ xs) = drop n xs

  -- `Apply`
  unfoldable pub apply : List A → Pagination → List A
  apply items p =
      let size = length items in
      let end = p.offset + p.limit in
      if leb size p.offset
      then []
      else take ((if ltb size end then size else end) - p.offset) (drop p.offset items)

  -- The pages that follow one another from an offset.
  unfoldable pub pages : List A → ℕ → ℕ → ℕ → List A
  unfolding apply
  pages items limit zero offset = []
  pages items limit (suc n) offset =
      apply items (record { limit = limit; offset = offset })
      ++ pages items limit n (offset + limit)
