-- ===== src/Gateway/Shell.antt =====
-- What a shell makes of the texts that internal/gateway/carrier_award_executor.go quotes.
use Prim.Native.Char.{Char, code}
use Prim.Native.String.append
use text.Mathlib.TextEquality.{Char-path}
use tok.Prelude.{
  ℕ, ◌≡◌, refl, sym, ap, inl, inr, Bool, true, false, Bool-cases, Option, some, none, String, ◌==◌,
  eq_iff, if◌then◌else◌, eqb, arith,
}
use tok.Prelude.Format.{◌<>◌}
use tok.Gateway.Commands.{escape_quotes, shell_quote}

-- How a POSIX shell reads one word of quotes and escapes: where it stands, and what a character does there.
pub data Mode : Type 0 where
  outside inside escaped : Mode

-- The next place, and whether the character belongs to the word; `none` is a character that the shell may
-- interpret.
abbrev next : Mode → ℕ → Option (Mode × Bool)
next outside c =
    if eqb c 39 then some (inside, false) else if eqb c 92 then some (escaped, false) else none
next inside c = if eqb c 39 then some (outside, false) else some (inside, true)
next escaped c = if eqb c 10 then none else some (outside, true)

abbrev add : Bool → Char → Option String → Option String
add keep c none = none
add true c (some s) = some (String.◌∷◌ c s)
add false c (some s) = some s

-- The text of one word, if no character of it is left to the shell to interpret.
unfoldable pub shell_word : Mode → String → Option String
shell_word outside String.[] = some ""
shell_word inside String.[] = none
shell_word escaped String.[] = none
shell_word m (String.◌∷◌ c s) = elim (next m (code c)) [
  | none ↦ none
  | some (m', keep) ↦ add keep c (shell_word m' s)
]

shell_word-escape_quotes : (s : String) → shell_word inside (escape_quotes s <> "'") ≡ some s
unfolding shell_word escape_quotes
shell_word-escape_quotes String.[] = refl
shell_word-escape_quotes (String.◌∷◌ c s) = elim (Bool-cases (eqb (code c) 39)) [
  | inl quote ↦
      let same : c ≡ "'" = Char-path c "'" (ground arith) in
      let rest = shell_word-escape_quotes s in
      rw
        (
          quote,
          append.cons "'" (String.◌∷◌ "\\" (String.◌∷◌ "'" (String.◌∷◌ "'" (escape_quotes s)))) "'",
          append.cons "\\" (String.◌∷◌ "'" (String.◌∷◌ "'" (escape_quotes s))) "'",
          append.cons "'" (String.◌∷◌ "'" (escape_quotes s)) "'",
          append.cons "'" (escape_quotes s) "'",
          rest,
        )
        (ap (λ d. some (String.◌∷◌ d s)) (sym same))
  | inr plain ↦
      rw (plain, append.cons c (escape_quotes s) "'", shell_word, plain, shell_word-escape_quotes s)
        refl
]

-- A POSIX shell reads what shellQuote makes of a text, any text, as one word that is the text
-- itself, with no character left to interpret.
pub shell_word-shell_quote : (value : String) → shell_word outside (shell_quote value) ≡ some value
unfolding shell_word shell_quote
shell_word-shell_quote value = elim (Bool-cases (value == "")) [
  | inl empty ↦ let same : value ≡ "" = ground (arith, eq_iff value "") in rw same refl
  | inr filled ↦ rw (filled, shell_word-escape_quotes value) refl
]
