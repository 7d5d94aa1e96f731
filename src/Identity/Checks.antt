-- ===== src/Identity/Checks.antt =====
-- internal/identity/validation.go: passwords and email addresses. The classes of `unicode` are a
-- parameter.
use Prim.Native.Char.{code, len_utf8}
use tok.Prelude.{
  ℕ, ◌+◌, Bool, false, not, ◌||◌, Option, some, none, String, ◌==◌, if◌then◌else◌, ltb,
}
use tok.Prelude.Trim.{trim, after_code, before_code, has_code}

pub data InvalidInput : Type 0 where
  password_too_short password_needs_letter password_needs_digit email_empty email_invalid :
      InvalidInput

-- `unicode.IsLetter` and `unicode.IsDigit`
pub record Classes : Type 0 where
  pub is_letter : ℕ → Bool
  pub is_digit : ℕ → Bool

-- `len` of a text: its bytes.
unfoldable pub byte_length : String → ℕ
byte_length String.[] = 0
byte_length (String.◌∷◌ c s) = len_utf8 c + byte_length s

unfoldable pub some_char : (ℕ → Bool) → String → Bool
some_char p String.[] = false
some_char p (String.◌∷◌ c s) = p (code c) || some_char p s

-- `ValidatePassword`
unfoldable pub validate_password : Classes → String → Option InvalidInput
unfolding byte_length some_char
validate_password k password =
    if ltb (byte_length password) 8
    then some password_too_short
    else if not (some_char k.is_letter password)
    then some password_needs_letter
    else if not (some_char k.is_digit password)
    then some password_needs_digit
    else none

-- `ValidateEmail`: the first at sign neither begins nor ends the address, and a full stop follows it.
unfoldable pub validate_email : String → Option InvalidInput
unfolding trim after_code before_code has_code
validate_email email =
    let address = trim email in
    let domain = after_code 64 address in
    if address == ""
    then some email_empty
    else if not (has_code 64 address) || before_code 64 address == "" || domain == ""
    then some email_invalid
    else if not (has_code 46 domain)
    then some email_invalid
    else none
