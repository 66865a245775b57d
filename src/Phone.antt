-- ===== src/Phone.antt =====
-- internal/utils/phone.go: a telephone number as its digits.
mod Examples
pub mod Canonical
use Prim.Native.String.{String}
use Prim.Native.Char.{Char, code}
use kub.Base.{
  ℕ, Bool, Result, ok, err, empty_phone, invalid_phone_length, ◌==◌, ◌&&◌, ◌||◌, ltb, leb,
  if◌then◌else◌, is_empty, trim_space, has_prefix, ◌++ˢ◌, suc,
}

-- `\d` in Go's regular expressions is an ASCII digit.
abbrev pub is_digit : Char → Bool
is_digit c = leb 48 (code c) && leb (code c) 57

unfoldable pub digits_of : String → String
digits_of String.[] = String.[]
digits_of (String.◌∷◌ c s) =
    let rest = digits_of s in if is_digit c then String.◌∷◌ c rest else rest

-- `len` of a text of ASCII characters.
unfoldable pub size : String → ℕ
size String.[] = 0
size (String.◌∷◌ c s) = suc (size s)

-- `s[1:]`.
abbrev pub tail : String → String
tail String.[] = String.[]
tail (String.◌∷◌ c s) = s

-- Kazakhstan's trunk prefix 8 is replaced by the country's code 7.
abbrev pub with_country_code : String → String
with_country_code p = if size p == 11 && has_prefix p "8" then "7" ++ˢ tail p else p

abbrev pub without_plus : String → String
without_plus p = if has_prefix p "+" then tail p else p

abbrev pub checked_length : String → Result String
checked_length p = if ltb (size p) 11 || ltb 15 (size p) then err invalid_phone_length else ok p

unfoldable pub sanitize_e164_digits : String → Result String
sanitize_e164_digits phone =
    let p = digits_of (trim_space phone) in
    if is_empty p then err empty_phone else checked_length (without_plus (with_country_code p))
