-- ===== src/Phone/Canonical.antt =====
-- What SanitizeE164Digits of internal/utils/phone.go gives back, and that it leaves that alone.
use Prim.Native.Char.{Char, code}
use text.Mathlib.TextLemmas.{nil-append, cons-append}
use mathlib.Core.Path.{subst}
use kub.Base.{
  String, Bool, true, false, not, Result, ok, err, ◌≡◌, ◌≤◌, refl, sym, ap, ◌∙◌, inl, inr, arith,
  ◌==◌, ◌&&◌, ◌||◌, ltb, if◌then◌else◌, Bool-cases, &&_elim, every, is_space, is_empty, trim_space,
  trim_space-clean, has_prefix, ◌++ˢ◌, empty_phone,
}
use kub.Phone.{
  is_digit, digits_of, size, with_country_code, without_plus, checked_length, sanitize_e164_digits,
}

-- Digits alone, eleven to fifteen of them, and no trunk prefix 8 before ten others.
pub record Canonical (p : String) : Type 0 where
  digits : every is_digit p ≡ true
  shortest : 11 ≤ size p
  longest : size p ≤ 15
  country : (size p == 11 && has_prefix p "8") ≡ false

digits_of-digits : (s : String) → every is_digit (digits_of s) ≡ true
unfolding every digits_of
digits_of-digits String.[] = refl
digits_of-digits (String.◌∷◌ c s) = elim (Bool-cases (is_digit c)) [
  | inl e ↦ simp (e, digits_of-digits s) refl
  | inr e ↦ simp (e, digits_of-digits s) refl
]

digits_of-fixed : (s : String) → every is_digit s ≡ true → digits_of s ≡ s
unfolding every digits_of
digits_of-fixed String.[] h = refl
digits_of-fixed (String.◌∷◌ c s) h =
    let (digit, rest) = &&_elim (is_digit c) (every is_digit s) h in
    simp (digit, digits_of-fixed s rest) refl

-- A digit is no white space and no plus.
is_digit-solid : (c : Char) → is_digit c ≡ true → not (is_space c) ≡ true
unfolding is_space
is_digit-solid c h = ground (arith, h)

digits_solid : (s : String) → every is_digit s ≡ true → every (λ c. not (is_space c)) s ≡ true
unfolding every
digits_solid String.[] h = refl
digits_solid (String.◌∷◌ c s) h =
    let (digit, rest) = &&_elim (is_digit c) (every is_digit s) h in
    simp (is_digit-solid c digit, digits_solid s rest) refl

without_plus-fixed : (s : String) → every is_digit s ≡ true → without_plus s ≡ s
unfolding every has_prefix
without_plus-fixed String.[] h = refl
without_plus-fixed (String.◌∷◌ c s) h =
    let (digit, rest) = &&_elim (is_digit c) (every is_digit s) h in
    let other : (code c == 43) ≡ false = ground (arith, digit) in simp other refl

-- The country's code stands in the place of the trunk prefix.
seven_first : (s : String) → "7" ++ˢ s ≡ String.◌∷◌ "7" s
seven_first s = cons-append "7" String.[] s ∙ ap (String.◌∷◌ "7") (nil-append s)

module _ (c : Char) (s : String) where
  abbrev trunk : Bool
  unfolding has_prefix size
  trunk = size (String.◌∷◌ c s) == 11 && has_prefix (String.◌∷◌ c s) "8"

  replaced : trunk ≡ true → with_country_code (String.◌∷◌ c s) ≡ String.◌∷◌ "7" s
  unfolding has_prefix size
  replaced e = ap (λ b. if b then "7" ++ˢ s else String.◌∷◌ c s) e ∙ seven_first s

  left_alone : trunk ≡ false → with_country_code (String.◌∷◌ c s) ≡ String.◌∷◌ c s
  unfolding has_prefix size
  left_alone e = ap (λ b. if b then "7" ++ˢ s else String.◌∷◌ c s) e

with_country_code-digits :
    (s : String) → every is_digit s ≡ true → every is_digit (with_country_code s) ≡ true
unfolding every has_prefix size
with_country_code-digits String.[] h = refl
with_country_code-digits (String.◌∷◌ c s) h = elim (Bool-cases (trunk c s)) [
  | inl e ↦ rw (replaced c s e) (&&_elim (is_digit c) (every is_digit s) h).1
  | inr e ↦ rw (left_alone c s e) h
]

with_country_code-country :
    (s : String)
    → (size (with_country_code s) == 11 && has_prefix (with_country_code s) "8") ≡ false
unfolding has_prefix size
with_country_code-country String.[] = refl
with_country_code-country (String.◌∷◌ c s) = elim (Bool-cases (trunk c s)) [
  | inl e ↦ rw (replaced c s e) (ground arith)
  | inr e ↦ rw (left_alone c s e) e
]

with_country_code-fixed :
    (s : String) → (size s == 11 && has_prefix s "8") ≡ false → with_country_code s ≡ s
with_country_code-fixed s e = simp e refl

checked_length-ok :
    (p q : String) → checked_length p ≡ ok q → (p ≡ q) × (11 ≤ size q) × (size q ≤ 15)
checked_length-ok p q done = elim (Bool-cases (ltb (size p) 11 || ltb 15 (size p))) [
  | inl refused ↦ ground (arith, refused, done)
  | inr fits ↦
      let gives : checked_length p ≡ ok p = simp fits refl in
      let same : p ≡ q = ground (arith, gives, done) in
      let bounds : (11 ≤ size p) × (size p ≤ 15) = ground (arith, fits) in
      let (low, high) = subst (λ x. (11 ≤ size x) × (size x ≤ 15)) same bounds in (same, low, high)
]

checked_length-fits : (q : String) → 11 ≤ size q → size q ≤ 15 → checked_length q ≡ ok q
checked_length-fits q low high =
    let fits : (ltb (size q) 11 || ltb 15 (size q)) ≡ false = ground arith in simp fits refl

not_refused :
    (refused : Bool) (r : Result String) (q : String)
    → (if refused then err empty_phone else r) ≡ ok q
    → r ≡ ok q
not_refused refused r q done = ground arith

size-filled : (q : String) → 11 ≤ size q → is_empty q ≡ false
unfolding size
size-filled String.[] low = ground arith
size-filled (String.◌∷◌ c q) low = refl

-- What SanitizeE164Digits gives back consists of ASCII digits, eleven to fifteen of them, and is not
-- an 8 before ten others.
pub sanitize-Canonical : (phone q : String) → sanitize_e164_digits phone ≡ ok q → Canonical q
unfolding sanitize_e164_digits
sanitize-Canonical phone q done =
    let p = digits_of (trim_space phone) in
    let all = with_country_code-digits p (digits_of-digits (trim_space phone)) in
    let plain = without_plus-fixed (with_country_code p) all in
    let finish =
      checked_length-ok (without_plus (with_country_code p)) q
        (not_refused (is_empty p) (checked_length (without_plus (with_country_code p))) q done) in
    let same : with_country_code p ≡ q = sym plain ∙ finish.0 in
    let country = with_country_code-country p in
    record {
      digits = subst (λ x. every is_digit x ≡ true) same all;
      shortest = finish.1;
      longest = finish.2;
      country = subst (λ x. (size x == 11 && has_prefix x "8") ≡ false) same country;
    }

-- A number that SanitizeE164Digits gave back is given back by it again as it is.
pub sanitize_idem :
    (phone q : String) → sanitize_e164_digits phone ≡ ok q → sanitize_e164_digits q ≡ ok q
unfolding sanitize_e164_digits
sanitize_idem phone q done =
    let c = sanitize-Canonical phone q done in
    let trimmed = trim_space-clean q (digits_solid q c.digits) in
    let whole = ap digits_of trimmed ∙ digits_of-fixed q c.digits in
    let local = with_country_code-fixed q c.country in
    let plain = ap without_plus local ∙ without_plus-fixed q c.digits in
    rw whole (
      simp (size-filled q c.shortest)
        (ap checked_length plain ∙ checked_length-fits q c.shortest c.longest))
