-- ===== src/Base/Texts.antt =====
-- Text as Go's `strings` and `unicode` packages treat it. A Go string of valid UTF-8 is a `String`.
use Prim.Native.Char.{Char, code}
use Prim.Native.Nat.{ℕ, zero, suc, ◌-◌}
use Prim.Native.String.{String, ◌++◌ as string_append}
use mathlib.Core.Bool.{Bool, true, false, not, ◌&&◌, ◌||◌}
use mathlib.Core.Path.{◌≡◌, refl, ap, ◌∙◌}
use mathlib.Core.Logic.{inl, inr}
use text.Mathlib.Text.{◌==◌ as text_eq}
use kub.Base.Tests.{leb, ◌==◌, if◌then◌else◌, Bool-cases, &&_elim}
use native.Mathlib.Omega.{arith}

-- `s == t` on Go strings.
infix 50 ◌=ˢ◌
abbrev pub ◌=ˢ◌ : String → String → Bool
s =ˢ t = text_eq s t

-- `s + t` on Go strings.
infixr 40 ◌++ˢ◌
abbrev pub ◌++ˢ◌ : String → String → String
s ++ˢ t = string_append s t

abbrev pub is_empty : String → Bool
is_empty String.[] = true
is_empty (String.◌∷◌ c s) = false

-- `unicode.IsSpace`: the white space of Latin-1, and the Unicode property White_Space above it.
unfoldable pub is_space : Char → Bool
is_space c =
    let n = code c in
    leb 9 n && leb n 13
    || n == 32
    || n == 0x85
    || n == 0xa0
    || n == 0x1680
    || leb 0x2000 n && leb n 0x200a
    || n == 0x2028
    || n == 0x2029
    || n == 0x202f
    || n == 0x205f
    || n == 0x3000

trim_left : String → String
trim_left String.[] = String.[]
trim_left (String.◌∷◌ c s) = if is_space c then trim_left s else String.◌∷◌ c s

abbrev keep : Char → String → String
keep c r = if is_space c && is_empty r then String.[] else String.◌∷◌ c r

trim_right : String → String
trim_right String.[] = String.[]
trim_right (String.◌∷◌ c s) = keep c (trim_right s)

-- `strings.TrimSpace`.
unfoldable pub trim_space : String → String
unfolding trim_left trim_right is_space
trim_space s = trim_right (trim_left s)

nth_char : String → ℕ → Char → Char
nth_char String.[] i d = d
nth_char (String.◌∷◌ c s) zero d = c
nth_char (String.◌∷◌ c s) (suc i) d = nth_char s i d

-- The text's one character, for a literal.
abbrev char_of : String → Char → Char
char_of String.[] d = d
char_of (String.◌∷◌ c s) d = c

-- `unicode.ToLower` as far as it can produce an ASCII character: the capitals A to Z, and the two
-- characters beyond ASCII whose lower case is ASCII. Any other character keeps its value here; its
-- lower case is never ASCII, and the program compares lowered text with ASCII words alone.
lower_char : Char → Char
unfolding nth_char
lower_char c =
    let n = code c in
    if leb 65 n && leb n 90
    then nth_char "abcdefghijklmnopqrstuvwxyz" (n - 65) c
    else if n == 0x130
    then char_of "i" c
    else if n == 0x212a
    then char_of "k" c
    else c

-- `strings.ToLower`, with the limits of `lower_char`.
unfoldable pub to_lower : String → String
unfolding lower_char
to_lower String.[] = String.[]
to_lower (String.◌∷◌ c s) = String.◌∷◌ (lower_char c) (to_lower s)

-- `strings.HasPrefix`.
unfoldable pub has_prefix : String → String → Bool
has_prefix s String.[] = true
has_prefix String.[] (String.◌∷◌ d t) = false
has_prefix (String.◌∷◌ c s) (String.◌∷◌ d t) = code c == code d && has_prefix s t

-- `strings.HasSuffix`.
unfoldable pub has_suffix : String → String → Bool
has_suffix String.[] t = text_eq String.[] t
has_suffix (String.◌∷◌ c s) t = text_eq (String.◌∷◌ c s) t || has_suffix s t

unfoldable pub every : (Char → Bool) → String → Bool
every f String.[] = true
every f (String.◌∷◌ c s) = f c && every f s

not_elim : (b : Bool) → not b ≡ true → b ≡ false
not_elim b h = ground arith

-- A text without white space is trimmed to itself.
trim_left_clean : (s : String) → every (λ c. not (is_space c)) s ≡ true → trim_left s ≡ s
unfolding trim_left every
trim_left_clean String.[] h = refl
trim_left_clean (String.◌∷◌ c s) h =
    simp (not_elim (is_space c) (&&_elim (not (is_space c)) (every (λ d. not (is_space d)) s) h).0)
      refl

trim_right_clean : (s : String) → every (λ c. not (is_space c)) s ≡ true → trim_right s ≡ s
unfolding trim_right every
trim_right_clean String.[] h = refl
trim_right_clean (String.◌∷◌ c s) h =
    let (solid, rest) = &&_elim (not (is_space c)) (every (λ d. not (is_space d)) s) h in
    simp (not_elim (is_space c) solid, trim_right_clean s rest) refl

pub trim_space-clean : (s : String) → every (λ c. not (is_space c)) s ≡ true → trim_space s ≡ s
unfolding trim_space
trim_space-clean s h = ap trim_right (trim_left_clean s h) ∙ trim_right_clean s h

-- What the trimming loops leave alone a second time.
trim_right_idem : (s : String) → trim_right (trim_right s) ≡ trim_right s
unfolding trim_right
trim_right_idem String.[] = refl
trim_right_idem (String.◌∷◌ c s) = elim (Bool-cases (is_space c && is_empty (trim_right s))) [
  | inl e ↦ simp e
  | inr e ↦ simp (e, trim_right_idem s)
]

trim_again : (s : String) → trim_left (trim_right (trim_left s)) ≡ trim_right (trim_left s)
unfolding trim_left trim_right
trim_again String.[] = refl
trim_again (String.◌∷◌ c s) = elim (Bool-cases (is_space c)) [
  | inl e ↦ simp (e, trim_again s) refl
  | inr e ↦ simp e refl
]

pub trim_space_idem : (s : String) → trim_space (trim_space s) ≡ trim_space s
unfolding trim_space
trim_space_idem s = ap trim_right (trim_again s) ∙ trim_right_idem (trim_left s)

trim_test : trim_space (to_lower " System_Admin\t") ≡ "system_admin"
unfolding trim_space to_lower
trim_test = refl

path_test : (has_suffix "/chats/12/read" "/read" && has_prefix "/chats/12" "/chats/") ≡ true
unfolding has_prefix has_suffix
path_test = refl
