-- ===== src/Confirmations/Meta.antt =====
-- The JSON object in the column `meta` of a confirmation, and what
-- document_signing_confirmation_service.go reads from it. NULL is the object without members.
use kub.Base.{
  ℕ, String, Bool, Option, none, some, List, [], ◌∷◌, ◌++◌, ◌=ˢ◌, is_none, if◌then◌else◌, is_empty,
  trim_space,
}

-- `moment` is a text in the layout RFC3339Nano.
pub data Value : Type 0 where
  text : String → Value
  flag : Bool → Value
  moment : ℕ → Value
  number : ℕ → Value

abbrev pub Meta : Type 0
Meta = List (String × Value)

unfoldable pub member : String → Meta → Option Value
member name [] = none
member name ((n, v) ∷ rest) = let later = member name rest in if n =ˢ name then some v else later

-- `COALESCE(meta, '{}') || update`: a member of the right object hides that of the left.
abbrev pub merge : Meta → Meta → Meta
merge update meta = update ++ meta

-- The letters of a text; a moment has no space at its ends.
abbrev pub text_in : Option Value → String
text_in none = ""
text_in (some (text v)) = trim_space v
text_in (some (flag b)) = ""
text_in (some (moment n)) = ""
text_in (some (number n)) = ""

-- `intFromAny`.
abbrev pub int_from_any : Option Value → ℕ
int_from_any none = 0
int_from_any (some (text v)) = 0
int_from_any (some (flag b)) = 0
int_from_any (some (moment n)) = 0
int_from_any (some (number n)) = n

abbrev pub extract_signer_email : Meta → String
extract_signer_email meta = text_in (member "signer_email" meta)

abbrev pub extract_signer_phone : Meta → String
extract_signer_phone meta = text_in (member "signer_phone" meta)

-- A member whose text is not blank.
abbrev pub entry_if_given : String → String → Meta
entry_if_given name given =
    if is_empty (trim_space given) then [] else (name, text (trim_space given)) ∷ []

-- The first opening is recorded once, the last address and browser each time.
unfoldable pub build_open_meta_update : Meta → String → String → ℕ → Meta
build_open_meta_update meta ip agent now =
    entry_if_given "opened_ip" ip
    ++ (entry_if_given "opened_user_agent" agent
        ++ (if is_none (member "opened_at" meta)
            then ("opened_at", moment now)
              ∷ (if is_none (member "link_opened_at" meta)
                  then ("link_opened_at", moment now) ∷ []
                  else [])
            else []))
