-- ===== src/Accounts/Table.antt =====
-- internal/repositories/user_repository.go and password_reset_repository.go: the rows that the reset
-- of a password and the verification of an account read and write.
use kub.Base.{
  ℕ, suc, String, Bool, true, false, Option, some, List, [], ◌∷◌, find, ◌=ˢ◌, ◌&&◌, if◌then◌else◌,
  keyed, change_row, ◌≡◌, arith, Bool-cases, inl, inr,
}
use Prim.Native.Char.{code}
use kub.Base.{ltb, ◌+◌}

-- A row of `users`, the columns that these services use.
pub record Account : Type 0 where
  pub id : ℕ
  pub email : String
  pub phone : String
  pub password_hash : String
  pub is_active : Bool
  pub is_verified : Bool
  pub refresh_revoked : Bool

pub record PasswordReset : Type 0 where
  pub id : ℕ
  pub user_id : ℕ
  pub token : String
  pub expires_at : ℕ
  pub used : Bool

pub record ResetStore : Type 0 where
  pub accounts : List Account
  pub resets : List PasswordReset
  pub next_id : ℕ

abbrev pub account_key : Account → ℕ
account_key a = a.id

abbrev pub account_by_id : ℕ → ResetStore → Option Account
account_by_id id s = keyed account_key id s.accounts

-- `GetByEmail` asks for active accounts only.
abbrev pub account_by_email : String → ResetStore → Option Account
account_by_email email s = find (λ (a : Account). a.email =ˢ email && a.is_active) s.accounts

abbrev pub set_password : String → Account → Account
set_password hash a = record a { password_hash = hash; refresh_revoked = true }

abbrev pub update_password : ℕ → String → ResetStore → ResetStore
update_password id hash s = record s {
  accounts = change_row account_key id (set_password hash) s.accounts;
}

abbrev pub has_token : String → PasswordReset → Bool
has_token token r = r.token =ˢ token

abbrev pub reset_by_token : String → ResetStore → Option PasswordReset
reset_by_token token s = find (has_token token) s.resets

abbrev pub insert_reset : ℕ → String → ℕ → ResetStore → ResetStore
insert_reset user token expires s = record s {
  resets =
      record { id = s.next_id; user_id = user; token = token; expires_at = expires; used = false }
      ∷ s.resets;
  next_id = suc s.next_id;
}

-- `UPDATE password_resets SET used = TRUE WHERE token = $1`.
unfoldable pub mark_rows : String → List PasswordReset → List PasswordReset
mark_rows token [] = []
mark_rows token (r ∷ rows) =
    (if has_token token r then record r { used = true } else r) ∷ mark_rows token rows

abbrev pub mark_used : String → ResetStore → ResetStore
mark_used token s = record s { resets = mark_rows token s.resets }

-- `len` of a Go string: the bytes of its UTF-8 encoding.
unfoldable pub byte_length : String → ℕ
byte_length String.[] = 0
byte_length (String.◌∷◌ c s) =
    (if ltb (code c) 0x80
      then 1
      else if ltb (code c) 0x800
      then 2
      else if ltb (code c) 0x10000
      then 3
      else 4)
    + byte_length s

-- A mark keeps what is found by any token, and marks it by its own.
pub find-mark_rows :
    (token other : String) (rows : List PasswordReset) {r : PasswordReset}
    → find (has_token other) rows ≡ some r
    → find (has_token other) (mark_rows token rows)
      ≡ some (if has_token token r then record r { used = true } else r)
unfolding mark_rows
find-mark_rows token other [] h = absurd (ground arith)
find-mark_rows token other (x ∷ rows) {r} h = elim (Bool-cases (has_token other x)) [
  | inl here ↦ elim (Bool-cases (has_token token x)) [
    | inl marked ↦ ground arith
    | inr kept ↦ ground arith
  ]
  | inr beyond ↦
      let rest = find-mark_rows token other rows {r = r} (rw beyond at h) in
      elim (Bool-cases (has_token token x)) [ inl marked ↦ ground arith | inr kept ↦ ground arith ]
]
