-- ===== src/Accounts/Reset.antt =====
-- internal/services/password_reset_service.go. The e-mail and the text message that carry the token
-- are sent for nothing but a log, and are left out.
use kub.Base.{
  ℕ, ◌+◌, String, Bool, false, Option, none, some, ◌||◌, not, ltb, if◌then◌else◌, is_empty,
  trim_space, Handler, pure, lift, or_fail, query, exec, fail_if, ◌>>=◌, ◌>>◌, Result,
  email_required, token_or_password_required, password_too_short, reset_token_not_found,
  reset_token_used, reset_token_expired, db,
}
use kub.Accounts.Table.{
  Account, ResetStore, account_by_id, account_by_email, update_password, reset_by_token,
  insert_reset, mark_used, byte_length,
}

-- One call's clock, random token, password hash, `strings.ToLower`, and the failures of its queries.
pub record Env : Type 0 where
  pub now : ℕ
  pub lower : String → String
  pub token : Result String
  pub hash : String → Result String
  pub reset_fails : Bool
  pub user_fails : Bool
  pub create_fails : Bool
  pub password_fails : Bool
  pub mark_fails : Bool

abbrev pub Resets : Type 0 → Type 0
Resets A = Handler ResetStore A

-- One hour, in nanoseconds.
abbrev pub reset_ttl : ℕ
reset_ttl = 3600000000000

-- An account that is missing or not active is not told to the caller.
abbrev pub send_token : Env → Option Account → Resets (Unit {0})
send_token e none = pure tt
send_token e (some user) = if not user.is_active then pure tt else do
  token ← lift e.token
  exec e.create_fails (insert_reset user.id token (e.now + reset_ttl))

unfoldable pub request_reset : Env → String → Resets (Unit {0})
request_reset e given = do
  let email = trim_space (e.lower given)
  fail_if (is_empty email) email_required
  user ← query false (λ s. if e.user_fails then none else account_by_email email s)
  send_token e user

-- `GetByID` answers a missing account by the error `sql.ErrNoRows`.
abbrev pub owner_of : Env → ℕ → Resets Account
owner_of e id = do found ← query e.user_fails (account_by_id id); or_fail found db

unfoldable pub reset_password : Env → String → String → Resets (Unit {0})
reset_password e given given_password = do
  let token = trim_space given
  let password = trim_space given_password
  fail_if (is_empty token || is_empty password) token_or_password_required
  fail_if (ltb (byte_length password) 6) password_too_short
  found ← query e.reset_fails (reset_by_token token)
  reset ← or_fail found reset_token_not_found
  fail_if reset.used reset_token_used
  fail_if (ltb reset.expires_at e.now) reset_token_expired
  user ← owner_of e reset.user_id
  fail_if (not user.is_active) reset_token_not_found
  hash ← lift (e.hash password)
  exec e.password_fails (update_password reset.user_id hash)
  exec e.mark_fails (mark_used reset.token)
