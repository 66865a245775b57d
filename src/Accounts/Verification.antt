-- ===== src/Accounts/Verification.antt =====
-- internal/services/user_verification_service.go and verification_code.go over
-- internal/repositories/user_verification_repository.go. bcrypt, the code that is drawn, the clock
-- and what the sending of an e-mail or a text message answers are in an `Env`.
use kub.Base.{
  ℕ, suc, ◌+◌, String, Bool, true, false, Option, none, some, List, [], ◌∷◌, filter, ◌==◌, ◌&&◌,
  ◌||◌, not, ltb, leb, if◌then◌else◌, is_empty, trim_space, keyed, change_row, Handler, pure, fail,
  lift, or_fail, query, exec, fail_if, ignore, ◌>>=◌, ◌>>◌, ok, err, Result, not_configured,
  email_required, delivery_failed, no_pending_verification, already_verified, resend_throttled,
  code_invalid, code_expired, too_many_attempts, db,
}
use kub.Phone.{digits_of}
use kub.Accounts.Table.{Account, account_key}

pub record Verification : Type 0 where
  pub id : ℕ
  pub user_id : ℕ
  pub code_hash : String
  pub sent_at : ℕ
  pub expires_at : ℕ
  pub confirmed : Bool
  pub attempts : ℕ
  pub confirmed_at : Option ℕ
  pub last_resend_at : Option ℕ
  pub resend_count : ℕ

pub record VerifyStore : Type 0 where
  pub accounts : List Account
  pub verifications : List Verification
  pub next_id : ℕ

pub record Env : Type 0 where
  pub now : ℕ  -- nanoseconds
  pub db_now : ℕ
  pub code_ttl : ℕ
  pub user_service : Bool  -- the services and the repository are there
  pub repo : Bool
  pub email_service : Bool
  pub sms_sender : Bool
  pub code_hash : Result String  -- of the code drawn
  pub compare_code : String → String → Bool  -- bcrypt: a hash, a code
  pub email_sent : Bool
  pub sms_failed : Bool  -- by an error other than that it is disabled
  pub user_fails : Bool
  pub phone_fails : Bool  -- the second look-up of the account, for its number
  pub latest_fails : Bool
  pub pending_fails : Bool
  pub create_fails : Bool
  pub update_fails : Bool
  pub increment_fails : Bool
  pub expire_fails : Bool
  pub mark_fails : Bool
  pub verify_fails : Bool

abbrev pub max_confirm_attempts : ℕ
max_confirm_attempts = 5

-- Five minutes, and one minute.
abbrev pub default_ttl : ℕ
default_ttl = 300000000000

abbrev pub resend_cooldown : ℕ
resend_cooldown = 60000000000

abbrev pub max_resends : ℕ
max_resends = 5

abbrev pub Verifying : Type 0 → Type 0
Verifying A = Handler VerifyStore A

-- `NormalizeVerificationCode`.
unfoldable pub normalize_code : String → String
normalize_code code = digits_of (trim_space code)

abbrev pub account_of : ℕ → VerifyStore → Option Account
account_of id s = keyed account_key id s.accounts

abbrev pub verification_key : Verification → ℕ
verification_key v = v.id

-- `ORDER BY sent_at DESC, id DESC LIMIT 1`.
abbrev pub newer : Verification → Verification → Bool
newer a b = ltb b.sent_at a.sent_at || a.sent_at == b.sent_at && ltb b.id a.id

unfoldable pub latest : List Verification → Option Verification
latest [] = none
latest (v ∷ rows) =
    let rest = latest rows in
    elim rest [ none ↦ some v | some w ↦ some (if newer w v then w else v) ]

unfoldable pub latest_by_user : ℕ → VerifyStore → Option Verification
latest_by_user user s = latest (filter (λ (v : Verification). v.user_id == user) s.verifications)

abbrev pub is_pending : ℕ → ℕ → Verification → Bool
is_pending user now v = v.user_id == user && (not v.confirmed && ltb now v.expires_at)

unfoldable pub latest_pending : ℕ → ℕ → VerifyStore → Option Verification
latest_pending user now s = latest (filter (is_pending user now) s.verifications)

abbrev pub update_row : ℕ → (Verification → Verification) → VerifyStore → VerifyStore
update_row id f s = record s { verifications = change_row verification_key id f s.verifications }

abbrev pub insert_verification : ℕ → String → ℕ → ℕ → VerifyStore → VerifyStore
insert_verification user hash sent expires s = record s {
  verifications =
      record {
        id = s.next_id;
        user_id = user;
        code_hash = hash;
        sent_at = sent;
        expires_at = expires;
        confirmed = false;
        attempts = 0;
        confirmed_at = none;
        last_resend_at = some sent;
        resend_count = 0;
      }
      ∷ s.verifications;
  next_id = suc s.next_id;
}

abbrev pub add_attempt : Verification → Verification
add_attempt v = record v { attempts = suc v.attempts }

abbrev pub expire_now : ℕ → Verification → Verification
expire_now now v = record v { expires_at = now }

abbrev pub mark_confirmed : ℕ → Verification → Verification
mark_confirmed now v = record v { confirmed = true; confirmed_at = some now }

-- The SET clause of `Update`.
abbrev pub set_columns : Verification → Verification → Verification
set_columns v row = record v { id = row.id; user_id = row.user_id }

abbrev pub set_verified : Account → Account
set_verified a = record a { is_verified = true }

abbrev pub verify_user : ℕ → VerifyStore → VerifyStore
verify_user id s = record s { accounts = change_row account_key id set_verified s.accounts }

abbrev pub ttl : Env → ℕ
ttl e = if e.code_ttl == 0 then default_ttl else e.code_ttl

abbrev pub phone_of : Env → Option Account → String
phone_of e none = ""
phone_of e (some a) = if e.phone_fails then "" else trim_space a.phone

-- What `sendVerificationCode` answers: the e-mail's error, but for a text message that fails, other
-- than by being disabled, an error in any case.
unfoldable pub delivery : Env → ℕ → String → VerifyStore → Result (Unit {0})
delivery e user email s =
    if e.sms_sender && (not (is_empty (phone_of e (account_of user s))) && e.sms_failed)
    then err delivery_failed
    else if not (is_empty (trim_space email)) && not e.email_sent
    then err delivery_failed
    else ok tt

abbrev pub deliver : Env → ℕ → String → Verifying (Unit {0})
deliver e user email s = (delivery e user email s, s)

unfoldable pub send : Env → ℕ → String → Verifying (Unit {0})
send e user email = do
  fail_if (not e.repo) not_configured
  fail_if (not e.email_service) not_configured
  fail_if (is_empty (trim_space email)) email_required
  hash ← lift e.code_hash
  exec e.create_fails (insert_verification user hash e.now (e.now + ttl e))
  deliver e user email

-- The account that a call is about: a missing one is the error `sql.ErrNoRows` of the repository.
unfoldable pub open_account : Env → ℕ → Verifying Account
open_account e user = do
  found ← query e.user_fails (account_of user)
  a ← or_fail found db
  fail_if a.is_verified already_verified
  pure a

abbrev pub resent : Env → String → Verification → Verification
resent e hash v = record v {
  code_hash = hash;
  sent_at = e.now;
  expires_at = e.now + ttl e;
  attempts = 0;
  confirmed = false;
  confirmed_at = none;
  last_resend_at = some e.now;
  resend_count = suc v.resend_count;
}

abbrev pub within_cooldown : ℕ → Option ℕ → Bool
within_cooldown now none = false
within_cooldown now (some last) = ltb now (last + resend_cooldown)

-- A new code in the record that is there.
unfoldable pub renew : Env → Account → Verification → Verifying (Unit {0})
renew e a v = do
  fail_if (within_cooldown e.now v.last_resend_at) resend_throttled
  fail_if (leb max_resends v.resend_count) resend_throttled
  hash ← lift e.code_hash
  exec e.update_fails (update_row v.id (set_columns (resent e hash v)))
  deliver e a.id a.email

abbrev pub resend_existing : Env → Account → Option Verification → Verifying (Unit {0})
resend_existing e a none = send e a.id a.email
resend_existing e a (some v) =
    if v.confirmed || ltb v.expires_at e.now then send e a.id a.email else renew e a v

unfoldable pub resend : Env → ℕ → Verifying (Unit {0})
resend e user = do
  fail_if (not e.user_service || (not e.repo || not e.email_service)) not_configured
  fail_if (user == 0) no_pending_verification
  a ← open_account e user
  fail_if (is_empty (trim_space a.email)) no_pending_verification
  existing ← query e.latest_fails (latest_by_user a.id)
  resend_existing e a existing

-- Why nothing is pending: the last code has run out, or there is none.
abbrev pub nothing_pending : Env → Option Verification → Verifying (Unit {0})
nothing_pending e none = fail no_pending_verification
nothing_pending e (some v) = fail (
    if not e.latest_fails && (not v.confirmed && ltb v.expires_at e.now)
    then code_expired
    else no_pending_verification)

unfoldable pub wrong_code : Env → Verification → Verifying (Unit {0})
wrong_code e v = do
  exec e.increment_fails (update_row v.id add_attempt)
  if leb max_confirm_attempts (suc v.attempts)
      then ignore (exec e.expire_fails (update_row v.id (expire_now e.db_now)))
        >> fail too_many_attempts
      else fail code_invalid

unfoldable pub right_code : Env → ℕ → Verification → Verifying (Unit {0})
right_code e user v = do
  exec e.mark_fails (update_row v.id (mark_confirmed e.db_now))
  exec e.verify_fails (verify_user user)

abbrev pub confirm_pending : Env → ℕ → String → Option Verification → Verifying (Unit {0})
confirm_pending e user code none s = nothing_pending e (latest_by_user user s) s
confirm_pending e user code (some v) s =
    if v.confirmed
    then nothing_pending e (latest_by_user user s) s
    else if ltb v.expires_at e.now
    then (err code_expired, s)
    else if e.compare_code v.code_hash (trim_space code)
    then right_code e user v s
    else wrong_code e v s

-- `Confirm` answers true where it gives no error, and false with every error.
unfoldable pub confirm : Env → ℕ → String → Verifying (Unit {0})
confirm e user given = do
  let code = normalize_code given
  fail_if (not e.user_service || not e.repo) not_configured
  fail_if (user == 0 || is_empty code) code_invalid
  a ← open_account e user
  pending ← query e.pending_fails (latest_pending a.id e.now)
  confirm_pending e a.id code pending
