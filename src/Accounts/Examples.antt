-- ===== src/Accounts/Examples.antt =====
-- An account with one reset token, a new account with one code, and the theorems on them.
use kub.Base.{
  List, ◌≢◌, ap, arith, none, all, ◌=ˢ◌, ◌++ˢ◌, err, resend_throttled, change_row, ◌≤◌, String,
  true, false, some, [], ◌∷◌, ok, is_ok, ◌≡◌, refl, ◌==◌, if◌then◌else◌, ltb, trim_space,
}
use kub.Accounts.Table.{
  Account, PasswordReset, ResetStore, account_by_id, reset_by_token, set_password, byte_length,
}
use kub.Accounts.Reset.{Env, reset_password}
use kub.Accounts.Owner.{reset_changes_owner}
use kub.Accounts.SingleUse.{Run, start, changed, reset_token_single_use}
use kub.Phone.{digits_of}
use kub.Accounts.Verification
use kub.Accounts.Verification.{
  Verification, VerifyStore, latest, latest_by_user, latest_pending, normalize_code, open_account,
  wrong_code, send, delivery, renew, resend, confirm,
}
use kub.Accounts.Requests.{resend_code, serve}
use kub.Accounts.Confirmed.{resent_at_most, resends_bounded}

abbrev env : Env
env = record {
  now = 50;
  lower = λ s. s;
  token = ok "fresh";
  hash = λ p. ok "hash";
  reset_fails = false;
  user_fails = false;
  create_fails = false;
  password_fails = false;
  mark_fails = false;
}

abbrev account : Account
account = record {
  id = 3;
  email = "a@b.kz";
  phone = "";
  password_hash = "old";
  is_active = true;
  is_verified = true;
  refresh_revoked = false;
}

abbrev reset : PasswordReset
reset = record { id = 1; user_id = 3; token = "t"; expires_at = 60; used = false }

abbrev store : ResetStore
store = record { accounts = account ∷ []; resets = reset ∷ []; next_id = 2 }

reset_changes_owner_example :
    (r : PasswordReset) × (owner : Account) × (hash : String) × (reset_by_token
        (trim_space " t")
        store
      ≡ some r)
    × (r.used ≡ false)
    × (ltb r.expires_at 50 ≡ false)
    × (account_by_id r.user_id store ≡ some owner)
    × (owner.is_active ≡ true)
    × (6 ≤ byte_length (trim_space "secret"))
    × (env.hash (trim_space "secret") ≡ ok hash)
    × (account_by_id 3 (reset_password env " t" "secret" store).1
        ≡ (if 3 == r.user_id then some (set_password hash owner) else account_by_id 3 store))
unfolding reset_password trim_space byte_length
reset_changes_owner_example = reset_changes_owner env " t" "secret" store 3 refl

-- The hash of the first account.
abbrev first_hash : List Account → String
first_hash [] = ""
first_hash (a ∷ accounts) = a.password_hash

accounts_change : (reset_password env " t" "secret" store).1.accounts ≢ store.accounts
unfolding reset_password trim_space byte_length change_row
accounts_change same = absurd (ground (arith, ap first_hash same))

one_reset : Run "t" store 1 (reset_password env " t" "secret" store).1
unfolding reset_password trim_space byte_length
one_reset = changed env " t" "secret" (start refl refl) refl refl refl accounts_change refl

reset_token_single_use_example : 1 ≤ 1
reset_token_single_use_example = reset_token_single_use "t" store refl one_reset

-- The password is counted in bytes: three Cyrillic letters are long enough.
three_letters : is_ok (reset_password env "t" "пар" store).0 ≡ true
unfolding reset_password trim_space byte_length
three_letters = refl

-- A new account, whose code is 123456.
abbrev fresh_account : Account
fresh_account = record account { is_verified = false }

abbrev world : Verification.Env
world = record {
  now = 50;
  db_now = 50;
  code_ttl = 0;
  user_service = true;
  repo = true;
  email_service = true;
  sms_sender = false;
  code_hash = ok "c654321";
  compare_code = λ hash code. hash =ˢ ("c" ++ˢ code);
  email_sent = true;
  sms_failed = false;
  user_fails = false;
  phone_fails = false;
  latest_fails = false;
  pending_fails = false;
  create_fails = false;
  update_fails = false;
  increment_fails = false;
  expire_fails = false;
  mark_fails = false;
  verify_fails = false;
}

abbrev pending : Verification
pending = record {
  id = 1;
  user_id = 3;
  code_hash = "c123456";
  sent_at = 40;
  expires_at = 90;
  confirmed = false;
  attempts = 4;
  confirmed_at = none;
  last_resend_at = some 40;
  resend_count = 0;
}

abbrev registry : VerifyStore
registry = record { accounts = fresh_account ∷ []; verifications = pending ∷ []; next_id = 2 }

resends_bounded_example :
    all (resent_at_most 5) (serve world (resend_code 3) registry).verifications ≡ true
resends_bounded_example = resends_bounded world (resend_code 3) registry refl

-- The cooldown refuses a second code at once; after a fifth wrong code it does not.
cooldown : (resend world 3 registry).0 ≡ err resend_throttled
unfolding resend open_account trim_space latest_by_user latest renew
cooldown = refl

no_cooldown :
    is_ok (resend (record world { now = 51 }) 3 (confirm world 3 "000000" registry).1).0 ≡ true
unfolding resend confirm open_account normalize_code digits_of trim_space latest_pending latest
    wrong_code latest_by_user change_row send delivery
no_cooldown = refl
