-- ===== src/Confirmations/Examples.antt =====
-- A contract that is signed by e-mail, and the theorems on confirmations there.
use kub.Base.{
  ℕ, String, true, false, none, some, [], ◌∷◌, ok, ◌=ˢ◌, ◌++ˢ◌, ◌≡◌, ◌⊎◌, ltb, refl, arith,
  trim_space, to_lower, has_prefix, every, eq_iff, change_row, keyed,
}
use kub.DataScope.Examples.{users}
use kub.Documents.Files.{blank, contains, drop_text, trim_prefix, slashes}
use kub.Accounts.Table.{byte_length}
use kub.Phone.{size}
use kub.SignSessions.Service.{trim_slashes}
use kub.Confirmations.Meta.{Meta, member}
use kub.Confirmations.Table.{
  confirmation_key, Confirmation, ConfirmStore, is_pending, holds, latest, expired, approved,
}
use kub.Confirmations.Service.{
  Crypto, Env, hash_of, hash_confirm_token, normalize_confirm_token, normalize_email_otp,
  normalize_document_hash, document_and_preview_path, hash_document_content, build_verify_url,
  open_by_token, expire_row,
}
use kub.Confirmations.Starting.{
  Start, start_signing, ready, parties, deliver, create_pending, started,
}
use kub.Confirmations.Confirm.{
  email_approval, confirm_by_email_token, confirm_by_code, try_code, settle_email, approve_row,
}
use kub.Confirmations.Opening.{prepare_document_preview_by_channel}
use kub.Confirmations.Requests.{Request, email_code, preview_sms, telegram, serve, Right}
use kub.Confirmations.Lifecycle.{IsValid, request-IsValid, approved_only_by_code, settled_stays}
use kub.Confirmations.Roundtrip.{confirm_after_start, start_then_confirm}

abbrev digest : String
digest = "0123456789abcdef0123456789abcdef0123456789abcdef0123456789abcdef"

abbrev crypto : Crypto
crypto = record {
  sha256 = λ t. "h" ++ˢ t;
  compare_code = λ hash code. hash =ˢ ("c" ++ˢ code);
  unescape = λ t. some t;
}

abbrev env : ℕ → Env
env now = record {
  now = now;
  db_now = now;
  repo = true;
  email = true;
  sms = true;
  doc_signer = true;
  users = some users;
  documents = some (λ id. ok (some (record blank { id = id; file_path = "/pdf/contract.pdf" })));
  policy = "ANY";
  verify_base_url = "https://kub.kz";
  sms_verify_base = "https://kub.kz";
  token_pepper = "";
  email_ttl = 100;
  sms_ttl = 100;
  files_root = "/files";
  join = λ a b. a;
  base = λ a. a;
  content_type = λ a. "";
  verify_url = λ base path token. ok base;
  file_hash = λ path. ok digest;
  file_there = λ path. ok tt;
  token = ok "t";
  otp_hash = ok "c123456";
  sent = ok tt;
  provider = none;
  finalizing = ok tt;
  find_fails = false;
  latest_fails = false;
  cancel_fails = false;
  create_fails = false;
  approve_fails = false;
  reject_fails = false;
  expire_fails = false;
  increment_fails = false;
  meta_fails = false;
}

abbrev row : String → String → Confirmation
row channel status = record {
  id = 4;
  document_id = 9;
  user_id = 1;
  channel = channel;
  status = status;
  otp_hash = some "c123456";
  token_hash = some "ht";
  attempts = 0;
  expires_at = 100;
  approved_at = none;
  rejected_at = none;
  meta = [];
}

abbrev one : String → String → ConfirmStore
one channel status = record { rows = row channel status ∷ []; next_id = 5; finalized = [] }

abbrev empty : ConfirmStore
empty = record { rows = []; next_id = 0; finalized = [] }

valid : (channel status : String) → IsValid (one channel status)
valid channel status = ((omega arith, tt), refl, ((λ open_. refl), tt))

abbrev good : Request
good = email_code 9 "t" "123456" digest "v1" "ip" "agent"

request-IsValid_example : IsValid (serve crypto (env 50) good (one "email" "pending"))
request-IsValid_example =
    request-IsValid crypto (env 50) good (one "email" "pending") (valid "email" "pending")

abbrev first : Start
first = started (env 50) 9 7 "email" 150

start_then_confirm_example :
    let end =
      confirm_after_start crypto
        (env 50)
        9
        7
        " a@b.kz"
        "t"
        "c123456"
        empty
        (env 60)
        "123456"
        digest
        "v1"
        "ip"
        "agent" in
    (r : Confirmation) × (r.status ≡ "approved")
    × (end.0 ≡ ok ("approved", trim_space " a@b.kz", digest, r))
    × (keyed confirmation_key empty.next_id end.1.rows ≡ some r)
unfolding start_signing ready parties deliver create_pending build_verify_url trim_slashes
    trim_space to_lower normalize_confirm_token hash_confirm_token normalize_email_otp size every
    hash_document_content document_and_preview_path contains slashes trim_prefix drop_text
    has_prefix normalize_document_hash byte_length latest
start_then_confirm_example =
    start_then_confirm crypto (env 50) 9 7 " a@b.kz" "t" "c123456" empty (env 60) "ht" refl refl
      refl refl "123456" digest "v1" "ip" "agent" digest first refl refl refl refl refl refl refl
      refl refl refl refl refl refl refl

abbrev open_row : Confirmation
open_row = row "email" "pending"

abbrev agreed_row : Confirmation
agreed_row = approved 50 (email_approval (env 50) "ip" "agent" "" ("sha256:" ++ˢ digest)) open_row

approved_only_by_code_example :
    Right crypto (env 50) good open_row
    ⊎ ((token : String) × (action : String) × (given : Meta) × (good ≡ telegram token action given)
        × (is_pending open_row ≡ true)
        × (ltb (env 50).db_now open_row.expires_at ≡ true)
        × (holds open_row.token_hash (hash_of crypto (env 50) token) ≡ true))
unfolding serve confirm_by_email_token confirm_by_code open_by_token try_code settle_email
    approve_row trim_space to_lower normalize_confirm_token hash_confirm_token normalize_email_otp
    size every hash_document_content document_and_preview_path contains slashes trim_prefix
    drop_text has_prefix normalize_document_hash byte_length latest change_row member
approved_only_by_code_example =
    approved_only_by_code crypto (env 50) good (one "email" "pending") 4 {r = open_row}
      {r' = agreed_row} (valid "email" "pending") refl
      (λ same. ground (arith, (eq_iff "pending" "approved").1 same)) refl refl

-- The preview of a signed document, once its time is over, makes its confirmation an expired one.
abbrev closed : Confirmation
closed = row "sms" "approved"

abbrev late : Confirmation
late = expired closed

settled_stays_example :
    ((late.status ≡ closed.status)
      × (late.approved_at ≡ closed.approved_at)
      × (late.attempts ≡ closed.attempts))
    ⊎ ((token : String) × (preview_sms "t" ≡ preview_sms token)
        × (holds closed.token_hash (hash_of crypto (env 200) token) ≡ true)
        × (ltb closed.expires_at (env 200).now ≡ true)
        × (late ≡ expired closed))
unfolding serve prepare_document_preview_by_channel open_by_token expire_row trim_space
    normalize_confirm_token hash_confirm_token latest change_row
settled_stays_example =
    settled_stays crypto (env 200) (preview_sms "t") (one "sms" "approved") 4 {r = closed}
      {r' = late} (valid "sms" "approved") refl refl refl
