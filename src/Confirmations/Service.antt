-- ===== src/Confirmations/Service.antt =====
-- What the operations of document_signing_confirmation_service.go share: the parts the service is
-- made of, tokens and codes, the hash of a document, and how a row is found by its token.
use Prim.Native.Char.{Char, code}
use kub.Base.{
  ℕ, String, Bool, Option, none, some, Handler, Result, ok, err, pure, fail, or_fail, query, exec,
  fail_if, ignore, ◌>>=◌, ◌>>◌, Error, not_configured, session_base_url, bad_filepath,
  document_not_found, confirm_not_found, confirm_invalid_token, confirm_already_used,
  confirm_expired, files_root_required, ◌==◌, ◌=ˢ◌, ◌++ˢ◌, ◌&&◌, ◌||◌, not, leb, if◌then◌else◌,
  is_empty, trim_space, to_lower, every,
}
use kub.Models.Users.{UserRepo}
use kub.Phone.{is_digit, size}
use kub.Accounts.Table.{byte_length}
use kub.SignSessions.Service.{trim_slashes}
use kub.Documents.Table.{Document}
use kub.Documents.Files.{slashes, trim_prefix, is_bad_path}
use kub.Confirmations.Table.{
  Confirmation, ConfirmStore, holds, find_by_token_hash, update_row, expired,
}

-- SHA-256 in hexadecimal digits, bcrypt (a hash, a code), and url.QueryUnescape, whose error is none.
pub record Crypto : Type 0 where
  pub sha256 : String → String
  pub compare_code : String → String → Bool
  pub unescape : String → Option String

-- The parts of the service, which are there or not; the clock; what is drawn at random; and which
-- calls fail.
pub record Env : Type 0 where
  pub now : ℕ
  pub db_now : ℕ
  pub repo : Bool
  pub email : Bool
  pub sms : Bool
  pub doc_signer : Bool
  pub users : Option UserRepo
  pub documents : Option (ℕ → Result (Option Document))
  pub policy : String
  pub verify_base_url : String
  pub sms_verify_base : String
  pub token_pepper : String
  pub email_ttl : ℕ
  pub sms_ttl : ℕ
  pub files_root : String
  pub join : String → String → String  -- filepath.Join
  pub base : String → String  -- filepath.Base
  pub content_type : String → String  -- mime.TypeByExtension
  pub verify_url : String → String → String → Result String  -- url.Parse and what it prints
  pub file_hash : String → Result String  -- the SHA-256 of a file, in hexadecimal digits
  pub file_there : String → Result (Unit {0})  -- os.Stat
  pub token : Result String
  pub otp_hash : Result String
  pub sent : Result (Unit {0})
  pub provider : Option (String × String)  -- of a text message, with its identifier there
  pub finalizing : Result (Unit {0})
  pub find_fails : Bool
  pub latest_fails : Bool
  pub cancel_fails : Bool
  pub create_fails : Bool
  pub approve_fails : Bool
  pub reject_fails : Bool
  pub expire_fails : Bool
  pub increment_fails : Bool
  pub meta_fails : Bool

abbrev pub Confirming : Type 0 → Type 0
Confirming A = Handler ConfirmStore A

-- `signConfirmMaxAttempts`, and the version of `CurrentEmailSigningAgreement`.
abbrev pub max_attempts : ℕ
max_attempts = 5

abbrev pub agreement_version : String
agreement_version = "v1"

-- `^\d{6}$`.
unfoldable pub normalize_email_otp : String → String
normalize_email_otp given =
    let code = trim_space given in if size code == 6 && every is_digit code then code else ""

abbrev pub is_hex : Char → Bool
is_hex c = leb 48 (code c) && leb (code c) 57 || leb 97 (code c) && leb (code c) 102

unfoldable pub normalize_document_hash : String → String
normalize_document_hash raw =
    let hash = trim_prefix (trim_space (to_lower raw)) "sha256:" in
    if byte_length hash == 64 && every is_hex hash then "sha256:" ++ˢ hash else ""

unfoldable pub build_verify_url : Env → String → String → String → Result String
build_verify_url e base path token =
    if is_empty (trim_slashes base)
    then err session_base_url
    else e.verify_url (trim_slashes base) path token

-- `getDocumentAndPreviewPath`.
abbrev pub preview_path : Document → String
preview_path doc =
    let pdf = trim_space doc.file_path_pdf in
    let rel = if is_empty pdf then trim_space doc.file_path else pdf in
    trim_prefix (trim_prefix (slashes rel) "/") "files/"

abbrev pub checked_path : Result (Option Document) → Result (Document × String)
checked_path (err x) = err document_not_found
checked_path (ok none) = err document_not_found
checked_path (ok (some doc)) =
    if is_bad_path (preview_path doc) then err bad_filepath else ok (doc, preview_path doc)

unfoldable pub document_and_preview_path : Env → ℕ → Result (Document × String)
document_and_preview_path e id = elim e.documents [
  | none ↦ err not_configured
  | some get ↦ checked_path (get id)
]

abbrev hash_at : Env → Result (Document × String) → Result String
hash_at e (err x) = err x
hash_at e (ok (doc, rel)) =
    let root = trim_space e.files_root in
    if is_empty root then err files_root_required else e.file_hash (e.join root rel)

unfoldable pub hash_document_content : Env → ℕ → Result String
hash_document_content e id = hash_at e (document_and_preview_path e id)

unfoldable pub expire_row : Env → Confirmation → Confirming (Unit {0})
expire_row e row = ignore (exec e.expire_fails (update_row row.id expired))

-- `_ = s.repo.Expire(…)` and the error that is returned after it.
abbrev pub expired_with : {A : Type 0} → Env → Confirmation → Error → Confirming A
expired_with e row x = expire_row e row >> fail x

-- The error for a row that is no longer pending.
abbrev pub used_error : Confirmation → Error
used_error row = if row.status =ˢ "approved" then confirm_already_used else confirm_expired

module _ (c : Crypto) where
  unfoldable pub normalize_confirm_token : String → String
  normalize_confirm_token raw =
      let token = trim_space raw in
      if is_empty token
      then ""
      else elim (c.unescape token) [ none ↦ token | some decoded ↦ trim_space decoded ]

  unfoldable pub hash_confirm_token : String → String → String
  hash_confirm_token token pepper =
      let p = trim_space pepper in
      c.sha256 (if is_empty p then trim_space token else trim_space token ++ˢ ":" ++ˢ p)

  abbrev pub hash_of : Env → String → String
  hash_of e raw = hash_confirm_token (normalize_confirm_token raw) e.token_pepper

  -- How most operations begin: the row of a token, whatever its state.
  unfoldable pub open_by_token : Env → String → String → Confirming Confirmation
  open_by_token e channel raw = do
    fail_if (is_empty (normalize_confirm_token raw)) confirm_not_found
    found ← query e.find_fails (find_by_token_hash channel (hash_of e raw))
    row ← or_fail found confirm_not_found
    fail_if (not (holds row.token_hash (hash_of e raw))) confirm_invalid_token
    pure row
