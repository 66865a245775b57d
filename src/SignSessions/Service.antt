-- ===== src/SignSessions/Service.antt =====
-- internal/services/sign_session_service.go. What is not the program's own code is a parameter: the
-- hash functions and the decoding of URLs in a `Crypto`; the clock, random values, the document
-- service's answers and the failures of one call in an `Env`. A call reads the clock once here,
-- where the source reads it again at each use.
use kub.Base.{
  ℕ, ◌+◌, String, Bool, true, false, Option, none, some, ◌==◌, ◌=ˢ◌, ◌++ˢ◌, ◌&&◌, ◌||◌, not, ltb,
  leb, if◌then◌else◌, is_empty, is_none, trim_space, Handler, pure, fail, lift, or_fail, query,
  exec, fail_if, ignore, ◌>>=◌, ◌>>◌, ok, err, Result, Error, not_configured, not_found, forbidden,
  invalid_status, delivery_failed, delivery_missing, session_not_found, session_already_signed,
  session_rate_limited, session_invalid_phone, session_doc_not_found, session_forbidden,
  session_invalid_status, session_base_url, session_invalid_email, document_changed,
}
use Prim.Native.Char.{code}
use kub.Phone.{sanitize_e164_digits}
use kub.SignSessions.Table.{
  SignSession, SignStore, session_by_hash, signed_by, count_by_document, count_by_phone, stored,
  insert_session, update_session,
}

pub record Crypto : Type 0 where
  pub hash_token : String → String  -- SHA-256, in hexadecimal digits
  pub compare_code : String → String → Bool  -- bcrypt: a hash, a code
  pub unescape : String → Option String  -- url.QueryUnescape; none is its error

pub record Env : Type 0 where
  pub now : ℕ  -- nanoseconds
  pub db_now : ℕ
  pub session_ttl : ℕ
  pub sign_base_url : String
  pub token_visible : Bool
  pub documents : Bool  -- there is a document service
  pub delivery : Bool  -- there is a delivery
  pub signing_allowed : Result (Unit {0})
  pub artifact : Result (Unit {0})
  pub finalizing : Result (Unit {0})
  pub code_hash : Result String
  pub token : Result String
  pub code_sent : Bool
  pub link_sent : Bool
  pub count_fails : Bool
  pub phone_count_fails : Bool
  pub get_fails : Bool
  pub create_fails : Bool
  pub update_fails : Bool
  pub increment_fails : Bool

abbrev pub max_attempts : ℕ
max_attempts = 5

abbrev pub rate_limit_max : ℕ
rate_limit_max = 3

abbrev pub rate_limit_span : ℕ
rate_limit_span = 600000000000

abbrev pub Sessions : Type 0 → Type 0
Sessions A = Handler SignStore A

unfoldable pub is_expired : Env → SignSession → Bool
is_expired e session = session.status =ˢ "expired" || ltb session.expires_at e.now

unfoldable pub expire_session : Env → SignSession → Sessions (Unit {0})
expire_session e session =
    ignore (exec e.update_fails (update_session (record session { status = "expired" })))

-- `expireSession(…)` and the error that is returned after it.
abbrev pub expired_with : {A : Type 0} → Env → SignSession → Error → Sessions A
expired_with e session x = expire_session e session >> fail x

unfoldable pub allowed_error : Error → Error
allowed_error not_found = session_doc_not_found
allowed_error forbidden = session_forbidden
allowed_error invalid_status = session_invalid_status
allowed_error x = x

abbrev pub mapped : (Error → Error) → Result (Unit {0}) → Result (Unit {0})
mapped f (ok tt) = ok tt
mapped f (err x) = err (f x)

-- `SignByID` knows two of the errors of `FinalizeSigning`.
unfoldable pub finalize_error : Error → Error
finalize_error not_found = session_doc_not_found
finalize_error invalid_status = session_invalid_status
finalize_error x = x

-- `errors.Is(err, ErrDocumentChangedAfterOTP)`.
abbrev pub is_document_changed : Error → Bool
is_document_changed document_changed = true
is_document_changed x = false

-- `strings.TrimRight(base, "/")`.
unfoldable pub trim_slashes : String → String
trim_slashes String.[] = String.[]
trim_slashes (String.◌∷◌ c s) =
    let rest = trim_slashes s in
    if code c == 47 && is_empty rest then String.[] else String.◌∷◌ c rest

abbrev pub build_sign_url : Env → String → Result String
build_sign_url e token =
    let base = trim_space e.sign_base_url in
    if is_empty base then err session_base_url else ok (trim_slashes base ++ˢ "/" ++ˢ token)

module _ (c : Crypto) where
  unfoldable pub normalize_session_token : String → String
  normalize_session_token raw =
      let token = trim_space raw in
      if is_empty token
      then ""
      else elim (c.unescape token) [ none ↦ token | some decoded ↦ trim_space decoded ]

  abbrev pub new_session : Env → ℕ → String → String → String → String → String → SignSession
  new_session e document phone code_hash token email doc_hash = record {
    id = 0;
    document_id = document;
    phone_e164 = phone;
    code_hash = code_hash;
    token_hash = c.hash_token token;
    signer_email = email;
    doc_hash = doc_hash;
    expires_at = e.now + e.session_ttl;
    attempts = 0;
    status = "pending";
    verified_at = none;
    signed_at = none;
    signed_ip = "";
    signed_user_agent = "";
    created_at = 0;
  }

  -- `repo.Create`, which gives the session its key.
  unfoldable pub create_row : Env → SignSession → Sessions SignSession
  create_row e session = do
    row ← query false (stored e.db_now session)
    exec e.create_fails (insert_session row)
    pure row

  abbrev pub invalid_phone : Result String → Result String
  invalid_phone (ok p) = ok p
  invalid_phone (err x) = err session_invalid_phone

  unfoldable pub create : Env → ℕ → String → Sessions (String × String × SignSession)
  create e document phone = do
    fail_if (not e.documents) not_configured
    lift (mapped allowed_error e.signing_allowed)
    recent ← query e.count_fails (count_by_document document rate_limit_span e.now)
    fail_if (leb rate_limit_max recent) session_rate_limited
    code_hash ← lift e.code_hash
    token ← lift e.token
    number ← lift (invalid_phone (sanitize_e164_digits phone))
    recent_by_phone ← query e.phone_count_fails (count_by_phone number rate_limit_span e.now)
    fail_if (leb rate_limit_max recent_by_phone) session_rate_limited
    session ← create_row e (new_session e document number code_hash token "" "")
    url ← lift (build_sign_url e token)
    fail_if (not e.delivery) delivery_missing
    fail_if (not e.code_sent) delivery_failed
    fail_if (not e.link_sent) delivery_failed
    pure (if e.token_visible then (token, url, session) else ("", "", session))

  abbrev pub already_signed : Env → ℕ → String → Sessions (Unit {0})
  already_signed e document identity = do
    signed ← query e.get_fails (signed_by document identity)
    fail_if (not (is_none signed)) session_already_signed

  -- Whether the text has an "@".
  has_at : String → Bool
  has_at String.[] = false
  has_at (String.◌∷◌ x s) = code x == 64 || has_at s

  unfoldable pub create_confirmed_session :
      Env → ℕ → String → String → Sessions (String × SignSession)
  unfolding has_at
  create_confirmed_session e document signer_identity doc_hash = do
    let identity = trim_space signer_identity
    fail_if (is_empty identity) session_invalid_email
    if has_at identity then already_signed e document identity else pure tt
    token ← lift e.token
    session ← create_row e (new_session e document "" "" token identity (trim_space doc_hash))
    pure (token, session)

  -- `getByToken`; the row found has the hash, so that comparing once more passes.
  unfoldable pub get_by_token : Env → String → Sessions SignSession
  get_by_token e raw = do
    let token = normalize_session_token raw
    let hash = c.hash_token token
    fail_if (is_empty token) session_not_found
    found ← query e.get_fails (session_by_hash hash)
    session ← or_fail found session_not_found
    fail_if (not (session.token_hash =ˢ hash)) session_not_found
    pure session
