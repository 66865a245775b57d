-- ===== src/Confirmations/Confirm.antt =====
-- document_signing_confirmation_service.go: a signature confirmed by a token and a code, or in
-- Telegram. A confirmation that comes back beside an error is left out.
use kub.Base.{
  ℕ, suc, String, Bool, true, false, Option, none, some, [], ◌∷◌, ◌++◌, ok, pure, fail, lift, exec,
  fail_if, ◌>>=◌, ◌>>◌, not_configured, confirm_expired, confirm_invalid_code,
  confirm_too_many_tries, confirm_invalid_token, confirm_hash_required, confirm_doc_mismatch,
  agreement_required, agreement_mismatch, ◌==◌, ◌=ˢ◌, ◌++ˢ◌, not, ltb, leb, if◌then◌else◌, is_empty,
  trim_space, to_lower,
}
use kub.Confirmations.Meta.{Meta, text, flag, moment, extract_signer_email, extract_signer_phone}
use kub.Confirmations.Table.{Confirmation, is_pending, update_row, approved, add_attempt, with_meta}
use kub.Confirmations.Service.{
  Crypto, Env, Confirming, max_attempts, agreement_version, normalize_email_otp,
  normalize_document_hash, hash_document_content, expired_with, used_error, open_by_token,
}

-- "approved", who signs, the hash of the document, and the row.
abbrev pub Confirmed : Type 0
Confirmed = String × String × String × Confirmation

abbrev pub version_of : String → String
version_of given = trim_space (to_lower given)

-- What the client says it has read, against what there is.
abbrev pub check_agreement : Env → String → Confirming (Unit {0}) → Confirming (Unit {0})
check_agreement e given mismatch = fail_if (is_empty (version_of given)) agreement_required >> (λ s.
    if version_of given =ˢ version_of agreement_version
    then (ok tt, s)
    else (mismatch >> fail agreement_mismatch) s)

abbrev pub agreement_meta : Env → String → Meta
agreement_meta e given =
    ("agreement_text_version", text (trim_space given))
    ∷ ("agreement_version_verified", flag false)
    ∷ ("agreement_version_mismatch_at", moment e.now)
    ∷ []

abbrev pub hash_meta : Env → String → String → Meta
hash_meta e client current =
    ("document_hash_from_client", text client)
    ∷ ("document_hash_current", text current)
    ∷ ("agreement_text_version", text agreement_version)
    ∷ ("agreement_version_verified", flag true)
    ∷ ("agreement_version_verified_at", moment e.now)
    ∷ []

abbrev pub mismatch_meta : Env → String → String → Meta
mismatch_meta e client current =
    ("document_hash_verified", flag false)
    ∷ ("document_hash_mismatch_at", moment e.now)
    ∷ hash_meta e client current

abbrev pub signer_entry : String → Meta
signer_entry email = if is_empty email then [] else ("signer_email", text email) ∷ []

abbrev pub email_approval : Env → String → String → String → String → Meta
email_approval e ip agent email current =
    signer_entry email
    ++ (("document_hash_verified", flag true)
        ∷ ("document_hash_verified_at", moment e.now)
        ∷ ("ip", text ip)
        ∷ ("user_agent", text agent)
        ∷ ("method", text "email_magic_link")
        ∷ ("document_hash", text current)
        ∷ hash_meta e current current)

abbrev pub channel_approval : String → String → String → String → Meta
channel_approval channel ip agent current =
    ("ip", text ip)
    ∷ ("user_agent", text agent)
    ∷ ("method", text (channel ++ˢ "_otp"))
    ∷ ("document_hash", text current)
    ∷ ("document_hash_from_client", text current)
    ∷ ("document_hash_current", text current)
    ∷ ("agreement_text_version", text agreement_version)
    ∷ ("agreement_version_verified", flag true)
    ∷ ("document_hash_verified", flag true)
    ∷ []

-- `repo.Approve`, which gives the row back.
unfoldable pub approve_row : Env → Confirmation → Meta → Confirming Confirmation
approve_row e row update =
    exec e.approve_fails (update_row row.id (approved e.db_now update))
    >> pure (approved e.db_now update row)

unfoldable pub note : Env → Confirmation → Meta → Confirming (Unit {0})
note e row update = exec e.meta_fails (update_row row.id (with_meta update))

-- An e-mail's mismatches are recorded.
abbrev pub check_hash : Env → Confirmation → String → String → Confirming (Unit {0})
check_hash e row client current s =
    if client =ˢ current
    then (ok tt, s)
    else (note e row (mismatch_meta e client current) >> fail confirm_doc_mismatch) s

unfoldable pub settle_email :
    Env → String → String → String → String → Confirmation → Confirming Confirmed
settle_email e client_hash version ip agent row = do
  hash ← lift (hash_document_content e row.document_id)
  let client = normalize_document_hash client_hash
  let current = normalize_document_hash ("sha256:" ++ˢ hash)
  fail_if (is_empty client) confirm_hash_required
  check_agreement e version (note e row (agreement_meta e version))
  check_hash e row client current
  let email = extract_signer_email row.meta
  done ← approve_row e row (email_approval e ip agent email current)
  pure ("approved", email, hash, done)

abbrev pub identity_of : Meta → String
identity_of meta =
    if is_empty (extract_signer_email meta)
    then extract_signer_phone meta
    else extract_signer_email meta

unfoldable pub settle_by_channel :
    Env → String → String → String → String → String → Confirmation → Confirming Confirmed
settle_by_channel e channel client_hash version ip agent row = do
  hash ← lift (hash_document_content e row.document_id)
  let client = normalize_document_hash client_hash
  let current = normalize_document_hash ("sha256:" ++ˢ hash)
  fail_if (is_empty client) confirm_hash_required
  check_agreement e version (pure tt)
  fail_if (not (client =ˢ current)) confirm_doc_mismatch
  done ← approve_row e row (channel_approval channel ip agent current)
  pure ("approved", identity_of row.meta, hash, done)

unfoldable pub wrong_code : {A : Type 0} → Env → Confirmation → Confirming A
wrong_code e row = do
  exec e.increment_fails (update_row row.id add_attempt)
  if leb max_attempts (suc row.attempts)
      then expired_with e row confirm_too_many_tries
      else fail confirm_invalid_code

module _ (c : Crypto) where
  abbrev pub code_matches : Option String → String → Bool
  code_matches none given = false
  code_matches (some hash) given = c.compare_code hash given

  abbrev pub has_code : Option String → Bool
  has_code none = false
  has_code (some hash) = not (is_empty hash)

  -- What both confirmations by a code have in common, up to what each does when the code is right.
  unfoldable pub try_code :
      {A : Type 0} → Env → Confirmation → String → (Confirmation → Confirming A) → Confirming A
  try_code e row given settle =
      if not (is_pending row)
      then fail (used_error row)
      else if ltb row.expires_at e.now
      then expired_with e row confirm_expired
      else if leb max_attempts row.attempts
      then expired_with e row confirm_too_many_tries
      else if not (has_code row.otp_hash)
      then fail confirm_invalid_code
      else if code_matches row.otp_hash given
      then settle row
      else wrong_code e row

  unfoldable pub confirm_by_code :
      {A : Type 0}
      → Env
      → String
      → ℕ
      → String
      → String
      → (Confirmation → Confirming A)
      → Confirming A
  confirm_by_code e channel document token given settle = do
    row ← open_by_token c e channel token
    fail_if (not (row.document_id == document)) confirm_invalid_token
    fail_if (is_empty (normalize_email_otp given)) confirm_invalid_code
    try_code e row (normalize_email_otp given) settle

  unfoldable pub confirm_by_email_token :
      Env → ℕ → String → String → String → String → String → String → Confirming Confirmed
  confirm_by_email_token e document token given client_hash version ip agent =
      fail_if (not e.repo) not_configured
      >> confirm_by_code e "email" document token given
          (settle_email e client_hash version ip agent)

  unfoldable pub confirm_by_token_and_channel :
      Env → String → ℕ → String → String → String → String → String → String → Confirming Confirmed
  confirm_by_token_and_channel e channel document token given client_hash version ip agent =
      confirm_by_code e channel document token given
        (settle_by_channel e channel client_hash version ip agent)
