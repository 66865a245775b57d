-- ===== src/SignSessions/Signing.antt =====
-- internal/services/sign_session_service.go: the codes, the signing by a token, and the signing on a
-- page.
use kub.Base.{
  ℕ, suc, String, false, some, ◌=ˢ◌, not, leb, if◌then◌else◌, is_empty, pure, fail, or_fail, query,
  exec, fail_if, ignore, ◌>>=◌, ◌>>◌, ok, err, Result, Error, not_configured, session_not_found,
  session_expired, session_invalid_code, session_too_many_tries, session_not_verified,
  session_already_signed, session_invalid_token,
}
use kub.SignSessions.Table.{
  SignSession, session_by_id, update_session, increment_attempts, finalize_document,
}
use kub.SignSessions.Service.{
  Crypto, Env, max_attempts, Sessions, is_expired, expired_with, mapped, finalize_error,
  is_document_changed, normalize_session_token, get_by_token,
}

module _ (c : Crypto) where
  abbrev pub wrong_code : SignSession → SignSession
  wrong_code session = record session {
    attempts = suc session.attempts;
    status = if leb max_attempts (suc session.attempts) then "expired" else session.status;
  }

  abbrev pub right_code : Env → SignSession → SignSession
  right_code e session = record session { status = "verified"; verified_at = some e.now }

  -- The test of a code, once the session is open to it.
  unfoldable pub try_code : Env → SignSession → String → Sessions SignSession
  try_code e session given =
      if c.compare_code session.code_hash given
      then exec e.update_fails (update_session (right_code e session))
        >> pure (right_code e session)
      else ignore (exec e.update_fails (update_session (wrong_code session)))
        >> fail session_invalid_code

  unfoldable pub verify_session : Env → SignSession → String → Sessions SignSession
  verify_session e session given =
      if session.status =ˢ "signed"
      then fail session_already_signed
      else if session.status =ˢ "expired"
      then fail
          (if leb max_attempts session.attempts then session_too_many_tries else session_expired)
      else if is_expired e session
      then expired_with e session session_expired
      else if leb max_attempts session.attempts
      then expired_with e session session_too_many_tries
      else try_code e session given

  -- `Verify` gives a session beside the error that it is signed already; the error ends the call here.
  unfoldable pub verify : Env → String → String → Sessions SignSession
  verify e token given = do session ← get_by_token c e token; verify_session e session given

  abbrev pub stamped : Env → String → String → SignSession → SignSession
  stamped e ip agent session = record session {
    signed_at = some e.now;
    signed_ip = ip;
    signed_user_agent = agent;
  }

  abbrev pub signed_now : Env → String → String → SignSession → SignSession
  signed_now e ip agent session = record (stamped e ip agent session) { status = "signed" }

  abbrev pub artifact_step : Env → SignSession → Result (Unit {0}) → Sessions (Unit {0})
  artifact_step e session (ok tt) = pure tt
  artifact_step e session (err x) =
      if is_document_changed x then expired_with e session x else fail x

  abbrev pub finalize_step : SignSession → Result (Unit {0}) → Sessions (Unit {0})
  finalize_step session (err x) = fail x
  finalize_step session (ok tt) = exec false (finalize_document session.document_id)

  -- What `Sign` and `SignByID` end with, by how each passes on the errors of `FinalizeSigning`.
  unfoldable pub finish_signing :
      Env → (Error → Error) → String → String → SignSession → Sessions SignSession
  finish_signing e passed ip agent session = do
    artifact_step e (stamped e ip agent session) e.artifact
    finalize_step session (mapped passed e.finalizing)
    exec e.update_fails (update_session (signed_now e ip agent session))
    pure (signed_now e ip agent session)

  unfoldable pub sign : Env → String → String → String → Sessions SignSession
  sign e token ip agent = do
    session ← get_by_token c e token
    if is_expired e session
        then expired_with e session session_expired
        else if session.status =ˢ "signed"
        then fail session_already_signed
        else if not (session.status =ˢ "verified")
        then fail session_not_verified
        else finish_signing e (λ x. x) ip agent session

  -- The row's `attempts` after the UPDATE; a session that is expired then is written with the attempts
  -- that were read before.
  unfoldable pub wrong_token : Env → SignSession → Sessions SignSession
  wrong_token e session = do
    exec e.increment_fails (increment_attempts session.id)
    if leb max_attempts (suc session.attempts)
        then expired_with e session session_too_many_tries
        else fail session_invalid_token

  unfoldable pub validate_session : Env → SignSession → String → Sessions SignSession
  validate_session e session token =
      if session.status =ˢ "signed"
      then fail session_already_signed
      else if is_expired e session
      then expired_with e session session_expired
      else if leb max_attempts session.attempts
      then expired_with e session session_too_many_tries
      else if not (session.token_hash =ˢ c.hash_token token)
      then wrong_token e session
      else pure session

  unfoldable pub validate_by_id_token : Env → ℕ → String → Sessions SignSession
  validate_by_id_token e id raw = do
    let token = normalize_session_token c raw
    fail_if (is_empty token) session_invalid_token
    found ← query e.get_fails (session_by_id id)
    session ← or_fail found session_not_found
    validate_session e session token

  -- `SignByID`; the picture of the signature, stamped on the document at the end, is left out.
  unfoldable pub sign_by_id : Env → ℕ → String → String → String → Sessions SignSession
  sign_by_id e id token ip agent = do
    session ← validate_by_id_token e id token
    fail_if (session.status =ˢ "signed") session_already_signed
    fail_if (not e.documents) not_configured
    finish_signing e finalize_error ip agent session
