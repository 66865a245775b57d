-- ===== src/SignSessions/Steps.antt =====
-- Sign sessions as a state machine: what each request may do to the row that it finds.
pub mod Codes
pub mod Pages
pub mod Creation
use kub.Base.{
  ℕ, suc, ◌<◌, String, Bool, true, false, some, ◌∷◌, find, ◌=ˢ◌, leb, trim_space, ok, err, Error,
  is_ok, ◌≡◌, ◌⊎◌, refl, ◌∙◌, ap, inl, inr, arith, Bool-cases, Option-cases, Result-cases,
  change_row, change_row-twice, eq_iff, db,
}
use kub.Phone.{sanitize_e164_digits}
use kub.SignSessions.Table.{
  SignSession, SignStore, session_key, session_by_id, session_by_hash, insert_session,
  update_session, set_columns, add_attempt, stored,
}
use kub.SignSessions.Service.{
  Crypto, Env, max_attempts, is_expired, expire_session, is_document_changed, finalize_error,
  normalize_session_token, new_session, create_row, create, create_confirmed_session, get_by_token,
}
use kub.SignSessions.Signing.{
  wrong_code, right_code, try_code, verify_session, verify, stamped, signed_now, finish_signing,
  sign, wrong_token, validate_session, validate_by_id_token, sign_by_id,
}

-- The requests of the service's callers.
pub data Request : Type 0 where
  create_session : ℕ → String → Request
  create_confirmed : ℕ → String → String → Request
  verify_code : String → String → Request
  sign_token : String → String → String → Request
  open_page : ℕ → String → Request
  sign_page : ℕ → String → String → String → Request

-- The table after a request; what the caller is answered is left aside.
unfoldable pub serve : Crypto → Env → Request → SignStore → SignStore
serve c e (create_session document phone) s = (create c e document phone s).1
serve c e (create_confirmed document identity hash) s =
    (create_confirmed_session c e document identity hash s).1
serve c e (verify_code token given) s = (verify c e token given s).1
serve c e (sign_token token ip agent) s = (sign c e token ip agent s).1
serve c e (open_page id token) s = (validate_by_id_token c e id token s).1
serve c e (sign_page id token ip agent) s = (sign_by_id c e id token ip agent s).1

-- The moves of one session.
pub data Step (c : Crypto) (e : Env) : Request → SignSession → SignSession → Type 0 where
  expires :
      {q : Request} {old new : SignSession}
      → (old.status =ˢ "signed") ≡ false
      → new.status ≡ "expired"
      → new.attempts ≡ old.attempts
      → Step c e q old new
  expires_late :
      {q : Request} {old new : SignSession} (token ip agent : String)
      → q ≡ sign_token token ip agent
      → old.token_hash ≡ c.hash_token (normalize_session_token c token)
      → is_expired e old ≡ true
      → new ≡ record old { status = "expired" }
      → Step c e q old new
  guessed :
      {q : Request} {old new : SignSession}
      → (old.status =ˢ "signed") ≡ false
      → old.attempts < 5
      → new.attempts ≡ suc old.attempts
      → (new.status ≡ "expired") ⊎ (new.status ≡ old.status)
      → Step c e q old new
  verifies :
      {q : Request} {old new : SignSession} (token given : String)
      → q ≡ verify_code token given
      → old.token_hash ≡ c.hash_token (normalize_session_token c token)
      → (old.status =ˢ "signed") ≡ false
      → is_expired e old ≡ false
      → c.compare_code old.code_hash given ≡ true
      → new.status ≡ "verified"
      → new.attempts ≡ old.attempts
      → Step c e q old new
  signs :
      {q : Request} {old new : SignSession}
      → (old.status =ˢ "signed") ≡ false
      → is_expired e old ≡ false
      → new.status ≡ "signed"
      → new.attempts ≡ old.attempts
      → Step c e q old new

-- What a request does to the table.
pub data Effect (c : Crypto) (e : Env) (q : Request) (s t : SignStore) : Type 0 where
  same : t.sessions ≡ s.sessions → t.next_id ≡ s.next_id → Effect c e q s t
  added :
      (row : SignSession)
      → row.id ≡ s.next_id
      → row.attempts ≡ 0
      → row.status ≡ "pending"
      → t.sessions ≡ row ∷ s.sessions
      → t.next_id ≡ suc s.next_id
      → Effect c e q s t
  changed :
      (p : SignSession → Bool) (old : SignSession) (f : SignSession → SignSession)
      → find p s.sessions ≡ some old
      → ((r : SignSession) → (f r).id ≡ r.id)
      → Step c e q old (f old)
      → t.sessions ≡ change_row session_key old.id f s.sessions
      → t.next_id ≡ s.next_id
      → Effect c e q s t

module _ (c : Crypto) (e : Env) (q : Request) where
  pub unchanged : {s t : SignStore} → t ≡ s → Effect c e q s t
  unchanged h = same (ap (λ (x : SignStore). x.sessions) h) (ap (λ (x : SignStore). x.next_id) h)

  -- `Update` of a session made from the row that was found.
  pub updated :
      (p : SignSession → Bool) (old new : SignSession) {s t : SignStore}
      → find p s.sessions ≡ some old
      → new.id ≡ old.id
      → Step c e q old (set_columns new old)
      → t.sessions ≡ (update_session new s).sessions
      → t.next_id ≡ s.next_id
      → Effect c e q s t
  updated p old new {s} found keeps step h =
      changed p old (set_columns new) found (λ r. refl) step
        (h ∙ ap (λ k. change_row session_key k (set_columns new) s.sessions) keeps)

  pub expired-Effect :
      (p : SignSession → Bool) (old new : SignSession) (s : SignStore)
      → find p s.sessions ≡ some old
      → new.id ≡ old.id
      → Step c e q old (set_columns (record new { status = "expired" }) old)
      → Effect c e q s (expire_session e new s).1
  unfolding expire_session
  expired-Effect p old new s found keeps step = elim (Bool-cases e.update_fails) [
    | inl refused ↦ simp refused (unchanged refl)
    | inr written ↦
        simp written (updated p old (record new { status = "expired" }) found keeps step refl refl)
  ]

  pub expired_open :
      (p : SignSession → Bool) (old : SignSession) (s : SignStore)
      → find p s.sessions ≡ some old
      → (old.status =ˢ "signed") ≡ false
      → Effect c e q s (expire_session e old s).1
  expired_open p old s found unsigned =
      expired-Effect p old old s found refl (expires unsigned refl refl)
