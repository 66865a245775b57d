-- ===== src/Confirmations/Requests.antt =====
-- The requests of document_signing_confirmation_service.go, and the state machine that they make of
-- one confirmation.
use kub.Base.{
  ℕ, suc, ◌<◌, ◌++ˢ◌, String, true, false, List, ◌∷◌, all, not, ltb, ok, ◌≡◌, ◌⊎◌, ◌&&◌, is_empty,
  Pointwise,
}
use kub.Confirmations.Meta.{Meta}
use kub.Confirmations.Table.{
  Confirmation, ConfirmStore, holds, is_pending, is_for, approved, rejected, expired, add_attempt,
  with_meta, cancelled_if,
}
use kub.Confirmations.Service.{
  Crypto, Env, normalize_email_otp, normalize_document_hash, hash_document_content, hash_of,
}
use kub.Confirmations.Starting.{start_signing_by_channel}
use kub.Confirmations.Confirm.{code_matches, confirm_by_email_token, confirm_by_token_and_channel}
use kub.Confirmations.Opening.{
  Preview, validate_email_token, validate_token_by_channel, prepare_email_document_preview,
  prepare_document_preview_by_channel, lookup_by_token, confirm_by_telegram_callback,
  record_preview_opened, update_confirmation_meta, get_status,
}

pub data Request : Type 0 where
  start : String → ℕ → ℕ → String → String → Request
  email_code : ℕ → String → String → String → String → String → String → Request
  sms_code : ℕ → String → String → String → String → String → String → Request
  open_email : String → String → String → Request
  open_sms : String → String → String → Request
  preview_email : String → Request
  preview_sms : String → Request
  preview_opened : Preview → String → String → Request
  telegram : String → String → Meta → Request
  look_up : String → String → Request
  add_meta : ℕ → Meta → Request
  poll : ℕ → ℕ → Request

unfoldable pub serve : Crypto → Env → Request → ConfirmStore → ConfirmStore
serve c e (start channel document user phone email) s =
    (start_signing_by_channel c e channel document user phone email s).1
serve c e (email_code document token given hash version ip agent) s =
    (confirm_by_email_token c e document token given hash version ip agent s).1
serve c e (sms_code document token given hash version ip agent) s =
    (confirm_by_token_and_channel c e "sms" document token given hash version ip agent s).1
serve c e (open_email token ip agent) s = (validate_email_token c e token ip agent s).1
serve c e (open_sms token ip agent) s = (validate_token_by_channel c e "sms" token ip agent s).1
serve c e (preview_email token) s = (prepare_email_document_preview c e token s).1
serve c e (preview_sms token) s = (prepare_document_preview_by_channel c e "sms" token s).1
serve c e (preview_opened p ip agent) s = (record_preview_opened e p ip agent s).1
serve c e (telegram token action meta) s = (confirm_by_telegram_callback c e token action meta s).1
serve c e (look_up channel token) s = (lookup_by_token c e channel token s).1
serve c e (add_meta id meta) s = (update_confirmation_meta e id meta s).1
serve c e (poll document user) s = (get_status e document user s).1

-- What an approval by a code takes: the confirmation's own token and document, a code that matches
-- the stored hash, in time and within the attempts, and the hash of the document as it is now.
pub data Right (c : Crypto) (e : Env) (q : Request) (old : Confirmation) : Type 0 where
  proved :
      (token given client version ip agent hash : String)
      → ((q ≡ email_code old.document_id token given client version ip agent)
          ⊎ (q ≡ sms_code old.document_id token given client version ip agent))
      → is_pending old ≡ true
      → ltb old.expires_at e.now ≡ false
      → old.attempts < 5
      → holds old.token_hash (hash_of c e token) ≡ true
      → code_matches c old.otp_hash (normalize_email_otp given) ≡ true
      → hash_document_content e old.document_id ≡ ok hash
      → normalize_document_hash client ≡ normalize_document_hash ("sha256:" ++ˢ hash)
      → is_empty (normalize_document_hash client) ≡ false
      → Right c e q old

-- What a request may do to one confirmation.
pub data Step (c : Crypto) (e : Env) (q : Request) (old new : Confirmation) : Type 0 where
  unmoved : new ≡ old → Step c e q old new
  noted : (m : Meta) → new ≡ with_meta m old → Step c e q old new
  cancelled : is_pending old ≡ true → new ≡ cancelled_if true old → Step c e q old new
  runs_out : is_pending old ≡ true → new ≡ expired old → Step c e q old new
  runs_out_late :
      (token : String)
      → q ≡ preview_sms token
      → holds old.token_hash (hash_of c e token) ≡ true
      → ltb old.expires_at e.now ≡ true
      → new ≡ expired old
      → Step c e q old new
  guessed :
      is_pending old ≡ true
      → old.attempts < 5
      → (new ≡ add_attempt old) ⊎ (new ≡ expired (add_attempt old))
      → Step c e q old new
  confirmed : (m : Meta) → Right c e q old → new ≡ approved e.db_now m old → Step c e q old new
  answered :
      (token action : String) (given m : Meta)
      → q ≡ telegram token action given
      → is_pending old ≡ true
      → ltb e.db_now old.expires_at ≡ true
      → holds old.token_hash (hash_of c e token) ≡ true
      → (new ≡ approved e.db_now m old) ⊎ (new ≡ rejected e.db_now m old)
      → Step c e q old new

-- What a request may do to the table: each row makes a step, and one row may be new.
pub data Effect (c : Crypto) (e : Env) (q : Request) (s t : ConfirmStore) : Type 0 where
  moved : Pointwise (Step c e q) s.rows t.rows → t.next_id ≡ s.next_id → Effect c e q s t
  begun :
      (row : Confirmation) (rest : List Confirmation)
      → row.id ≡ s.next_id
      → row.attempts ≡ 0
      → Pointwise (Step c e q) s.rows rest
      → all (λ r. not (is_for row.document_id row.user_id row.channel r && is_pending r)) rest
        ≡ true
      → t.rows ≡ row ∷ rest
      → t.next_id ≡ suc s.next_id
      → Effect c e q s t
