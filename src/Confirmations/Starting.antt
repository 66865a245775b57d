-- ===== src/Confirmations/Starting.antt =====
-- document_signing_confirmation_service.go: the start of a signing by e-mail or by text message. What
-- the messages say is left out; the memory of the latest codes for debugging, too.
use kub.Base.{
  Error, Bool, false, ℕ, ◌+◌, String, none, some, Option, Result, ok, err, pure, lift, query, exec,
  fail, fail_if, ignore, ◌>>=◌, ◌>>◌, not_configured, user_not_found, document_not_found,
  signer_email_required, signer_phone_required, unsupported_channel, ◌=ˢ◌, not, if◌then◌else◌,
  is_empty, is_none, trim_space, to_lower, [], ◌∷◌,
}
use kub.Models.Users.{User}
use kub.Documents.Table.{Document}
use kub.Confirmations.Meta.{Meta, text, moment}
use kub.Confirmations.Table.{
  Confirmation, pending_row, insert_row, update_row, with_meta, cancel_previous,
}
use kub.Confirmations.Service.{Crypto, Env, Confirming, hash_confirm_token, build_verify_url}

pub record Start : Type 0 where
  pub document_id : ℕ
  pub user_id : ℕ
  pub policy : String
  pub channel : String
  pub status : String
  pub expires_at : ℕ

abbrev answered : {A : Type 0} → Error → Result (Option A) → Result A
answered x (err y) = err y
answered x (ok none) = err x
answered x (ok (some a)) = ok a

abbrev pub user_of : Env → ℕ → Result User
user_of e id = elim e.users [
  | none ↦ err not_configured
  | some repo ↦ answered user_not_found (repo.get_by_id id)
]

abbrev pub document_of : Env → ℕ → Result Document
document_of e id = elim e.documents [
  | none ↦ err not_configured
  | some get ↦ answered document_not_found (get id)
]

-- `repo.CreatePending`, which gives the row back.
unfoldable pub create_pending :
    Env → ℕ → ℕ → String → Option String → Option String → ℕ → Meta → Confirming Confirmation
create_pending e document user channel otp token expires meta = do
  row ← query false (pending_row document user channel otp token expires meta)
  exec e.create_fails (insert_row row)
  pure row

abbrev pub started : Env → ℕ → ℕ → String → ℕ → Start
started e document user channel expires = record {
  document_id = document;
  user_id = user;
  policy = e.policy;
  channel = channel;
  status = "pending";
  expires_at = expires;
}

abbrev pub email_meta : Env → String → Meta
email_meta e email = ("sent_at", moment e.now) ∷ ("signer_email", text email) ∷ []

abbrev pub sms_meta : Env → String → String → Meta
sms_meta e phone email =
    ("sent_at", moment e.now)
    ∷ ("signer_phone", text phone)
    ∷ ("provider", text "mobizon")
    ∷ ("signer_email", text (trim_space email))
    ∷ ("delivery_type", text "sms")
    ∷ []

abbrev pub provider_meta : String × String → Meta
provider_meta (name, message) =
    ("provider", text name) ∷ ("provider_message_id", text (trim_space message)) ∷ []

-- Both the telephone's provider and its identifier of the message are noted, if the sender tells them.
abbrev pub note_provider : Env → Confirmation → Option (String × String) → Confirming (Unit {0})
note_provider e row none = pure tt
note_provider e row (some p) =
    ignore (exec e.meta_fails (update_row row.id (with_meta (provider_meta p))))

-- The parts of the service that a start needs.
unfoldable pub ready : Env → Bool → Confirming (Unit {0})
ready e sender =
    fail_if (not e.repo) not_configured
    >> (fail_if (is_none e.users) not_configured
        >> (fail_if (is_none e.documents) not_configured >> fail_if (not sender) not_configured))

unfoldable pub parties : Env → ℕ → ℕ → Confirming (Unit {0})
parties e user document = do
  account ← lift (user_of e user)
  doc ← lift (document_of e document)
  pure tt

-- The link, and the message with it.
unfoldable pub deliver : Env → String → String → String → Confirming (Unit {0})
deliver e base path token = do url ← lift (build_verify_url e base path token); lift e.sent

module _ (c : Crypto) where
  abbrev pub token_hash : Env → String → Option String
  token_hash e token = some (hash_confirm_token c token e.token_pepper)

  -- The address is looked at only after the previous confirmations are cancelled.
  unfoldable pub start_signing : Env → ℕ → ℕ → String → Confirming Start
  start_signing e document user signer_email = do
    let email = trim_space signer_email
    let expires = e.now + e.email_ttl
    ready e e.email
    parties e user document
    exec e.cancel_fails (cancel_previous document user "email")
    token ← lift e.token
    otp ← lift e.otp_hash
    fail_if (is_empty email) signer_email_required
    create_pending e document user "email" (some otp) (token_hash e token) expires
        (email_meta e email)
    deliver e e.verify_base_url "/sign/email/verify" token
    pure (started e document user "email" expires)

  unfoldable pub start_signing_by_sms : Env → ℕ → ℕ → String → String → Confirming Start
  start_signing_by_sms e document user signer_phone signer_email = do
    let phone = trim_space signer_phone
    let expires = e.now + e.sms_ttl
    ready e e.sms
    fail_if (is_empty phone) signer_phone_required
    parties e user document
    exec e.cancel_fails (cancel_previous document user "sms")
    token ← lift e.token
    otp ← lift e.otp_hash
    row ←
        create_pending e document user "sms" (some otp) (token_hash e token) expires
          (sms_meta e phone signer_email)
    deliver e e.sms_verify_base "/sign/sms/verify" token
    note_provider e row e.provider
    pure (started e document user "sms" expires)

  unfoldable pub start_signing_by_channel :
      Env → String → ℕ → ℕ → String → String → Confirming Start
  start_signing_by_channel e channel document user phone email =
      let name = to_lower (trim_space channel) in
      if name =ˢ "sms"
      then start_signing_by_sms e document user phone email
      else if name =ˢ "email"
      then start_signing e document user email
      else fail unsupported_channel
