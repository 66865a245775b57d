-- ===== src/Confirmations/Opening.antt =====
-- document_signing_confirmation_service.go: the pages behind a link, the preview of a document, the
-- answer in Telegram, and the status of a signing.
use kub.Base.{
  ℕ, suc, String, Bool, true, false, Option, none, some, List, [], ◌∷◌, ◌++◌, Result, ok, err, pure,
  fail, lift, or_fail, query, exec, fail_if, ◌>>=◌, ◌>>◌, not_configured, confirm_not_found,
  confirm_expired, confirm_too_many_tries, confirm_invalid_token, invalid_action, invalid_policy,
  files_root_required, ◌=ˢ◌, ◌++ˢ◌, ◌&&◌, ◌||◌, not, ltb, leb, if◌then◌else◌, is_empty, trim_space,
  to_lower,
}
use kub.Documents.Table.{Document}
use kub.Confirmations.Meta.{
  Meta, text, moment, number, member, int_from_any, entry_if_given, build_open_meta_update,
}
use kub.Confirmations.Table.{
  Confirmation, holds, is_pending, find_by_token_hash, find_pending_by_token_hash,
  get_latest_by_channel, update_row, approved, rejected, with_meta, finalize_document,
}
use kub.Confirmations.Service.{
  Crypto, Env, Confirming, max_attempts, document_and_preview_path, hash_document_content,
  expire_row, expired_with, used_error, normalize_confirm_token, hash_of, open_by_token,
}
use kub.Confirmations.Confirm.{note}

-- `EmailTokenVerification`, without what is the same for all.
pub record Verification : Type 0 where
  pub document_id : ℕ
  pub title : String
  pub status : String
  pub file_name : String
  pub content_type : String
  pub hash_preview : String
  pub expires_at : ℕ

pub record Preview : Type 0 where
  pub document_id : ℕ
  pub confirmation_id : ℕ
  pub file_name : String
  pub content_type : String
  pub document_hash : String
  pub abs_path : String
  pub confirmation_meta : Meta

pub record ChannelStatus : Type 0 where
  pub channel : String
  pub status : String
  pub expires_at : ℕ
  pub approved_at : Option ℕ

abbrev pub document_file_name : Env → Document → String
document_file_name e doc =
    let pdf = trim_space doc.file_path_pdf in
    let name = trim_space (e.base (if is_empty pdf then trim_space doc.file_path else pdf)) in
    if name =ˢ "." || name =ˢ "/" then "" else name

abbrev pub document_content_type : Env → String → String
document_content_type e name =
    let found = e.content_type name in
    if is_empty (trim_space found) then "application/octet-stream" else found

abbrev shown_hash : Result String → String
shown_hash (err x) = ""
shown_hash (ok hash) = if is_empty (trim_space hash) then "" else "sha256:" ++ˢ hash

abbrev pub verification_of : Env → Confirmation → Document → Verification
verification_of e row doc = record {
  document_id = doc.id;
  title = doc.doc_type;
  status = doc.status;
  file_name = document_file_name e doc;
  content_type = document_content_type e (document_file_name e doc);
  hash_preview = shown_hash (hash_document_content e row.document_id);
  expires_at = row.expires_at;
}

abbrev pub preview_of : Env → Confirmation → Document → String → Preview
preview_of e row doc path = record {
  document_id = doc.id;
  confirmation_id = row.id;
  file_name = document_file_name e doc;
  content_type = document_content_type e (document_file_name e doc);
  document_hash = shown_hash (hash_document_content e doc.id);
  abs_path = path;
  confirmation_meta = row.meta;
}

abbrev has_members : Meta → Bool
has_members [] = false
has_members (m ∷ rest) = true

abbrev found_or : Bool → Result (Option Document) → Result Document
found_or passes (err x) = err (if passes then x else confirm_not_found)
found_or passes (ok none) = err confirm_not_found
found_or passes (ok (some doc)) = ok doc

-- The document of a page; an e-mail's page passes on why it could not be read.
unfoldable pub page_document : Env → Bool → ℕ → Result Document
page_document e passes id = elim e.documents [
  | none ↦ err not_configured
  | some get ↦ found_or passes (get id)
]

unfoldable pub shown_page : Env → Bool → Confirmation → Confirming Verification
shown_page e passes row =
    lift (page_document e passes row.document_id) >>= λ doc. pure (verification_of e row doc)

abbrev pub note_any : Env → Confirmation → Meta → Confirming (Unit {0})
note_any e row [] = pure tt
note_any e row (m ∷ rest) = note e row (m ∷ rest)

-- The note that a page was opened, and the page.
unfoldable pub opened : Env → Bool → String → String → Confirmation → Confirming Verification
opened e passes ip agent row =
    note_any e row (build_open_meta_update row.meta ip agent e.now) >> shown_page e passes row

-- The preview of a confirmation that is open to it. Only the e-mail's asks for a directory of files.
unfoldable pub previewed : Env → Bool → Confirmation → Confirming Preview
previewed e needs_root row = do
  (doc, rel) ← lift (document_and_preview_path e row.document_id)
  let root = trim_space e.files_root
  let path = e.join root rel
  fail_if (needs_root && is_empty root) files_root_required
  lift (e.file_there path)
  pure (preview_of e row doc path)

-- The approval counts for any policy that there is.
unfoldable pub evaluate_policy : Env → ℕ → Confirming (Unit {0})
evaluate_policy e document =
    fail_if (not e.doc_signer) not_configured
    >> (fail_if (not (e.policy =ˢ "ANY" || e.policy =ˢ "BOTH")) invalid_policy
        >> (lift e.finalizing >> exec false (finalize_document document)))

module _ {A : Type 0} (e : Env) (row : Confirmation) where
  abbrev pub in_time : Confirming A → Confirming A
  in_time act s = if ltb row.expires_at e.now then expired_with e row confirm_expired s else act s

  -- What stands at the beginning of a page: the status, then the time.
  abbrev pub gated : Confirming A → Confirming A
  gated act s = if not (is_pending row) then fail (used_error row) s else in_time act s

  abbrev pub limited : Confirming A → Confirming A
  limited act s =
      if leb max_attempts row.attempts then expired_with e row confirm_too_many_tries s else act s

module _ (c : Crypto) where
  unfoldable pub validate_email_token : Env → String → String → String → Confirming Verification
  validate_email_token e token ip agent =
      fail_if (not e.repo) not_configured
      >> (open_by_token c e "email" token >>= λ row.
          gated e row (limited e row (opened e true ip agent row)))

  -- This one does not look at the attempts.
  unfoldable pub validate_token_by_channel :
      Env → String → String → String → String → Confirming Verification
  validate_token_by_channel e channel token ip agent =
      open_by_token c e channel token >>= λ row. gated e row (opened e false ip agent row)

  unfoldable pub prepare_email_document_preview : Env → String → Confirming Preview
  prepare_email_document_preview e token =
      fail_if (not e.repo) not_configured
      >> (open_by_token c e "email" token >>= λ row. gated e row (previewed e true row))

  -- This one does not look at the status.
  unfoldable pub prepare_document_preview_by_channel : Env → String → String → Confirming Preview
  prepare_document_preview_by_channel e channel token =
      open_by_token c e channel token >>= λ row. in_time e row (previewed e false row)

  unfoldable pub lookup_by_token : Env → String → String → Confirming (Option Confirmation)
  lookup_by_token e channel token = query e.find_fails (λ s.
      if is_empty (normalize_confirm_token c token)
      then none
      else find_by_token_hash channel (hash_of c e token) s)

  abbrev pub telegram_meta : Meta → Meta
  telegram_meta [] = ("method", text "telegram") ∷ []
  telegram_meta (m ∷ rest) = m ∷ rest

  abbrev pub answer_row : Env → String → Meta → Confirmation → Confirming (Unit {0})
  answer_row e action meta row s =
      if action =ˢ "approve"
      then (exec e.approve_fails (update_row row.id (approved e.db_now meta))
            >> evaluate_policy e row.document_id)
          s
      else exec e.reject_fails (update_row row.id (rejected e.db_now meta)) s

  unfoldable pub confirm_by_telegram_callback : Env → String → String → Meta → Confirming (Unit {0})
  confirm_by_telegram_callback e token given meta = do
    let action = to_lower (trim_space given)
    fail_if (not e.repo) not_configured
    fail_if (not (action =ˢ "approve" || action =ˢ "reject")) invalid_action
    found ← query e.find_fails (find_pending_by_token_hash e.db_now "telegram" (hash_of c e token))
    row ← or_fail found confirm_not_found
    fail_if (not (holds row.token_hash (hash_of c e token))) confirm_invalid_token
    answer_row e action (telegram_meta meta) row

abbrev pub opened_meta : Env → Preview → String → String → Meta
opened_meta e p ip agent =
    ("preview_opened_at", moment e.now)
    ∷ (
      "preview_open_count",
      number (suc (int_from_any (member "preview_open_count" p.confirmation_meta))),
    )
    ∷ ("preview_opened_ip", text (trim_space ip))
    ∷ ("preview_opened_user_agent", text (trim_space agent))
    ∷ (entry_if_given "preview_document_hash" p.document_hash
        ++ (entry_if_given "preview_file_name" p.file_name
            ++ entry_if_given "preview_content_type" p.content_type))

-- A preview names a confirmation, so that the tests for an empty key do not fire.
unfoldable pub record_preview_opened : Env → Preview → String → String → Confirming (Unit {0})
record_preview_opened e p ip agent s =
    if not e.repo
    then (ok tt, s)
    else exec e.meta_fails (update_row p.confirmation_id (with_meta (opened_meta e p ip agent))) s

unfoldable pub update_confirmation_meta : Env → ℕ → Meta → Confirming (Unit {0})
update_confirmation_meta e id meta s =
    if not e.repo
    then (err not_configured, s)
    else if has_members meta
    then exec e.meta_fails (update_row id (with_meta meta)) s
    else (ok tt, s)

abbrev shown_status : String → String
shown_status status = if status =ˢ "approved" || status =ˢ "pending" then status else "expired"

unfoldable pub channel_status : Env → String → Option Confirmation → Confirming ChannelStatus
channel_status e channel none s = (
  ok (record { channel = channel; status = "pending"; expires_at = e.now; approved_at = none }),
  s,
)
channel_status e channel (some row) s =
    if is_pending row && ltb row.expires_at e.now
    then (expire_row e row
          >> pure (record {
            channel = channel;
            status = "expired";
            expires_at = row.expires_at;
            approved_at = row.approved_at;
          }))
        s
    else (
      ok (record {
        channel = channel;
        status = shown_status row.status;
        expires_at = row.expires_at;
        approved_at = row.approved_at;
      }),
      s,
    )

-- The loop over the channels.
unfoldable pub statuses_of : Env → ℕ → ℕ → List String → Confirming (List ChannelStatus)
statuses_of e document user [] = pure []
statuses_of e document user (channel ∷ channels) = do
  found ← query e.latest_fails (get_latest_by_channel document user channel)
  status ← channel_status e channel found
  rest ← statuses_of e document user channels
  pure (status ∷ rest)

unfoldable pub get_status : Env → ℕ → ℕ → Confirming (List ChannelStatus)
get_status e document user =
    fail_if (not e.repo) not_configured >> statuses_of e document user ("email" ∷ "sms" ∷ [])
