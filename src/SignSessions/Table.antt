-- ===== src/SignSessions/Table.antt =====
-- internal/models/sign_session.go and internal/repositories/sign_session_repository.go. A nullable
-- text column is written NULL for "" and read back as "", so it is a `String`. `updated_at` is left
-- out: no query reads it but to show it.
use kub.Base.{
  ℕ, suc, ◌+◌, String, Option, List, ◌∷◌, find, filter, length, ◌==◌, ◌=ˢ◌, ◌&&◌, leb, keyed,
  change_row, is_empty, not,
}

pub record SignSession : Type 0 where
  pub id : ℕ
  pub document_id : ℕ
  pub phone_e164 : String
  pub code_hash : String
  pub token_hash : String
  pub signer_email : String
  pub doc_hash : String
  pub expires_at : ℕ
  pub attempts : ℕ
  pub status : String
  pub verified_at : Option ℕ
  pub signed_at : Option ℕ
  pub signed_ip : String
  pub signed_user_agent : String
  pub created_at : ℕ

-- The table, newest row first, with the next value of its key; and the documents whose signing was
-- finalised, which are another component's state.
pub record SignStore : Type 0 where
  pub sessions : List SignSession
  pub next_id : ℕ
  pub finalized : List ℕ

abbrev pub session_key : SignSession → ℕ
session_key r = r.id

abbrev pub session_by_id : ℕ → SignStore → Option SignSession
session_by_id id s = keyed session_key id s.sessions

abbrev pub session_by_hash : String → SignStore → Option SignSession
session_by_hash hash s = find (λ (r : SignSession). r.token_hash =ˢ hash) s.sessions

-- `FindSignedByDocumentEmail`: SQL's `=` is not true of NULL, the empty address.
abbrev pub signed_by : ℕ → String → SignStore → Option SignSession
signed_by document email s =
    find
      (λ (r : SignSession).
        r.document_id == document
        && (not (is_empty email) && r.signer_email =ˢ email)
        && r.status =ˢ "signed")
      s.sessions

-- Rows since `now - span`, written without subtraction.
abbrev pub count_by_document : ℕ → ℕ → ℕ → SignStore → ℕ
count_by_document document span now s = length (
    filter (λ (r : SignSession). r.document_id == document && leb now (r.created_at + span))
      s.sessions)

abbrev pub count_by_phone : String → ℕ → ℕ → SignStore → ℕ
count_by_phone phone span now s = length (
    filter (λ (r : SignSession). r.phone_e164 =ˢ phone && leb now (r.created_at + span)) s.sessions)

-- The row that `Create` makes of a session, whose key and moment the database sets.
abbrev pub stored : ℕ → SignSession → SignStore → SignSession
stored db_now session s = record session { id = s.next_id; created_at = db_now }

abbrev pub insert_session : SignSession → SignStore → SignStore
insert_session row s = record s { sessions = row ∷ s.sessions; next_id = suc s.next_id }

-- The SET clause of `Update`: every column but the document and the moment of creation.
abbrev pub set_columns : SignSession → SignSession → SignSession
set_columns session row = record session {
  id = row.id;
  document_id = row.document_id;
  created_at = row.created_at;
}

abbrev pub update_session : SignSession → SignStore → SignStore
update_session session s = record s {
  sessions = change_row session_key session.id (set_columns session) s.sessions;
}

abbrev pub add_attempt : SignSession → SignSession
add_attempt r = record r { attempts = suc r.attempts }

abbrev pub increment_attempts : ℕ → SignStore → SignStore
increment_attempts id s = record s { sessions = change_row session_key id add_attempt s.sessions }

abbrev pub finalize_document : ℕ → SignStore → SignStore
finalize_document document s = record s { finalized = document ∷ s.finalized }
