-- ===== src/Documents/Table.antt =====
-- internal/models/document.go and internal/repositories/document_repository.go: the rows of
-- documents and the statements that change them.
use kub.Base.{
  ℕ, suc, String, Bool, true, false, Option, none, some, List, [], ◌∷◌, ◌++◌, ◌=ˢ◌, not,
  if◌then◌else◌, is_empty, keyed, change_row, remove_row,
}
use kub.Leads.Rows.{ArchiveScope, active_only, archived_only, all_rows}
use kub.Deals.Table.{DealStore}

-- A `deal_id` of 0 is stored as NULL, and read back as 0.
pub record Document : Type 0 where
  pub id : ℕ
  pub deal_id : ℕ
  pub client_id : Option ℕ
  pub branch_id : Option ℕ
  pub doc_type : String
  pub status : String
  pub file_path : String
  pub file_path_docx : String
  pub file_path_pdf : String
  pub created_at : ℕ
  pub signed_at : Option ℕ
  pub sign_method : String
  pub sign_ip : String
  pub sign_user_agent : String
  pub sign_metadata : String
  pub signed_by : String
  pub is_archived : Bool
  pub archived_at : Option ℕ
  pub archived_by : Option ℕ
  pub archive_reason : String
  pub is_hidden : Bool
  pub created_by : Option ℕ
  pub scope : String
  pub title : String
  pub description : String
  pub target_user_id : Option ℕ

-- The table, the deals it refers to, and the keys of the stored files.
pub record DocStore : Type 0 where
  pub documents : List Document
  pub deals : DealStore
  pub files : List String
  pub next_id : ℕ

abbrev pub document_key : Document → ℕ
document_key d = d.id

unfoldable pub document_archive_where : ArchiveScope → Document → Bool
document_archive_where archived_only d = d.is_archived
document_archive_where all_rows d = true
document_archive_where active_only d = not d.is_archived

abbrev pub document_row : ℕ → DocStore → Option Document
document_row id s = keyed document_key id s.documents

abbrev scan_if : ArchiveScope → Option Document → Option Document
scan_if scope none = none
scan_if scope (some d) = if document_archive_where scope d then some d else none

-- `GetByIDWithArchiveScope`; `GetByID` asks for active documents.
unfoldable pub find_document : ArchiveScope → ℕ → DocStore → Option Document
find_document scope id s = scan_if scope (document_row id s)

abbrev default_scope : String → String
default_scope scope = if is_empty scope then "deal" else scope

-- `Create`: what the INSERT names; the other columns start empty.
unfoldable pub stored : ℕ → ℕ → Document → Document
stored id now d = record d {
  id = id;
  created_at = now;
  signed_at = none;
  sign_method = "";
  sign_ip = "";
  sign_user_agent = "";
  sign_metadata = "";
  signed_by = "";
  is_archived = false;
  archived_at = none;
  archived_by = none;
  archive_reason = "";
  scope = default_scope d.scope;
}

abbrev pub insert_document : ℕ → Document → DocStore → DocStore
insert_document now d s = record s {
  documents = s.documents ++ stored s.next_id now d ∷ [];
  next_id = suc s.next_id;
}

abbrev pub update_document : ℕ → (Document → Document) → DocStore → DocStore
update_document id f s = record s { documents = change_row document_key id f s.documents }

-- The SET clauses of `UpdateStatus`, `MarkSigned`, `Archive`, `Unarchive` and `UpdateSigningMeta`.
unfoldable pub set_status : ℕ → String → Document → Document
set_status now status d =
    if status =ˢ "signed"
    then record d { status = status; signed_at = some now }
    else record d { status = status }

abbrev pub set_signed : String → ℕ → Document → Document
set_signed by at d = record d { status = "signed"; signed_at = some at; signed_by = by }

abbrev pub set_archived : ℕ → ℕ → String → Document → Document
set_archived now by reason d = record d {
  is_archived = true;
  archived_at = some now;
  archived_by = some by;
  archive_reason = reason;
}

abbrev pub set_unarchived : Document → Document
set_unarchived d = record d {
  is_archived = false;
  archived_at = none;
  archived_by = none;
  archive_reason = "";
}

abbrev pub set_signing_meta : String → String → String → String → Document → Document
set_signing_meta method ip agent meta d = record d {
  sign_method = method;
  sign_ip = ip;
  sign_user_agent = agent;
  sign_metadata = meta;
}

abbrev pub delete_document_row : ℕ → DocStore → DocStore
delete_document_row id s = record s { documents = remove_row document_key id s.documents }
