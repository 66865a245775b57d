-- ===== src/Documents/Reading.antt =====
-- Reading documents: `GetDocument`, and the listings of internal/services/document_service.go over
-- the queries of internal/repositories/document_repository.go.
use kub.Base.{
  ℕ, String, Bool, true, Option, none, some, List, ok, fail_if, query, lift, pure, ◌>>=◌, ◌>>◌,
  ◌==◌, ◌=ˢ◌, ◌++ˢ◌, ◌&&◌, ◌||◌, not, if◌then◌else◌, is_empty, points_to, all, filter, take, drop,
  length, to_lower, forbidden, not_found, ◌≡◌,
}
use kub.Authz.Roles.{role_sales, role_visa, role_control, role_system_admin}
use kub.Leads.Rows.{ArchiveScope, active_only}
use kub.Deals.Table.{find_deal}
use kub.Documents.Table.{Document, DocStore, find_document, document_archive_where}
use kub.Documents.Access.{
  Env, Documents, is_hidden_doc_visible, ensure_deal_access, read_or_missing,
  load_document_deal_for_access,
}

abbrev pub is_deal_bound : ℕ → Bool
is_deal_bound role = role == role_sales || role == role_visa || role == role_control

-- The deal matters to three roles only.
unfoldable pub reach_to_read : Env → Document → Documents (Unit {0})
reach_to_read e doc s =
    if is_deal_bound e.role_id
    then (fail_if (not e.deal_repo) not_found >> (load_document_deal_for_access e doc >> pure tt)) s
    else (ok tt, s)

abbrev pub shown : Env → Option Document → Documents (Option Document)
shown e none = pure none
shown e (some doc) = do
  fail_if (not (is_hidden_doc_visible doc e.user_id e.role_id)) forbidden
  reach_to_read e doc
  pure (some doc)

-- `GetDocumentWithArchiveScope`, and `GetDocument` at `active_only`.
unfoldable pub get_document : Env → ArchiveScope → ℕ → Documents (Option Document)
get_document e archive id = do found ← query e.doc_fails (find_document archive id); shown e found

pub record DocumentListFilter : Type 0 where
  pub text : String  -- the field `Query`
  pub status : String
  pub doc_type : String
  pub deal_id : Option ℕ
  pub client_id : Option ℕ
  pub client_type : String
  pub branch_id : Option ℕ
  pub sort_by : String
  pub order : String
  pub hidden_visibility_user_id : Option ℕ
  pub scope : String
  pub creator_role_id : Option ℕ

-- What the queries rest on: the joined tables, Postgres's LIKE and its ORDER BY, which gives no row
-- that it was not given, and as many as it was given.
pub record Engine : Type 1 where
  pub client_of : Document → Option ℕ  -- of the document's deal
  pub client_type_of : Document → String
  pub client_name_of : Document → String
  pub creator_role : Document → Option ℕ
  pub deal_text : Document → String
  pub like : String → String → Bool
  pub sort : String → String → List Document → List Document
  pub sort_keeps :
      (by order : String) (p : Document → Bool) (rows : List Document)
      → all p rows ≡ true
      → all p (sort by order rows) ≡ true
  pub length-sort :
      (by order : String) (rows : List Document) → length (sort by order rows) ≡ length rows

-- An empty text is no condition, nor is a nil number.
abbrev text_is : String → String → Bool
text_is want have = is_empty want || have =ˢ want

abbrev number_is : Option ℕ → (ℕ → Bool) → Bool
number_is none test = true
number_is (some n) test = test n

-- `COALESCE(file_path_docx, file_path_pdf, file_path, '')` over columns that are not NULL.
abbrev name_matches : Engine → String → Document → Bool
name_matches g pattern d =
    g.like (to_lower d.doc_type) pattern
    || g.like (to_lower d.file_path_docx) pattern
    || g.like (g.deal_text d) pattern
    || g.like (to_lower (g.client_name_of d)) pattern

-- `buildDocumentListWhere`.
unfoldable pub document_list_where : Engine → DocumentListFilter → ArchiveScope → Document → Bool
document_list_where g f archive d =
    document_archive_where archive d
    && text_is f.status d.status
    && text_is f.doc_type d.doc_type
    && number_is f.deal_id (λ n. d.deal_id == n)
    && number_is f.client_id (λ n. points_to (g.client_of d) n || points_to d.client_id n)
    && number_is f.branch_id (points_to d.branch_id)
    && text_is f.client_type (g.client_type_of d)
    && (is_empty f.text || name_matches g ("%" ++ˢ (to_lower f.text ++ˢ "%")) d)
    && number_is f.hidden_visibility_user_id (λ n. not d.is_hidden || points_to d.created_by n)
    && text_is f.scope d.scope
    && number_is f.creator_role_id (points_to (g.creator_role d))

module _ (g : Engine) where
  unfoldable pub list_documents :
      ℕ → ℕ → DocumentListFilter → ArchiveScope → DocStore → List Document
  list_documents limit offset f archive s = take limit (
      drop offset (g.sort f.sort_by f.order (filter (document_list_where g f archive) s.documents)))

  unfoldable pub count_documents : DocumentListFilter → ArchiveScope → DocStore → ℕ
  count_documents f archive s = length (filter (document_list_where g f archive) s.documents)

  -- Hidden documents of others are listed for the administrator only.
  abbrev pub filter_for : Env → ℕ → DocumentListFilter → DocumentListFilter
  filter_for e deal_id f = record f {
    deal_id = some deal_id;
    hidden_visibility_user_id =
        if e.role_id == role_system_admin then f.hidden_visibility_user_id else some e.user_id;
  }

  abbrev deal_page :
      Env → ℕ → ℕ → ℕ → DocumentListFilter → ArchiveScope → Documents (List Document × ℕ)
  deal_page e deal_id limit offset f archive s = (
    ok (
      list_documents limit offset (filter_for e deal_id f) archive s,
      count_documents (filter_for e deal_id f) archive s,
    ),
    s,
  )

  unfoldable pub list_documents_by_deal_with_filter_and_total :
      Env → ℕ → ℕ → ℕ → DocumentListFilter → ArchiveScope → Documents (List Document × ℕ)
  list_documents_by_deal_with_filter_and_total e deal_id limit offset f archive = do
    deal ← read_or_missing e.deal_fails (λ (s : DocStore). find_deal active_only deal_id s.deals)
    lift (ensure_deal_access e deal)
    fail_if e.doc_fails not_found
    deal_page e deal_id limit offset f archive
