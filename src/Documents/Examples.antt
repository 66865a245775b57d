-- ===== src/Documents/Examples.antt =====
-- A contract of a deal in branch 2, its life from draft to signature, and the theorems there.
use kub.Base.{
  err, bad_filepath, ℕ, String, true, false, none, some, List, [], ◌∷◌, ◌≡◌, ◌≤◌, ◌⊎◌, refl, all,
  length, trim_space, change_row, has_prefix, ◌-◌,
}
use Prim.Native.Nat.{min}
use kub.Authz.Roles.{role_sales, role_management, can_process_documents}
use kub.DataScope.Examples.{users}
use kub.Leads.Rows.{active_only}
use kub.Deals.Table.{find_deal, scan_deal, deal_archive_where}
use kub.Deals.Examples.{board}
use kub.Documents.Table.{
  Document, DocStore, document_row, find_document, document_archive_where, set_status,
}
use kub.Documents.Access.{
  Env, branch_scope_for_role, ensure_deal_access, deal_matches_branch,
  load_document_deal_for_access, is_hidden_doc_visible,
}
use kub.Documents.Service
use kub.Documents.Service.{with_document, on_document}
use kub.Documents.Files.{
  Disk, blank, resolve_storage_path, slashes, relative, contains, trim_prefix, drop_text,
}
use kub.Documents.Requests.{review_it, serve, Edge}
use kub.Documents.Lifecycle.{status_steps}
use kub.Documents.Reading.{
  Engine, DocumentListFilter, get_document, reach_to_read, document_list_where, list_documents,
  count_documents, list_documents_by_deal_with_filter_and_total,
}
use kub.Documents.Fences.{Sees, get_document-Sees}
use kub.Documents.Pages.{is_shown, deal_page_lem}
use kub.Documents.Runs.{start, then_, moves_bounded}

abbrev by : ℕ → ℕ → Env
by user role = record {
  user_id = user;
  role_id = role;
  repo = some users;
  deal_repo = true;
  now = 100;
  doc_fails = false;
  deal_fails = false;
  write_fails = false;
}

abbrev disk : Disk
disk = record {
  remote = false;
  root = "/files";
  join = λ a b. a;
  base = λ a. a;
  stamp = "1";
  exists = λ a. true;
  save_fails = false;
  remove_fails = λ a. false;
  order = λ keys. keys;
  signed_pdf_path = λ meta. "";
  extension = λ a. "";
}

abbrev contract : ℕ → ℕ → String → Document
contract id deal status = record blank {
  id = id;
  deal_id = deal;
  branch_id = some 2;
  doc_type = "contract";
  status = status;
  file_path = "/pdf/contract.pdf";
  created_by = some 7;
}

-- Deal 1 is of branch 2, deal 2 of branch 3.
abbrev desk : DocStore
desk = record {
  documents =
      contract 1 1 "under_review"
      ∷ record (contract 2 2 "draft") { is_hidden = true }
      ∷ record (contract 3 1 "signed") { signed_at = some 50; signed_by = "A" }
      ∷ [];
  deals = board;
  files = [];
  next_id = 4;
}

approved_one :
    document_row 1 (serve (by 1 role_management) disk (review_it 1 "approve") desk)
    ≡ some (contract 1 1 "approved")
unfolding serve Service.review with_document on_document find_document document_archive_where
    can_process_documents load_document_deal_for_access ensure_deal_access branch_scope_for_role
    deal_matches_branch find_deal scan_deal deal_archive_where set_status change_row
approved_one = refl

-- Nothing leaves a bad path for a file of the storage.
no_way_up : resolve_storage_path disk "/files/..\\secret" ≡ err bad_filepath
unfolding resolve_storage_path slashes relative contains trim_prefix drop_text trim_space has_prefix
no_way_up = refl

status_steps_example : (◌≡◌ {A = String} "approved" "under_review") ⊎ Edge "under_review" "approved"
status_steps_example =
    status_steps (by 1 role_management) disk (review_it 1 "approve") desk 1
      (contract 1 1 "under_review") (contract 1 1 "approved") refl approved_one

abbrev signed_one : Document
signed_one = record (contract 3 1 "signed") { signed_at = some 50; signed_by = "A" }

get_document-Sees_example : Sees (by 7 role_sales) desk (contract 1 1 "under_review")
unfolding get_document find_document document_archive_where is_hidden_doc_visible reach_to_read
    load_document_deal_for_access ensure_deal_access branch_scope_for_role deal_matches_branch
    find_deal scan_deal deal_archive_where
get_document-Sees_example =
    get_document-Sees (by 7 role_sales) active_only 1 desk (contract 1 1 "under_review") refl

abbrev engine : Engine
engine = record {
  client_of = λ d. none;
  client_type_of = λ d. "";
  client_name_of = λ d. "";
  creator_role = λ d. none;
  deal_text = λ d. "";
  like = λ a b. false;
  sort = λ column order rows. rows;
  sort_keeps = λ column order p rows h. h;
  length-sort = λ column order rows. refl;
}

abbrev no_filter : DocumentListFilter
no_filter = record {
  text = "";
  status = "";
  doc_type = "";
  deal_id = none;
  client_id = none;
  client_type = "";
  branch_id = none;
  sort_by = "";
  order = "";
  hidden_visibility_user_id = none;
  scope = "";
  creator_role_id = none;
}

abbrev two_contracts : List Document
two_contracts = contract 1 1 "under_review" ∷ signed_one ∷ []

deal_page_lem_example :
    (all (is_shown engine (by 7 role_sales) 1 10 0 no_filter active_only desk) two_contracts ≡ true)
    × (length two_contracts ≡ min 10 (2 - 0))
unfolding list_documents_by_deal_with_filter_and_total list_documents count_documents
    document_list_where document_archive_where ensure_deal_access branch_scope_for_role
    deal_matches_branch find_deal scan_deal deal_archive_where
deal_page_lem_example =
    deal_page_lem engine (by 7 role_sales) 1 10 0 no_filter active_only desk two_contracts 2 refl

moves_bounded_example : 1 ≤ 4
moves_bounded_example =
    moves_bounded 1 1 desk (serve (by 1 role_management) disk (review_it 1 "approve") desk)
      (contract 1 1 "under_review") (contract 1 1 "approved") refl
      (then_ {n = 0} (by 1 role_management) disk (review_it 1 "approve") desk
        (contract 1 1 "under_review") (start refl refl refl) refl approved_one refl)
