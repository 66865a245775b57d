-- ===== src/Documents/Requests.antt =====
-- The requests of the document service, and what each may do to the table and on what ground.
use kub.Base.{
  ℕ, String, Bool, true, false, Option, some, [], ◌∷◌, ◌++◌, ok, ◌≡◌, ◌⊎◌, change_row, remove_row,
}
use kub.Models.Deals.{Deal}
use kub.Leads.Rows.{active_only}
use kub.Deals.Table.{find_deal}
use kub.Documents.Table.{
  Document, DocStore, document_key, document_row, stored, set_status, set_signed, set_archived,
  set_unarchived, set_signing_meta,
}
use kub.Documents.Access.{Env, ensure_deal_access}
use kub.Documents.Service
use kub.Documents.Service.{
  permitted, open_document, write, is_manager, decide, finish, archive_once,
}
use kub.Documents.Files
use kub.Documents.Files.{Disk, Artifact}

-- The requests that change documents. The last two are made by the sign sessions, for no user.
pub data Request : Type 0 where
  prepare submit_it sign_it unarchive_row remove : ℕ → Request
  review_it archive_row : ℕ → String → Request
  mark_signed : ℕ → String → Option ℕ → Request
  create : Document → Request
  upload : ℕ → String → Option String → Request
  upload_meta : String → String → String → Option ℕ → String → Request
  finalize : ℕ → Request
  finalize_artifact : Artifact → ℕ → String → String → Request

unfoldable pub serve : Env → Disk → Request → DocStore → DocStore
serve e disk (prepare id) s = (Service.prepare_for_signature e id s).1
serve e disk (submit_it id) s = (Service.submit e id s).1
serve e disk (sign_it id) s = (Service.sign e id s).1
serve e disk (unarchive_row id) s = (Service.unarchive_document e id s).1
serve e disk (remove id) s = (Files.delete_document e disk id s).1
serve e disk (review_it id action) s = (Service.review e id action s).1
serve e disk (archive_row id reason) s = (Service.archive_document e id reason s).1
serve e disk (mark_signed id by at) s = (Service.mark_document_signed e id by at s).1
serve e disk (create doc) s = (Service.create_document e disk.base doc s).1
serve e disk (upload deal doc_type file) s = (Files.upload_document e disk deal doc_type file s).1
serve e disk (upload_meta scope title text target file) s =
    (Files.upload_document_with_meta e disk scope title text target file s).1
serve e disk (finalize id) s = (Service.finalize_signing e id s).1
serve e disk (finalize_artifact a id ip agent) s =
    (Files.finalize_signed_artifact e disk a id ip agent s).1

-- Whether a user makes the request.
abbrev pub is_made_by_user : Request → Bool
is_made_by_user (finalize id) = false
is_made_by_user (finalize_artifact a id ip agent) = false
is_made_by_user (prepare id) = true
is_made_by_user (submit_it id) = true
is_made_by_user (sign_it id) = true
is_made_by_user (unarchive_row id) = true
is_made_by_user (remove id) = true
is_made_by_user (review_it id action) = true
is_made_by_user (archive_row id reason) = true
is_made_by_user (mark_signed id by at) = true
is_made_by_user (create doc) = true
is_made_by_user (upload deal doc_type file) = true
is_made_by_user (upload_meta scope title text target file) = true

-- The moves of a document's status.
pub data Edge (from to : String) : Type 0 where
  submitted : from ≡ "draft" → to ≡ "under_review" → Edge from to
  approved : from ≡ "under_review" → to ≡ "approved" → Edge from to
  returned : from ≡ "under_review" → to ≡ "returned" → Edge from to
  sent : from ≡ "approved" → to ≡ "sent_for_signature" → Edge from to
  signed :
      ((from ≡ "approved") ⊎ ((from ≡ "returned") ⊎ (from ≡ "sent_for_signature")))
      → to ≡ "signed"
      → Edge from to

-- What a request may do to a document's row.
pub data Change (d : Document) (f : Document → Document) : Type 0 where
  moved : (now : ℕ) (to : String) → Edge d.status to → f ≡ set_status now to → Change d f
  marked : (by : String) (at : ℕ) → Edge d.status "signed" → f ≡ set_signed by at → Change d f
  archived : (now by : ℕ) (reason : String) → f ≡ set_archived now by reason → Change d f
  unarchived : f ≡ set_unarchived → Change d f
  annotated :
      (method ip agent meta : String) → f ≡ set_signing_meta method ip agent meta → Change d f

-- Why the caller may change the document.
pub data Entitled (e : Env) (q : Request) (s : DocStore) (d : Document) : Type 0 where
  by_deal :
      (deal : Deal)
      → find_deal active_only d.deal_id s.deals ≡ some deal
      → ensure_deal_access e deal ≡ ok tt
      → Entitled e q s d
  by_manager : is_manager e.role_id ≡ true → Entitled e q s d
  by_session : (id : ℕ) → q ≡ finalize id → Entitled e q s d
  by_artifact :
      (a : Artifact) (id : ℕ) (ip agent : String)
      → q ≡ finalize_artifact a id ip agent
      → Entitled e q s d

pub data Effect (e : Env) (q : Request) (s t : DocStore) : Type 0 where
  kept : t.documents ≡ s.documents → Effect e q s t
  inserted :
      (doc : Document)
      → t.documents ≡ s.documents ++ stored s.next_id e.now doc ∷ []
      → Effect e q s t
  removed :
      (id : ℕ) (d : Document)
      → q ≡ remove id
      → document_row id s ≡ some d
      → Entitled e q s d
      → t.documents ≡ remove_row document_key id s.documents
      → Effect e q s t
  changed :
      (id : ℕ) (d : Document) (f : Document → Document)
      → document_row id s ≡ some d
      → Entitled e q s d
      → Change d f
      → t.documents ≡ change_row document_key id f s.documents
      → Effect e q s t
