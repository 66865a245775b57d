-- ===== src/Documents/Reach.antt =====
-- How the operations on a document begin: it is read, and its deal, and the caller's access tested.
use kub.Base.{
  ℕ, Bool, false, Option, none, some, Error, ok, err, fail_if, not_found, ◌≡◌, refl, arith,
  if◌then◌else◌, ◌>>◌, after_test, after_read, not_found,
}
use kub.Models.Deals.{Deal}
use kub.Leads.Rows.{ArchiveScope, active_only}
use kub.Deals.Table.{find_deal}
use kub.Documents.Table.{Document, DocStore, document_row, find_document}
use kub.Documents.Access.{Env, Documents, ensure_deal_access, load_document_deal_for_access}
use kub.Documents.Service.{open_document, with_document, on_document}

find_document-row :
    (archive : ArchiveScope) (id : ℕ) (s : DocStore) {d : Document}
    → find_document archive id s ≡ some d
    → document_row id s ≡ some d
unfolding find_document
find_document-row archive id s found = ground arith

read-some :
    {A : Type 0} (fails : Bool) (o : Option A) {a : A}
    → (if fails then err not_found else elim o [ none ↦ err not_found | some b ↦ ok b ]) ≡ ok a
    → o ≡ some a
read-some fails o h = ground arith

load-store :
    (e : Env) (doc : Document) (s : DocStore) → (load_document_deal_for_access e doc s).1 ≡ s
unfolding load_document_deal_for_access
load-store e doc s = ground arith

load-answer :
    (e : Env) (doc : Document) (s : DocStore) {deal : Deal}
    → (load_document_deal_for_access e doc s).0 ≡ ok deal
    → (find_deal active_only doc.deal_id s.deals ≡ some deal) × (ensure_deal_access e deal ≡ ok tt)
unfolding load_document_deal_for_access
load-answer e doc s h = ground arith

module _ (e : Env) (archive : ArchiveScope) (id : ℕ) (Q : DocStore → Type 0) (s : DocStore) where
  pub with_document-ends :
      (act : Document → Documents (Unit {0}))
      → Q s
      → ((d : Document) → document_row id s ≡ some d → Q (act d s).1)
      → Q (with_document e archive id act s).1
  unfolding with_document
  with_document-ends act stay go =
      after_read Q (open_document e archive id) act s refl stay (λ d got.
        go d
          (find_document-row archive id s (read-some e.doc_fails (find_document archive id s) got)))

  pub on_document-ends :
      (refused : Document → Bool) (x : Error) (act : Document → Documents (Unit {0}))
      → Q s
      → ((d : Document) (deal : Deal)
          → document_row id s ≡ some d
          → refused d ≡ false
          → find_deal active_only d.deal_id s.deals ≡ some deal
          → ensure_deal_access e deal ≡ ok tt
          → Q (act d s).1)
      → Q (on_document e archive id refused x act s).1
  unfolding on_document
  on_document-ends refused x act stay go =
      with_document-ends
        (λ doc. fail_if (refused doc) x >> (load_document_deal_for_access e doc >> act doc)) stay
        (λ d row.
          after_test Q (refused d) x (load_document_deal_for_access e d >> act d) s stay (λ passes.
            after_read Q (load_document_deal_for_access e d) (λ deal. act d) s (load-store e d s)
              stay
              (λ deal got.
                let (there, reached) = load-answer e d s got in
                go d deal row passes there reached)))
