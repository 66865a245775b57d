-- ===== src/Documents/Serving.antt =====
-- The requests that create or delete a document, that annotate a signed one, and all requests together.
use mathlib.Core.Path.{subst}
use kub.Base.{
  ℕ, String, false, not, Option, some, List, [], ◌∷◌, ◌++◌, ok, fail_if, ◌≡◌, ◌⊎◌, refl, sym, ap,
  ◌∙◌, inl, inr, arith, Bool-cases, ◌==◌, ◌||◌, Option-cases, Result-cases, ◌>>=◌, ◌>>◌, remove_row,
  keyed-key, after_test, after_write, after_call, after_lift, after_find, or_fail, file_required,
  unsupported_doc_type, doc_type_required, exec, forbidden, is_empty, lift,
}
use kub.Models.Deals.{Deal}
use kub.Authz.Roles.{can_hard_delete_business_entity}
use kub.Leads.Rows.{active_only, all_rows}
use kub.Deals.Table.{find_deal}
use kub.Documents.Table.{
  Document, DocStore, document_key, document_row, stored, set_signing_meta, delete_document_row,
  update_document,
}
use kub.Documents.Access.{Env, ensure_deal_access}
use kub.Documents.Service
use kub.Documents.Service.{
  new_document, normalize_doc_type, is_supported_doc_type, permitted, open_document, with_document,
  on_document, move, has_status, write, is_manager, is_judged, is_judged_or_sent, is_out_of_sight,
  given_or, decide, finish, archive_once,
}
use kub.Documents.Files
use kub.Documents.Files.{Disk, Artifact}
use kub.Documents.Requests.{
  Request, prepare, submit_it, sign_it, unarchive_row, remove, review_it, archive_row, mark_signed,
  create, upload, upload_meta, finalize, finalize_artifact, serve, annotated, Entitled, by_artifact,
  Effect, kept, inserted, removed,
}
use kub.Documents.Reach.{with_document-ends}
use kub.Documents.Effects.{
  unchanged, written, by_deal-Effect, prepare-Effect, submit-Effect, review-Effect, sign-Effect,
  mark-Effect, finalize-Effect, archive-Effect, unarchive-Effect,
}

-- The files that are stored or removed are no rows.
store_delete-documents :
    (disk : Disk) (key : String) (s : DocStore)
    → (Files.store_delete disk key s).1.documents ≡ s.documents
unfolding Files.store_delete
store_delete-documents disk key s = elim (Result-cases (Files.resolve_storage_path disk key)) [
  | inl (place, found) ↦ ground arith
  | inr (x, bad) ↦ ground arith
]

delete_all-documents :
    (disk : Disk) (keys : List String) (s : DocStore)
    → (Files.delete_all disk keys s).1.documents ≡ s.documents
unfolding Files.delete_all
delete_all-documents disk [] s = refl
delete_all-documents disk (k ∷ ks) s =
    after_call (λ t. t.documents ≡ s.documents) (Files.store_delete disk k)
      (λ u. Files.delete_all disk ks) s (store_delete-documents disk k s)
      (λ u done.
        delete_all-documents disk ks (Files.store_delete disk k s).1
        ∙ store_delete-documents disk k s)

abbrev Put : Env → DocStore → DocStore → Type 0
Put e s t =
    (t.documents ≡ s.documents)
    ⊎ ((d : Document) × (t.documents ≡ s.documents ++ stored s.next_id e.now d ∷ []))

Put-Effect : (e : Env) (q : Request) (s t : DocStore) → Put e s t → Effect e q s t
Put-Effect e q s t (inl same) = kept same
Put-Effect e q s t (inr (d, grown)) = inserted d grown

create-Put :
    (e : Env) (base : String → String) (doc : Document) (s : DocStore)
    → Put e s (Service.create_document e base doc s).1
unfolding Service.create_document
create-Put e base doc s = elim (Option-cases (find_deal active_only doc.deal_id s.deals)) [
  | inl none_ ↦ inl (ground arith)
  | inr (deal, found) ↦ elim (Result-cases (Service.create_document e base doc s).0) [
    | inr (x, failed) ↦ inl (ground arith)
    | inl (id, done) ↦ inr (new_document e base deal doc, ground arith)
  ]
]

-- A file is stored, then the row.
stored-Put :
    (e : Env) (disk : Disk) (name : String) (d : Document) (s : DocStore)
    → Put e s ((Files.store_save disk name >> Files.insert e d) s).1
unfolding Files.store_save
stored-Put e disk name d s = elim (Bool-cases (disk.save_fails || e.write_fails)) [
  | inl failed ↦ inl (ground arith)
  | inr fine ↦ inr (d, ground arith)
]

upload_meta-Put :
    (e : Env) (disk : Disk) (scope title text : String) (person : Option ℕ) (file : String)
    (s : DocStore)
    → Put e s (Files.upload_document_with_meta e disk scope title text person file s).1
unfolding Files.upload_document_with_meta
upload_meta-Put e disk scope title text person file s =
    after_lift (Put e s) (Files.safe_name disk file)
      (λ name.
        Files.store_save disk (Files.scoped_place disk scope name)
        >> Files.insert e
            (Files.scoped_document e scope title text person (Files.scoped_place disk scope name)))
      s (inl refl)
      (λ name got.
        stored-Put e disk (Files.scoped_place disk scope name)
          (Files.scoped_document e scope title text person (Files.scoped_place disk scope name)) s)

upload_to-Put :
    (e : Env) (disk : Disk) (deal_id : ℕ) (doc_type : String) (file : Option String) (deal : Deal)
    (s : DocStore)
    → Put e s (Files.upload_to e disk deal_id doc_type file deal s).1
unfolding Files.upload_to
upload_to-Put e disk deal_id doc_type file deal s =
    let Q = Put e s in
    let kind = normalize_doc_type doc_type in
    let save = λ (name : String).
      Files.store_save disk name >> Files.insert e (Files.uploaded e deal_id deal doc_type name) in
    let rename = λ (name : String). lift (Files.safe_name disk name) >>= save in
    let named = or_fail file file_required >>= rename in
    let supported = fail_if (not (is_supported_doc_type kind)) unsupported_doc_type >> named in
    let typed = fail_if (is_empty kind) doc_type_required >> supported in
    after_lift Q (ensure_deal_access e deal) (λ u. typed) s (inl refl)
      (λ u may. after_test Q (is_empty kind) doc_type_required supported s (inl refl) (λ some_kind.
        after_test Q (not (is_supported_doc_type kind)) unsupported_doc_type named s (inl refl)
          (λ known. after_find Q file file_required rename s (inl refl) (λ name given.
            after_lift Q (Files.safe_name disk name) save s (inl refl) (λ final good.
              stored-Put e disk final (Files.uploaded e deal_id deal doc_type final) s)))))

upload-Put :
    (e : Env) (disk : Disk) (deal_id : ℕ) (doc_type : String) (file : Option String) (s : DocStore)
    → Put e s (Files.upload_document e disk deal_id doc_type file s).1
unfolding Files.upload_document
upload-Put e disk deal_id doc_type file s =
    elim (Option-cases (find_deal active_only deal_id s.deals)) [
      | inl none_ ↦ inl (ground arith)
      | inr (deal, found) ↦
          elim (Bool-cases
            (not (permitted e "documents.create") || (deal_id == 0 || e.deal_fails))) [
              | inl closed ↦ inl (ground arith)
              | inr open_ ↦
                  let ends : (Files.upload_document e disk deal_id doc_type file s).1
                      ≡ (Files.upload_to e disk deal_id doc_type file deal s).1 =
                    ground arith in
                  rw ends (upload_to-Put e disk deal_id doc_type file deal s)
            ]
    ]

annotated-Effect :
    (e : Env) (q : Request) (a : Artifact) (ip agent : String) (id : ℕ) (d : Document)
    (s : DocStore)
    → document_row id s ≡ some d
    → Entitled e q s d
    → Effect e q s
        ((lift a.made
            >> exec e.write_fails
                (update_document d.id (set_signing_meta "email_otp" ip agent a.metadata)))
          s).1
annotated-Effect e q a ip agent id d s row why =
    let f = set_signing_meta "email_otp" ip agent a.metadata in
    let own : document_row d.id s ≡ some d =
      subst (λ x. document_row x s ≡ some d) (sym (keyed-key document_key id s.documents row))
        row in
    after_lift (Effect e q s) a.made (λ u. exec e.write_fails (update_document d.id f)) s
      (unchanged e q s)
      (λ u made. written e q s d.id d f own why (annotated "email_otp" ip agent a.metadata refl))

artifact-Effect :
    (e : Env) (disk : Disk) (a : Artifact) (id : ℕ) (ip agent : String) (s : DocStore)
    → Effect e
        (finalize_artifact a id ip agent)
        s
        (Files.finalize_signed_artifact e disk a id ip agent s).1
unfolding Files.finalize_signed_artifact
artifact-Effect e disk a id ip agent s =
    let q = finalize_artifact a id ip agent in
    let Q = Effect e q s in
    with_document-ends e active_only id Q s
      (λ doc. lift a.original >> Files.make e disk a ip agent doc) (unchanged e q s)
      (λ d row.
        after_lift Q a.original (λ u. Files.make e disk a ip agent d) s (unchanged e q s)
          (λ u there. elim (Bool-cases (Files.is_made disk a d)) [
            | inl done ↦
                let ends : Files.make e disk a ip agent d s ≡ (ok tt, s) = simp done refl in
                rw ends (unchanged e q s)
            | inr new ↦
                let ends : Files.make e disk a ip agent d s
                    ≡ (lift a.made
                          >> exec e.write_fails (
                              update_document d.id
                                (set_signing_meta "email_otp" ip agent a.metadata)))
                        s =
                  simp new refl in
                rw ends
                  (annotated-Effect e q a ip agent id d s row (by_artifact a id ip agent refl))
          ]))

delete-Effect :
    (e : Env) (disk : Disk) (id : ℕ) (s : DocStore)
    → Effect e (remove id) s (Files.delete_document e disk id s).1
unfolding Files.delete_document Files.delete_document_files
delete-Effect e disk id s =
    let q = remove id in
    let Q = Effect e q s in
    by_deal-Effect e q s (not (can_hard_delete_business_entity e.role_id)) all_rows id (λ d. false)
      forbidden
      (λ doc. Files.delete_document_files disk doc >> exec e.write_fails (delete_document_row id))
      (λ d row passes why.
        let files =
          disk.order (Files.distinct (d.file_path ∷ d.file_path_pdf ∷ d.file_path_docx ∷ [])) in
        let same = delete_all-documents disk files s in
        let t = (Files.delete_all disk files s).1 in
        after_call Q (Files.delete_all disk files)
          (λ u. exec e.write_fails (delete_document_row id)) s (kept same)
          (λ u done.
            after_write Q e.write_fails (delete_document_row id) t (kept same)
              (removed id d refl row why (ap (remove_row document_key id) same))))

-- Every request has one of the effects.
pub serve-Effect :
    (e : Env) (disk : Disk) (q : Request) (s : DocStore) → Effect e q s (serve e disk q s)
unfolding serve
serve-Effect e disk (prepare id) s = prepare-Effect e id s
serve-Effect e disk (submit_it id) s = submit-Effect e id s
serve-Effect e disk (sign_it id) s = sign-Effect e id s
serve-Effect e disk (unarchive_row id) s = unarchive-Effect e id s
serve-Effect e disk (remove id) s = delete-Effect e disk id s
serve-Effect e disk (review_it id action) s = review-Effect e id action s
serve-Effect e disk (archive_row id reason) s = archive-Effect e id reason s
serve-Effect e disk (mark_signed id by at) s = mark-Effect e id by at s
serve-Effect e disk (create doc) s =
    Put-Effect e (create doc) s (Service.create_document e disk.base doc s).1
      (create-Put e disk.base doc s)
serve-Effect e disk (upload deal doc_type file) s =
    Put-Effect e (upload deal doc_type file) s (Files.upload_document e disk deal doc_type file s).1
      (upload-Put e disk deal doc_type file s)
serve-Effect e disk (upload_meta scope title text person file) s =
    Put-Effect e (upload_meta scope title text person file) s
      (Files.upload_document_with_meta e disk scope title text person file s).1
      (upload_meta-Put e disk scope title text person file s)
serve-Effect e disk (finalize id) s = finalize-Effect e id s
serve-Effect e disk (finalize_artifact a id ip agent) s = artifact-Effect e disk a id ip agent s
