-- ===== src/Documents/Service.antt =====
-- The operations of internal/services/document_service.go on one document.
use kub.Base.{
  Error, ℕ, String, Bool, true, false, Option, none, some, List, [], ◌∷◌, any, ok, err, lift,
  fail_if, query, exec, or_fail, pure, ◌>>=◌, ◌>>◌, ◌==◌, ◌=ˢ◌, ◌||◌, not, if◌then◌else◌, is_empty,
  trim_space, to_lower, forbidden, deal_not_found, unsupported_doc_type, bad_action,
  document_not_approved, not_archived, invalid_status,
}
use kub.Authz.Roles.{
  role_management, role_system_admin, role_partner, role_code_by_id, can_process_documents,
}
use kub.Authz.Permissions.{has_permission}
use kub.Models.Deals.{Deal}
use kub.Leads.Rows.{ArchiveScope, active_only, all_rows}
use kub.Deals.Table.{find_deal}
use kub.Documents.Table.{
  Document, DocStore, find_document, insert_document, update_document, set_status, set_signed,
  set_archived, set_unarchived,
}
use kub.Documents.Access.{
  Env, Documents, is_hidden_doc_visible, ensure_deal_access, read_or_missing,
  load_document_deal_for_access,
}

abbrev pub permitted : Env → String → Bool
permitted e action = has_permission (role_code_by_id e.role_id) action

unfoldable pub normalize_doc_type : String → String
normalize_doc_type value = to_lower (trim_space value)

-- The keys of `supportedDocTypes`.
unfoldable pub supported_doc_types : List String
supported_doc_types =
    "contract" ∷ "invoice" ∷ "termination_transfer" ∷ "termination_waiver" ∷ "cancel_appointment"
    ∷ "receipt_refund_partial" ∷ "receipt_refund_full" ∷ "documents_handover_act"
    ∷ "visa_questionnaire" ∷ "contract_paid_50_50_ru" ∷ "contract_free_ru" ∷ "contract_paid_full_ru"
    ∷ "contract_ukaby_visa" ∷ "contract_language_courses" ∷ "addendum_korea"
    ∷ "contract_ukaby_30_35_35" ∷ "addendum_c01_extension" ∷ "addendum_k01_korea"
    ∷ "refund_application" ∷ "pause_application" ∷ "avr_kub_group" ∷ "contract_full"
    ∷ "contract_50_50" ∷ "personal_data_consent" ∷ "refund_receipt_full" ∷ "refund_receipt_partial"
    ∷ "additional_agreement" ∷ "personal_data_excel" ∷ []

unfoldable pub is_supported_doc_type : String → Bool
is_supported_doc_type value = any (λ t. t =ˢ normalize_doc_type value) supported_doc_types

-- The document of `DocRepo.GetByID`, or of the wider archive scope.
abbrev pub open_document : Env → ArchiveScope → ℕ → Documents Document
open_document e archive id = read_or_missing e.doc_fails (find_document archive id)

abbrev pub write : Env → ℕ → (Document → Document) → Documents (Unit {0})
write e id f = exec e.write_fails (update_document id f)

-- An operation that opens a document with no test of the caller's access to its deal.
unfoldable pub with_document :
    Env → ArchiveScope → ℕ → (Document → Documents (Unit {0})) → Documents (Unit {0})
with_document e archive id act = do doc ← open_document e archive id; act doc

-- A test of the document itself, the caller's access to its deal, and the rest of an operation.
unfoldable pub on_document :
    Env
    → ArchiveScope
    → ℕ
    → (Document → Bool)
    → Error
    → (Document → Documents (Unit {0}))
    → Documents (Unit {0})
on_document e archive id refused x act =
    with_document e archive id
      (λ doc. fail_if (refused doc) x >> (load_document_deal_for_access e doc >> act doc))

abbrev pub has_status : String → Document → Bool
has_status status doc = doc.status =ˢ status

abbrev pub move :
    Env → ℕ → (Document → Bool) → Error → (Document → Document) → Document → Documents (Unit {0})
move e id ready x f doc = fail_if (not (ready doc)) x >> write e id f

unfoldable pub prepare_for_signature : Env → ℕ → Documents (Unit {0})
prepare_for_signature e id =
    fail_if (not (permitted e "documents.send")) forbidden
    >> on_document e active_only id (λ doc. false) forbidden
        (move e id (has_status "approved") document_not_approved
          (set_status e.now "sent_for_signature"))

unfoldable pub submit : Env → ℕ → Documents (Unit {0})
submit e id =
    fail_if (not (permitted e "documents.update")) forbidden
    >> on_document e active_only id (λ doc. false) forbidden
        (move e id (has_status "draft") invalid_status (set_status e.now "under_review"))

abbrev pub decide : Env → ℕ → String → Document → Documents (Unit {0})
decide e id action doc s =
    if action =ˢ "approve"
    then write e id (set_status e.now "approved") s
    else if action =ˢ "return"
    then write e id (set_status e.now "returned") s
    else (err bad_action, s)

unfoldable pub review : Env → ℕ → String → Documents (Unit {0})
review e id action =
    fail_if (not (can_process_documents e.role_id)) forbidden
    >> on_document e active_only id (λ doc. not (has_status "under_review" doc)) invalid_status
        (decide e id action)

abbrev pub is_manager : ℕ → Bool
is_manager role = role == role_management || role == role_system_admin

abbrev pub is_judged : Document → Bool
is_judged doc = has_status "approved" doc || has_status "returned" doc

unfoldable pub sign : Env → ℕ → Documents (Unit {0})
sign e id =
    fail_if (not (is_manager e.role_id)) forbidden
    >> with_document e active_only id (move e id is_judged invalid_status (set_signed "" e.now))

abbrev pub given_or : ℕ → Option ℕ → ℕ
given_or now none = now
given_or now (some at) = at

abbrev pub is_judged_or_sent : Document → Bool
is_judged_or_sent doc = is_judged doc || has_status "sent_for_signature" doc

unfoldable pub mark_document_signed : Env → ℕ → String → Option ℕ → Documents (Unit {0})
mark_document_signed e id by at =
    fail_if (not (is_manager e.role_id)) forbidden
    >> with_document e active_only id (
        move e id is_judged_or_sent invalid_status (set_signed (trim_space by) (given_or e.now at)))

abbrev pub finish : Env → ℕ → Document → Documents (Unit {0})
finish e id doc s =
    if has_status "signed" doc
    then (ok tt, s)
    else move e id (has_status "approved") invalid_status (set_status e.now "signed") doc s

-- The sign sessions call this, for no user.
unfoldable pub finalize_signing : Env → ℕ → Documents (Unit {0})
finalize_signing e id = with_document e active_only id (finish e id)

unfoldable pub ensure_signing_allowed : Env → ℕ → Documents (Unit {0})
ensure_signing_allowed e id =
    on_document e active_only id (λ doc. false) forbidden
      (λ doc. fail_if (not (has_status "approved" doc)) invalid_status)

abbrev pub is_out_of_sight : Env → Document → Bool
is_out_of_sight e doc = not (is_hidden_doc_visible doc e.user_id e.role_id)

abbrev pub archive_once : Env → ℕ → String → Document → Documents (Unit {0})
archive_once e id reason doc s =
    if doc.is_archived then (ok tt, s) else write e id (set_archived e.now e.user_id reason) s

unfoldable pub archive_document : Env → ℕ → String → Documents (Unit {0})
archive_document e id reason =
    fail_if (not (permitted e "documents.update")) forbidden
    >> on_document e all_rows id (is_out_of_sight e) forbidden (archive_once e id reason)

unfoldable pub unarchive_document : Env → ℕ → Documents (Unit {0})
unarchive_document e id =
    fail_if (not (permitted e "documents.update")) forbidden
    >> on_document e all_rows id (is_out_of_sight e) forbidden
        (move e id (λ doc. doc.is_archived) not_archived set_unarchived)

-- What the new document takes from its deal and from the caller.
abbrev pub owned_by : Env → Deal → Document → Document
owned_by e deal doc = record doc {
  branch_id = elim deal.branch_id [ none ↦ doc.branch_id | some b ↦ some b ];
  created_by = some e.user_id;
  is_hidden = if e.role_id == role_partner then true else doc.is_hidden;
}

-- The caller's status stands, unless it is blank. `base` is `filepath.Base`.
abbrev pub new_document : Env → (String → String) → Deal → Document → Document
new_document e base deal doc = owned_by e deal (record doc {
  doc_type = normalize_doc_type doc.doc_type;
  status = if is_empty (trim_space doc.status) then "draft" else doc.status;
  file_path = base (trim_space doc.file_path);
})

unfoldable pub create_document : Env → (String → String) → Document → Documents ℕ
create_document e base doc = do
  fail_if (not (permitted e "documents.create")) forbidden
  fail_if (doc.deal_id == 0) deal_not_found
  found ← query false (λ (s : DocStore). find_deal active_only doc.deal_id s.deals)
  fail_if e.deal_fails deal_not_found
  deal ← or_fail found deal_not_found
  fail_if (not (is_supported_doc_type doc.doc_type)) unsupported_doc_type
  lift (ensure_deal_access e deal)
  id ← query false (λ (s : DocStore). s.next_id)
  exec e.write_fails (insert_document e.now (new_document e base deal doc))
  pure id
