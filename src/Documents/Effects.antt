-- ===== src/Documents/Effects.antt =====
use kub.Base.{
  ℕ, String, Bool, true, false, not, Option, some, Error, ok, err, fail_if, ◌≡◌, refl, inl, inr,
  arith, Bool-cases, ◌=ˢ◌, ||_elim, eq_iff, ◌>>◌, after_test, after_write, bad_action, not_archived,
  forbidden, invalid_status, trim_space, document_not_approved,
}
use kub.Authz.Roles.{can_process_documents}
use kub.Leads.Rows.{ArchiveScope, active_only, all_rows}
use kub.Documents.Table.{
  Document, DocStore, document_row, set_status, set_signed, set_archived, set_unarchived,
  update_document,
}
use kub.Documents.Access.{Env, Documents}
use kub.Documents.Service
use kub.Documents.Service.{
  permitted, open_document, with_document, on_document, move, has_status, write, is_manager,
  is_judged, is_judged_or_sent, is_out_of_sight, given_or, decide, finish, archive_once,
}
use kub.Documents.Requests.{
  Request, prepare, submit_it, sign_it, unarchive_row, review_it, archive_row, mark_signed,
  finalize, Edge, submitted, approved, returned, sent, signed, Change, moved, marked, archived,
  unarchived, Entitled, by_deal, by_manager, by_session, Effect, kept, changed,
}
use kub.Documents.Reach.{with_document-ends, on_document-ends}

same_text : (a b : String) → (a =ˢ b) ≡ true → a ≡ b
same_text a b h = (eq_iff a b).0 h

module _ (e : Env) (q : Request) (s : DocStore) where
  pub unchanged : Effect e q s s
  unchanged = kept refl

  pub written :
      (id : ℕ) (d : Document) (f : Document → Document)
      → document_row id s ≡ some d
      → Entitled e q s d
      → Change d f
      → Effect e q s (write e id f s).1
  written id d f row why change =
      after_write (Effect e q s) e.write_fails (update_document id f) s unchanged
        (changed id d f row why change refl)

  -- A row that is ready is written.
  moved-Effect :
      (id : ℕ) (d : Document) (ready : Document → Bool) (x : Error) (f : Document → Document)
      → document_row id s ≡ some d
      → Entitled e q s d
      → (ready d ≡ true → Change d f)
      → Effect e q s (move e id ready x f d s).1
  moved-Effect id d ready x f row why change =
      after_test (Effect e q s) (not (ready d)) x (write e id f) s unchanged
        (λ passes. written id d f row why (change (ground (arith, passes))))

  -- The operations on one document behind a permission and the access to its deal.
  pub by_deal-Effect :
      (closed : Bool) (archive : ArchiveScope) (id : ℕ) (refused : Document → Bool) (x : Error)
      (act : Document → Documents (Unit {0}))
      → ((d : Document)
          → document_row id s ≡ some d
          → refused d ≡ false
          → Entitled e q s d
          → Effect e q s (act d s).1)
      → Effect e q s ((fail_if closed forbidden >> on_document e archive id refused x act) s).1
  by_deal-Effect closed archive id refused x act go =
      after_test (Effect e q s) closed forbidden (on_document e archive id refused x act) s
        unchanged
        (λ may.
          on_document-ends e archive id (Effect e q s) s refused x act unchanged
            (λ d deal row passes there reached. go d row passes (by_deal deal there reached)))

pub prepare-Effect :
    (e : Env) (id : ℕ) (s : DocStore)
    → Effect e (prepare id) s (Service.prepare_for_signature e id s).1
unfolding Service.prepare_for_signature
prepare-Effect e id s =
    let f = set_status e.now "sent_for_signature" in
    by_deal-Effect e (prepare id) s (not (permitted e "documents.send")) active_only id (λ d. false)
      forbidden (move e id (has_status "approved") document_not_approved f)
      (λ d row passes why.
        moved-Effect e (prepare id) s id d (has_status "approved") document_not_approved f row why
          (λ is.
            moved e.now "sent_for_signature" (sent (same_text d.status "approved" is) refl) refl))

pub submit-Effect :
    (e : Env) (id : ℕ) (s : DocStore) → Effect e (submit_it id) s (Service.submit e id s).1
unfolding Service.submit
submit-Effect e id s =
    let f = set_status e.now "under_review" in
    by_deal-Effect e (submit_it id) s (not (permitted e "documents.update")) active_only id
      (λ d. false) forbidden (move e id (has_status "draft") invalid_status f)
      (λ d row passes why.
        moved-Effect e (submit_it id) s id d (has_status "draft") invalid_status f row why
          (λ is. moved e.now "under_review" (submitted (same_text d.status "draft" is) refl) refl))

decide-Effect :
    (e : Env) (id : ℕ) (action : String) (s : DocStore) (d : Document)
    → document_row id s ≡ some d
    → Entitled e (review_it id action) s d
    → d.status ≡ "under_review"
    → Effect e (review_it id action) s (decide e id action d s).1
decide-Effect e id action s d row why is =
    let q = review_it id action in
    elim (Bool-cases (action =ˢ "approve")) [
      | inl yes_ ↦
          let ends : decide e id action d s ≡ write e id (set_status e.now "approved") s =
            simp yes_ refl in
          rw ends (
            written e q s id d (set_status e.now "approved") row why
              (moved e.now "approved" (approved is refl) refl))
      | inr other ↦ elim (Bool-cases (action =ˢ "return")) [
        | inl back ↦
            let ends : decide e id action d s ≡ write e id (set_status e.now "returned") s =
              simp (other, back) refl in
            rw ends (
              written e q s id d (set_status e.now "returned") row why
                (moved e.now "returned" (returned is refl) refl))
        | inr neither ↦
            let ends : decide e id action d s ≡ (err bad_action, s) = simp (other, neither) refl in
            rw ends (unchanged e q s)
      ]
    ]

pub review-Effect :
    (e : Env) (id : ℕ) (action : String) (s : DocStore)
    → Effect e (review_it id action) s (Service.review e id action s).1
unfolding Service.review
review-Effect e id action s =
    by_deal-Effect e (review_it id action) s (not (can_process_documents e.role_id)) active_only id
      (λ d. not (has_status "under_review" d)) invalid_status (decide e id action)
      (λ d row passes why.
        decide-Effect e id action s d row why
          (same_text d.status "under_review" (ground (arith, passes))))

-- The operations of the management on one document.
by_manager-Effect :
    (e : Env) (q : Request) (s : DocStore) (id : ℕ) (act : Document → Documents (Unit {0}))
    → ((d : Document) → document_row id s ≡ some d → Entitled e q s d → Effect e q s (act d s).1)
    → Effect e q s
        ((fail_if (not (is_manager e.role_id)) forbidden >> with_document e active_only id act) s).1
by_manager-Effect e q s id act go =
    after_test (Effect e q s) (not (is_manager e.role_id)) forbidden
      (with_document e active_only id act) s (unchanged e q s)
      (λ may.
        with_document-ends e active_only id (Effect e q s) s act (unchanged e q s)
          (λ d row. go d row (by_manager (ground (arith, may)))))

judged : (d : Document) → is_judged d ≡ true → Edge d.status "signed"
judged d is = elim (||_elim (has_status "approved" d) (has_status "returned" d) is) [
  | inl yes_ ↦ signed (inl (same_text d.status "approved" yes_)) refl
  | inr back ↦ signed (inr (inl (same_text d.status "returned" back))) refl
]

judged_or_sent : (d : Document) → is_judged_or_sent d ≡ true → Edge d.status "signed"
judged_or_sent d is = elim (||_elim (is_judged d) (has_status "sent_for_signature" d) is) [
  | inl done ↦ judged d done
  | inr out ↦ signed (inr (inr (same_text d.status "sent_for_signature" out))) refl
]

pub sign-Effect :
    (e : Env) (id : ℕ) (s : DocStore) → Effect e (sign_it id) s (Service.sign e id s).1
unfolding Service.sign
sign-Effect e id s =
    by_manager-Effect e (sign_it id) s id (move e id is_judged invalid_status (set_signed "" e.now))
      (λ d row why.
        moved-Effect e (sign_it id) s id d is_judged invalid_status (set_signed "" e.now) row why
          (λ is. marked "" e.now (judged d is) refl))

pub mark-Effect :
    (e : Env) (id : ℕ) (by : String) (at : Option ℕ) (s : DocStore)
    → Effect e (mark_signed id by at) s (Service.mark_document_signed e id by at s).1
unfolding Service.mark_document_signed
mark-Effect e id by at s =
    let f = set_signed (trim_space by) (given_or e.now at) in
    by_manager-Effect e (mark_signed id by at) s id (move e id is_judged_or_sent invalid_status f)
      (λ d row why.
        moved-Effect e (mark_signed id by at) s id d is_judged_or_sent invalid_status f row why
          (λ is. marked (trim_space by) (given_or e.now at) (judged_or_sent d is) refl))

pub finalize-Effect :
    (e : Env) (id : ℕ) (s : DocStore) → Effect e (finalize id) s (Service.finalize_signing e id s).1
unfolding Service.finalize_signing
finalize-Effect e id s =
    let q = finalize id in
    let f = set_status e.now "signed" in
    let go = move e id (has_status "approved") invalid_status f in
    with_document-ends e active_only id (Effect e q s) s (finish e id) (unchanged e q s) (λ d row.
      elim (Bool-cases (has_status "signed" d)) [
        | inl done ↦
            let ends : finish e id d s ≡ (ok tt, s) = simp done refl in rw ends (unchanged e q s)
        | inr open_ ↦
            let ends : finish e id d s ≡ go d s = simp open_ refl in
            rw ends (
              moved-Effect e q s id d (has_status "approved") invalid_status f row
                (by_session id refl)
                (λ is.
                  moved e.now "signed" (signed (inl (same_text d.status "approved" is)) refl) refl))
      ])

pub archive-Effect :
    (e : Env) (id : ℕ) (reason : String) (s : DocStore)
    → Effect e (archive_row id reason) s (Service.archive_document e id reason s).1
unfolding Service.archive_document
archive-Effect e id reason s =
    let q = archive_row id reason in
    let f = set_archived e.now e.user_id reason in
    by_deal-Effect e q s (not (permitted e "documents.update")) all_rows id (is_out_of_sight e)
      forbidden (archive_once e id reason)
      (λ d row passes why. elim (Bool-cases d.is_archived) [
        | inl done ↦
            let ends : archive_once e id reason d s ≡ (ok tt, s) = simp done refl in
            rw ends (unchanged e q s)
        | inr open_ ↦
            let ends : archive_once e id reason d s ≡ write e id f s = simp open_ refl in
            rw ends (written e q s id d f row why (archived e.now e.user_id reason refl))
      ])

pub unarchive-Effect :
    (e : Env) (id : ℕ) (s : DocStore)
    → Effect e (unarchive_row id) s (Service.unarchive_document e id s).1
unfolding Service.unarchive_document
unarchive-Effect e id s =
    by_deal-Effect e (unarchive_row id) s (not (permitted e "documents.update")) all_rows id
      (is_out_of_sight e) forbidden (move e id (λ d. d.is_archived) not_archived set_unarchived)
      (λ d row passes why.
        moved-Effect e (unarchive_row id) s id d (λ x. x.is_archived) not_archived set_unarchived
          row why (λ is. unarchived refl))
