-- ===== src/Documents/Lifecycle.antt =====
-- The life of one document under the requests of the service.
use mathlib.Core.Path.{subst}
use kub.Base.{
  ℕ, none, some, [], ◌∷◌, ◌≡◌, ◌⊎◌, refl, sym, ap, ◌∙◌, inl, inr, arith, Bool-cases, ◌==◌,
  change_row, remove_row, keyed-append, keyed, keyed-changed, keyed-others, keyed-remove_row,
  keyed-removed, ==_iff,
}
use kub.Documents.Table.{Document, DocStore, document_key, document_row, stored, set_status}
use kub.Documents.Access.{Env}
use kub.Documents.Files.{Disk}
use kub.Documents.Requests.{
  Request, remove, serve, Edge, Change, moved, marked, archived, unarchived, annotated, Entitled,
  Effect, kept, inserted, removed, changed,
}
use kub.Documents.Serving.{serve-Effect}

some-inj : {A : Type 0} {a b : A} → some a ≡ some b → a ≡ b
some-inj h = cc

module _ (e : Env) (q : Request) (s : DocStore) where
  Change-id :
      (d : Document) (f : Document → Document) → Change d f → (x : Document) → (f x).id ≡ x.id
  unfolding set_status
  Change-id d f (moved now to edge is) x = rw is (ground arith)
  Change-id d f (marked by at edge is) x = rw is refl
  Change-id d f (archived now by reason is) x = rw is refl
  Change-id d f (unarchived is) x = rw is refl
  Change-id d f (annotated method ip agent meta is) x = rw is refl

  -- The row with a key after a request: another row was changed, or this one was.
  pub data After (k : ℕ) (r : Document) (t : DocStore) : Type 0 where
    stays : document_row k t ≡ some r → After k r t
    gone : q ≡ remove k → Entitled e q s r → document_row k t ≡ none → After k r t
    altered :
        (f : Document → Document)
        → Entitled e q s r
        → Change r f
        → document_row k t ≡ some (f r)
        → After k r t

  Effect-After :
      (k : ℕ) (r : Document) (t : DocStore)
      → document_row k s ≡ some r
      → Effect e q s t
      → After k r t
  Effect-After k r t row (kept same) = stays (rw same row)
  Effect-After k r t row (inserted doc grown) =
      stays
        (rw grown (keyed-append document_key k s.documents (stored s.next_id e.now doc ∷ []) row))
  Effect-After k r t row (removed id d is there why less) = elim (Bool-cases (k == id)) [
    | inl hit ↦
        let same : k ≡ id = (==_iff k id).0 hit in
        let one : d ≡ r = some-inj (sym there ∙ sym (ap (λ x. document_row x s) same) ∙ row) in
        gone (is ∙ ap remove (sym same)) (subst (Entitled e q s) one why) (
          ap (keyed document_key k) less
          ∙ ap (λ x. keyed document_key k (remove_row document_key x s.documents)) (sym same)
          ∙ keyed-removed document_key k s.documents)
    | inr other ↦ stays (
        rw less (
          keyed-remove_row document_key id k s.documents (λ same. ground (arith, other, same))
          ∙ row))
  ]
  Effect-After k r t row (changed id d f there why change now_is) = elim (Bool-cases (k == id)) [
    | inl hit ↦
        let same : k ≡ id = (==_iff k id).0 hit in
        let one : d ≡ r = some-inj (sym there ∙ sym (ap (λ x. document_row x s) same) ∙ row) in
        let here = keyed-changed document_key k f s.documents (Change-id d f change) row in
        altered f (subst (Entitled e q s) one why) (subst (λ x. Change x f) one change) (
          ap (keyed document_key k) now_is
          ∙ ap (λ x. keyed document_key k (change_row document_key x f s.documents)) (sym same)
          ∙ here)
    | inr other ↦ stays (
        rw now_is (
          keyed-others document_key id k f s.documents (Change-id d f change)
            (λ same. ground (arith, other, same))
          ∙ row))
  ]

  pub serve-After :
      (disk : Disk) (k : ℕ) (r : Document)
      → document_row k s ≡ some r
      → After k r (serve e disk q s)
  serve-After disk k r row = Effect-After k r (serve e disk q s) row (serve-Effect e disk q s)

-- A change keeps the status, or moves it along an edge.
Change-status :
    (d : Document) (f : Document → Document)
    → Change d f
    → ((f d).status ≡ d.status) ⊎ Edge d.status (f d).status
unfolding set_status
Change-status d f (moved now to edge is) =
    let lands : (set_status now to d).status ≡ to = ground arith in
    inr (rw is (subst (Edge d.status) (sym lands) edge))
Change-status d f (marked by at edge is) = inr (rw is edge)
Change-status d f (archived now by reason is) = inl (rw is refl)
Change-status d f (unarchived is) = inl (rw is refl)
Change-status d f (annotated method ip agent meta is) = inl (rw is refl)

-- From one request to the next the status of a document stays, or moves from draft to under_review,
-- from there to approved or returned, from approved to sent_for_signature, or from one of the last
-- three to signed.
pub status_steps :
    (e : Env) (disk : Disk) (q : Request) (s : DocStore) (k : ℕ) (r r' : Document)
    → document_row k s ≡ some r
    → document_row k (serve e disk q s) ≡ some r'
    → (r'.status ≡ r.status) ⊎ Edge r.status r'.status
status_steps e disk q s k r r' row row' = elim (serve-After e q s disk k r row) [
  | stays same ↦ inl (ap (λ (x : Document). x.status) (some-inj (sym row' ∙ same)))
  | gone is why lost ↦ absurd (ground (arith, lost, row'))
  | altered f why change here ↦
      let one : r' ≡ f r = some-inj (sym row' ∙ here) in rw one (Change-status r f change)
]

-- What a signature fixes of a document.
pub record SameSigned (r r' : Document) : Type 0 where
  pub status : r'.status ≡ r.status
  pub signed_at : r'.signed_at ≡ r.signed_at
  pub signed_by : r'.signed_by ≡ r.signed_by
  pub deal : r'.deal_id ≡ r.deal_id
  pub kind : r'.doc_type ≡ r.doc_type
  pub file : r'.file_path ≡ r.file_path
  pub pdf : r'.file_path_pdf ≡ r.file_path_pdf
