-- ===== src/Documents/Fences.antt =====
-- Whom a document is kept from.
use mathlib.Core.Path.{subst}
use kub.Base.{ℕ, true, false, some, ok, ◌≡◌, ◌⊎◌, inl, inr, arith, Bool-cases, Option-cases}
use kub.Models.Deals.{Deal}
use kub.Leads.Rows.{ArchiveScope, active_only}
use kub.Deals.Table.{find_deal}
use kub.Documents.Table.{Document, DocStore, find_document}
use kub.Documents.Access.{
  Env, is_hidden_doc_visible, ensure_deal_access, load_document_deal_for_access,
}
use kub.Documents.Reading.{get_document, shown, is_deal_bound, reach_to_read}

-- What a caller sees of a document, and of its deal if the role is held to deals.
abbrev pub Sees : Env → DocStore → Document → Type 0
Sees e s d =
    (is_hidden_doc_visible d e.user_id e.role_id ≡ true)
    × ((is_deal_bound e.role_id ≡ false)
        ⊎ ((deal : Deal) × (find_deal active_only d.deal_id s.deals ≡ some deal)
            × (ensure_deal_access e deal ≡ ok tt)))

reach_to_read-answer :
    (e : Env) (d : Document) (s : DocStore)
    → (reach_to_read e d s).0 ≡ ok tt
    → (is_deal_bound e.role_id ≡ false)
      ⊎ ((deal : Deal) × (find_deal active_only d.deal_id s.deals ≡ some deal)
          × (ensure_deal_access e deal ≡ ok tt))
unfolding reach_to_read load_document_deal_for_access
reach_to_read-answer e d s reached = elim (Bool-cases (is_deal_bound e.role_id)) [
  | inr free ↦ inl free
  | inl bound ↦ elim (Option-cases (find_deal active_only d.deal_id s.deals)) [
    | inl none_ ↦ absurd (ground (arith, bound, none_, reached))
    | inr (deal, there) ↦ inr (deal, there, ground (arith, bound, there, reached))
  ]
]

shown-Sees :
    (e : Env) (s : DocStore) (x d : Document) → (shown e (some x) s).0 ≡ ok (some d) → Sees e s d
shown-Sees e s x d got =
    let seen : is_hidden_doc_visible x e.user_id e.role_id ≡ true = ground arith in
    let read : (reach_to_read e x s).0 ≡ ok tt = ground arith in
    let one : x ≡ d = ground (arith, seen, read, got) in
    subst (Sees e s) one (seen, reach_to_read-answer e x s read)

-- A document that GetDocument gives is not hidden, or its reader is its author or an administrator;
-- and sales, visa and control have access to its deal.
pub get_document-Sees :
    (e : Env) (archive : ArchiveScope) (id : ℕ) (s : DocStore) (d : Document)
    → (get_document e archive id s).0 ≡ ok (some d)
    → Sees e s d
unfolding get_document
get_document-Sees e archive id s d got = elim (Option-cases (find_document archive id s)) [
  | inl none_ ↦ absurd (ground (arith, none_, got))
  | inr (x, found) ↦
      let here : (shown e (some x) s).0 ≡ ok (some d) = ground (arith, found, got) in
      shown-Sees e s x d here
]
