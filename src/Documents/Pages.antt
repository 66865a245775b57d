-- ===== src/Documents/Pages.antt =====
-- What a page of the documents of a deal shows.
use Prim.Native.Nat.{min}
use kub.Base.{
  ℕ, Bool, true, List, ok, ◌≡◌, sym, ap, ◌∙◌, arith, ◌==◌, ◌&&◌, ◌-◌, all, all-take, all-drop,
  all-filter, filter, drop, length, length-take, length-drop,
}
use kub.Leads.Rows.{ArchiveScope}
use kub.Documents.Table.{Document, DocStore, document_archive_where}
use kub.Documents.Access.{Env, is_hidden_doc_visible}
use kub.Documents.Reading.{
  Engine, DocumentListFilter, document_list_where, list_documents, count_documents, filter_for,
  list_documents_by_deal_with_filter_and_total,
}

module _ (g : Engine) (e : Env) (deal_id limit offset : ℕ) (f : DocumentListFilter)
    (archive : ArchiveScope) (s : DocStore) where
  abbrev pub is_shown : Document → Bool
  is_shown d =
      d.deal_id == deal_id
      && (document_archive_where archive d && is_hidden_doc_visible d e.user_id e.role_id)

  where-shown :
      (d : Document)
      → document_list_where g (filter_for g e deal_id f) archive d ≡ true
      → is_shown d ≡ true
  unfolding document_list_where is_hidden_doc_visible
  where-shown d h = ground arith

  abbrev page : List Document
  page = list_documents g limit offset (filter_for g e deal_id f) archive s

  page_shown : all is_shown page ≡ true
  unfolding list_documents
  page_shown =
      let w = document_list_where g (filter_for g e deal_id f) archive in
      let rows = filter w s.documents in
      all-take is_shown limit (drop offset (g.sort f.sort_by f.order rows)) (
        all-drop is_shown offset (g.sort f.sort_by f.order rows) (
          g.sort_keeps f.sort_by f.order is_shown rows
            (all-filter w is_shown s.documents where-shown)))

  length-page :
      length page ≡ min limit (count_documents g (filter_for g e deal_id f) archive s - offset)
  unfolding list_documents count_documents
  length-page =
      let rows = filter (document_list_where g (filter_for g e deal_id f) archive) s.documents in
      length-take limit (drop offset (g.sort f.sort_by f.order rows))
      ∙ ap (min limit) (
          length-drop offset (g.sort f.sort_by f.order rows)
          ∙ ap (λ n. n - offset) (g.length-sort f.sort_by f.order rows))

  answered :
      (shown : List Document) (total : ℕ)
      → (list_documents_by_deal_with_filter_and_total g e deal_id limit offset f archive s).0
        ≡ ok (shown, total)
      → (shown ≡ page) × (total ≡ count_documents g (filter_for g e deal_id f) archive s)
  unfolding list_documents_by_deal_with_filter_and_total
  answered shown total got = ground arith

  -- Every document on a page of a deal's listing is of that deal, passes the archive scope, and is not
  -- hidden, or its reader is its author or an administrator; and the page holds what the total leaves
  -- from the offset on, up to the limit.
  pub deal_page_lem :
      (shown : List Document) (total : ℕ)
      → (list_documents_by_deal_with_filter_and_total g e deal_id limit offset f archive s).0
        ≡ ok (shown, total)
      → (all is_shown shown ≡ true) × (length shown ≡ min limit (total - offset))
  deal_page_lem shown total got =
      let (same, counted) = answered shown total got in
      (
        ap (all is_shown) same ∙ page_shown,
        ap length same ∙ length-page ∙ ap (λ n. min limit (n - offset)) (sym counted),
      )
