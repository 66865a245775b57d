-- ===== src/Leads/Listing.antt =====
-- The listings of leads: the queries of lead_repository.go, the routing by scope of
-- internal/services/scope.go, and `ListForRole` and `ListForRoleWithTotal` of lead_service.go.
use kub.Base.{
  ℕ, String, Bool, true, Option, List, map, Result, ok, err, all, length, take, drop, filter, ◌&&◌,
  ◌≡◌, points_to,
}
use kub.Models.Users.{UserRepo}
use kub.Models.Leads.{Lead}
use kub.DataScope.{
  DataScope, ScopeKind, kind_all, kind_branch, kind_own, kind_forbidden, resolve_lead_scope,
  scope_owner_for_dept,
}
use kub.Leads.Rows.{
  LeadRow, LeadListFilter, ArchiveScope, LikeText, scan_lead, lead_archive_where, lead_list_where,
}

-- What the queries rest on: how Postgres matches text, and its ORDER BY for the filter's `SortBy` and
-- `Order`, which gives no row that it was not given, and as many as it was given.
pub record Engine : Type 1 where
  pub like : LikeText
  pub sort : String → String → List LeadRow → List LeadRow
  pub sort_keeps :
      (by order : String) (p : LeadRow → Bool) (rows : List LeadRow)
      → all p rows ≡ true
      → all p (sort by order rows) ≡ true
  pub length-sort :
      (by order : String) (rows : List LeadRow) → length (sort by order rows) ≡ length rows

-- `filter` as `listLeadsForScope` narrows it.
unfoldable pub scoped_filter : DataScope → LeadListFilter → LeadListFilter
scoped_filter scope f = record f {
  branch_id = scope.branch_id;
  department_id = scope.department_id;
  scope_user_id = scope_owner_for_dept scope;
}

module _ (engine : Engine) where
  abbrev pub accepted : ArchiveScope → LeadListFilter → LeadRow → Bool
  accepted scope f r = lead_archive_where scope r && lead_list_where engine.like f r

  abbrev pub owned : ℕ → ArchiveScope → LeadListFilter → LeadRow → Bool
  owned owner scope f r = points_to r.owner_id owner && accepted scope f r

module _ (engine : Engine) (table : List LeadRow) where
  -- `ORDER BY … LIMIT … OFFSET …` over the rows of a WHERE clause.
  abbrev pub page : LeadListFilter → ℕ → ℕ → (LeadRow → Bool) → List Lead
  page f limit offset where_ =
      map scan_lead (take limit (drop offset (engine.sort f.sort_by f.order (filter where_ table))))

  unfoldable pub list_all : ℕ → ℕ → LeadListFilter → ArchiveScope → List Lead
  list_all limit offset f scope = page f limit offset (accepted engine scope f)

  unfoldable pub list_by_owner : ℕ → ℕ → ℕ → LeadListFilter → ArchiveScope → List Lead
  list_by_owner owner limit offset f scope = page f limit offset (owned engine owner scope f)

  unfoldable pub count_all : LeadListFilter → ArchiveScope → ℕ
  count_all f scope = length (filter (accepted engine scope f) table)

  unfoldable pub count_by_owner : ℕ → LeadListFilter → ArchiveScope → ℕ
  count_by_owner owner f scope = length (filter (owned engine owner scope f) table)

  abbrev list_for_kind : ScopeKind → DataScope → ℕ → ℕ → LeadListFilter → ArchiveScope → List Lead
  list_for_kind kind_own s limit offset f archive = list_by_owner s.user_id limit offset f archive
  list_for_kind kind_branch s limit offset f archive =
      list_all limit offset (scoped_filter s f) archive
  list_for_kind kind_all s limit offset f archive = list_all limit offset f archive
  list_for_kind kind_forbidden s limit offset f archive = list_all limit offset f archive

  unfoldable pub list_leads_for_scope :
      DataScope → ℕ → ℕ → LeadListFilter → ArchiveScope → List Lead
  list_leads_for_scope s limit offset f archive = list_for_kind s.kind s limit offset f archive

  abbrev count_for_kind : ScopeKind → DataScope → LeadListFilter → ArchiveScope → ℕ
  count_for_kind kind_own s f archive = count_by_owner s.user_id f archive
  count_for_kind kind_branch s f archive = count_all (scoped_filter s f) archive
  count_for_kind kind_all s f archive = count_all f archive
  count_for_kind kind_forbidden s f archive = count_all f archive

  unfoldable pub count_leads_for_scope : DataScope → LeadListFilter → ArchiveScope → ℕ
  count_leads_for_scope s f archive = count_for_kind s.kind s f archive

  -- The queries answer; a database that fails ends the call with its error and no lead.
  unfoldable pub list_for_role :
      ℕ → ℕ → Option UserRepo → ℕ → ℕ → ArchiveScope → LeadListFilter → Result (List Lead)
  list_for_role user role repo limit offset archive f = elim (resolve_lead_scope user role repo) [
    | ok scope ↦ ok (list_leads_for_scope scope limit offset f archive)
    | err e ↦ err e
  ]

  unfoldable pub list_for_role_with_total :
      ℕ → ℕ → Option UserRepo → ℕ → ℕ → ArchiveScope → LeadListFilter → Result (List Lead × ℕ)
  list_for_role_with_total user role repo limit offset archive f =
      elim (list_for_role user role repo limit offset archive f) [
        | ok items ↦ elim (resolve_lead_scope user role repo) [
          | ok scope ↦ ok (items, count_leads_for_scope scope f archive)
          | err e ↦ err e
        ]
        | err e ↦ err e
      ]
