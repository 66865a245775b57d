-- ===== src/Leads/Visible.antt =====
-- A listing shows the leads that the scope test accepts, and no other.
use Prim.Native.Nat.{min}
use kub.Base.{
  inl, inr, ◌⊎◌, ℕ, if◌then◌else◌, is_empty, ◌=ˢ◌, Bool, true, Option, none, some, List, map,
  Result, ok, err, all, length, take, drop, filter, ◌==◌, ◌&&◌, ◌||◌, ◌≡◌, ◌-◌, refl, ap, arith,
  is_none, all-take, all-drop, all-filter, filter-congr, all-map, length-map, length-take,
  length-drop, &&_elim,
}
use kub.Models.Users.{UserRepo}
use kub.Models.Leads.{Lead}
use kub.DataScope.{
  DataScope, ScopeKind, kind_all, kind_branch, kind_own, kind_forbidden, resolve_lead_scope,
  resolve_user_context, branch_scope, scope_owner_for_dept, lead_matches_scope, within,
  lead_in_department,
}
use kub.Leads.Rows.{
  string_from_null, LeadRow, LeadListFilter, ArchiveScope, scan_lead, lead_archive_where,
  lead_list_where, status_where, equals_if_set, department_where,
}
use kub.Leads.Listing.{
  Engine, scoped_filter, accepted, page, list_all, count_all, list_leads_for_scope,
  count_leads_for_scope, list_for_role, list_for_role_with_total,
}

-- The caller's filter without the branch and the department.
abbrev pub cleared : LeadListFilter → LeadListFilter
cleared f = record f { branch_id = none; department_id = none; scope_user_id = none }

-- What is left of the caller's filter in a scope: a branch scope overwrites branch and department.
abbrev pub unscoped : ScopeKind → LeadListFilter → LeadListFilter
unscoped kind_branch f = cleared f
unscoped kind_all f = f
unscoped kind_own f = f
unscoped kind_forbidden f = f

-- The kinds that `resolveLeadScope` gives.
data IsResolved : ScopeKind → Type 0 where
  all_leads : IsResolved kind_all
  branch_leads : IsResolved kind_branch

department_where-eq :
    (dept : Option ℕ) (user : ℕ) (r : LeadRow)
    → department_where dept (if is_none dept || user == 0 then none else some user) r
      ≡ lead_in_department dept user (scan_lead r)
unfolding scan_lead
department_where-eq none user r = refl
department_where-eq (some d) user r = ground arith

-- The filter that a listing of the kind passes to its query.
abbrev narrowed : ScopeKind → DataScope → LeadListFilter → LeadListFilter
narrowed kind_branch scope f = scoped_filter scope f
narrowed kind_all scope f = f
narrowed kind_own scope f = f
narrowed kind_forbidden scope f = f

and_true : (a : Bool) → a ≡ (a && true)
and_true a = ground arith

regroup :
    (a b c d e g : Bool)
    → (a && (b && c && d && e && g)) ≡ ((a && (b && c && true && e && true)) && (d && g))
regroup true true true true true g = refl
regroup a b c d e g = ground arith

module _ (engine : Engine) (archive : ArchiveScope) (f : LeadListFilter) where
  branch_where-eq :
      (scope : DataScope) (r : LeadRow)
      → accepted engine archive (scoped_filter scope f) r ≡ (
          accepted engine archive (cleared f) r
          && (within scope.branch_id r.branch_id
              && lead_in_department scope.department_id scope.user_id (scan_lead r)))
  unfolding lead_list_where scoped_filter scope_owner_for_dept
  branch_where-eq scope r = rw (department_where-eq scope.department_id scope.user_id r) (
      regroup (lead_archive_where archive r) (status_where f.status f.status_group r)
        (is_empty f.text || engine.like f.text r) (equals_if_set scope.branch_id r.branch_id)
        (is_empty f.source || f.source =ˢ string_from_null r.source)
        (lead_in_department scope.department_id scope.user_id (scan_lead r)))

  -- The rows that a scope's listing is made of.
  abbrev pub visible : DataScope → LeadRow → Bool
  visible scope r =
      accepted engine archive (unscoped scope.kind f) r
      && lead_matches_scope scope (some (scan_lead r))

  visible-scoped :
      {kind : ScopeKind} (scope : DataScope)
      → IsResolved kind
      → scope.kind ≡ kind
      → (r : LeadRow) → accepted engine archive (narrowed kind scope f) r ≡ visible scope r
  unfolding lead_matches_scope scoped_filter scan_lead scope_owner_for_dept
  visible-scoped scope all_leads e r = rw e (and_true _)
  visible-scoped scope branch_leads e r = rw e (branch_where-eq scope r)

  -- The listing of a scope is made of the rows that the caller's filter and the scope's test accept.
  listed-visible :
      {kind : ScopeKind} (scope : DataScope)
      → IsResolved kind
      → scope.kind ≡ kind
      → (table : List LeadRow) (limit offset : ℕ)
      → list_leads_for_scope engine table scope limit offset f archive
        ≡ page engine table f limit offset (visible scope)
  unfolding list_leads_for_scope list_all scoped_filter
  listed-visible scope all_leads e table limit offset = simp e (
      ap (λ rows. map scan_lead (take limit (drop offset (engine.sort f.sort_by f.order rows))))
        (filter-congr (accepted engine archive f) (visible scope) table
          (visible-scoped scope all_leads e)))
  listed-visible scope branch_leads e table limit offset = simp e (
      ap (λ rows. map scan_lead (take limit (drop offset (engine.sort f.sort_by f.order rows))))
        (filter-congr (accepted engine archive (scoped_filter scope f)) (visible scope) table
          (visible-scoped scope branch_leads e)))

  counted-visible :
      {kind : ScopeKind} (scope : DataScope)
      → IsResolved kind
      → scope.kind ≡ kind
      → (table : List LeadRow)
      → count_leads_for_scope engine table scope f archive ≡ length (filter (visible scope) table)
  unfolding count_leads_for_scope count_all
  counted-visible scope all_leads e table = simp e (
      ap length (
        filter-congr (accepted engine archive f) (visible scope) table
          (visible-scoped scope all_leads e)))
  counted-visible scope branch_leads e table = simp e (
      ap length (
        filter-congr (accepted engine archive (scoped_filter scope f)) (visible scope) table
          (visible-scoped scope branch_leads e)))

  page-visible :
      (scope : DataScope) (table : List LeadRow) (limit offset : ℕ)
      → all
          (λ l. lead_matches_scope scope (some l))
          (page engine table f limit offset (visible scope))
        ≡ true
  page-visible scope table limit offset =
      let rows = filter (visible scope) table in
      let shown = λ (r : LeadRow). lead_matches_scope scope (some (scan_lead r)) in
      let sorted = engine.sort f.sort_by f.order rows in
      all-map (λ l. lead_matches_scope scope (some l)) scan_lead (take limit (drop offset sorted))
        (all-take shown limit (drop offset sorted) (
          all-drop shown offset sorted (
            engine.sort_keeps f.sort_by f.order shown rows
              (all-filter (visible scope) shown table (λ r h. (&&_elim _ _ h).1)))))

  length-page :
      (table : List LeadRow) (limit offset : ℕ) (where_ : LeadRow → Bool)
      → length (page engine table f limit offset where_)
        ≡ min limit (length (filter where_ table) - offset)
  length-page table limit offset where_ =
      let rows = filter where_ table in
      let sorted = engine.sort f.sort_by f.order rows in
      simp (length-map, length-take, length-drop) (rw (engine.length-sort f.sort_by f.order rows))

branch_scope-IsResolved :
    (carried : ℕ) (r : Result (Option ℕ × Option ℕ)) {scope : DataScope}
    → branch_scope carried r ≡ ok scope
    → scope.kind ≡ kind_branch
branch_scope-IsResolved carried (ok (branch, dept)) h = ground arith
branch_scope-IsResolved carried (err e) h = absurd (ground arith)

resolve_lead_scope_kind :
    (user role : ℕ) (repo : Option UserRepo) {scope : DataScope}
    → resolve_lead_scope user role repo ≡ ok scope
    → (scope.kind ≡ kind_all) ⊎ (scope.kind ≡ kind_branch)
unfolding resolve_lead_scope
resolve_lead_scope_kind user role repo {scope} h =
    ground (arith, branch_scope-IsResolved user (resolve_user_context user repo) {scope = scope})

resolve_lead_scope-IsResolved :
    (user role : ℕ) (repo : Option UserRepo) {scope : DataScope}
    → resolve_lead_scope user role repo ≡ ok scope
    → (kind : ScopeKind) × IsResolved kind × (scope.kind ≡ kind)
resolve_lead_scope-IsResolved user role repo h = elim (resolve_lead_scope_kind user role repo h) [
  | inl e ↦ (kind_all, all_leads, e)
  | inr e ↦ (kind_branch, branch_leads, e)
]

module _ (engine : Engine) (table : List LeadRow) (user role limit offset : ℕ)
    (repo : Option UserRepo) (archive : ArchiveScope) (f : LeadListFilter) {scope : DataScope}
    (resolved : resolve_lead_scope user role repo ≡ ok scope) where
  list_for_role-ok :
      list_for_role engine table user role repo limit offset archive f
      ≡ ok (list_leads_for_scope engine table scope limit offset f archive)
  unfolding list_for_role
  list_for_role-ok = rw (resolved, list_for_role)

  list_for_role_with_total-ok :
      list_for_role_with_total engine table user role repo limit offset archive f
      ≡ ok (
        list_leads_for_scope engine table scope limit offset f archive,
        count_leads_for_scope engine table scope f archive,
      )
  unfolding list_for_role_with_total
  list_for_role_with_total-ok = rw (list_for_role-ok, list_for_role_with_total) (rw resolved)

  -- The leads that a role is listed are those that its scope accepts: on every page each lead passes
  -- the scope's test, whatever branch and department the caller's filter asked for.
  pub list_for_role_visible :
      {items : List Lead}
      → list_for_role engine table user role repo limit offset archive f ≡ ok items
      → all (λ l. lead_matches_scope scope (some l)) items ≡ true
  list_for_role_visible {items} h =
      let (kind, listed, k) = resolve_lead_scope-IsResolved user role repo resolved in
      let same : items ≡ list_leads_for_scope engine table scope limit offset f archive =
        cc list_for_role-ok in
      rw (same, listed-visible engine archive f scope listed k table limit offset)
        (page-visible engine archive f scope table limit offset)

  -- The total beside a page counts exactly the rows that the scope's test and the caller's filter
  -- accept, where a scope of a branch takes the place of the filter's branch and department; and the
  -- page holds as many of them as are left from its offset, up to its limit.
  pub list_for_role_with_total_lem :
      {items : List Lead} {total : ℕ}
      → list_for_role_with_total engine table user role repo limit offset archive f
        ≡ ok (items, total)
      → (total ≡ length (filter (visible engine archive f scope) table))
        × (length items ≡ min limit (total - offset))
  list_for_role_with_total_lem {items} {total} h =
      let (kind, listed, k) = resolve_lead_scope-IsResolved user role repo resolved in
      let same : items ≡ list_leads_for_scope engine table scope limit offset f archive =
        ground (arith, list_for_role_with_total-ok) in
      let counts : total ≡ length (filter (visible engine archive f scope) table) = ground (
        arith,
        list_for_role_with_total-ok,
        counted-visible engine archive f scope listed k table,
      ) in
      (
        counts,
        rw (same, listed-visible engine archive f scope listed k table limit offset, counts)
            (length-page engine archive f table limit offset (visible engine archive f scope)),
      )
