-- ===== src/DataScope.antt =====
-- internal/services/scope.go: which leads, clients and deals an account may reach. `DataScope` is
-- resolved from the role and the user's branch and department, and tested on each record.
pub mod Fences
pub mod Examples
use kub.Base.{
  ℕ, String, Bool, true, false, Option, none, some, Result, ok, err, forbidden, ◌==◌, ◌&&◌, ◌||◌,
  not, if◌then◌else◌, is_none, points_to,
}
use kub.Authz.Roles.{
  role_sales, role_control, role_management, role_system_admin, role_visa, role_partner, role_legal,
}
use kub.Models.Users.{User, UserRepo}
use kub.Models.Leads.{Lead}
use kub.Models.Deals.{Deal}

pub data ScopeKind : Type 0 where
  kind_all kind_branch kind_own kind_forbidden : ScopeKind

pub record DataScope : Type 0 where
  pub kind : ScopeKind
  pub branch_id : Option ℕ
  pub department_id : Option ℕ
  pub user_id : ℕ

-- `DataScope{Kind: k}`.
abbrev pub only_kind : ScopeKind → DataScope
only_kind k = record { kind = k; branch_id = none; department_id = none; user_id = 0 }

-- The map `roleDeptCode`.
unfoldable pub role_dept_code : ℕ → Option String
role_dept_code role =
    if role == role_sales
    then some "sales"
    else if role == role_visa
    then some "visa"
    else if role == role_partner
    then some "partner"
    else none

-- The last step of `resolveUserContext`, once the branch is known.
abbrev department_of : UserRepo → ℕ → Option ℕ → Option String → Result (Option ℕ × Option ℕ)
department_of repo branch (some dept) code = ok (some branch, some dept)
department_of repo branch none none = ok (some branch, none)
department_of repo branch none (some code) = elim (repo.get_department_id_by_code code) [
  | ok dept ↦ ok (some branch, dept)
  | err e ↦ err e
]

abbrev context_of : UserRepo → User → Option ℕ → Result (Option ℕ × Option ℕ)
context_of repo u none = err forbidden
context_of repo u (some branch) =
    department_of repo branch u.department_id (role_dept_code u.role_id)

abbrev context_from : UserRepo → Result (Option User) → Result (Option ℕ × Option ℕ)
context_from repo (err e) = err forbidden
context_from repo (ok none) = err forbidden
context_from repo (ok (some u)) = context_of repo u u.branch_id

-- The branch and the department of a user; a nil repository is forbidden.
unfoldable pub resolve_user_context : ℕ → Option UserRepo → Result (Option ℕ × Option ℕ)
unfolding role_dept_code
resolve_user_context user none = err forbidden
resolve_user_context user (some repo) = context_from repo (repo.get_by_id user)

-- `DataScope{Kind: ScopeKindBranch, …}` of a context, with the user that it carries.
abbrev pub branch_scope : ℕ → Result (Option ℕ × Option ℕ) → Result DataScope
branch_scope user (ok (branch, dept)) =
    ok (record { kind = kind_branch; branch_id = branch; department_id = dept; user_id = user })
branch_scope user (err e) = err e

unfoldable pub resolve_lead_scope : ℕ → ℕ → Option UserRepo → Result DataScope
resolve_lead_scope user role repo =
    if role == role_management || role == role_system_admin || role == role_control
    then ok (only_kind kind_all)
    else if role == role_sales || role == role_visa || role == role_partner
    then branch_scope user (resolve_user_context user repo)
    else err forbidden

unfoldable pub resolve_client_scope : ℕ → ℕ → Option UserRepo → Result DataScope
resolve_client_scope user role repo =
    if role == role_sales
      || role == role_visa
      || role == role_partner
      || role == role_management
      || role == role_system_admin
      || role == role_legal
      || role == role_control
    then ok (only_kind kind_all)
    else err forbidden

unfoldable pub resolve_deal_scope : ℕ → ℕ → Option UserRepo → Result DataScope
resolve_deal_scope user role repo =
    if role == role_management || role == role_system_admin || role == role_control
    then ok (only_kind kind_all)
    else if role == role_sales || role == role_visa
    then branch_scope 0 (resolve_user_context user repo)
    else err forbidden

-- Go's `if p != nil { if q == nil || *q != *p { return false } }`.
abbrev pub within : Option ℕ → Option ℕ → Bool
within none q = true
within (some b) q = points_to q b

-- The owning user by whom a department scope is widened.
unfoldable pub scope_owner_for_dept : DataScope → Option ℕ
scope_owner_for_dept scope =
    if is_none scope.department_id || scope.user_id == 0 then none else some scope.user_id

abbrev pub lead_in_department : Option ℕ → ℕ → Lead → Bool
lead_in_department none user lead = true
lead_in_department (some dept) user lead =
    points_to lead.department_id dept
    || is_none lead.department_id && not (user == 0) && lead.owner_id == user

abbrev lead_matches_kind : ScopeKind → DataScope → Lead → Bool
lead_matches_kind kind_all scope lead = true
lead_matches_kind kind_own scope lead = lead.owner_id == scope.user_id
lead_matches_kind kind_branch scope lead =
    within scope.branch_id lead.branch_id
    && lead_in_department scope.department_id scope.user_id lead
lead_matches_kind kind_forbidden scope lead = false

unfoldable pub lead_matches_scope : DataScope → Option Lead → Bool
lead_matches_scope scope none = false
lead_matches_scope scope (some lead) = lead_matches_kind scope.kind scope lead

-- A client, as far as its scope is tested: its owner and its branch.
pub record ClientRef : Type 0 where
  pub owner_id : ℕ
  pub branch_id : Option ℕ

abbrev client_matches_kind : ScopeKind → DataScope → ClientRef → Bool
client_matches_kind kind_all scope client = true
client_matches_kind kind_own scope client = client.owner_id == scope.user_id
client_matches_kind kind_branch scope client = elim scope.branch_id [
  | none ↦ false
  | some b ↦ points_to client.branch_id b
]
client_matches_kind kind_forbidden scope client = false

unfoldable pub client_matches_scope : DataScope → Option ClientRef → Bool
client_matches_scope scope none = false
client_matches_scope scope (some client) = client_matches_kind scope.kind scope client

-- A deal of no department is seen by all of its branch.
abbrev deal_in_department : Option ℕ → Option ℕ → Bool
deal_in_department none q = true
deal_in_department (some dept) q = is_none q || points_to q dept

abbrev deal_matches_kind : ScopeKind → DataScope → Deal → Bool
deal_matches_kind kind_all scope deal = true
deal_matches_kind kind_own scope deal = false
deal_matches_kind kind_branch scope deal =
    within scope.branch_id deal.branch_id
    && deal_in_department scope.department_id deal.department_id
deal_matches_kind kind_forbidden scope deal = false

unfoldable pub deal_matches_scope : DataScope → Option Deal → Bool
deal_matches_scope scope none = false
deal_matches_scope scope (some deal) = deal_matches_kind scope.kind scope deal
