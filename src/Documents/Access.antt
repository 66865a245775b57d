-- ===== src/Documents/Access.antt =====
-- Who reaches a document: the branch of its deal and the mark of hidden documents, in
-- internal/services/document_service.go.
use kub.Base.{
  ℕ, Bool, true, false, Option, none, some, Result, ok, err, Handler, lift, pure, ◌>>=◌, ◌>>◌, ◌==◌,
  ◌&&◌, ◌||◌, not, if◌then◌else◌, points_to, forbidden, not_found,
}
use kub.Authz.Roles.{
  role_sales, role_control, role_management, role_system_admin, role_visa, role_partner, role_hr,
  role_legal,
}
use kub.Models.Users.{User, UserRepo}
use kub.Models.Deals.{Deal}
use kub.Leads.Rows.{active_only}
use kub.Deals.Table.{find_deal}
use kub.Documents.Table.{Document, DocStore}

-- One call: who makes it, the clock, and which queries fail.
pub record Env : Type 0 where
  pub user_id : ℕ
  pub role_id : ℕ
  pub repo : Option UserRepo
  pub deal_repo : Bool
  pub now : ℕ
  pub doc_fails : Bool
  pub deal_fails : Bool
  pub write_fails : Bool

abbrev pub Documents : Type 0 → Type 0
Documents A = Handler DocStore A

abbrev branch_of : Result (Option User) → Option ℕ
branch_of (err e) = none
branch_of (ok none) = none
branch_of (ok (some u)) = u.branch_id

abbrev bound_to : Option ℕ → Result (Option ℕ)
bound_to none = err forbidden
bound_to (some b) = ok (some b)

abbrev home_branch : Option UserRepo → ℕ → Option ℕ
home_branch none user = none
home_branch (some repo) user = branch_of (repo.get_by_id user)

abbrev pub is_branch_bound : ℕ → Bool
is_branch_bound role =
    role == role_sales || role == role_visa || role == role_control || role == role_partner

-- The branch that a role is held to, or `none` for all.
unfoldable pub branch_scope_for_role : ℕ → ℕ → Option UserRepo → Result (Option ℕ)
branch_scope_for_role user role repo =
    if is_branch_bound role
    then bound_to (home_branch repo user)
    else if role == role_management
        || role == role_system_admin
        || role == role_hr
        || role == role_legal
    then ok none
    else err forbidden

unfoldable pub is_hidden_doc_visible : Document → ℕ → ℕ → Bool
is_hidden_doc_visible doc user role =
    if not doc.is_hidden
    then true
    else if role == role_system_admin
    then true
    else points_to doc.created_by user

abbrev same_branch : ℕ → Option ℕ → Bool
same_branch b none = false
same_branch b (some c) = b == c

unfoldable pub deal_matches_branch : Option ℕ → Deal → Bool
deal_matches_branch none deal = true
deal_matches_branch (some b) deal = same_branch b deal.branch_id

unfoldable pub ensure_deal_access : Env → Deal → Result (Unit {0})
ensure_deal_access e deal =
    if e.role_id == role_sales && not (deal.owner_id == e.user_id)
    then err forbidden
    else elim (branch_scope_for_role e.user_id e.role_id e.repo) [
      | ok scope ↦ if deal_matches_branch scope deal then ok tt else err forbidden
      | err x ↦ err x
    ]

-- `if err != nil || x == nil { return not found }`.
abbrev pub read_or_missing : {A : Type 0} → Bool → (DocStore → Option A) → Documents A
read_or_missing fails f s =
    (if fails then err not_found else elim (f s) [ none ↦ err not_found | some a ↦ ok a ], s)

-- The deal of a document, once the caller may reach it.
unfoldable pub load_document_deal_for_access : Env → Document → Documents Deal
load_document_deal_for_access e doc = do
  deal ← read_or_missing e.deal_fails (λ s. find_deal active_only doc.deal_id s.deals)
  lift (ensure_deal_access e deal)
  pure deal

-- A role that is held to a branch lists that branch, whatever it asks for.
unfoldable pub resolve_list_branch_scope : Env → Option ℕ → Result (Option ℕ)
resolve_list_branch_scope e requested = elim (branch_scope_for_role e.user_id e.role_id e.repo) [
  | err x ↦ err x
  | ok none ↦ ok requested
  | ok (some b) ↦ ok (some b)
]
