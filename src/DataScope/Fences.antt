-- ===== src/DataScope/Fences.antt =====
-- What a resolved scope keeps an account away from.
use kub.Base.{
  ℕ, String, refl, true, false, Option, none, some, Result, ok, err, ◌≡◌, ◌≢◌, ◌↔◌, ◌⊎◌, arith,
}
use kub.Authz.Roles.{is_elevated}
use kub.Models.Users.{User, UserRepo}
use kub.Models.Leads.{Lead}
use kub.Models.Deals.{Deal}
use kub.DataScope.{
  DataScope, kind_all, kind_branch, resolve_user_context, resolve_lead_scope, resolve_deal_scope,
  lead_matches_scope, deal_matches_scope, department_of, context_of, context_from, branch_scope,
  only_kind, role_dept_code,
}

-- The branch that a user has on record.
abbrev pub HasBranch : UserRepo → ℕ → ℕ → Type 0
HasBranch repo user branch =
    (u : User) × (repo.get_by_id user ≡ ok (some u)) × (u.branch_id ≡ some branch)

pub HasBranch-unique :
    (repo : UserRepo) (user : ℕ) {a b : ℕ} → HasBranch repo user a → HasBranch repo user b → a ≡ b
HasBranch-unique repo user {a} {b} (u, found, home) (v, found', home') = ground arith

department_of-branch :
    (repo : UserRepo) (b : ℕ) (dept : Option ℕ) (code : Option String) {branch d : Option ℕ}
    → department_of repo b dept code ≡ ok (branch, d)
    → branch ≡ some b
department_of-branch repo b (some dept) code h = ground arith
department_of-branch repo b none none h = ground arith
department_of-branch repo b none (some code) h = ground arith

context_of-branch :
    (repo : UserRepo) (u : User) (home : Option ℕ) {branch d : Option ℕ}
    → context_of repo u home ≡ ok (branch, d)
    → (b : ℕ) × (branch ≡ some b) × (home ≡ some b)
context_of-branch repo u none h = absurd (ground arith)
context_of-branch repo u (some b) h =
    (b, department_of-branch repo b u.department_id (role_dept_code u.role_id) h, refl)

context_from-branch :
    (repo : UserRepo) (r : Result (Option User)) {branch d : Option ℕ}
    → context_from repo r ≡ ok (branch, d)
    → (b : ℕ) × (branch ≡ some b) × ((u : User) × (r ≡ ok (some u)) × (u.branch_id ≡ some b))
context_from-branch repo (err e) h = absurd (ground arith)
context_from-branch repo (ok none) h = absurd (ground arith)
context_from-branch repo (ok (some u)) h =
    let (b, e, home) = context_of-branch repo u u.branch_id h in (b, e, (u, refl, home))

-- A context is resolved only for a user on record who has a branch, and its branch is that one.
pub resolve_user_context-HasBranch :
    (user : ℕ) (repo : UserRepo) {branch dept : Option ℕ}
    → resolve_user_context user (some repo) ≡ ok (branch, dept)
    → (b : ℕ) × (branch ≡ some b) × HasBranch repo user b
unfolding resolve_user_context
resolve_user_context-HasBranch user repo h = context_from-branch repo (repo.get_by_id user) h

-- The scope of a role that is confined to its branch.
abbrev Confined : UserRepo → ℕ → DataScope → Type 0
Confined repo user scope =
    (b : ℕ) × (scope.kind ≡ kind_branch) × (scope.branch_id ≡ some b) × HasBranch repo user b

branch_scope-Confined :
    (user carried : ℕ) (repo : UserRepo) (r : Result (Option ℕ × Option ℕ)) {scope : DataScope}
    → resolve_user_context user (some repo) ≡ r
    → branch_scope carried r ≡ ok scope
    → Confined repo user scope
branch_scope-Confined user carried repo (err e) same h = absurd (ground arith)
branch_scope-Confined user carried repo (ok (branch, dept)) same h =
    let (b, home, has) = resolve_user_context-HasBranch user repo same in
    (b, ground arith, ground arith, has)

lead_scope-branch_scope :
    (user role : ℕ) (repo : UserRepo) {scope : DataScope}
    → is_elevated role ≡ false
    → resolve_lead_scope user role (some repo) ≡ ok scope
    → branch_scope user (resolve_user_context user (some repo)) ≡ ok scope
unfolding resolve_lead_scope is_elevated
lead_scope-branch_scope user role repo e h = ground arith

deal_scope-branch_scope :
    (user role : ℕ) (repo : UserRepo) {scope : DataScope}
    → is_elevated role ≡ false
    → resolve_deal_scope user role (some repo) ≡ ok scope
    → branch_scope 0 (resolve_user_context user (some repo)) ≡ ok scope
unfolding resolve_deal_scope is_elevated
deal_scope-branch_scope user role repo e h = ground arith

-- Whoever is not elevated (management, quality control, administrator) reaches a lead, if at all, in
-- the branch that the account has on record.
pub lead_fence :
    (user role : ℕ) (repo : UserRepo) {scope : DataScope} (lead : Lead)
    → is_elevated role ≡ false
    → resolve_lead_scope user role (some repo) ≡ ok scope
    → lead_matches_scope scope (some lead) ≡ true
    → (b : ℕ) × (lead.branch_id ≡ some b) × HasBranch repo user b
unfolding lead_matches_scope
lead_fence user role repo lead e h m =
    let (b, k, home, has) =
      branch_scope-Confined user user repo (resolve_user_context user (some repo)) refl
        (lead_scope-branch_scope user role repo e h) in
    (b, ground arith, has)

-- Whoever is not elevated reaches a deal, if at all, in the branch that the account has on record.
pub deal_fence :
    (user role : ℕ) (repo : UserRepo) {scope : DataScope} (deal : Deal)
    → is_elevated role ≡ false
    → resolve_deal_scope user role (some repo) ≡ ok scope
    → deal_matches_scope scope (some deal) ≡ true
    → (b : ℕ) × (deal.branch_id ≡ some b) × HasBranch repo user b
unfolding deal_matches_scope
deal_fence user role repo deal e h m =
    let (b, k, home, has) =
      branch_scope-Confined user 0 repo (resolve_user_context user (some repo)) refl
        (deal_scope-branch_scope user role repo e h) in
    (b, ground arith, has)

branch_scope-ne-all :
    (carried : ℕ) (r : Result (Option ℕ × Option ℕ))
    → branch_scope carried r ≢ ok (only_kind kind_all)
branch_scope-ne-all carried (ok (branch, dept)) e = absurd (ground arith)
branch_scope-ne-all carried (err x) e = absurd (ground arith)

-- A role reaches the deals of all branches exactly when it is management, quality control or the
-- administrator.
pub deal_scope_is_all_iff :
    (user role : ℕ) (repo : Option UserRepo)
    → (resolve_deal_scope user role repo ≡ ok (only_kind kind_all)) ↔ (is_elevated role ≡ true)
unfolding resolve_deal_scope is_elevated
deal_scope_is_all_iff user role repo =
    (λ h. ground (arith, branch_scope-ne-all 0 (resolve_user_context user repo)), λ e. ground arith)

-- Where the account's department is known, a lead of its branch is reached only if it is of that
-- department, or of none and owned by the account.
pub lead_department_fence :
    (user role dept : ℕ) (repo : UserRepo) {scope : DataScope} (lead : Lead)
    → is_elevated role ≡ false
    → resolve_lead_scope user role (some repo) ≡ ok scope
    → scope.department_id ≡ some dept
    → lead_matches_scope scope (some lead) ≡ true
    → (lead.department_id ≡ some dept)
      ⊎ ((lead.department_id ≡ none) × (lead.owner_id ≡ user) × (user ≢ 0))
unfolding lead_matches_scope
lead_department_fence user role dept repo {scope} lead e h d m =
    let r = resolve_user_context user (some repo) in
    of_branch_scope r (lead_scope-branch_scope user role repo e h)
  where
    of_branch_scope :
        (r : Result (Option ℕ × Option ℕ))
        → branch_scope user r ≡ ok scope
        → (lead.department_id ≡ some dept)
          ⊎ ((lead.department_id ≡ none) × (lead.owner_id ≡ user) × (user ≢ 0))
    of_branch_scope (ok (branch, other)) k = ground arith
    of_branch_scope (err x) k = absurd (ground arith)
