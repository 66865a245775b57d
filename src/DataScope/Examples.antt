-- ===== src/DataScope/Examples.antt =====
-- The theorems on scopes for one account and its records.
use kub.Base.{ℕ, true, false, none, some, ok, ◌≡◌, refl, if◌then◌else◌, ◌==◌}
use kub.Authz.Roles.{role_sales, is_elevated}
use kub.Models.Users.{User, UserRepo}
use kub.Models.Leads.{Lead}
use kub.Models.Deals.{Deal}
use kub.DataScope.{
  DataScope, kind_branch, resolve_user_context, resolve_deal_scope, deal_matches_scope,
}
use kub.DataScope.Fences.{HasBranch, deal_fence}

-- A sales manager of branch 2, whose department is looked up by its code.
abbrev pub manager : User
manager = record {
  id = 7;
  role_id = role_sales;
  branch_id = some 2;
  department_id = none;
  email = "a@b.kz";
  phone = "";
  is_active = true;
  is_verified = true;
}

abbrev pub users : UserRepo
users = record {
  get_by_id = λ id. ok (if id == 7 then some manager else none);
  get_department_id_by_code = λ code. ok (some 31);
}

abbrev pub manager_scope : DataScope
manager_scope = record {
  kind = kind_branch;
  branch_id = some 2;
  department_id = some 31;
  user_id = 7;
}

abbrev lead : Lead
lead = record {
  id = 1;
  title = "Visa";
  description = "";
  phone = "";
  source = "";
  created_at = 0;
  owner_id = 7;
  branch_id = some 2;
  department_id = none;
  funnel_id = none;
  status = "new";
  is_archived = false;
  archived_at = none;
  archived_by = none;
  archive_reason = "";
}

abbrev deal : Deal
deal = record {
  id = 4;
  owner_id = 7;
  branch_id = some 2;
  department_id = none;
  funnel_id = none;
  stage_id = none;
  status = "new";
  is_archived = false;
}

deal_fence_example : (b : ℕ) × (deal.branch_id ≡ some b) × HasBranch users 7 b
unfolding is_elevated resolve_deal_scope resolve_user_context deal_matches_scope
deal_fence_example =
    deal_fence 7 role_sales users {scope = record manager_scope { user_id = 0 }} deal refl refl refl
