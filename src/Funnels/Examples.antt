-- ===== src/Funnels/Examples.antt =====
-- Two funnels with a rule between them, and the theorems on funnels there.
use kub.Base.{
  ℕ, suc, zero, ◌+◌, String, true, false, Option, none, some, [], ◌∷◌, ok, ◌≡◌, ◌≢◌, refl, ap,
  arith, trim_space, to_lower,
}
use kub.Phone.{size}
use kub.Authz.Roles.{normalize_role_code}
use kub.Authz.Permissions.{has_permission, permissions_for_role, base_role_permissions}
use kub.Deals.Table.{DealRow}
use kub.Funnels.Table.{pos, StageRow, FunnelStore}
use kub.Funnels.Copies.{copy_code, is_taken}
use kub.Funnels.Codes.{Distinct, copy_code_found}
use kub.Funnels.Service.{
  Env, delete_stage, open_stage, principal_of, load_funnel_for_manage, load_funnel_for_view,
  can_view_funnel,
}
use kub.Funnels.Requests.{remove_stage, serve, rules_fit}
use kub.Funnels.Links.{RulesFit}
use kub.Funnels.Deletion.{Settled, deletion_keeps_deals_in_stages}

-- A number that is written in unary, after the code.
unfoldable numbered : String → ℕ → String
numbered code zero = code
numbered code (suc n) = String.◌∷◌ "1" (numbered code n)

numbered-size : (code : String) (n : ℕ) → size (numbered code n) ≡ n + size code
unfolding numbered size
numbered-size code zero = omega arith
numbered-size code (suc n) = omega (arith, numbered-size code n)

numbered-Distinct : (code : String) → Distinct (numbered code)
numbered-Distinct code i j same =
    omega (arith, numbered-size code i, numbered-size code j, ap size same)

abbrev env : Env
env = record {
  user_id = 1;
  role_id = 50;
  principal = λ u. ok (some (record { role_id = 50; role_code = "admin"; branch_id = none }));
  funnel = λ f. ok (some (record { id = f; department = some "sales"; branch_id = none }));
  sprintf = numbered;
  get_fails = false;
  target_fails = false;
  from_fails = false;
  to_fails = false;
  write_fails = false;
}

abbrev stage : ℕ → ℕ → String → StageRow
stage id funnel code = record {
  id = id;
  funnel_id = funnel;
  name = code;
  code = code;
  color = "#94a3b8";
  kind = "regular";
  position = pos 10;
  probability = pos 0;
  description = "";
  is_active = true;
}

abbrev deal : ℕ → Option ℕ → DealRow
deal id place = record {
  id = id;
  owner_id = 1;
  branch_id = none;
  department_id = none;
  funnel_id = some 1;
  stage_id = place;
  status = none;
  is_archived = false;
}

abbrev store : FunnelStore
store = record {
  stages = stage 1 1 "new" ∷ stage 2 1 "talks" ∷ stage 3 2 "visa" ∷ [];
  rules =
      record {
        id = 1;
        name = "to the visa office";
        from_funnel_id = 1;
        from_stage_id = 2;
        to_funnel_id = 2;
        to_stage_id = 3;
        is_active = true;
      }
      ∷ [];
  deals = deal 1 (some 2) ∷ deal 2 (some 1) ∷ [];
  history = [];
  next_stage = 4;
  next_rule = 2;
}

moved_on : (delete_stage env 2 (some 1) store).1.deals ≡ deal 1 (some 1) ∷ deal 2 (some 1) ∷ []
unfolding delete_stage open_stage principal_of load_funnel_for_manage has_permission trim_space
    permissions_for_role base_role_permissions normalize_role_code to_lower load_funnel_for_view
    can_view_funnel
moved_on = refl

-- Given to the stage that is deleted, the deal has none.
moved_onto_itself : (delete_stage env 2 (some 2) store).1.deals ≡ deal 1 none ∷ deal 2 (some 1) ∷ []
unfolding delete_stage open_stage principal_of load_funnel_for_manage has_permission trim_space
    permissions_for_role base_role_permissions normalize_role_code to_lower load_funnel_for_view
    can_view_funnel
moved_onto_itself = refl

rules_fit_example : RulesFit (serve env (remove_stage 3 none) store)
rules_fit_example = rules_fit env store refl (remove_stage 3 none)

elsewhere : (to : Option ℕ) → to ≡ some 1 → to ≢ some 2
elsewhere to is h = ground (arith, is, h)

deletion_keeps_deals_in_stages_example : Settled store (delete_stage env 2 (some 1) store).1
deletion_keeps_deals_in_stages_example =
    deletion_keeps_deals_in_stages env 2 (some 1) store (elsewhere (some 1) refl)

copy_code_found_example :
    (code : String) × (copy_code numbered (stage 1 1 "new") store.stages ≡ some code)
    × (is_taken 1 store.stages code ≡ false)
copy_code_found_example =
    copy_code_found numbered (stage 1 1 "new") store.stages (numbered-Distinct "new")
