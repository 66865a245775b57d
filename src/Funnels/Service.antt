-- ===== src/Funnels/Service.antt =====
-- internal/services/funnel_stage_service.go and funnel_transition_rule_service.go. A database
-- transaction that fails has written nothing.
use kub.Base.{
  ℕ, String, Bool, true, false, Option, none, some, List, Handler, Result, ok, err, pure, lift,
  or_fail, query, exec, fail_if, ◌>>=◌, ◌>>◌, forbidden, not_found, invalid_state, stage_has_deals,
  ◌==◌, ◌=ˢ◌, ◌&&◌, ◌||◌, not, ltb, if◌then◌else◌, is_empty, is_none, trim_space, to_lower, db,
}
use kub.Authz.Roles.{role_code_by_id, can_manage_funnels}
use kub.Authz.Permissions.{has_permission}
use kub.Models.Deals.{TransitionRule}
use kub.Funnels.Copies.{copy_code, insert_copy}
use kub.Funnels.Table.{
  ℤ, pos, negsuc, StageRow, FunnelStore, find_stage, find_rule, insert_stage, set_stage,
  update_stage, reorder_stages, has_deals, restage_all, drop_stage, insert_rule, set_rule,
  update_rule, drop_rule,
}

pub record Principal : Type 0 where
  pub role_id : ℕ
  pub role_code : String
  pub branch_id : Option ℕ

-- A funnel, with the code of its department.
pub record Funnel : Type 0 where
  pub id : ℕ
  pub department : Option String
  pub branch_id : Option ℕ

-- The answers of the other repositories, the caller, and which calls fail.
pub record Env : Type 0 where
  pub user_id : ℕ
  pub role_id : ℕ
  pub principal : ℕ → Result (Option Principal)
  pub funnel : ℕ → Result (Option Funnel)
  pub sprintf : String → ℕ → String  -- `fmt.Sprintf("%s_copy%d", …)`
  pub get_fails : Bool
  pub target_fails : Bool
  pub from_fails : Bool
  pub to_fails : Bool
  pub write_fails : Bool

abbrev pub Funnels : Type 0 → Type 0
Funnels A = Handler FunnelStore A

abbrev answered : {A : Type 0} → Result (Option A) → Result A
answered (err x) = err x
answered (ok none) = err not_found
answered (ok (some a)) = ok a

abbrev coded : Principal → Principal
coded p = if is_empty p.role_code then record p { role_code = role_code_by_id p.role_id } else p

unfoldable pub principal_of : Env → Result Principal
principal_of e = elim (answered (e.principal e.user_id)) [ err x ↦ err x | ok p ↦ ok (coded p) ]

-- `f.BranchID == nil || p.BranchID == nil || *f.BranchID == *p.BranchID`.
abbrev branches_meet : Option ℕ → Option ℕ → Bool
branches_meet none b = true
branches_meet (some a) none = true
branches_meet (some a) (some b) = a == b

abbrev pub is_field : String → Bool
is_field code = code =ˢ "sales" || code =ˢ "visa" || code =ˢ "partner"

abbrev can_view_in : Principal → Funnel → String → Bool
can_view_in p f department =
    if p.role_code =ˢ "admin"
    then true
    else if p.role_code =ˢ "management" || p.role_code =ˢ "quality_control"
    then is_field department
    else if is_field p.role_code
    then department =ˢ p.role_code && branches_meet f.branch_id p.branch_id
    else false

unfoldable pub can_view_funnel : Principal → Funnel → Bool
can_view_funnel p f =
    has_permission p.role_code "funnels.view"
    && elim f.department [ none ↦ false | some code ↦ can_view_in p f code ]

abbrev seen : Principal → Funnel → Result Funnel
seen p f = if can_view_funnel p f then ok f else err forbidden

unfoldable pub load_funnel_for_view : Env → ℕ → Principal → Result Funnel
load_funnel_for_view e id p = elim (answered (e.funnel id)) [ err x ↦ err x | ok f ↦ seen p f ]

unfoldable pub load_funnel_for_manage : Env → ℕ → Principal → String → Result Funnel
load_funnel_for_manage e id p action =
    if has_permission p.role_code action then load_funnel_for_view e id p else err forbidden

abbrev clamp : ℤ → ℤ
clamp (pos n) = if ltb 100 n then pos 100 else pos n
clamp (negsuc n) = pos 0

abbrev known_kind : String → String
known_kind kind = if kind =ˢ "won" || kind =ˢ "lost" then kind else "regular"

unfoldable pub normalize_stage : StageRow → StageRow
normalize_stage g = record g {
  name = trim_space g.name;
  code = trim_space (to_lower g.code);
  color = if is_empty g.color then "#94a3b8" else g.color;
  kind = known_kind g.kind;
  probability = clamp g.probability;
}

unfoldable pub create_stage : Env → StageRow → Funnels (Unit {0})
create_stage e g = do
  p ← lift (principal_of e)
  f ← lift (load_funnel_for_manage e g.funnel_id p "funnels.update")
  exec e.write_fails (insert_stage (record (normalize_stage g) { is_active = true }))

-- How the operations on one stage begin.
unfoldable pub open_stage : Env → ℕ → String → Funnels StageRow
open_stage e id action = do
  p ← lift (principal_of e)
  found ← query e.get_fails (find_stage id)
  g ← or_fail found not_found
  f ← lift (load_funnel_for_manage e g.funnel_id p action)
  pure g

unfoldable pub change_stage : Env → StageRow → Funnels (Unit {0})
change_stage e g = do
  existing ← open_stage e g.id "funnels.update"
  exec e.write_fails (
      update_stage g.id (set_stage (normalize_stage (record g { funnel_id = existing.funnel_id }))))

abbrev pub fits_target : StageRow → Option StageRow → Bool
fits_target g none = false
fits_target g (some target) = target.funnel_id == g.funnel_id

abbrev pub check_target : Env → StageRow → Option ℕ → Funnels (Unit {0})
check_target e g none = pure tt
check_target e g (some to) = query e.target_fails (find_stage to) >>= λ target.
    fail_if (not (fits_target g target)) invalid_state

-- The transaction of `repo.Delete`.
abbrev pub delete_row : Env → ℕ → Option ℕ → Funnels (Unit {0})
delete_row e id to s =
    if e.write_fails
    then (err db, s)
    else if not (has_deals id s)
    then (ok tt, drop_stage id s)
    else if is_none to
    then (err stage_has_deals, s)
    else (ok tt, drop_stage id (restage_all to id s))

unfoldable pub delete_stage : Env → ℕ → Option ℕ → Funnels (Unit {0})
delete_stage e id to = do
  g ← open_stage e id "funnels.delete"
  check_target e g to
  delete_row e id to

unfoldable pub reorder_funnel : Env → ℕ → List ℕ → Funnels (Unit {0})
reorder_funnel e funnel ids = do
  p ← lift (principal_of e)
  f ← lift (load_funnel_for_manage e funnel p "funnels.reorder")
  exec e.write_fails (reorder_stages funnel ids)

abbrev pub copied : Env → StageRow → FunnelStore → FunnelStore
copied e g s = insert_copy g (copy_code e.sprintf g s.stages) s

unfoldable pub duplicate_stage : Env → ℕ → Funnels (Unit {0})
duplicate_stage e id = do g ← open_stage e id "funnels.create"; exec e.write_fails (copied e g)

abbrev pub is_complete : TransitionRule → Bool
is_complete r =
    not (r.from_funnel_id == 0 || r.from_stage_id == 0 || r.to_funnel_id == 0 || r.to_stage_id == 0)

abbrev pub is_loop : TransitionRule → Bool
is_loop r = r.from_stage_id == r.to_stage_id && r.from_funnel_id == r.to_funnel_id

abbrev pub in_funnel : ℕ → Option StageRow → Bool
in_funnel funnel none = false
in_funnel funnel (some g) = g.funnel_id == funnel

-- `if err != nil || stage == nil || stage.FunnelID != … { return ErrInvalidState }`.
abbrev pub check_stage : Bool → ℕ → ℕ → Funnels (Unit {0})
check_stage fails stage funnel s =
    fail_if (fails || not (in_funnel funnel (find_stage stage s))) invalid_state s

unfoldable pub check_stages : Env → TransitionRule → Funnels (Unit {0})
check_stages e r = do
  check_stage e.from_fails r.from_stage_id r.from_funnel_id
  check_stage e.to_fails r.to_stage_id r.to_funnel_id

unfoldable pub create_rule : Env → TransitionRule → Funnels (Unit {0})
create_rule e r = do
  fail_if (not (can_manage_funnels e.role_id)) forbidden
  fail_if (not (is_complete r)) invalid_state
  fail_if (is_loop r) invalid_state
  check_stages e r
  exec e.write_fails (insert_rule r)

-- This one does not ask whether the rule leads back to where it starts.
unfoldable pub change_rule : Env → TransitionRule → Funnels (Unit {0})
change_rule e r = do
  fail_if (not (can_manage_funnels e.role_id)) forbidden
  fail_if (not (is_complete r)) invalid_state
  found ← query e.get_fails (find_rule r.id)
  existing ← or_fail found not_found
  check_stages e r
  exec e.write_fails (update_rule r.id (set_rule r))

unfoldable pub delete_rule : Env → ℕ → Funnels (Unit {0})
delete_rule e id = do
  fail_if (not (can_manage_funnels e.role_id)) forbidden
  found ← query e.write_fails (find_rule id)
  existing ← or_fail found not_found
  exec e.write_fails (drop_rule id)

unfoldable pub toggle_active : Env → ℕ → Bool → Funnels (Unit {0})
toggle_active e id active = do
  fail_if (not (can_manage_funnels e.role_id)) forbidden
  found ← query e.get_fails (find_rule id)
  r ← or_fail found not_found
  exec e.write_fails (update_rule id (set_rule (record r { is_active = active })))
