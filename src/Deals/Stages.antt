-- ===== src/Deals/Stages.antt =====
-- `MoveStage` and `applyTransitionRules` of internal/services/deal_service.go. Any call of a
-- repository may fail; which ones do is the environment's choice, in an `Env`.
use kub.Base.{
  ℕ, zero, suc, String, Bool, true, false, Option, none, some, List, [], ◌∷◌, any, all, ◌==◌, ◌=ˢ◌,
  ◌++ˢ◌, ◌&&◌, ◌||◌, not, if◌then◌else◌, Handler, pure, fail_if, lift, or_fail, query, exec, ignore,
  ◌>>=◌, ◌>>◌, ok, err, Result, read_only, invalid_state, deal_not_found, not_found, forbidden, ◌≡◌,
}
use kub.Authz.Roles.{role_sales, is_read_only}
use kub.Models.Users.{UserRepo}
use kub.Models.Deals.{Deal, FunnelStage, TransitionRule, DealStageHistory}
use kub.DataScope.{resolve_deal_scope, deal_matches_scope}
use kub.Leads.Rows.{active_only}
use kub.Deals.Table.{
  DealStore, find_deal, find_stage, find_active_by_trigger, set_stage, set_stage_and_funnel,
  update_deal, insert_history,
}

-- The failures of one hop's calls, in their order.
pub record Failures : Type 0 where
  pub rules : Bool
  pub deal : Bool
  pub stage : Bool
  pub move : Bool
  pub history : Bool

-- The order in which the database answers the rules of a trigger invents no rule.
pub record Env : Type 1 where
  pub user_id : ℕ
  pub role_id : ℕ
  pub repo : Option UserRepo
  pub stage_repo : Bool
  pub rule_repo : Bool
  pub moving : Failures
  pub hopping : ℕ → Failures  -- at a number of hops left
  pub order : List TransitionRule → List TransitionRule
  pub order_keeps :
      (p : TransitionRule → Bool) (rules : List TransitionRule)
      → all p rules ≡ true
      → all p (order rules) ≡ true

abbrev pub Deals : Type 0 → Type 0
Deals A = Handler DealStore A

abbrev valid_deal_statuses : List String
valid_deal_statuses = "new" ∷ "in_progress" ∷ "negotiation" ∷ "won" ∷ "lost" ∷ "cancelled" ∷ []

-- The status that a deal takes in a stage.
unfoldable pub status_of_stage : FunnelStage → String
status_of_stage stage =
    if stage.kind =ˢ "won"
    then "won"
    else if stage.kind =ˢ "lost"
    then "lost"
    else if any (λ v. v =ˢ stage.code) valid_deal_statuses
    then stage.code
    else "in_progress"

abbrev pub auto_history : ℕ → ℕ → ℕ → TransitionRule → DealStageHistory
auto_history deal stage by rule = record {
  deal_id = deal;
  from_stage_id = some stage;
  to_stage_id = some rule.to_stage_id;
  changed_by = some by;
  comment = "Автоматический переход: " ++ˢ rule.name;
}

-- Where the deal is moved on to, by the first rule's stage.
abbrev pub enter :
    Failures → ℕ → ℕ → ℕ → TransitionRule → Option FunnelStage → Deals (Option (ℕ × ℕ))
enter f deal stage by rule none = pure none
enter f deal stage by rule (some to) = do
  exec f.move (
      update_deal deal
        (set_stage_and_funnel rule.to_stage_id rule.to_funnel_id (status_of_stage to)))
  exec f.history (insert_history (auto_history deal stage by rule))
  pure (some (rule.to_funnel_id, rule.to_stage_id))

abbrev pub reloaded : Failures → ℕ → ℕ → ℕ → TransitionRule → Option Deal → Deals (Option (ℕ × ℕ))
reloaded f deal stage by rule none = pure none
reloaded f deal stage by rule (some d) = do
  to ← query f.stage (find_stage rule.to_stage_id)
  enter f deal stage by rule to

abbrev pub first_rule : Failures → ℕ → ℕ → ℕ → List TransitionRule → Deals (Option (ℕ × ℕ))
first_rule f deal stage by [] = pure none
first_rule f deal stage by (rule ∷ more) = do
  found ← query f.deal (find_deal active_only deal)
  reloaded f deal stage by rule found

-- The body of one call: the funnel and stage that the deal enters, or nothing where it stops.
unfoldable pub hop : Env → Failures → ℕ → ℕ → ℕ → ℕ → Deals (Option (ℕ × ℕ))
hop e f deal funnel stage by = do
  rules ← query f.rules (λ s. e.order (find_active_by_trigger funnel stage s))
  first_rule f deal stage by rules

abbrev pub unless_missing : Bool → Deals (Unit {0}) → Deals (Unit {0})
unless_missing true m s = (ok tt, s)
unless_missing false m s = m s

abbrev pub go_on :
    (ℕ → ℕ → Deals (Unit {0})) → Result (Option (ℕ × ℕ)) × DealStore → Result (Unit {0}) × DealStore
go_on next (err x, s) = (err x, s)
go_on next (ok none, s) = (ok tt, s)
go_on next (ok (some (funnel, stage)), s) = next funnel stage s

-- With `left` hops left: the source counts `depth` up from 1 and stops above 10, so that `left` is
-- `11 - depth`.
unfoldable pub apply_transition_rules : Env → ℕ → ℕ → ℕ → ℕ → ℕ → Deals (Unit {0})
apply_transition_rules e deal by zero funnel stage s = (ok tt, s)
apply_transition_rules e deal by (suc left) funnel stage s =
    unless_missing (not e.rule_repo || not e.stage_repo)
      (λ t.
        go_on (apply_transition_rules e deal by left)
          (hop e (e.hopping left) deal funnel stage by t))
      s

abbrev pub other_funnel : Option ℕ → ℕ → Bool
other_funnel none funnel = false
other_funnel (some f) funnel = not (f == funnel)

-- What `MoveStage` checks before it writes: the deal, the caller's scope, the stage.
unfoldable pub check_move : Env → ℕ → ℕ → Deals (Deal × FunnelStage)
check_move e id stage_id = do
  fail_if (is_read_only e.role_id) read_only
  fail_if (not e.stage_repo) invalid_state
  found ← query e.moving.deal (find_deal active_only id)
  deal ← or_fail found deal_not_found
  fail_if (e.role_id == role_sales && not (deal.owner_id == e.user_id)) forbidden
  scope ← lift (resolve_deal_scope e.user_id e.role_id e.repo)
  fail_if (not (deal_matches_scope scope (some deal))) forbidden
  entered ← query e.moving.stage (find_stage stage_id)
  stage ← or_fail entered not_found
  fail_if (other_funnel deal.funnel_id stage.funnel_id) invalid_state
  pure (deal, stage)

abbrev pub move_history : Env → ℕ → Deal → ℕ → String → DealStageHistory
move_history e id deal stage comment = record {
  deal_id = id;
  from_stage_id = deal.stage_id;
  to_stage_id = some stage;
  changed_by = some e.user_id;
  comment = comment;
}

unfoldable pub move_stage : Env → ℕ → ℕ → String → Deals (Unit {0})
move_stage e id stage_id comment = do
  (deal, stage) ← check_move e id stage_id
  exec e.moving.move (update_deal id (set_stage stage_id stage.funnel_id (status_of_stage stage)))
  exec e.moving.history (insert_history (move_history e id deal stage_id comment))
  ignore (apply_transition_rules e id e.user_id 10 stage.funnel_id stage_id)
