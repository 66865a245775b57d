-- ===== src/Funnels/Requests.antt =====
-- All requests of the two services of internal/services/funnel_stage_service.go and
-- funnel_transition_rule_service.go, and what they keep of the rules.
use kub.Base.{ℕ, Bool, Option, List}
use kub.Models.Deals.{TransitionRule}
use kub.Funnels.Table.{StageRow, FunnelStore}
use kub.Funnels.Service
use kub.Funnels.Service.{Env}
use kub.Funnels.Links.{RulesFit}
use kub.Funnels.StageSteps.{
  create_stage-fit, change_stage-fit, delete_stage-fit, reorder_funnel-fit, duplicate_stage-fit,
}
use kub.Funnels.RuleSteps.{create_rule-fit, change_rule-fit, delete_rule-fit, toggle_active-fit}

pub data Request : Type 0 where
  add_stage : StageRow → Request
  edit_stage : StageRow → Request
  remove_stage : ℕ → Option ℕ → Request
  reorder_all : ℕ → List ℕ → Request
  copy_stage : ℕ → Request
  add_rule : TransitionRule → Request
  edit_rule : TransitionRule → Request
  remove_rule : ℕ → Request
  toggle : ℕ → Bool → Request

unfoldable pub serve : Env → Request → FunnelStore → FunnelStore
serve e (add_stage g) s = (Service.create_stage e g s).1
serve e (edit_stage g) s = (Service.change_stage e g s).1
serve e (remove_stage id to) s = (Service.delete_stage e id to s).1
serve e (reorder_all funnel ids) s = (Service.reorder_funnel e funnel ids s).1
serve e (copy_stage id) s = (Service.duplicate_stage e id s).1
serve e (add_rule r) s = (Service.create_rule e r s).1
serve e (edit_rule r) s = (Service.change_rule e r s).1
serve e (remove_rule id) s = (Service.delete_rule e id s).1
serve e (toggle id active) s = (Service.toggle_active e id active s).1

-- No request to the services of stages and of rules makes a rule lead from, or to, a stage that is
-- not of the funnel that the rule names.
pub rules_fit : (e : Env) (s : FunnelStore) → RulesFit s → (q : Request) → RulesFit (serve e q s)
unfolding serve
rules_fit e s fit (add_stage g) = create_stage-fit e s fit g
rules_fit e s fit (edit_stage g) = change_stage-fit e s fit g
rules_fit e s fit (remove_stage id to) = delete_stage-fit e s fit id to
rules_fit e s fit (reorder_all funnel ids) = reorder_funnel-fit e s fit funnel ids
rules_fit e s fit (copy_stage id) = duplicate_stage-fit e s fit id
rules_fit e s fit (add_rule r) = create_rule-fit e s fit r
rules_fit e s fit (edit_rule r) = change_rule-fit e s fit r
rules_fit e s fit (remove_rule id) = delete_rule-fit e s fit id
rules_fit e s fit (toggle id active) = toggle_active-fit e s fit id active
