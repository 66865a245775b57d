-- ===== src/Deals/Examples.antt =====
-- A deal on a board of three stages, moved by a sales manager, and the theorems on stage moves there.
use kub.Base.{
  ℕ, String, true, false, none, some, List, [], ◌∷◌, ◌++◌, length, is_ok, ◌≡◌, ◌≤◌, ◌⊎◌, refl,
  arith, change_row,
}
use kub.Authz.Roles.{role_sales, is_elevated, is_read_only}
use kub.Models.Deals.{FunnelStage, TransitionRule, DealStageHistory}
use kub.DataScope.{resolve_deal_scope, resolve_user_context, deal_matches_scope}
use kub.DataScope.Examples.{manager, users}
use kub.Deals.Table.{
  DealRow, DealStore, deal_row, find_deal, find_active_by_trigger, scan_deal, deal_archive_where,
}
use kub.Deals.Stages.{Env, Failures, move_stage, check_move, apply_transition_rules, hop}
use kub.Deals.Hops.{InStage}
use kub.Deals.Guards.{serve, set_status, other_deals_untouched}
use kub.Deals.Moves.{move_stage_syncs, move_stage_history}

abbrev all_answer : Failures
all_answer = record { rules = false; deal = false; stage = false; move = false; history = false }

abbrev env : Env
env = record {
  user_id = 7;
  role_id = role_sales;
  repo = some users;
  stage_repo = true;
  rule_repo = true;
  moving = all_answer;
  hopping = λ left. all_answer;
  order = λ rules. rules;
  order_keeps = λ p rules h. h;
}

abbrev stage : ℕ → ℕ → String → String → FunnelStage
stage id funnel code kind = record { id = id; funnel_id = funnel; code = code; kind = kind }

abbrev rule : ℕ → ℕ → ℕ → ℕ → ℕ → TransitionRule
rule id f s g t = record {
  id = id;
  name = "loop";
  from_funnel_id = f;
  from_stage_id = s;
  to_funnel_id = g;
  to_stage_id = t;
  is_active = true;
}

abbrev pub row : ℕ → ℕ → DealRow
row id branch = record {
  id = id;
  owner_id = 7;
  branch_id = some branch;
  department_id = none;
  funnel_id = some 1;
  stage_id = some 10;
  status = some "new";
  is_archived = false;
}

-- Two rules that send a deal back and forth for ever.
abbrev pub board : DealStore
board = record {
  deals = row 1 2 ∷ row 2 3 ∷ [];
  stages =
      stage 10 1 "new" "regular" ∷ stage 11 1 "paid" "regular" ∷ stage 20 2 "closed" "won" ∷ [];
  rules = rule 1 1 11 2 20 ∷ rule 2 2 20 1 11 ∷ [];
  history = [];
}

move_stage_syncs_example :
    (((move_stage env 1 11 "paid" board).1 ≡ board)
      × (is_ok (move_stage env 1 11 "paid" board).0 ≡ false))
    ⊎ InStage 1 (move_stage env 1 11 "paid" board).1
move_stage_syncs_example = move_stage_syncs env 1 11 "paid" board

move_stage_history_example :
    (logged : List DealStageHistory) × ((move_stage env 1 11 "paid" board).1.history
      ≡ logged
        ++ record {
          deal_id = 1;
          from_stage_id = none;
          to_stage_id = some 11;
          changed_by = some 7;
          comment = "paid";
        }
          ∷ [])
    × (length logged ≤ 10)
unfolding move_stage check_move is_read_only find_deal deal_archive_where scan_deal
    resolve_deal_scope resolve_user_context deal_matches_scope
move_stage_history_example = move_stage_history env 1 11 "paid" board refl

other_deals_untouched_example :
    deal_row 2 (serve env (set_status 1 "cancelled") board) ≡ some (row 2 3)
unfolding is_elevated
other_deals_untouched_example =
    other_deals_untouched env users 2 refl refl (manager, refl, refl) board 2 refl
      (λ e. ground (arith, e)) (set_status 1 "cancelled")

-- The cycle of rules is stopped after ten hops, with eleven entries in the history.
cycle_stops : length (move_stage env 1 11 "paid" board).1.history ≡ 11
unfolding move_stage check_move is_read_only find_deal deal_archive_where scan_deal
    resolve_deal_scope resolve_user_context deal_matches_scope apply_transition_rules hop
    find_active_by_trigger change_row
cycle_stops = refl
