-- ===== src/Deals/Table.antt =====
-- internal/repositories/deal_repository.go, funnel_stage_repository.go and
-- funnel_transition_rule_repository.go: the rows that a stage move reads and writes.
use kub.Base.{
  ℕ, String, Bool, true, Option, none, some, List, ◌∷◌, filter, ◌==◌, ◌&&◌, not, if◌then◌else◌,
  is_empty, keyed, change_row,
}
use kub.Models.Deals.{Deal, FunnelStage, TransitionRule, DealStageHistory}
use kub.Leads.Rows.{ArchiveScope, active_only, archived_only, all_rows}

pub record DealRow : Type 0 where
  pub id : ℕ
  pub owner_id : ℕ
  pub branch_id : Option ℕ
  pub department_id : Option ℕ
  pub funnel_id : Option ℕ
  pub stage_id : Option ℕ
  pub status : Option String
  pub is_archived : Bool

-- The history is kept newest first, as it is listed.
pub record DealStore : Type 0 where
  pub deals : List DealRow
  pub stages : List FunnelStage
  pub rules : List TransitionRule
  pub history : List DealStageHistory

unfoldable pub normalize_deal_status : Option String → String
normalize_deal_status none = "new"
normalize_deal_status (some s) = if not (is_empty s) then s else "new"

unfoldable pub deal_archive_where : ArchiveScope → DealRow → Bool
deal_archive_where archived_only r = r.is_archived
deal_archive_where all_rows r = true
deal_archive_where active_only r = not r.is_archived

-- The query names no `stage_id`, so that the field of the deal that is read stays nil.
unfoldable pub scan_deal : DealRow → Deal
scan_deal r = record {
  id = r.id;
  owner_id = r.owner_id;
  branch_id = r.branch_id;
  department_id = r.department_id;
  funnel_id = r.funnel_id;
  stage_id = none;
  status = normalize_deal_status r.status;
  is_archived = r.is_archived;
}

abbrev pub deal_row : ℕ → DealStore → Option DealRow
deal_row id s = keyed (λ (r : DealRow). r.id) id s.deals

abbrev scan_if : ArchiveScope → Option DealRow → Option Deal
scan_if scope none = none
scan_if scope (some r) = if deal_archive_where scope r then some (scan_deal r) else none

-- `GetByIDWithArchiveScope`; `GetByID` asks for active deals.
unfoldable pub find_deal : ArchiveScope → ℕ → DealStore → Option Deal
find_deal scope id s = scan_if scope (deal_row id s)

abbrev pub find_stage : ℕ → DealStore → Option FunnelStage
find_stage id s = keyed (λ (g : FunnelStage). g.id) id s.stages

abbrev pub triggered : ℕ → ℕ → TransitionRule → Bool
triggered funnel stage r = r.from_funnel_id == funnel && r.from_stage_id == stage && r.is_active

-- `FindActiveByTrigger`, before the database puts the rows in some order: the query has no ORDER BY.
unfoldable pub find_active_by_trigger : ℕ → ℕ → DealStore → List TransitionRule
find_active_by_trigger funnel stage s = filter (triggered funnel stage) s.rules

abbrev coalesce : Option ℕ → ℕ → Option ℕ
coalesce none b = some b
coalesce (some a) b = some a

-- The SET clauses of `MoveStage` and of `MoveStageAndFunnel`.
abbrev pub set_stage : ℕ → ℕ → String → DealRow → DealRow
set_stage stage funnel status r = record r {
  stage_id = some stage;
  funnel_id = coalesce r.funnel_id funnel;
  status = some status;
}

abbrev pub set_stage_and_funnel : ℕ → ℕ → String → DealRow → DealRow
set_stage_and_funnel stage funnel status r = record r {
  stage_id = some stage;
  funnel_id = some funnel;
  status = some status;
}

abbrev pub update_deal : ℕ → (DealRow → DealRow) → DealStore → DealStore
update_deal id f s = record s { deals = change_row (λ (r : DealRow). r.id) id f s.deals }

abbrev pub insert_history : DealStageHistory → DealStore → DealStore
insert_history h s = record s { history = h ∷ s.history }
