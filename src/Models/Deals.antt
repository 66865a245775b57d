-- ===== src/Models/Deals.antt =====
-- internal/models/deal.go, funnel_stage.go and funnel_transition_rule.go: what moves a deal through
-- the stages of a funnel. A deal's client, amount, currency and archive fields take no part in that
-- and are left out.
use kub.Base.{ℕ, String, Bool, Option}

pub record Deal : Type 0 where
  pub id : ℕ
  pub owner_id : ℕ
  pub branch_id : Option ℕ
  pub department_id : Option ℕ
  pub funnel_id : Option ℕ
  pub stage_id : Option ℕ
  pub status : String
  pub is_archived : Bool

pub record FunnelStage : Type 0 where
  pub id : ℕ
  pub funnel_id : ℕ
  pub code : String
  pub kind : String  -- the field `Type`

pub record TransitionRule : Type 0 where
  pub id : ℕ
  pub name : String
  pub from_funnel_id : ℕ
  pub from_stage_id : ℕ
  pub to_funnel_id : ℕ
  pub to_stage_id : ℕ
  pub is_active : Bool

pub record DealStageHistory : Type 0 where
  pub deal_id : ℕ
  pub from_stage_id : Option ℕ
  pub to_stage_id : Option ℕ
  pub changed_by : Option ℕ
  pub comment : String
