-- ===== src/Models/Leads.antt =====
-- internal/models/lead.go. `BranchName` is left out: a joined name that is only shown.
use kub.Base.{ℕ, String, Bool, Option}

pub record Lead : Type 0 where
  pub id : ℕ
  pub title : String
  pub description : String
  pub phone : String
  pub source : String
  pub created_at : ℕ
  pub owner_id : ℕ
  pub branch_id : Option ℕ
  pub department_id : Option ℕ
  pub funnel_id : Option ℕ
  pub status : String
  pub is_archived : Bool
  pub archived_at : Option ℕ
  pub archived_by : Option ℕ
  pub archive_reason : String
