-- ===== src/Deals/Service.antt =====
-- internal/services/deal_service.go: the other operations on one deal. `Env.moving` holds the
-- failures of a call's queries: `deal` of the reading one, `move` of the writing one.
use kub.Base.{
  ℕ, String, Bool, true, false, Option, none, some, List, filter, ◌==◌, ◌&&◌, not, if◌then◌else◌,
  remove_row, pure, fail_if, lift, query, exec, ◌>>=◌, ◌>>◌, ok, err, Result, forbidden, read_only,
  invalid_state, deal_not_found, invalid_transition, not_archived,
}
use kub.Authz.Roles.{
  role_sales, is_read_only, can_hard_delete_business_entity, can_archive_business_entity,
}
use kub.Models.Deals.{Deal, DealStageHistory}
use kub.DataScope.{resolve_deal_scope, deal_matches_scope}
use kub.Leads.Rows.{ArchiveScope, active_only, all_rows}
use kub.Leads.Transitions.{deal_transitions, can_transition}
use kub.Deals.Table.{DealRow, DealStore, find_deal, update_deal}
use kub.Deals.Stages.{Env, Deals}

abbrev pub set_status_of : String → DealRow → DealRow
set_status_of to r = record r { status = some to }

abbrev pub set_archived : Bool → DealRow → DealRow
set_archived b r = record r { is_archived = b }

-- The row is there, since the operation has just read it.
abbrev pub delete_deal : ℕ → DealStore → DealStore
delete_deal id s = record s { deals = remove_row (λ (r : DealRow). r.id) id s.deals }

-- `ListHistory`, newest first.
abbrev pub history_of : ℕ → DealStore → List DealStageHistory
history_of id s = filter (λ (h : DealStageHistory). h.deal_id == id) s.history

-- `roleID == authz.RoleSales && deal.OwnerID != userID`, where the operation tests it.
abbrev pub foreign_to_sales : Env → Deal → Bool
foreign_to_sales e deal = e.role_id == role_sales && not (deal.owner_id == e.user_id)

unfoldable pub reach_deal : Env → Bool → Deal → Deals (Unit {0})
reach_deal e owned deal = do
  fail_if (owned && foreign_to_sales e deal) forbidden
  scope ← lift (resolve_deal_scope e.user_id e.role_id e.repo)
  fail_if (not (deal_matches_scope scope (some deal))) forbidden

-- What an operation does to a deal that is reached, and what it answers where there is none.
abbrev pub reached : {A : Type 0} → Env → Bool → Result A → (Deal → Deals A) → Option Deal → Deals A
reached e owned missing act none s = (missing, s)
reached e owned missing act (some deal) s = (reach_deal e owned deal >> act deal) s

unfoldable pub on_deal :
    {A : Type 0} → Env → ArchiveScope → Bool → Result A → ℕ → (Deal → Deals A) → Deals A
on_deal e archive owned missing id act = do
  found ← query e.moving.deal (find_deal archive id)
  reached e owned missing act found

-- What the operations do to the deal, once it is reached.
abbrev pub status_step : Env → ℕ → String → Deal → Deals (Unit {0})
status_step e id to deal =
    fail_if (not (can_transition deal.status to deal_transitions)) invalid_transition
    >> exec e.moving.move (update_deal id (set_status_of to))

abbrev pub archive_step : Env → ℕ → Deal → Deals (Unit {0})
archive_step e id deal s =
    if deal.is_archived
    then (ok tt, s)
    else exec e.moving.move (update_deal id (set_archived true)) s

abbrev pub unarchive_step : Env → ℕ → Deal → Deals (Unit {0})
unarchive_step e id deal =
    fail_if (not deal.is_archived) not_archived
    >> exec e.moving.move (update_deal id (set_archived false))

-- A missing deal is no error of `UpdateStatus`.
unfoldable pub update_status : Env → ℕ → String → Deals (Unit {0})
update_status e id to = do
  fail_if (is_read_only e.role_id) read_only
  on_deal e active_only true (ok tt) id (status_step e id to)

unfoldable pub delete : Env → ℕ → Deals (Unit {0})
delete e id = do
  fail_if (not (can_hard_delete_business_entity e.role_id)) forbidden
  on_deal e all_rows false (err deal_not_found) id (λ deal. exec e.moving.move (delete_deal id))

unfoldable pub archive_deal : Env → ℕ → Deals (Unit {0})
archive_deal e id = do
  fail_if (not (can_archive_business_entity e.role_id)) forbidden
  on_deal e all_rows true (err deal_not_found) id (archive_step e id)

unfoldable pub unarchive_deal : Env → ℕ → Deals (Unit {0})
unarchive_deal e id = do
  fail_if (not (can_archive_business_entity e.role_id)) forbidden
  on_deal e all_rows true (err deal_not_found) id (unarchive_step e id)

-- `GetByIDWithArchiveScope`, and `GetByID` at `active_only`.
unfoldable pub get_by_id : Env → ArchiveScope → ℕ → Deals (Option Deal)
get_by_id e archive id = on_deal e archive false (ok none) id (λ deal. pure (some deal))

unfoldable pub get_history : Env → ℕ → Deals (List DealStageHistory)
get_history e id = do
  fail_if (not e.stage_repo) invalid_state
  on_deal e active_only true (err deal_not_found) id
      (λ deal. query e.moving.history (history_of id))
