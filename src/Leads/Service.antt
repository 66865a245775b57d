-- ===== src/Leads/Service.antt =====
-- internal/services/lead_service.go: the operations on one lead. A call of the repository may fail;
-- which ones do is the environment's choice, with the clock and the users, in a `Call`.
use kub.Base.{
  ℕ, String, Bool, false, Option, none, some, ◌==◌, ◌=ˢ◌, ◌&&◌, not, if◌then◌else◌, is_empty,
  is_none, Handler, pure, lift, or_fail, query, exec, fail_if, ◌>>=◌, ◌>>◌, read_only, forbidden,
  lead_not_found, status_not_via_update, invalid_transition, not_archived,
}
use kub.Authz.Roles.{
  role_sales, role_management, role_system_admin, is_read_only, can_hard_delete_business_entity,
  can_archive_business_entity,
}
use kub.Models.Users.{UserRepo}
use kub.Models.Leads.{Lead}
use kub.DataScope.{
  DataScope, ScopeKind, kind_all, kind_branch, kind_own, kind_forbidden, resolve_lead_scope,
  lead_matches_scope,
}
use kub.Leads.Rows.{ArchiveScope, active_only, all_rows}
use kub.Leads.Transitions.{lead_transitions, can_transition}
use kub.Leads.Table.{
  LeadStore, find_lead, insert_lead, update_lead, set_lead, set_status_of, set_archived,
  set_unarchived, delete_lead,
}

pub record Call : Type 0 where
  pub user_id : ℕ
  pub role_id : ℕ
  pub repo : Option UserRepo
  pub now : ℕ
  pub get_fails : Bool
  pub write_fails : Bool

abbrev pub Leads : Type 0 → Type 0
Leads A = Handler LeadStore A

-- The opening that the operations on one lead share: the lead is read, its absence is an error, and
-- the caller's scope is resolved.
unfoldable pub open_lead : Call → ArchiveScope → ℕ → Leads (Lead × DataScope)
open_lead c archive id = do
  found ← query c.get_fails (find_lead archive id)
  lead ← or_fail found lead_not_found
  scope ← lift (resolve_lead_scope c.user_id c.role_id c.repo)
  pure (lead, scope)

-- `roleID == authz.RoleSales && lead.OwnerID != userID`.
abbrev pub foreign_to_sales : Call → Lead → Bool
foreign_to_sales c lead = c.role_id == role_sales && not (lead.owner_id == c.user_id)

abbrev bind_owner : ℕ → Lead → Lead
bind_owner user lead = if lead.owner_id == 0 then record lead { owner_id = user } else lead

abbrev bind_scope : ScopeKind → DataScope → ℕ → Lead → Lead
bind_scope kind_own scope user lead = record lead { owner_id = user }
bind_scope kind_branch scope user lead =
    if is_none scope.branch_id then lead else record lead { branch_id = scope.branch_id }
bind_scope kind_all scope user lead = lead
bind_scope kind_forbidden scope user lead = lead

-- The lead that is checked and stored, but for an empty status: bound to the caller's branch or
-- owner by the scope, and owned by the caller where no owner is given.
unfoldable pub bound_lead : Call → DataScope → Lead → Lead
bound_lead c scope given = bind_owner c.user_id (bind_scope scope.kind scope c.user_id given)

unfoldable pub new_if_empty : Lead → Lead
new_if_empty lead = if is_empty lead.status then record lead { status = "new" } else lead

unfoldable pub create : Call → Lead → Leads ℕ
create c given = do
  fail_if (is_read_only c.role_id) read_only
  scope ← lift (resolve_lead_scope c.user_id c.role_id c.repo)
  let lead = bound_lead c scope given
  fail_if (foreign_to_sales c lead) forbidden
  fail_if (not (lead_matches_scope scope (some lead))) forbidden
  id ← query false (λ s. s.next_id)
  exec c.write_fails (insert_lead c.now (new_if_empty lead))
  pure id

-- The owner that `Update` writes: management and the administrator may change it.
abbrev pub updated_owner : Call → Lead → Lead → ℕ
updated_owner c lead current =
    if not (c.role_id == role_management) && not (c.role_id == role_system_admin)
    then current.owner_id
    else if lead.owner_id == 0
    then current.owner_id
    else lead.owner_id

abbrev pub text_or : String → String → String
text_or s d = if is_empty s then d else s

abbrev pub filled : Call → Lead → Lead → Lead
filled c lead current = record lead {
  owner_id = updated_owner c lead current;
  status = text_or lead.status current.status;
  title = text_or lead.title current.title;
  description = text_or lead.description current.description;
}

unfoldable pub update : Call → Lead → Leads (Unit {0})
update c lead = do
  fail_if (is_read_only c.role_id) read_only
  (current, scope) ← open_lead c active_only lead.id
  fail_if (not (lead_matches_scope scope (some current))) forbidden
  fail_if (foreign_to_sales c current) forbidden
  fail_if (not (is_empty lead.status) && not (lead.status =ˢ current.status)) status_not_via_update
  exec c.write_fails (update_lead lead.id (set_lead (filled c lead current)))

unfoldable pub update_status : Call → ℕ → String → Leads (Unit {0})
update_status c id to = do
  fail_if (is_read_only c.role_id) read_only
  (lead, scope) ← open_lead c active_only id
  fail_if (foreign_to_sales c lead) forbidden
  fail_if (not (lead_matches_scope scope (some lead))) forbidden
  fail_if (not (can_transition lead.status to lead_transitions)) invalid_transition
  exec c.write_fails (update_lead id (set_status_of to))

unfoldable pub delete : Call → ℕ → Leads (Unit {0})
delete c id = do
  fail_if (not (can_hard_delete_business_entity c.role_id)) forbidden
  (lead, scope) ← open_lead c all_rows id
  fail_if (not (lead_matches_scope scope (some lead))) forbidden
  exec c.write_fails (delete_lead id)

unfoldable pub archive_lead : Call → ℕ → String → Leads (Unit {0})
archive_lead c id reason = do
  fail_if (not (can_archive_business_entity c.role_id)) forbidden
  (lead, scope) ← open_lead c all_rows id
  fail_if (foreign_to_sales c lead) forbidden
  fail_if (not (lead_matches_scope scope (some lead))) forbidden
  if lead.is_archived
      then pure tt
      else exec c.write_fails (update_lead id (set_archived c.now c.user_id reason))

unfoldable pub unarchive_lead : Call → ℕ → Leads (Unit {0})
unarchive_lead c id = do
  fail_if (not (can_archive_business_entity c.role_id)) forbidden
  (lead, scope) ← open_lead c all_rows id
  fail_if (foreign_to_sales c lead) forbidden
  fail_if (not (lead_matches_scope scope (some lead))) forbidden
  fail_if (not lead.is_archived) not_archived
  exec c.write_fails (update_lead id set_unarchived)

unfoldable pub assign_owner : Call → ℕ → ℕ → Leads (Unit {0})
assign_owner c id assignee = do
  fail_if (not (c.role_id == role_management) && not (c.role_id == role_system_admin)) forbidden
  exec c.write_fails (update_lead id (λ r. record r { owner_id = some assignee }))

abbrev readable : Call → Option Lead → Leads (Option Lead)
readable c none = pure none
readable c (some lead) = do
  scope ← lift (resolve_lead_scope c.user_id c.role_id c.repo)
  fail_if (not (lead_matches_scope scope (some lead))) forbidden
  pure (some lead)

-- `GetByIDWithArchiveScope`, and `GetByID` at `active_only`: a missing lead is no error.
unfoldable pub get_by_id : Call → ArchiveScope → ℕ → Leads (Option Lead)
get_by_id c archive id = do found ← query c.get_fails (find_lead archive id); readable c found
