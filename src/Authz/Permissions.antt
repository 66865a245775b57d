-- ===== src/Authz/Permissions.antt =====
-- internal/authz/permissions.go: the actions, the permissions of each role, and the look-ups.
use kub.Base.{
  ℕ, String, Bool, true, Option, none, some, List, [], ◌∷◌, ◌++◌, any, leb, ◌=ˢ◌, if◌then◌else◌,
  is_empty, is_none, trim_space, to_lower,
}
use kub.Authz.Roles.{normalize_role_code, role_code_by_id}
use kub.Authz.Scopes.{scope_rank, scope_own, scope_department, scope_related_departments, scope_all}

pub record UserContext : Type 0 where
  pub user_id : ℕ
  pub role_id : ℕ
  pub role_code : String
  pub department_id : Option ℕ
  pub department_code : String
  pub branch_id : Option ℕ

pub record Permission : Type 0 where
  pub action : String
  pub scope : String

abbrev pub all_actions : List String
all_actions =
    "feed.view" ∷ "leads.view" ∷ "leads.create" ∷ "leads.update" ∷ "leads.delete"
    ∷ "leads.transfer_manager" ∷ "leads.move_between_funnels" ∷ "deals.view" ∷ "deals.create"
    ∷ "deals.update" ∷ "deals.delete" ∷ "clients.view" ∷ "clients.create" ∷ "clients.update"
    ∷ "clients.delete" ∷ "clients.export" ∷ "documents.view" ∷ "documents.create"
    ∷ "documents.update" ∷ "documents.delete" ∷ "documents.send" ∷ "documents.download"
    ∷ "tasks.view" ∷ "tasks.create" ∷ "tasks.update" ∷ "tasks.delete" ∷ "users.view"
    ∷ "users.create" ∷ "users.update" ∷ "users.delete" ∷ "users.block" ∷ "users.move_department"
    ∷ "users.move_branch" ∷ "branches.view" ∷ "branches.create" ∷ "branches.update"
    ∷ "branches.delete" ∷ "funnels.view" ∷ "funnels.create" ∷ "funnels.update" ∷ "funnels.delete"
    ∷ "funnels.reorder" ∷ "reports.view" ∷ "chat.view" ∷ "chat.delete" ∷ "messenger.view"
    ∷ "telephony.view" ∷ "approvals.view" ∷ "approvals.create" ∷ "approvals.approve"
    ∷ "approvals.reject" ∷ []

unfoldable pub permissions_for_scope : String → List String → List Permission
permissions_for_scope scope [] = []
permissions_for_scope scope (action ∷ actions) =
    record { action = action; scope = scope } ∷ permissions_for_scope scope actions

-- The rows of `baseRolePermissions`, one to a role.
unfoldable pub admin_permissions : List Permission
unfolding permissions_for_scope
admin_permissions = permissions_for_scope scope_all all_actions

unfoldable pub management_permissions : List Permission
unfolding permissions_for_scope
management_permissions =
    permissions_for_scope scope_related_departments (
      "feed.view" ∷ "leads.view" ∷ "leads.create" ∷ "leads.update" ∷ "leads.transfer_manager"
      ∷ "leads.move_between_funnels" ∷ "deals.view" ∷ "deals.create" ∷ "deals.update"
      ∷ "clients.view" ∷ "clients.create" ∷ "clients.update" ∷ "documents.view" ∷ "documents.create"
      ∷ "documents.update" ∷ "documents.send" ∷ "tasks.view" ∷ "tasks.create" ∷ "tasks.update"
      ∷ "reports.view" ∷ "chat.view" ∷ "messenger.view" ∷ "telephony.view" ∷ "funnels.view"
      ∷ "users.view" ∷ "users.create" ∷ "users.update" ∷ "users.delete" ∷ "users.block"
      ∷ "branches.view" ∷ [])
    ++ record { action = "approvals.create"; scope = scope_own } ∷ []

unfoldable pub quality_control_permissions : List Permission
unfolding permissions_for_scope
quality_control_permissions =
    permissions_for_scope scope_related_departments (
      "feed.view" ∷ "leads.view" ∷ "deals.view" ∷ "clients.view" ∷ "tasks.view" ∷ "reports.view"
      ∷ "chat.view" ∷ "messenger.view" ∷ "telephony.view" ∷ "funnels.view" ∷ [])
    ++ permissions_for_scope scope_department (
        "documents.view" ∷ "documents.update" ∷ "documents.send" ∷ "documents.download"
        ∷ "approvals.create" ∷ [])

unfoldable pub sales_permissions : List Permission
unfolding permissions_for_scope
sales_permissions = permissions_for_scope scope_department (
    "feed.view" ∷ "leads.view" ∷ "leads.create" ∷ "leads.update" ∷ "deals.view" ∷ "deals.create"
    ∷ "deals.update" ∷ "clients.view" ∷ "clients.create" ∷ "clients.update" ∷ "documents.view"
    ∷ "documents.send" ∷ "tasks.view" ∷ "tasks.create" ∷ "tasks.update" ∷ "chat.view"
    ∷ "messenger.view" ∷ "telephony.view" ∷ "funnels.view" ∷ "approvals.create" ∷ [])

unfoldable pub visa_permissions : List Permission
unfolding permissions_for_scope
visa_permissions = permissions_for_scope scope_department (
    "feed.view" ∷ "leads.view" ∷ "leads.create" ∷ "leads.update" ∷ "clients.view" ∷ "clients.update"
    ∷ "documents.view" ∷ "documents.send" ∷ "tasks.view" ∷ "tasks.create" ∷ "tasks.update"
    ∷ "chat.view" ∷ "messenger.view" ∷ "telephony.view" ∷ "funnels.view" ∷ "approvals.create" ∷ [])

unfoldable pub partner_permissions : List Permission
unfolding permissions_for_scope
partner_permissions = permissions_for_scope scope_department (
    "feed.view" ∷ "leads.view" ∷ "leads.create" ∷ "leads.update" ∷ "clients.view" ∷ "clients.update"
    ∷ "documents.view" ∷ "tasks.view" ∷ "tasks.create" ∷ "tasks.update" ∷ "chat.view"
    ∷ "messenger.view" ∷ "telephony.view" ∷ "funnels.view" ∷ "approvals.create" ∷ [])

unfoldable pub hr_permissions : List Permission
unfolding permissions_for_scope
hr_permissions =
    permissions_for_scope scope_department (
      "feed.view" ∷ "users.view" ∷ "users.create" ∷ "users.update" ∷ "users.delete" ∷ "users.block"
      ∷ "documents.view" ∷ "documents.create" ∷ "documents.update" ∷ "documents.send"
      ∷ "documents.download" ∷ "tasks.view" ∷ "tasks.create" ∷ "tasks.update" ∷ "chat.view"
      ∷ "telephony.view" ∷ "approvals.create" ∷ [])
    ++ record { action = "branches.view"; scope = scope_all } ∷ []

unfoldable pub legal_permissions : List Permission
unfolding permissions_for_scope
legal_permissions =
    permissions_for_scope scope_department (
      "feed.view" ∷ "clients.view" ∷ "users.view" ∷ "users.create" ∷ "users.update" ∷ "users.delete"
      ∷ "users.block" ∷ "documents.view" ∷ "documents.create" ∷ "documents.update"
      ∷ "documents.send" ∷ "documents.download" ∷ "tasks.view" ∷ "tasks.create" ∷ "tasks.update"
      ∷ "chat.view" ∷ "telephony.view" ∷ "approvals.create" ∷ [])
    ++ record { action = "branches.view"; scope = scope_all } ∷ []

-- `baseRolePermissions[code]`; a code that is no key gives the empty slice.
unfoldable pub base_role_permissions : String → List Permission
unfolding admin_permissions management_permissions quality_control_permissions sales_permissions
    visa_permissions partner_permissions hr_permissions legal_permissions
base_role_permissions code =
    if code =ˢ "admin"
    then admin_permissions
    else if code =ˢ "management"
    then management_permissions
    else if code =ˢ "quality_control"
    then quality_control_permissions
    else if code =ˢ "sales"
    then sales_permissions
    else if code =ˢ "visa"
    then visa_permissions
    else if code =ˢ "partner"
    then partner_permissions
    else if code =ˢ "hr"
    then hr_permissions
    else if code =ˢ "legal"
    then legal_permissions
    else []

unfoldable pub permissions_for_role : String → List Permission
permissions_for_role code = base_role_permissions (normalize_role_code (trim_space (to_lower code)))

-- `map[string]string`: an action and its scope.
abbrev pub ScopeMap : Type 0
ScopeMap = List (String × String)

abbrev pub get_scope? : ScopeMap → String → Option String
get_scope? [] a = none
get_scope? ((b, s) ∷ m) a = if b =ˢ a then some s else get_scope? m a

-- `m[a]`, with Go's zero value on a missing key.
unfoldable pub get_scope : ScopeMap → String → String
get_scope m a = elim (get_scope? m a) [ none ↦ "" | some s ↦ s ]

unfoldable pub put_scope : String → String → ScopeMap → ScopeMap
put_scope a s [] = (a, s) ∷ []
put_scope a s ((b, t) ∷ m) = if b =ˢ a then (a, s) ∷ m else (b, t) ∷ put_scope a s m

-- The body of the loop of `PermissionScopes`: the wider scope stays, and of two equals the later.
unfoldable pub fold_scope : ScopeMap → Permission → ScopeMap
fold_scope out p =
    if leb (scope_rank (get_scope out p.action)) (scope_rank p.scope)
    then put_scope p.action p.scope out
    else out

unfoldable pub permission_scopes_from : ScopeMap → List Permission → ScopeMap
permission_scopes_from out [] = out
permission_scopes_from out (p ∷ ps) = permission_scopes_from (fold_scope out p) ps

unfoldable pub permission_scopes : List Permission → ScopeMap
permission_scopes perms = permission_scopes_from [] perms

unfoldable pub permission_scopes_for_role : String → ScopeMap
permission_scopes_for_role code = permission_scopes (permissions_for_role code)

unfoldable pub has_permission : String → String → Bool
has_permission code action =
    let wanted = trim_space action in
    if is_empty wanted then true else any (λ p. p.action =ˢ wanted) (permissions_for_role code)

unfoldable pub can : UserContext → String → Bool
can user action =
    let code = trim_space user.role_code in
    has_permission (if is_empty code then role_code_by_id user.role_id else code) action

abbrev pub menu_items : List (String × String)
menu_items =
    ("feed.view", "feed")
    ∷ ("reports.view", "reports")
    ∷ ("documents.view", "documents")
    ∷ ("tasks.view", "tasks")
    ∷ ("clients.view", "clients")
    ∷ ("chat.view", "chat")
    ∷ ("messenger.view", "messenger")
    ∷ ("telephony.view", "telephony")
    ∷ ("leads.view", "sales.leads")
    ∷ ("deals.view", "sales.deals")
    ∷ ("users.view", "settings.users")
    ∷ ("branches.view", "settings.branches")
    ∷ ("funnels.view", "settings.funnels")
    ∷ ("approvals.view", "approvals")
    ∷ []

abbrev pub menu_of : List (String × String) → ScopeMap → List String
menu_of [] scopes = []
menu_of ((action, key) ∷ items) scopes =
    let rest = menu_of items scopes in
    if is_none (get_scope? scopes action) then rest else key ∷ rest

unfoldable pub menu_sections_for_scopes : ScopeMap → List String
menu_sections_for_scopes scopes = menu_of menu_items scopes

unfoldable pub menu_sections_for_role : String → List String
menu_sections_for_role code = menu_sections_for_scopes (permission_scopes_for_role code)
