-- ===== src/Authz/Examples.antt =====
-- Runs of internal/authz, and its theorems at concrete inputs.
use kub.Base.{List, [], ◌∷◌, trim_space, to_lower, has_suffix, ◌≡◌, refl, arith, eq_iff}
use kub.Authz.Roles.{normalize_role_code}
use kub.Authz.Scopes.{scope_rank, scope_own, scope_branch, scope_department}
use kub.Authz.Permissions.{
  Permission, permissions_for_role, base_role_permissions, has_permission, permission_scopes,
  get_scope, menu_sections_for_role, menu_items,
}
use kub.Authz.Separation.{canonical, deletion_is_admin}
use kub.Authz.Effective.{widest, rank-permission_scopes, sections, menu-sections}

deletion_is_admin_example : canonical "System_Admin" ≡ "admin"
unfolding has_permission permissions_for_role base_role_permissions normalize_role_code trim_space
    to_lower has_suffix
deletion_is_admin_example =
    deletion_is_admin "System_Admin" " leads.delete" refl
      (λ e. ground (arith, e, eq_iff "leads.delete" "users.delete")) refl

abbrev two_scopes : List Permission
two_scopes =
    record { action = "leads.view"; scope = scope_branch }
    ∷ record { action = "deals.view"; scope = scope_own }
    ∷ record { action = "leads.view"; scope = scope_department }
    ∷ []

rank-permission_scopes_example :
    scope_rank (get_scope (permission_scopes two_scopes) "leads.view")
    ≡ widest "leads.view" 0 two_scopes
rank-permission_scopes_example = rank-permission_scopes "leads.view" two_scopes

menu-sections_example : menu_sections_for_role "hr" ≡ sections (has_permission "hr") menu_items
menu-sections_example = menu-sections "hr"

hr_menu :
    sections (has_permission "hr") menu_items
    ≡ "feed" ∷ "documents" ∷ "tasks" ∷ "chat" ∷ "telephony" ∷ "settings.users" ∷ "settings.branches"
      ∷ []
unfolding has_permission permissions_for_role base_role_permissions normalize_role_code trim_space
    to_lower
hr_menu = refl
