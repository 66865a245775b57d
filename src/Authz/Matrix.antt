-- ===== src/Authz/Matrix.antt =====
-- The tests on role numbers (roles.go) against the table of permissions (permissions.go).
use mathlib.Core.Path.{subst}
use kub.Base.{
  trim_space, to_lower, ℕ, String, Bool, false, ◌==◌, ◌&&◌, not, Bool-cases, ==_iff, ◌≡◌, refl, sym,
  inl, inr, arith, ◌≢◌, ◌↔◌,
}
use kub.Authz.Roles.{
  normalize_role_code, role_sales, role_control, role_management, role_system_admin, role_visa,
  role_partner, role_hr, role_legal, role_code_by_id, is_known_role, is_read_only,
  can_archive_business_entity, can_view_users, can_work_with_leads, can_access_tasks, can_use_chat,
  can_manage_funnels, can_hard_delete_business_entity,
}
use kub.Authz.Permissions.{has_permission, permissions_for_role, base_role_permissions}

-- A number that is none of the eight roles.
pub record IsUnknown (role : ℕ) : Type 0 where
  pub sales : (role == role_sales) ≡ false
  pub control : (role == role_control) ≡ false
  pub management : (role == role_management) ≡ false
  pub system_admin : (role == role_system_admin) ≡ false
  pub visa : (role == role_visa) ≡ false
  pub partner : (role == role_partner) ≡ false
  pub hr : (role == role_hr) ≡ false
  pub legal : (role == role_legal) ≡ false

-- One step of the split on a role.
at_role {ℓ} : (P : ℕ → Type ℓ) (k role : ℕ) → P k → ((role == k) ≡ false → P role) → P role
at_role P k role p rest = elim (Bool-cases (role == k)) [
  | inl e ↦ subst P (sym ((==_iff role k).0 e)) p
  | inr e ↦ rest e
]

-- To prove something of every number, prove it of each role and of a number that is none of them.
pub by_role {ℓ} :
    (P : ℕ → Type ℓ)
    → P role_sales
    → P role_control
    → P role_management
    → P role_system_admin
    → P role_visa
    → P role_partner
    → P role_hr
    → P role_legal
    → ((role : ℕ) → IsUnknown role → P role)
    → (role : ℕ) → P role
by_role P s c m a v p h l unknown role = at_role P role_sales role s λ es.
    at_role P role_control role c λ ec. at_role P role_management role m λ em.
      at_role P role_system_admin role a λ ea. at_role P role_visa role v λ ev.
        at_role P role_partner role p λ ep. at_role P role_hr role h λ eh.
          at_role P role_legal role l λ el. unknown role (record {
            sales = es;
            control = ec;
            management = em;
            system_admin = ea;
            visa = ev;
            partner = ep;
            hr = eh;
            legal = el;
          })

pub role_code-IsUnknown : (role : ℕ) → IsUnknown role → role_code_by_id role ≡ ""
unfolding role_code_by_id
role_code-IsUnknown role u = ground arith

-- Whether the table grants an action to the role with this number.
abbrev pub grants : ℕ → String → Bool
grants role action = has_permission (role_code_by_id role) action

-- What the tests and the table say of one number.
abbrev pub Agrees : ℕ → Type 0
Agrees role =
    (can_work_with_leads role ≡ grants role "leads.create")
    × (can_work_with_leads role ≡ grants role "leads.update")
    × (can_access_tasks role ≡ grants role "tasks.view")
    × (can_use_chat role ≡ grants role "chat.view")
    × (can_manage_funnels role ≡ grants role "funnels.update")
    × (can_hard_delete_business_entity role ≡ grants role "leads.delete")
    × (can_hard_delete_business_entity role ≡ grants role "deals.delete")

Agrees-unknown : (role : ℕ) → IsUnknown role → Agrees role
unfolding can_work_with_leads can_access_tasks can_use_chat can_manage_funnels
    can_hard_delete_business_entity has_permission permissions_for_role base_role_permissions
    normalize_role_code trim_space to_lower
Agrees-unknown role u = rw (role_code-IsUnknown role u) (ground arith)

-- The tests on role numbers for leads, tasks, chats, funnels and hard deletion say of every number
-- what the table of permissions says of the role with that number: they agree on creating and
-- updating leads, viewing tasks and chats, updating funnels, and deleting leads and deals.
pub role_tests_agree : (role : ℕ) → Agrees role
unfolding can_work_with_leads can_access_tasks can_use_chat can_manage_funnels
    can_hard_delete_business_entity has_permission permissions_for_role base_role_permissions
    normalize_role_code trim_space to_lower role_code_by_id
role_tests_agree =
    by_role Agrees (refl, refl, refl, refl, refl, refl, refl)
      (refl, refl, refl, refl, refl, refl, refl) (refl, refl, refl, refl, refl, refl, refl)
      (refl, refl, refl, refl, refl, refl, refl) (refl, refl, refl, refl, refl, refl, refl)
      (refl, refl, refl, refl, refl, refl, refl) (refl, refl, refl, refl, refl, refl, refl)
      (refl, refl, refl, refl, refl, refl, refl) Agrees-unknown

abbrev AgreesOnUsers : ℕ → Type 0
AgreesOnUsers role = (can_view_users role ≡ grants role "users.view") ↔ (role ≢ role_control)

AgreesOnUsers-unknown : (role : ℕ) → IsUnknown role → AgreesOnUsers role
unfolding can_view_users has_permission permissions_for_role base_role_permissions
    normalize_role_code trim_space to_lower
AgreesOnUsers-unknown role u =
    (λ _. ground arith, λ _. rw (role_code-IsUnknown role u) (ground arith))

-- The test `CanViewUsers` says of a number what the table says of it exactly when the number is not
-- that of quality control, which passes the test and has no permission to view users.
pub can_view_users_agrees :
    (role : ℕ) → (can_view_users role ≡ grants role "users.view") ↔ (role ≢ role_control)
unfolding can_view_users has_permission permissions_for_role base_role_permissions
    normalize_role_code trim_space to_lower role_code_by_id
can_view_users_agrees =
    by_role AgreesOnUsers (λ _. omega arith, λ _. refl) (λ e. cc, λ h. absurd (h refl))
      (λ _. omega arith, λ _. refl) (λ _. omega arith, λ _. refl) (λ _. omega arith, λ _. refl)
      (λ _. omega arith, λ _. refl) (λ _. omega arith, λ _. refl) (λ _. omega arith, λ _. refl)
      AgreesOnUsers-unknown

-- Exactly the known roles that are not read-only may archive.
pub can_archive_iff :
    (role : ℕ) → can_archive_business_entity role ≡ (is_known_role role && not (is_read_only role))
unfolding can_archive_business_entity is_known_role is_read_only
can_archive_iff role = ground arith
