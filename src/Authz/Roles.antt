-- ===== src/Authz/Roles.antt =====
-- internal/authz/roles.go. A role is a number, as in the claims of a token; any number may arrive.
use kub.Base.{
  ℕ, String, Bool, true, false, Option, none, some, List, [], ◌∷◌, ◌==◌, ◌=ˢ◌, ◌&&◌, ◌||◌, not,
  if◌then◌else◌, is_none,
}

abbrev pub role_sales : ℕ
role_sales = 10

abbrev pub role_control : ℕ
role_control = 30

abbrev pub role_management : ℕ
role_management = 40

abbrev pub role_system_admin : ℕ
role_system_admin = 50

abbrev pub role_visa : ℕ
role_visa = 60

abbrev pub role_partner : ℕ
role_partner = 70

abbrev pub role_hr : ℕ
role_hr = 80

abbrev pub role_legal : ℕ
role_legal = 90

pub record RoleMeta : Type 0 where
  pub id : ℕ
  pub code : String
  pub legacy_name : String
  pub display_name : String
  pub is_system_role : Bool
  pub is_business_role : Bool
  pub is_read_only : Bool

abbrev business : ℕ → String → String → String → RoleMeta
business id code legacy display = record {
  id = id;
  code = code;
  legacy_name = legacy;
  display_name = display;
  is_system_role = false;
  is_business_role = true;
  is_read_only = false;
}

-- The entries of the map `Roles`; each is keyed by its own `ID`.
abbrev pub roles : List RoleMeta
roles =
    business role_sales "sales" "sales" "Менеджер по продажам (МОП)"
    ∷ record (business role_control "quality_control" "audit" "Отдел контроля качества") {
      is_read_only = true;
    }
    ∷ business role_management "management" "management" "Руководство"
    ∷ record {
      id = role_system_admin;
      code = "admin";
      legacy_name = "admin";
      display_name = "Администратор";
      is_system_role = true;
      is_business_role = false;
      is_read_only = false;
    }
    ∷ business role_visa "visa" "visa" "Визовый отдел"
    ∷ business role_partner "partner" "partner" "Менеджер по партнёрам"
    ∷ business role_hr "hr" "hr" "Отдел кадров"
    ∷ business role_legal "legal" "legal" "Юрист"
    ∷ []

-- `Roles[roleID]`.
abbrev pub lookup_role : List RoleMeta → ℕ → Option RoleMeta
lookup_role [] role = none
lookup_role (m ∷ ms) role = if role == m.id then some m else lookup_role ms role

unfoldable pub normalize_role_code : String → String
normalize_role_code code =
    if code =ˢ "system_admin" || code =ˢ "admin_staff" || code =ˢ "admin"
    then "admin"
    else if code =ˢ "leadership" || code =ˢ "manager" || code =ˢ "management"
    then "management"
    else if code =ˢ "control" || code =ˢ "audit" || code =ˢ "quality_control"
    then "quality_control"
    else code

abbrev code_of : Option RoleMeta → String
code_of none = ""
code_of (some m) = m.code

unfoldable pub role_code_by_id : ℕ → String
role_code_by_id role = code_of (lookup_role roles role)

unfoldable pub is_known_role : ℕ → Bool
is_known_role role = not (is_none (lookup_role roles role))

unfoldable pub is_elevated : ℕ → Bool
is_elevated role = role == role_management || role == role_control || role == role_system_admin

unfoldable pub is_read_only : ℕ → Bool
is_read_only role = role == role_control

unfoldable pub is_full_access : ℕ → Bool
is_full_access role = role == role_management || role == role_system_admin

unfoldable pub can_manage_system : ℕ → Bool
can_manage_system role = role == role_system_admin

unfoldable pub can_assign_roles : ℕ → Bool
can_assign_roles role = role == role_system_admin

unfoldable pub can_access_logs : ℕ → Bool
can_access_logs role = role == role_system_admin

unfoldable pub can_manage_integrations : ℕ → Bool
unfolding is_known_role
can_manage_integrations role = is_known_role role

unfoldable pub can_view_leadership_data : ℕ → Bool
can_view_leadership_data role = role == role_management || role == role_system_admin

unfoldable pub can_view_all_business_data : ℕ → Bool
can_view_all_business_data role =
    role == role_management || role == role_control || role == role_system_admin

unfoldable pub can_hard_delete_business_entity : ℕ → Bool
can_hard_delete_business_entity role = role == role_system_admin

abbrev may_archive : Option RoleMeta → Bool
may_archive none = false
may_archive (some m) = m.is_business_role && not m.is_read_only

unfoldable pub can_archive_business_entity : ℕ → Bool
can_archive_business_entity role =
    if role == role_system_admin then true else may_archive (lookup_role roles role)

unfoldable pub can_access_all_business_data_including_admin : ℕ → Bool
unfolding can_view_all_business_data
can_access_all_business_data_including_admin role =
    can_view_all_business_data role || role == role_system_admin

unfoldable pub can_view_users : ℕ → Bool
can_view_users role =
    role == role_management
    || role == role_system_admin
    || role == role_control
    || role == role_hr
    || role == role_legal

unfoldable pub can_process_documents : ℕ → Bool
can_process_documents role =
    role == role_management
    || role == role_system_admin
    || role == role_visa
    || role == role_partner
    || role == role_hr
    || role == role_legal

unfoldable pub can_work_with_leads : ℕ → Bool
can_work_with_leads role =
    role == role_sales
    || role == role_management
    || role == role_system_admin
    || role == role_visa
    || role == role_partner

unfoldable pub can_access_tasks : ℕ → Bool
can_access_tasks role =
    role == role_management
    || role == role_control
    || role == role_sales
    || role == role_system_admin
    || role == role_visa
    || role == role_partner
    || role == role_hr
    || role == role_legal

unfoldable pub can_use_chat : ℕ → Bool
can_use_chat role =
    if role == role_management || role == role_system_admin
    then true
    else role == role_control
      || role == role_sales
      || role == role_visa
      || role == role_partner
      || role == role_hr
      || role == role_legal

unfoldable pub can_manage_funnels : ℕ → Bool
can_manage_funnels role = role == role_system_admin
