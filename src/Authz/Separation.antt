-- ===== src/Authz/Separation.antt =====
-- What the table of permissions keeps apart, for every spelling of a role and of an action.
use kub.Base.{
  String, Bool, true, false, List, any, all, all-any, ◌=ˢ◌, if◌then◌else◌, is_empty, trim_space,
  to_lower, has_suffix, ◌≡◌, refl, sym, ◌∙◌, inl, inr, arith, eq_iff, Bool-cases, ◌≢◌, ◌||◌, not,
}
use kub.Authz.Roles.{normalize_role_code}
use kub.Authz.Permissions.{
  Permission, base_role_permissions, permissions_for_role, has_permission, admin_permissions,
  management_permissions, quality_control_permissions, sales_permissions, visa_permissions,
  partner_permissions, hr_permissions, legal_permissions,
}

-- The key under which the table is read.
abbrev pub canonical : String → String
canonical code = normalize_role_code (trim_space (to_lower code))

-- A test that all entries of every row pass.
abbrev pub AllRows : (Permission → Bool) → Type 0
AllRows p =
    (all p admin_permissions ≡ true)
    × (all p management_permissions ≡ true)
    × (all p quality_control_permissions ≡ true)
    × (all p sales_permissions ≡ true)
    × (all p visa_permissions ≡ true)
    × (all p partner_permissions ≡ true)
    × (all p hr_permissions ≡ true)
    × (all p legal_permissions ≡ true)

all-if :
    (p : Permission → Bool) (b : Bool) (xs ys : List Permission)
    → all p xs ≡ true
    → all p ys ≡ true
    → all p (if b then xs else ys) ≡ true
all-if p true xs ys h k = h
all-if p false xs ys h k = k

all-base_role_permissions :
    (p : Permission → Bool) (key : String) → AllRows p → all p (base_role_permissions key) ≡ true
unfolding base_role_permissions
all-base_role_permissions p key (a, m, q, s, v, r, h, l) = all-if p (key =ˢ "admin") _ _ a (
    all-if p (key =ˢ "management") _ _ m (
      all-if p (key =ˢ "quality_control") _ _ q (
        all-if p (key =ˢ "sales") _ _ s (
          all-if p (key =ˢ "visa") _ _ v (
            all-if p (key =ˢ "partner") _ _ r
              (all-if p (key =ˢ "hr") _ _ h (all-if p (key =ˢ "legal") _ _ l refl)))))))

all-AllRows :
    (p : Permission → Bool) (code : String) → AllRows p → all p (permissions_for_role code) ≡ true
unfolding permissions_for_role
all-AllRows p code rows = all-base_role_permissions p (canonical code) rows

-- What a grant comes from: an entry of the row with the trimmed action.
grant_entry :
    (p : Permission → Bool) (code action : String)
    → all p (permissions_for_role code) ≡ true
    → is_empty (trim_space action) ≡ false
    → has_permission code action ≡ true
    → (e : Permission) × (p e ≡ true) × (e.action ≡ trim_space action)
unfolding has_permission
grant_entry p code action rows given h =
    let (e, passes, same) =
      all-any p (λ e. e.action =ˢ trim_space action) (permissions_for_role code) rows
        (rw given at h) in
    (e, passes, (eq_iff e.action (trim_space action)).0 same)

abbrev in_admin : Permission → Bool
in_admin e = any (λ q. q.action =ˢ e.action) admin_permissions

AllRows-in_admin : AllRows in_admin
unfolding admin_permissions management_permissions quality_control_permissions sales_permissions
    visa_permissions partner_permissions hr_permissions legal_permissions
AllRows-in_admin = (refl, refl, refl, refl, refl, refl, refl, refl)

admin-row : permissions_for_role "admin" ≡ admin_permissions
unfolding permissions_for_role normalize_role_code base_role_permissions trim_space to_lower
admin-row = refl

-- Whoever has a permission, in any spelling of the role and of the action, an administrator has it.
pub admin_has_all :
    (code action : String)
    → has_permission code action ≡ true
    → has_permission "admin" action ≡ true
unfolding has_permission
admin_has_all code action h = elim (Bool-cases (is_empty (trim_space action))) [
  | inl none_asked ↦ rw none_asked
  | inr given ↦
      let (e, passes, same) =
        grant_entry in_admin code action (all-AllRows in_admin code AllRows-in_admin) given h in
      rw (given, admin-row) (rw same at passes)
]

-- The deletions that the table gives to a role other than the administrator's.
abbrev deletes_only_users : Permission → Bool
deletes_only_users e = not (has_suffix e.action ".delete") || e.action =ˢ "users.delete"

other_rows :
    (key : String)
    → (key =ˢ "admin") ≡ false
    → all deletes_only_users (base_role_permissions key) ≡ true
unfolding base_role_permissions has_suffix
other_rows key other = rw other (
    all-if deletes_only_users (key =ˢ "management") _ _ refl (
      all-if deletes_only_users (key =ˢ "quality_control") _ _ refl (
        all-if deletes_only_users (key =ˢ "sales") _ _ refl (
          all-if deletes_only_users (key =ˢ "visa") _ _ refl (
            all-if deletes_only_users (key =ˢ "partner") _ _ refl (
              all-if deletes_only_users (key =ˢ "hr") _ _ refl
                (all-if deletes_only_users (key =ˢ "legal") _ _ refl refl)))))))

deletes_only_users_lem :
    (e : Permission)
    → deletes_only_users e ≡ true
    → has_suffix e.action ".delete" ≡ true
    → e.action ≡ "users.delete"
deletes_only_users_lem e passes d = ground (arith, eq_iff e.action "users.delete")

is_empty-has_suffix : (t : String) → has_suffix t ".delete" ≡ true → is_empty t ≡ false
unfolding has_suffix
is_empty-has_suffix String.[] h = cc
is_empty-has_suffix (String.◌∷◌ c t) h = refl

-- Whoever may delete something other than a user, in any spelling of the role, is an administrator.
pub deletion_is_admin :
    (code action : String)
    → has_suffix (trim_space action) ".delete" ≡ true
    → trim_space action ≢ "users.delete"
    → has_permission code action ≡ true
    → canonical code ≡ "admin"
unfolding permissions_for_role
deletion_is_admin code action d u h = elim (Bool-cases (canonical code =ˢ "admin")) [
  | inl e ↦ (eq_iff (canonical code) "admin").0 e
  | inr other ↦
      let (e, passes, same) =
        grant_entry deletes_only_users code action (other_rows (canonical code) other)
          (is_empty-has_suffix (trim_space action) d) h in
      absurd (u (sym same ∙ deletes_only_users_lem e passes (rw same d)))
]
