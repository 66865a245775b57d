-- ===== src/Models/Users.antt =====
-- internal/models/user.go, and the calls of repositories.UserRepository that scopes are resolved by.
use kub.Base.{ℕ, String, Bool, Option, Result}

-- The fields of models.User that decide what an account may do and where it is reached.
pub record User : Type 0 where
  pub id : ℕ
  pub role_id : ℕ
  pub branch_id : Option ℕ
  pub department_id : Option ℕ
  pub email : String
  pub phone : String
  pub is_active : Bool
  pub is_verified : Bool

-- Any implementation of the interface, at one moment: each call answers, or fails.
pub record UserRepo : Type 0 where
  pub get_by_id : ℕ → Result (Option User)
  pub get_department_id_by_code : String → Result (Option ℕ)
