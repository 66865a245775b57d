-- ===== src/Approvals/Table.antt =====
-- internal/models and internal/repositories, user_approval_request: the requests and their rows.
use kub.Base.{
  ℕ, suc, String, Option, none, some, List, [], ◌∷◌, ◌++◌, ◌=ˢ◌, if◌then◌else◌, Bool, keyed,
  change_row,
}

-- The fields that the payload of a creation shares with `models.User`.
pub record Profile : Type 0 where
  pub first_name : String
  pub last_name : String
  pub middle_name : String
  pub position : String
  pub email : String
  pub phone : String
  pub address : String
  pub extra_info : String
  pub company_name : String
  pub bin_iin : String
  pub role_id : ℕ
  pub branch_id : Option ℕ

pub record CreatePayload : Type 0 where
  pub profile : Profile
  pub password_hash : String

-- `UserApprovalFieldSnapshot`, whose fields an update may change.
pub record FieldSnapshot : Type 0 where
  pub first_name : String
  pub last_name : String
  pub middle_name : String
  pub phone : String
  pub address : String
  pub extra_info : String
  pub bin_iin : String

pub record UpdatePayload : Type 0 where
  pub fields : FieldSnapshot
  pub before : Option FieldSnapshot

-- `models.User` as `executeCreate` fills it.
pub record NewUser : Type 0 where
  pub profile : Profile
  pub password_hash : String
  pub is_verified : Bool
  pub is_active : Bool
  pub is_active_set : Bool

-- The row of a request; `request_data` is JSON.
pub record Approval : Type 0 where
  pub id : ℕ
  pub requester_id : ℕ
  pub action : String
  pub target_user_id : Option ℕ
  pub request_data : Option String
  pub status : String
  pub reviewer_id : Option ℕ
  pub reject_reason : Option String
  pub reviewed_at : Option ℕ

pub record Store (U : Type 0) : Type 0 where
  pub users : U
  pub requests : List Approval
  pub next_id : ℕ

abbrev pub approval_key : Approval → ℕ
approval_key r = r.id

abbrev pub is_pending : Approval → Bool
is_pending r = r.status =ˢ "pending"

-- The SET clause and the test of the status in the WHERE clause of `UpdateStatus`.
unfoldable pub resolve : String → ℕ → ℕ → Option String → Approval → Approval
resolve status reviewer now reason r =
    if is_pending r
    then record r {
      status = status;
      reviewer_id = some reviewer;
      reviewed_at = some now;
      reject_reason = reason;
    }
    else r

module _ {U : Type 0} where
  abbrev pub request_of : ℕ → Store U → Option Approval
  request_of id s = keyed approval_key id s.requests

  -- `Create`; the database numbers the row.
  abbrev pub insert_request : ℕ → String → Option ℕ → Option String → Store U → Store U
  insert_request requester action target payload s = record s {
    requests =
        s.requests
        ++ record {
          id = s.next_id;
          requester_id = requester;
          action = action;
          target_user_id = target;
          request_data = payload;
          status = "pending";
          reviewer_id = none;
          reject_reason = none;
          reviewed_at = none;
        }
          ∷ [];
    next_id = suc s.next_id;
  }

  abbrev pub update_status : ℕ → String → ℕ → ℕ → Option String → Store U → Store U
  update_status id status reviewer now reason s = record s {
    requests = change_row approval_key id (resolve status reviewer now reason) s.requests;
  }
