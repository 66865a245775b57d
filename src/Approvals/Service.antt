-- ===== src/Approvals/Service.antt =====
-- internal/services/user_approval_service.go over a `UserService`, which is an interface there too.
use kub.Base.{
  ℕ, String, Option, none, some, Bool, true, ◌=ˢ◌, not, is_empty, trim_space, if◌then◌else◌, Result,
  ok, err, Handler, pure, lift, or_fail, query, exec, fail_if, ◌>>=◌, ◌>>◌, not_found,
  approval_not_found, approval_already_resolved, request_incomplete,
}
use kub.Approvals.Table.{
  Profile, CreatePayload, FieldSnapshot, UpdatePayload, NewUser, Approval, Store, is_pending,
  request_of, insert_request, update_status,
}

-- The methods of `UserService` that the service calls, over a state of the accounts.
pub record UserService (U : Type 0) : Type 0 where
  pub get_user_by_id : ℕ → U → Result (Option FieldSnapshot)
  pub create_user : NewUser → Handler U (Unit {0})
  pub delete_user : ℕ → Handler U (Unit {0})
  pub apply_update_patch : ℕ → UpdatePayload → Handler U (Unit {0})

-- One call: the hash of a password, JSON, the clock, and which queries fail.
pub record Env (U : Type 0) : Type 0 where
  pub service : UserService U
  pub now : ℕ
  pub hash_password : String → Result String
  pub marshal_create : CreatePayload → Result String
  pub unmarshal_create : String → Result CreatePayload
  pub marshal_update : UpdatePayload → Result String
  pub unmarshal_update : String → Result UpdatePayload
  pub create_fails : Bool
  pub get_fails : Bool
  pub update_fails : Bool

abbrev pub Approving : Type 0 → Type 0 → Type 0
Approving U A = Handler (Store U) A

-- `err != nil || target == nil`.
unfoldable pub target : Result (Option FieldSnapshot) → Result FieldSnapshot
target (err x) = err not_found
target (ok none) = err not_found
target (ok (some user)) = ok user

abbrev pub new_user : CreatePayload → NewUser
new_user p = record {
  profile = p.profile;
  password_hash = p.password_hash;
  is_verified = true;
  is_active = true;
  is_active_set = true;
}

abbrev pub reject_reason : String → Option String
reject_reason reason = let r = trim_space reason in if is_empty r then none else some r

module _ {U : Type 0} where
  abbrev pub on_users : {A : Type 0} → Handler U A → Approving U A
  on_users m s = let (r, u) = m s.users in (r, record s { users = u })

  -- What is returned for a request that is made is its row, and is left out here.
  unfoldable pub request_create : Env U → ℕ → Profile → String → Approving U (Unit {0})
  request_create e requester user password = do
    hash ← lift (e.hash_password password)
    raw ← lift (e.marshal_create (record { profile = user; password_hash = hash }))
    exec e.create_fails (insert_request requester "create" none (some raw))

  unfoldable pub request_delete : Env U → ℕ → ℕ → Approving U (Unit {0})
  request_delete e requester id = do
    user ← (λ s. (target (e.service.get_user_by_id id s.users), s))
    exec e.create_fails (insert_request requester "delete" (some id) none)

  -- The patch is kept with the values before it.
  unfoldable pub request_update : Env U → ℕ → ℕ → FieldSnapshot → Approving U (Unit {0})
  request_update e requester id patch = do
    user ← (λ s. (target (e.service.get_user_by_id id s.users), s))
    raw ← lift (e.marshal_update (record { fields = patch; before = some user }))
    exec e.create_fails (insert_request requester "update" (some id) (some raw))

  unfoldable pub execute_create : Env U → Approval → Handler U (Unit {0})
  execute_create e req = do
    raw ← or_fail req.request_data request_incomplete
    payload ← lift (e.unmarshal_create raw)
    e.service.create_user (new_user payload)

  unfoldable pub execute_update : Env U → Approval → Handler U (Unit {0})
  execute_update e req = do
    id ← or_fail req.target_user_id request_incomplete
    raw ← or_fail req.request_data request_incomplete
    patch ← lift (e.unmarshal_update raw)
    e.service.apply_update_patch id patch

  -- An action of another name does nothing.
  unfoldable pub execute : Env U → Approval → Handler U (Unit {0})
  execute e req u =
      if req.action =ˢ "create"
      then execute_create e req u
      else if req.action =ˢ "delete"
      then (or_fail req.target_user_id request_incomplete >>= e.service.delete_user) u
      else if req.action =ˢ "update"
      then execute_update e req u
      else (ok tt, u)

  -- The request under review, while it is pending.
  unfoldable pub under_review : Env U → ℕ → Approving U Approval
  under_review e id = do
    found ← query e.get_fails (request_of id)
    req ← or_fail found approval_not_found
    fail_if (not (is_pending req)) approval_already_resolved
    pure req

  unfoldable pub approve : Env U → ℕ → ℕ → Approving U (Unit {0})
  approve e id reviewer = do
    req ← under_review e id
    on_users (execute e req)
    exec e.update_fails (update_status id "approved" reviewer e.now none)

  unfoldable pub reject : Env U → ℕ → ℕ → String → Approving U (Unit {0})
  reject e id reviewer reason = do
    req ← under_review e id
    exec e.update_fails (update_status id "rejected" reviewer e.now (reject_reason reason))
