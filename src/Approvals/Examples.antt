-- ===== src/Approvals/Examples.antt =====
-- A request to delete account 9, approved, and then approved again.
use kub.Base.{
  ℕ, false, none, some, List, [], ◌∷◌, ok, err, ◌≡◌, ◌⊎◌, refl, remove_row, change_row,
  request_incomplete,
}
use kub.Approvals.Table.{Approval, Store, request_of, resolve}
use kub.Approvals.Service.{UserService, Env, execute, under_review, approve}
use kub.Approvals.Effects.{approve_it, reject_it, serve}
use kub.Approvals.Resolution.{
  resolved_stays, pending_resolved, accounts_kept_or_approved, ApprovedNow, RejectedNow, ByApproval,
}

-- The accounts as their keys.
abbrev keys : UserService (List ℕ)
keys = record {
  get_user_by_id = λ id u. ok none;
  create_user = λ user u. (ok tt, u);
  delete_user = λ id u. (ok tt, remove_row (λ (n : ℕ). n) id u);
  apply_update_patch = λ id patch u. (ok tt, u);
}

abbrev env : Env (List ℕ)
env = record {
  service = keys;
  now = 100;
  hash_password = λ p. ok p;
  marshal_create = λ p. ok "{}";
  unmarshal_create = λ raw. err request_incomplete;
  marshal_update = λ p. ok "{}";
  unmarshal_update = λ raw. err request_incomplete;
  create_fails = false;
  get_fails = false;
  update_fails = false;
}

abbrev deletion : ℕ → Approval
deletion id = record {
  id = id;
  requester_id = 3;
  action = "delete";
  target_user_id = some 9;
  request_data = none;
  status = "pending";
  reviewer_id = none;
  reject_reason = none;
  reviewed_at = none;
}

abbrev done : Approval
done = record (deletion 2) { status = "approved"; reviewer_id = some 1; reviewed_at = some 100 }

abbrev store : Store (List ℕ)
store = record { users = 7 ∷ 9 ∷ []; requests = deletion 1 ∷ done ∷ []; next_id = 3 }

deleted : (serve env (approve_it 1 1) store).users ≡ (7 ∷ [])
unfolding serve approve under_review execute remove_row
deleted = refl

resolved_stays_example : request_of 2 (serve env (reject_it 2 1 "late") store) ≡ some done
resolved_stays_example = resolved_stays env (reject_it 2 1 "late") store 2 refl refl

abbrev closed : Approval
closed = record (deletion 1) { status = "approved"; reviewer_id = some 1; reviewed_at = some 100 }

pending_resolved_example :
    ApprovedNow env (approve_it 1 1) store 1 (deletion 1) closed (serve env (approve_it 1 1) store)
    ⊎ RejectedNow env
        (approve_it 1 1)
        store
        1
        (deletion 1)
        closed
        (serve env (approve_it 1 1) store)
unfolding serve approve under_review execute resolve change_row
pending_resolved_example =
    pending_resolved env (approve_it 1 1) store 1 (deletion 1) closed refl refl refl refl

accounts_kept_or_approved_example :
    ((serve env (approve_it 1 1) store).users ≡ store.users)
    ⊎ ByApproval env (approve_it 1 1) store (serve env (approve_it 1 1) store)
accounts_kept_or_approved_example = accounts_kept_or_approved env (approve_it 1 1) store
