-- ===== src/Approvals/Resolution.antt =====
-- How a request for an approval comes to be resolved, and what becomes of the accounts.
use kub.Base.{
  ℕ, String, true, false, Option, none, some, ok, ◌≡◌, ◌⊎◌, sym, ap, ◌∙◌, inl, inr, arith,
  Bool-cases, ==_iff, ◌==◌, keyed-append, keyed-change_row, if◌then◌else◌,
}
use kub.Approvals.Table.{
  Approval, Store, is_pending, approval_key, request_of, resolve, update_status,
}
use kub.Approvals.Service.{Env, reject_reason, execute}
use kub.Approvals.Effects.{
  Request, approve_it, reject_it, serve, executed, Effect, same, asked, attempted, approved,
  rejected, resolve-id, resolve-closed, serve-Effect,
}

module _ {U : Type 0} (e : Env U) (q : Request) (s : Store U) where
  changed :
      (id k : ℕ) (status : String) (reviewer : ℕ) (reason : Option String) (t : Store U)
      {r : Approval}
      → request_of k t ≡ some r
      → request_of k (update_status id status reviewer e.now reason t)
        ≡ some (if k == id then resolve status reviewer e.now reason r else r)
  changed id k status reviewer reason t {r} row = ground (
    arith,
    keyed-change_row approval_key id k (resolve status reviewer e.now reason) t.requests
        (resolve-id status reviewer e.now reason),
  )

  closed_stays :
      (id k : ℕ) (status : String) (reviewer : ℕ) (reason : Option String) (t : Store U)
      {r : Approval}
      → request_of k t ≡ some r
      → is_pending r ≡ false
      → request_of k (update_status id status reviewer e.now reason t) ≡ some r
  closed_stays id k status reviewer reason t {r} row closed = ground (
    arith,
    changed id k status reviewer reason t {r = r} row,
    resolve-closed status reviewer e.now reason r closed,
  )

  kept_by :
      (k : ℕ) {r : Approval} (t : Store U)
      → request_of k s ≡ some r
      → is_pending r ≡ false
      → Effect e q s t
      → request_of k t ≡ some r
  kept_by k t row closed (same ends) = rw ends row
  kept_by k t row closed (asked requester action id payload ends) =
      rw ends (keyed-append approval_key k s.requests _ row)
  kept_by k t row closed (attempted id reviewer req is seen ends) = rw ends row
  kept_by k t row closed (approved id reviewer req is seen done ends) =
      rw ends (closed_stays id k "approved" reviewer none (executed e req s) row closed)
  kept_by k t row closed (rejected id reviewer reason req is seen ends) =
      rw ends (closed_stays id k "rejected" reviewer (reject_reason reason) s row closed)

  -- No request of the approval service changes a row that is no longer pending.
  pub resolved_stays :
      (k : ℕ) {r : Approval}
      → request_of k s ≡ some r
      → is_pending r ≡ false
      → request_of k (serve e q s) ≡ some r
  resolved_stays k row closed = kept_by k (serve e q s) row closed (serve-Effect e q s)

  abbrev pub ApprovedNow : ℕ → Approval → Approval → Store U → Type 0
  ApprovedNow k r r' t =
      (reviewer : ℕ) × (q ≡ approve_it k reviewer)
      × ((execute e r s.users).0 ≡ ok tt)
      × (t.users ≡ (execute e r s.users).1)
      × (r' ≡ resolve "approved" reviewer e.now none r)

  abbrev pub RejectedNow : ℕ → Approval → Approval → Store U → Type 0
  RejectedNow k r r' t =
      (reviewer : ℕ) × (reason : String) × (q ≡ reject_it k reviewer reason)
      × (t.users ≡ s.users)
      × (r' ≡ resolve "rejected" reviewer e.now (reject_reason reason) r)

  open_and_closed :
      {A : Type 0} (o : Option Approval) (r r' : Approval)
      → o ≡ some r
      → is_pending r ≡ true
      → o ≡ some r'
      → is_pending r' ≡ false
      → A
  open_and_closed o r r' row pending after closed =
      absurd (ground (arith, row, after, pending, closed))

  -- The row that was resolved is the one that was asked for.
  hit :
      (id k : ℕ) (status : String) (reviewer : ℕ) (reason : Option String) (t : Store U)
      (req r r' : Approval)
      → request_of id t ≡ some req
      → request_of k t ≡ some r
      → is_pending r ≡ true
      → request_of k (update_status id status reviewer e.now reason t) ≡ some r'
      → is_pending r' ≡ false
      → (id ≡ k) × (req ≡ r) × (r' ≡ resolve status reviewer e.now reason r)
  hit id k status reviewer reason t req r r' found row pending after closed =
      let now_is = changed id k status reviewer reason t {r = r} row in
      elim (Bool-cases (k == id)) [
        | inl hits ↦
            let other : k ≡ id = (==_iff k id).0 hits in
            let one : req ≡ r = ground (arith, other, found, row) in
            (sym other, one, ground (arith, hits, now_is, after))
        | inr misses ↦
            let stays : request_of k (update_status id status reviewer e.now reason t) ≡ some r =
              ground (arith, misses, now_is) in
            open_and_closed (request_of k (update_status id status reviewer e.now reason t)) r r'
              stays pending after closed
      ]

  resolved_by :
      (k : ℕ) (r r' : Approval) (t : Store U)
      → request_of k s ≡ some r
      → is_pending r ≡ true
      → request_of k t ≡ some r'
      → is_pending r' ≡ false
      → Effect e q s t
      → ApprovedNow k r r' t ⊎ RejectedNow k r r' t
  resolved_by k r r' t row pending after closed (same ends) =
      open_and_closed (request_of k s) r r' row pending (rw ends at after) closed
  resolved_by k r r' t row pending after closed (asked requester action id payload ends) =
      open_and_closed (request_of k t) r r' (rw ends (keyed-append approval_key k s.requests _ row))
        pending after closed
  resolved_by k r r' t row pending after closed (attempted id reviewer req is seen ends) =
      open_and_closed (request_of k s) r r' row pending (rw ends at after) closed
  resolved_by k r r' t row pending after closed (approved id reviewer req is seen done ends) =
      let (here, one, becomes) =
        hit id k "approved" reviewer none (executed e req s) req r r' seen.0 row pending
          (rw ends at after) closed in
      let users = ap (λ (x : Store U). x.users) ends ∙ ap (λ x. (execute e x s.users).1) one in
      inl (
        reviewer,
        is ∙ ap (λ n. approve_it n reviewer) here,
        sym (ap (λ x. (execute e x s.users).0) one) ∙ done,
        users,
        becomes,
      )
  resolved_by k r r' t row pending after closed (rejected id reviewer reason req is seen ends) =
      let (here, one, becomes) =
        hit id k "rejected" reviewer (reject_reason reason) s req r r' seen.0 row pending
          (rw ends at after) closed in
      inr (
        reviewer,
        reason,
        is ∙ ap (λ n. reject_it n reviewer reason) here,
        ap (λ (x : Store U). x.users) ends,
        becomes,
      )

  -- A pending row that a request resolves was either approved by a request that carried its action out
  -- without an error, or rejected by one that left the accounts alone.
  pub pending_resolved :
      (k : ℕ) (r r' : Approval)
      → request_of k s ≡ some r
      → is_pending r ≡ true
      → request_of k (serve e q s) ≡ some r'
      → is_pending r' ≡ false
      → ApprovedNow k r r' (serve e q s) ⊎ RejectedNow k r r' (serve e q s)
  pending_resolved k r r' row pending after closed =
      resolved_by k r r' (serve e q s) row pending after closed (serve-Effect e q s)

  -- The request that changes the accounts, and the row whose action it carries out.
  abbrev pub ByApproval : Store U → Type 0
  ByApproval t =
      (id : ℕ) × (reviewer : ℕ) × (req : Approval) × (q ≡ approve_it id reviewer)
      × (request_of id s ≡ some req)
      × (is_pending req ≡ true)
      × (t.users ≡ (execute e req s.users).1)

  users_by : (t : Store U) → Effect e q s t → (t.users ≡ s.users) ⊎ ByApproval t
  users_by t (same ends) = inl (ap (λ (x : Store U). x.users) ends)
  users_by t (asked requester action id payload ends) = inl (ap (λ (x : Store U). x.users) ends)
  users_by t (attempted id reviewer req is seen ends) =
      inr (id, reviewer, req, is, seen.0, seen.1, ap (λ (x : Store U). x.users) ends)
  users_by t (approved id reviewer req is seen done ends) =
      inr (id, reviewer, req, is, seen.0, seen.1, ap (λ (x : Store U). x.users) ends)
  users_by t (rejected id reviewer reason req is seen ends) =
      inl (ap (λ (x : Store U). x.users) ends)

  -- The accounts are changed by the approval service only through the approval of a pending row, and
  -- then as the action of that row does.
  pub accounts_kept_or_approved : ((serve e q s).users ≡ s.users) ⊎ ByApproval (serve e q s)
  accounts_kept_or_approved = users_by (serve e q s) (serve-Effect e q s)
