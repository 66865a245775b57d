-- ===== src/Approvals/Effects.antt =====
-- What each request of the approval service may do to the rows and to the accounts.
use kub.Base.{
  goes_on, ℕ, String, Bool, true, false, Option, none, some, Error, Result, ok, err, ◌≡◌, ◌⊎◌, refl,
  inl, inr, arith, Bool-cases, Option-cases, Result-cases, exec, lift, ◌>>=◌, ◌>>◌, db,
  approval_not_found, approval_already_resolved,
}
use kub.Approvals.Table.{
  Profile, FieldSnapshot, Approval, Store, is_pending, request_of, resolve, insert_request,
  update_status,
}
use kub.Approvals.Service.{
  Env, Approving, target, reject_reason, request_create, request_delete, request_update, execute,
  under_review, approve, reject, on_users,
}

pub data Request : Type 0 where
  ask_create : ℕ → Profile → String → Request
  ask_delete : ℕ → ℕ → Request
  ask_update : ℕ → ℕ → FieldSnapshot → Request
  approve_it : ℕ → ℕ → Request
  reject_it : ℕ → ℕ → String → Request

pub resolve-id :
    (status : String) (reviewer now : ℕ) (reason : Option String) (x : Approval)
    → (resolve status reviewer now reason x).id ≡ x.id
unfolding resolve
resolve-id status reviewer now reason x = ground arith

pub resolve-closed :
    (status : String) (reviewer now : ℕ) (reason : Option String) (x : Approval)
    → is_pending x ≡ false
    → resolve status reviewer now reason x ≡ x
unfolding resolve
resolve-closed status reviewer now reason x closed = simp closed refl

module _ {U : Type 0} where
  unfoldable pub serve : Env U → Request → Store U → Store U
  serve e (ask_create requester user password) s = (request_create e requester user password s).1
  serve e (ask_delete requester id) s = (request_delete e requester id s).1
  serve e (ask_update requester id patch) s = (request_update e requester id patch s).1
  serve e (approve_it id reviewer) s = (approve e id reviewer s).1
  serve e (reject_it id reviewer reason) s = (reject e id reviewer reason s).1

  abbrev pub executed : Env U → Approval → Store U → Store U
  executed e req s = record s { users = (execute e req s.users).1 }

  abbrev pub approval : Env U → ℕ → ℕ → Approval → Store U → Store U
  approval e id reviewer req s = update_status id "approved" reviewer e.now none (executed e req s)

  abbrev pub rejection : Env U → ℕ → ℕ → String → Store U → Store U
  rejection e id reviewer reason s =
      update_status id "rejected" reviewer e.now (reject_reason reason) s

  abbrev pub Reviewed : ℕ → Approval → Store U → Type 0
  Reviewed id req s = (request_of id s ≡ some req) × (is_pending req ≡ true)

  -- What a request may do to the store.
  pub data Effect (e : Env U) (q : Request) (s t : Store U) : Type 0 where
    same : t ≡ s → Effect e q s t
    asked :
        (requester : ℕ) (action : String) (id : Option ℕ) (payload : Option String)
        → t ≡ insert_request requester action id payload s
        → Effect e q s t
    attempted :
        (id reviewer : ℕ) (req : Approval)
        → q ≡ approve_it id reviewer
        → Reviewed id req s
        → t ≡ executed e req s
        → Effect e q s t
    approved :
        (id reviewer : ℕ) (req : Approval)
        → q ≡ approve_it id reviewer
        → Reviewed id req s
        → (execute e req s.users).0 ≡ ok tt
        → t ≡ approval e id reviewer req s
        → Effect e q s t
    rejected :
        (id reviewer : ℕ) (reason : String) (req : Approval)
        → q ≡ reject_it id reviewer reason
        → Reviewed id req s
        → t ≡ rejection e id reviewer reason s
        → Effect e q s t

  under_review-cases :
      (e : Env U) (id : ℕ) (s : Store U)
      → ((under_review e id s).1 ≡ s)
        × (((x : Error) × ((under_review e id s).0 ≡ err x))
            ⊎ ((req : Approval) × ((under_review e id s).0 ≡ ok req) × Reviewed id req s))
  unfolding under_review
  under_review-cases e id s = elim (Bool-cases e.get_fails) [
    | inl failed ↦ (simp failed refl, inl (db, simp failed refl))
    | inr answered ↦ elim (Option-cases (request_of id s)) [
      | inl absent ↦
          (simp (answered, absent) refl, inl (approval_not_found, simp (answered, absent) refl))
      | inr (req, found) ↦ elim (Bool-cases (is_pending req)) [
        | inr closed ↦ (
          simp (answered, found, closed) refl,
          inl (approval_already_resolved, simp (answered, found, closed) refl),
        )
        | inl pending ↦ (
          simp (answered, found, pending) refl,
          inr (req, simp (answered, found, pending) refl, (found, pending)),
        )
      ]
    ]
  ]

  written :
      (e : Env U) (q : Request) (fails : Bool) (f : Store U → Store U) (s : Store U)
      → Effect e q s (f s)
      → Effect e q s s
      → Effect e q s (exec fails f s).1
  written e q true f s done kept = kept
  written e q false f s done kept = done

  reject-Effect :
      (e : Env U) (id reviewer : ℕ) (reason : String) (s : Store U)
      → Effect e (reject_it id reviewer reason) s (reject e id reviewer reason s).1
  unfolding reject
  reject-Effect e id reviewer reason s =
      let f = rejection e id reviewer reason in
      let rest = λ (req : Approval). exec e.update_fails f in
      let (kept, found) = under_review-cases e id s in
      elim found [
        | inl (x, closed) ↦ same (goes_on (under_review e id) rest s closed kept)
        | inr (req, open_one, seen) ↦ rw (goes_on (under_review e id) rest s open_one kept) (
            written e (reject_it id reviewer reason) e.update_fails f s
              (rejected id reviewer reason req refl seen refl) (same refl))
      ]

  finish_approval : Env U → ℕ → ℕ → Approving U (Unit {0})
  finish_approval e id reviewer =
      exec e.update_fails (update_status id "approved" reviewer e.now none)

  finished :
      (e : Env U) (id reviewer : ℕ) (req : Approval) (s : Store U)
      → Reviewed id req s
      → (execute e req s.users).0 ≡ ok tt
      → (fails : Bool)
      → Effect e
          (approve_it id reviewer)
          s
          (exec fails (update_status id "approved" reviewer e.now none) (executed e req s)).1
  finished e id reviewer req s seen done true = attempted id reviewer req refl seen refl
  finished e id reviewer req s seen done false = approved id reviewer req refl seen done refl

  reviewed-Effect :
      (e : Env U) (id reviewer : ℕ) (req : Approval) (s : Store U)
      → Reviewed id req s
      → Effect e
          (approve_it id reviewer)
          s
          ((on_users (execute e req) >> finish_approval e id reviewer) s).1
  unfolding finish_approval
  reviewed-Effect e id reviewer req s seen =
      let tried = attempted id reviewer req refl seen refl in
      elim (Result-cases (execute e req s.users).0) [
        | inr (x, failed) ↦
            rw
              (goes_on (on_users (execute e req)) (λ u. finish_approval e id reviewer) s failed
                refl)
              tried
        | inl (u, done) ↦
            rw (goes_on (on_users (execute e req)) (λ u. finish_approval e id reviewer) s done refl)
              (finished e id reviewer req s seen done e.update_fails)
      ]

  approve-Effect :
      (e : Env U) (id reviewer : ℕ) (s : Store U)
      → Effect e (approve_it id reviewer) s (approve e id reviewer s).1
  unfolding approve finish_approval
  approve-Effect e id reviewer s =
      let rest = λ (req : Approval). on_users (execute e req) >> finish_approval e id reviewer in
      let (kept, found) = under_review-cases e id s in
      elim found [
        | inl (x, closed) ↦ same (goes_on (under_review e id) rest s closed kept)
        | inr (req, open_one, seen) ↦
            rw (goes_on (under_review e id) rest s open_one kept)
              (reviewed-Effect e id reviewer req s seen)
      ]

  asking-Effect :
      (e : Env U) (q : Request) (fails : Bool) (requester : ℕ) (action : String) (id : Option ℕ)
      (payload : Option String) (s : Store U)
      → Effect e q s (exec fails (insert_request requester action id payload) s).1
  asking-Effect e q fails requester action id payload s =
      written e q fails (insert_request requester action id payload) s
        (asked requester action id payload refl) (same refl)

  lifted :
      {A : Type 0} (e : Env U) (q : Request) (r : Result A) (m : A → Approving U (Unit {0}))
      (s : Store U)
      → ((a : A) → Effect e q s (m a s).1)
      → Effect e q s ((lift r >>= m) s).1
  lifted e q (ok a) m s done = done a
  lifted e q (err x) m s done = same refl

  pub serve-Effect : (e : Env U) (q : Request) (s : Store U) → Effect e q s (serve e q s)
  unfolding serve request_create request_delete request_update
  serve-Effect e (ask_create requester user password) s =
      let q = ask_create requester user password in
      let put =
        λ (raw : String). exec e.create_fails (insert_request requester "create" none (some raw)) in
      let code =
        λ (hash : String). e.marshal_create (record { profile = user; password_hash = hash }) in
      lifted e q (e.hash_password password) (λ hash. lift (code hash) >>= put) s
        (λ hash.
          lifted e q (code hash) put s
            (λ raw. asking-Effect e q e.create_fails requester "create" none (some raw) s))
  serve-Effect e (ask_delete requester id) s =
      let q = ask_delete requester id in
      lifted e q (target (e.service.get_user_by_id id s.users))
        (λ user. exec e.create_fails (insert_request requester "delete" (some id) none)) s
        (λ user. asking-Effect e q e.create_fails requester "delete" (some id) none s)
  serve-Effect e (ask_update requester id patch) s =
      let q = ask_update requester id patch in
      let put = λ (raw : String).
        exec e.create_fails (insert_request requester "update" (some id) (some raw)) in
      let code = λ (user : FieldSnapshot).
        e.marshal_update (record { fields = patch; before = some user }) in
      lifted e q (target (e.service.get_user_by_id id s.users)) (λ user. lift (code user) >>= put) s
        (λ user.
          lifted e q (code user) put s
            (λ raw. asking-Effect e q e.create_fails requester "update" (some id) (some raw) s))
  serve-Effect e (approve_it id reviewer) s = approve-Effect e id reviewer s
  serve-Effect e (reject_it id reviewer reason) s = reject-Effect e id reviewer reason s
