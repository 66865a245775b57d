-- ===== src/Confirmations/Finding.antt =====
-- How a confirmation is found, and what one write does to the table.
use mathlib.Core.Path.{subst}
use kub.Base.{
  ℕ, ◌<◌, String, Bool, true, Option, none, some, List, [], ◌∷◌, ok, Error, ◌≡◌, ◌⊎◌, refl, ap, ◌∙◌,
  inl, inr, arith, Bool-cases, Option-cases, keyed, Ordered, Pointwise-refl, Pointwise-change_row,
}
use kub.Confirmations.Table.{
  Confirmation, ConfirmStore, confirmation_key, holds, later, latest, find_by_token_hash,
  update_row, expired,
}
use kub.Confirmations.Service.{Crypto, Env, expire_row, expired_with, hash_of, open_by_token}
use kub.Confirmations.Requests.{
  Request, Step, unmoved, noted, cancelled, runs_out, runs_out_late, guessed, confirmed, answered,
  Effect, moved,
}

later-cases :
    (x : Confirmation) (o : Option Confirmation) {r : Confirmation}
    → later x o ≡ some r
    → (r ≡ x) ⊎ (o ≡ some r)
later-cases x none h = inl (ground arith)
later-cases x (some w) h = ground arith

-- The row that `latest` gives passes the test, and is the one with its key.
pub latest-keyed :
    (p : Confirmation → Bool) (rows : List Confirmation) (n : ℕ) {r : Confirmation}
    → Ordered confirmation_key rows n
    → latest p rows ≡ some r
    → (p r ≡ true) × (r.id < n) × (keyed confirmation_key r.id rows ≡ some r)
unfolding latest
latest-keyed p [] n o h = absurd (ground arith)
latest-keyed p (x ∷ rows) n {r} (below, o) h =
    let beyond : latest p rows ≡ some r
        → (p r ≡ true) × (r.id < n) × (keyed confirmation_key r.id (x ∷ rows) ≡ some r) =
      λ found.
        let (passes, less, there) = latest-keyed p rows x.id o found in
        let under : r.id < n = omega arith in
        let at : keyed confirmation_key r.id (x ∷ rows) ≡ some r = ground arith in
        (passes, under, at) in
    elim (Bool-cases (p x)) [
      | inr out ↦ beyond (rw out at h)
      | inl in_ ↦ elim (later-cases x (latest p rows) (rw in_ at h)) [
        | inr found ↦ beyond found
        | inl one ↦ rw one (in_, below, ground arith)
      ]
    ]

-- No step changes a key.
pub Step-id :
    (c : Crypto) (e : Env) (q : Request) (x y : Confirmation) → Step c e q x y → y.id ≡ x.id
Step-id c e q x y (unmoved is) = rw is refl
Step-id c e q x y (noted m is) = rw is refl
Step-id c e q x y (cancelled open_ is) = rw is refl
Step-id c e q x y (runs_out open_ is) = rw is refl
Step-id c e q x y (runs_out_late token asked held late is) = rw is refl
Step-id c e q x y (guessed open_ few (inl is)) = rw is refl
Step-id c e q x y (guessed open_ few (inr is)) = rw is refl
Step-id c e q x y (confirmed m right is) = rw is refl
Step-id c e q x y (answered token action given m asked open_ early held (inl is)) = rw is refl
Step-id c e q x y (answered token action given m asked open_ early held (inr is)) = rw is refl

module _ (c : Crypto) (e : Env) (q : Request) (s : ConfirmStore) where
  pub unchanged : (t : ConfirmStore) → t.rows ≡ s.rows → t.next_id ≡ s.next_id → Effect c e q s t
  unchanged t rows bound =
      moved (rw rows (Pointwise-refl (Step c e q) (λ x. unmoved refl) s.rows)) bound

  module _ (o : Ordered confirmation_key s.rows s.next_id) where
    pub one_row :
        (old : Confirmation) (f : Confirmation → Confirmation)
        → keyed confirmation_key old.id s.rows ≡ some old
        → Step c e q old (f old)
        → Effect c e q s (update_row old.id f s)
    one_row old f found step =
        moved
          (Pointwise-change_row (Step c e q) confirmation_key (λ x. unmoved refl) f s.rows s.next_id
            o found step)
          refl

    pub expired-Effect :
        (A : Type 0) (old : Confirmation) (x : Error)
        → keyed confirmation_key old.id s.rows ≡ some old
        → Step c e q old (expired old)
        → Effect c e q s (expired_with {A = A} e old x s).1
    unfolding expire_row
    expired-Effect A old x found step = elim (Bool-cases e.expire_fails) [
      | inl refused ↦ simp refused (unchanged s refl refl)
      | inr written ↦ simp written (one_row old expired found step)
    ]

-- What the beginning of most operations finds.
pub open_by_token-store :
    (c : Crypto) (e : Env) (channel token : String) (s : ConfirmStore)
    → (open_by_token c e channel token s).1 ≡ s
unfolding open_by_token
open_by_token-store c e channel token s =
    elim (Option-cases (find_by_token_hash channel (hash_of c e token) s)) [
      | inl missing ↦ ground arith
      | inr (row, found) ↦ ground arith
    ]

pub open_by_token-row :
    (c : Crypto) (e : Env) (channel token : String) (s : ConfirmStore) {row : Confirmation}
    → (open_by_token c e channel token s).0 ≡ ok row
    → (find_by_token_hash channel (hash_of c e token) s ≡ some row)
      × (holds row.token_hash (hash_of c e token) ≡ true)
unfolding open_by_token
open_by_token-row c e channel token s {row} got =
    elim (Option-cases (find_by_token_hash channel (hash_of c e token) s)) [
      | inl missing ↦ absurd (ground (arith, missing, got))
      | inr (r, found) ↦
          let held : holds r.token_hash (hash_of c e token) ≡ true = ground (arith, found, got) in
          let one : r ≡ row = ground (arith, found, held, got) in
          (found ∙ ap some one, subst (λ x. holds x.token_hash (hash_of c e token) ≡ true) one held)
    ]
