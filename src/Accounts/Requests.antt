-- ===== src/Accounts/Requests.antt =====
-- What each request of the user verification may do to the accounts and to the records of codes.
use mathlib.Core.Path.{subst}
use kub.Base.{
  ℕ, suc, ◌+◌, ◌<◌, String, true, false, Option, none, some, ◌||◌, ltb, leb, trim_space, is_ok, ok,
  ◌≡◌, ◌⊎◌, refl, ap, inl, inr, arith, Bool-cases, Option-cases, Result-cases, keyed-key,
  change_row-twice,
}
use kub.Accounts.Table.{Account, account_key}
use kub.Accounts.Verification.{
  Verification, VerifyStore, Env, normalize_code, account_of, verification_key, latest_by_user,
  latest_pending, update_row, insert_verification, set_columns, verify_user, send, open_account,
  resent, renew, resend_existing, resend, nothing_pending, wrong_code, right_code, confirm_pending,
  confirm, max_resends, add_attempt, expire_now, mark_confirmed, ttl, max_confirm_attempts,
}

pub data Request : Type 0 where
  send_code : ℕ → String → Request
  resend_code : ℕ → Request
  confirm_code : ℕ → String → Request

unfoldable pub serve : Env → Request → VerifyStore → VerifyStore
serve e (send_code user email) s = (send e user email s).1
serve e (resend_code user) s = (resend e user s).1
serve e (confirm_code user code) s = (confirm e user code s).1

-- What a request may do to the accounts and to the records of codes.
pub data Effect (e : Env) (q : Request) (s t : VerifyStore) : Type 0 where
  same : t ≡ s → Effect e q s t
  sent :
      (user : ℕ) (hash : String)
      → t ≡ insert_verification user hash e.now (e.now + ttl e) s
      → Effect e q s t
  renewed :
      (v : Verification) (hash : String)
      → v.resend_count < 5
      → t ≡ update_row v.id (set_columns (resent e hash v)) s
      → Effect e q s t
  counted :
      (id : ℕ) (f : Verification → Verification)
      → ((v : Verification) → (f v).resend_count ≡ v.resend_count)
      → t ≡ update_row id f s
      → Effect e q s t
  confirmed_by :
      (user : ℕ) (given : String) (v : Verification)
      → q ≡ confirm_code user given
      → latest_pending user e.now s ≡ some v
      → e.compare_code v.code_hash (trim_space (normalize_code given)) ≡ true
      → t ≡ verify_user user (update_row v.id (mark_confirmed e.db_now) s)
      → Effect e q s t

send-Effect :
    (e : Env) (q : Request) (user : ℕ) (email : String) (s : VerifyStore)
    → Effect e q s (send e user email s).1
unfolding send
send-Effect e q user email s = elim (Result-cases e.code_hash) [
  | inr (x, failed) ↦ same (ground arith)
  | inl (hash, hashed) ↦
      let t = (send e user email s).1 in
      let ends : (t ≡ s) ⊎ (t ≡ insert_verification user hash e.now (e.now + ttl e) s) =
        ground arith in
      elim ends [ inl kept ↦ same kept | inr written ↦ sent user hash written ]
]

renew-Effect :
    (e : Env) (q : Request) (a : Account) (v : Verification) (s : VerifyStore)
    → Effect e q s (renew e a v s).1
unfolding renew
renew-Effect e q a v s = elim (Result-cases e.code_hash) [
  | inr (x, failed) ↦ same (ground arith)
  | inl (hash, hashed) ↦
      let t = (renew e a v s).1 in
      let ends : (t ≡ s)
          ⊎ ((t ≡ update_row v.id (set_columns (resent e hash v)) s)
              × (leb max_resends v.resend_count ≡ false)) =
        ground arith in
      elim ends [
        | inl kept ↦ same kept
        | inr (written, few) ↦ renewed v hash (ground arith) written
      ]
]

open_account-cases :
    (e : Env) (user : ℕ) (s : VerifyStore)
    → (((open_account e user s).1 ≡ s) × (is_ok (open_account e user s).0 ≡ false))
      ⊎ ((a : Account) × (open_account e user s ≡ (ok a, s)) × (account_of user s ≡ some a))
unfolding open_account
open_account-cases e user s = elim (Option-cases (account_of user s)) [
  | inl missing ↦ inl (ground arith, ground arith)
  | inr (a, found) ↦
      let m = open_account e user s in
      let ends : ((m.1 ≡ s) × (is_ok m.0 ≡ false)) ⊎ (m ≡ (ok a, s)) = ground arith in
      elim ends [ inl closed ↦ inl closed | inr through ↦ inr (a, through, found) ]
]

resend_existing-Effect :
    (e : Env) (q : Request) (a : Account) (v : Option Verification) (s : VerifyStore)
    → Effect e q s (resend_existing e a v s).1
resend_existing-Effect e q a none s = send-Effect e q a.id a.email s
resend_existing-Effect e q a (some v) s =
    elim (Bool-cases (v.confirmed || ltb v.expires_at e.now)) [
      | inl over ↦ simp over (send-Effect e q a.id a.email s)
      | inr live ↦ simp live (renew-Effect e q a v s)
    ]

resend-Effect :
    (e : Env) (user : ℕ) (s : VerifyStore) → Effect e (resend_code user) s (resend e user s).1
unfolding resend
resend-Effect e user s = elim (open_account-cases e user s) [
  | inl (kept, failed) ↦ same (ground arith)
  | inr (a, through, found) ↦
      let t = (resend e user s).1 in
      let rest = (resend_existing e a (latest_by_user a.id s) s).1 in
      let ends : (t ≡ s) ⊎ (t ≡ rest) = ground arith in
      elim ends [
        | inl kept ↦ same kept
        | inr on ↦ rw on (resend_existing-Effect e (resend_code user) a (latest_by_user a.id s) s)
      ]
]

nothing_pending-store :
    (e : Env) (v : Option Verification) (s : VerifyStore) → (nothing_pending e v s).1 ≡ s
nothing_pending-store e none s = refl
nothing_pending-store e (some v) s = refl

wrong_code-Effect :
    (e : Env) (q : Request) (v : Verification) (s : VerifyStore) → Effect e q s (wrong_code e v s).1
unfolding wrong_code
wrong_code-Effect e q v s = elim (Bool-cases e.increment_fails) [
  | inl refused ↦ simp refused (same refl)
  | inr counts ↦ elim (Bool-cases (leb max_confirm_attempts (suc v.attempts))) [
    | inr more ↦ simp (counts, more) (counted v.id add_attempt (λ x. refl) refl)
    | inl last ↦ elim (Bool-cases e.expire_fails) [
      | inl kept ↦ simp (counts, last, kept) (counted v.id add_attempt (λ x. refl) refl)
      | inr expired ↦
          simp (counts, last, expired)
            (counted v.id (λ x. expire_now e.db_now (add_attempt x)) (λ x. refl)
              (ap (λ rows. record s { verifications = rows })
                (change_row-twice verification_key v.id (expire_now e.db_now) add_attempt
                  s.verifications (λ x. refl))))
    ]
  ]
]

right_code-Effect :
    (e : Env) (user : ℕ) (given : String) (v : Verification) (s : VerifyStore)
    → latest_pending user e.now s ≡ some v
    → e.compare_code v.code_hash (trim_space (normalize_code given)) ≡ true
    → Effect e (confirm_code user given) s (right_code e user v s).1
unfolding right_code
right_code-Effect e user given v s found right = elim (Bool-cases e.mark_fails) [
  | inl refused ↦ simp refused (same refl)
  | inr marked ↦ elim (Bool-cases e.verify_fails) [
    | inl refused ↦ simp (marked, refused) (counted v.id (mark_confirmed e.db_now) (λ x. refl) refl)
    | inr written ↦ simp (marked, written) (confirmed_by user given v refl found right refl)
  ]
]

confirm_pending-Effect :
    (e : Env) (user : ℕ) (given : String) (pending : Option Verification) (s : VerifyStore)
    → latest_pending user e.now s ≡ pending
    → Effect e
        (confirm_code user given)
        s
        (confirm_pending e user (normalize_code given) pending s).1
confirm_pending-Effect e user given none s found =
    same (nothing_pending-store e (latest_by_user user s) s)
confirm_pending-Effect e user given (some v) s found = elim (Bool-cases v.confirmed) [
  | inl over ↦ simp over (same (nothing_pending-store e (latest_by_user user s) s))
  | inr open_ ↦ elim (Bool-cases (ltb v.expires_at e.now)) [
    | inl late ↦ simp (open_, late) (same refl)
    | inr in_time ↦
        elim (Bool-cases (e.compare_code v.code_hash (trim_space (normalize_code given)))) [
          | inl right ↦
              simp (open_, in_time, right) (right_code-Effect e user given v s found right)
          | inr wrong ↦
              simp (open_, in_time, wrong) (wrong_code-Effect e (confirm_code user given) v s)
        ]
  ]
]

confirm-Effect :
    (e : Env) (user : ℕ) (given : String) (s : VerifyStore)
    → Effect e (confirm_code user given) s (confirm e user given s).1
unfolding confirm
confirm-Effect e user given s = elim (open_account-cases e user s) [
  | inl (kept, failed) ↦ same (ground arith)
  | inr (a, through, found) ↦
      let t = (confirm e user given s).1 in
      let rest =
        (confirm_pending e a.id (normalize_code given) (latest_pending a.id e.now s) s).1 in
      let ends : (t ≡ s) ⊎ (t ≡ rest) = ground arith in
      let mine : a.id ≡ user = keyed-key account_key user s.accounts found in
      elim ends [
        | inl kept ↦ same kept
        | inr on ↦ rw on (
            subst (λ k. Effect e (confirm_code k given) s rest) mine
              (confirm_pending-Effect e a.id given (latest_pending a.id e.now s) s refl))
      ]
]

pub serve-Effect : (e : Env) (q : Request) (s : VerifyStore) → Effect e q s (serve e q s)
unfolding serve
serve-Effect e (send_code user email) s = send-Effect e (send_code user email) user email s
serve-Effect e (resend_code user) s = resend-Effect e user s
serve-Effect e (confirm_code user code) s = confirm-Effect e user code s
