-- ===== src/Accounts/SingleUse.antt =====
-- A reset token changes a password once.
use mathlib.Core.Path.{subst}
use kub.Base.{
  ◌≢◌, ℕ, ◌+◌, ◌≤◌, String, Bool, true, false, Option, none, some, List, [], ◌∷◌, find, ◌=ˢ◌,
  if◌then◌else◌, is_empty, trim_space, is_ok, ok, Result, ◌≡◌, ◌⊎◌, refl, sym, ◌∙◌, ap, inl, inr,
  arith, Bool-cases, Result-cases, eq_iff, eq_refl,
}
use kub.Accounts.Table.{
  Account, PasswordReset, ResetStore, account_by_email, has_token, reset_by_token, mark_rows,
  find-mark_rows,
}
use kub.Accounts.Reset.{Env, reset_ttl, send_token, request_reset, reset_password}
use kub.Accounts.Owner.{done, reset_password-Done}

-- The number of resets with one token that changed an account, whatever they answered, over any
-- requests, where every new token is one that the table does not hold yet and where the database
-- takes the marking of a token as used.
pub data Run (token : String) (s : ResetStore) : ℕ → ResetStore → Type 0 where
  start : {n : ℕ} {t : ResetStore} → n ≡ 0 → t ≡ s → Run token s n t
  asked :
      {n : ℕ} {t u : ResetStore} (e : Env) (email : String)
      → Run token s n t
      → ((fresh : String) → e.token ≡ ok fresh → reset_by_token fresh t ≡ none)
      → u ≡ (request_reset e email t).1
      → Run token s n u
  tried :
      {n : ℕ} {t u : ResetStore} (e : Env) (other password : String)
      → Run token s n t
      → u ≡ (reset_password e other password t).1
      → e.mark_fails ≡ false
      → (trim_space other ≢ token) ⊎ (u.accounts ≡ t.accounts)
      → Run token s n u
  changed :
      {n m : ℕ} {t u : ResetStore} (e : Env) (mine password : String)
      → Run token s n t
      → trim_space mine ≡ token
      → u ≡ (reset_password e mine password t).1
      → e.mark_fails ≡ false
      → u.accounts ≢ t.accounts
      → m ≡ n + 1
      → Run token s m u

-- After `n` resets with the token that changed an account, its row is marked used unless `n` is 0.
abbrev Spent : String → ℕ → ResetStore → Type 0
Spent token n s =
    (r : PasswordReset) × (reset_by_token token s ≡ some r) × (n ≤ (if r.used then 1 else 0))

-- The resets after a request for a token: as they were, or one more with the token drawn.
abbrev Asked : Env → ResetStore → ResetStore → Type 0
Asked e s t =
    (t.resets ≡ s.resets)
    ⊎ ((fresh : String) × (row : PasswordReset) × (e.token ≡ ok fresh)
        × (row.token ≡ fresh)
        × (t.resets ≡ row ∷ s.resets))

send_token-Asked :
    (e : Env) (user : Option Account) (s : ResetStore) → Asked e s (send_token e user s).1
send_token-Asked e none s = inl refl
send_token-Asked e (some user) s = elim (Bool-cases user.is_active) [
  | inr inactive ↦ inl (simp inactive refl)
  | inl active ↦ elim (Result-cases e.token) [
    | inr (x, failed) ↦ inl (simp (active, failed) refl)
    | inl (fresh, drawn) ↦ elim (Bool-cases e.create_fails) [
      | inl refused ↦ inl (simp (active, drawn, refused) refl)
      | inr written ↦ inr (
        fresh,
        record {
          id = s.next_id;
          user_id = user.id;
          token = fresh;
          expires_at = e.now + reset_ttl;
          used = false;
        },
        drawn,
        refl,
        simp (active, drawn, written) refl,
      )
    ]
  ]
]

request_reset-Asked :
    (e : Env) (email : String) (s : ResetStore) → Asked e s (request_reset e email s).1
unfolding request_reset
request_reset-Asked e email s = elim (Bool-cases (is_empty (trim_space (e.lower email)))) [
  | inl empty ↦ inl (simp empty refl)
  | inr full ↦ simp full (
      send_token-Asked e
        (if e.user_fails then none else account_by_email (trim_space (e.lower email)) s) s)
]

Spent-Asked :
    (e : Env) (token : String) (n : ℕ) (s t : ResetStore)
    → ((fresh : String) → e.token ≡ ok fresh → reset_by_token fresh s ≡ none)
    → Asked e s t
    → Spent token n s
    → Spent token n t
Spent-Asked e token n s t fresh_token (inl kept) (r, found, few) = (r, rw kept found, few)
Spent-Asked e token n s t fresh_token (inr (fresh, row, drawn, its, added)) (r, found, few) =
    let other : (row.token =ˢ token) ≡ false = elim (Bool-cases (row.token =ˢ token)) [
      | inr no_match ↦ no_match
      | inl match ↦
          let same : fresh ≡ token = sym its ∙ (eq_iff row.token token).0 match in
          absurd
            (ground (arith, subst (λ x. reset_by_token x s ≡ none) same (fresh_token fresh drawn)))
    ] in
    (r, rw added (simp other found), few)

-- Whether a row counts as used once the rows with a token are marked.
used_after :
    (b : Bool) (r : PasswordReset) (m : ℕ)
    → m ≤ (if b then 1 else if r.used then 1 else 0)
    → m ≤ (if (if b then record r { used = true } else r).used then 1 else 0)
used_after true r m few = few
used_after false r m few = few

Spent-marked :
    (token other : String) (m : ℕ) (s t : ResetStore) {r : PasswordReset}
    → t.resets ≡ mark_rows other s.resets
    → reset_by_token token s ≡ some r
    → m ≤ (if has_token other r then 1 else if r.used then 1 else 0)
    → Spent token m t
Spent-marked token other m s t {r} marked found few = (
  if has_token other r then record r { used = true } else r,
  rw marked (find-mark_rows other token s.resets found),
  used_after (has_token other r) r m few,
)

used_more :
    (a b : Bool) (n : ℕ) → n ≤ (if b then 1 else 0) → n ≤ (if a then 1 else if b then 1 else 0)
used_more true true n h = h
used_more true false n h = omega (arith, h)
used_more false b n h = h

Spent-tried :
    (e : Env) (token other password : String) (n : ℕ) (s : ResetStore)
    → Spent token n s
    → Spent token n (reset_password e other password s).1
Spent-tried e token other password n s (r, found, few) =
    elim (reset_password-Done e other password s) [
      | inl (failed, kept) ↦ (r, rw kept found, few)
      | inr (done r' owner hash mine unused in_time known active long hashed through) ↦
          Spent-marked token r'.token n s (reset_password e other password s).1
            (ap (λ (x : Result (Unit {0}) × ResetStore). x.1.resets) through) found
            (used_more (has_token r'.token r) r.used n few)
    ]

found_token :
    (token : String) (rows : List PasswordReset) {r : PasswordReset}
    → find (has_token token) rows ≡ some r
    → r.token ≡ token
found_token token [] h = absurd (ground arith)
found_token token (x ∷ rows) {r} h = elim (Bool-cases (has_token token x)) [
  | inl here ↦
      let same : x ≡ r = ground arith in
      sym (ap (λ (y : PasswordReset). y.token) same) ∙ (eq_iff x.token token).0 here
  | inr beyond ↦ found_token token rows (rw beyond at h)
]

-- With the marking taken, a reset that fails has not written the password.
failed_reset_keeps_accounts :
    (e : Env) (token password : String) (s : ResetStore)
    → e.mark_fails ≡ false
    → is_ok (reset_password e token password s).0 ≡ false
    → (reset_password e token password s).1.accounts ≡ s.accounts
unfolding reset_password
failed_reset_keeps_accounts e token password s marking failed = ground arith

Spent-changed :
    (e : Env) (mine password : String) (n : ℕ) (s : ResetStore)
    → e.mark_fails ≡ false
    → (reset_password e mine password s).1.accounts ≢ s.accounts
    → Spent (trim_space mine) n s
    → Spent (trim_space mine) (n + 1) (reset_password e mine password s).1
Spent-changed e mine password n s marking change (r, found, few) =
    elim (reset_password-Done e mine password s) [
      | inl (failed, kept) ↦
          absurd (change (failed_reset_keeps_accounts e mine password s marking failed))
      | inr (done r' owner hash its unused in_time known active long hashed through) ↦
          let same : r' ≡ r = ground (arith, its, found) in
          let fresh : r.used ≡ false = subst (λ (x : PasswordReset). x.used ≡ false) same unused in
          let none_yet : n ≤ 0 = simp fresh at few in
          let marks : has_token r'.token r ≡ true = rw same (eq_refl r.token) in
          Spent-marked (trim_space mine) r'.token (n + 1) s (reset_password e mine password s).1
            (ap (λ (x : Result (Unit {0}) × ResetStore). x.1.resets) through) found
            (simp marks (omega (arith, none_yet)))
    ]

Run-Spent :
    (token : String) (s : ResetStore) {n : ℕ} {t : ResetStore} {r : PasswordReset}
    → reset_by_token token s ≡ some r
    → Run token s n t
    → Spent token n t
Run-Spent token s {r = r} found (start zero_yet here) = rw (zero_yet, here) (r, found, omega arith)
Run-Spent token s found (asked {t = t} e email before fresh_token done_) = rw done_ (
    Spent-Asked e token _ t (request_reset e email t).1 fresh_token (request_reset-Asked e email t)
      (Run-Spent token s found before))
Run-Spent token s found (tried {t = t} e other password before done_ marking uncounted) =
    rw done_ (Spent-tried e token other password _ t (Run-Spent token s found before))
Run-Spent token s found
      (changed {n = n} {t = t} e mine password before its done_ marking change one_more) =
    rw (done_, one_more)
      (subst (λ x. Spent x (n + 1) (reset_password e mine password t).1) its
        (Spent-changed e mine password n t marking
          (subst (λ x. x.accounts ≢ t.accounts) done_ change)
          (subst (λ x. Spent x n t) (sym its) (Run-Spent token s found before))))

-- At most one reset with a token changes an account, whatever the resets answer and whatever else is
-- requested meanwhile, where no new token repeats one of the table and where the database takes the
-- marking of a token as used.
pub reset_token_single_use :
    (token : String) (s : ResetStore) {n : ℕ} {t : ResetStore} {r : PasswordReset}
    → reset_by_token token s ≡ some r
    → Run token s n t
    → n ≤ 1
reset_token_single_use token s found run =
    let (r, there, few) = Run-Spent token s found run in
    elim (Bool-cases r.used) [
      | inl used ↦ simp used at few
      | inr unused ↦ omega (arith, simp unused at few)
    ]
