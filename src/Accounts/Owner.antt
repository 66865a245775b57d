-- ===== src/Accounts/Owner.antt =====
-- A reset of a password that succeeds: what it finds, and whose password it sets.
use kub.Base.{
  ℕ, ◌≤◌, String, true, false, some, ◌==◌, ltb, if◌then◌else◌, trim_space, is_ok, ok, Result, ◌≡◌,
  ◌⊎◌, refl, inl, inr, arith, Bool-cases, Option-cases, Result-cases, ==_iff, keyed-changed,
  keyed-others,
}
use kub.Accounts.Table.{
  Account, PasswordReset, ResetStore, account_key, account_by_id, set_password, update_password,
  reset_by_token, mark_used, byte_length,
}
use kub.Accounts.Reset.{Env, reset_password}

-- What a reset that succeeds has found and has written.
pub data Done (e : Env) (token password : String) (s : ResetStore)
    (m : Result (Unit {0}) × ResetStore) : Type 0 where
  done :
      (r : PasswordReset) (owner : Account) (hash : String)
      → reset_by_token (trim_space token) s ≡ some r
      → r.used ≡ false
      → ltb r.expires_at e.now ≡ false
      → account_by_id r.user_id s ≡ some owner
      → owner.is_active ≡ true
      → ltb (byte_length (trim_space password)) 6 ≡ false
      → e.hash (trim_space password) ≡ ok hash
      → m ≡ (ok tt, mark_used r.token (update_password r.user_id hash s))
      → Done e token password s m

pub reset_password-Done :
    (e : Env) (token password : String) (s : ResetStore)
    → ((is_ok (reset_password e token password s).0 ≡ false)
        × ((reset_password e token password s).1.resets ≡ s.resets))
      ⊎ Done e token password s (reset_password e token password s)
unfolding reset_password
reset_password-Done e token password s =
    let m = reset_password e token password s in
    elim (Option-cases (reset_by_token (trim_space token) s)) [
      | inl missing ↦ inl (ground arith, ground arith)
      | inr (r, found) ↦ elim (Option-cases (account_by_id r.user_id s)) [
        | inl missing ↦ inl (ground arith, ground arith)
        | inr (owner, known) ↦ elim (Result-cases (e.hash (trim_space password))) [
          | inr (x, failed) ↦ inl (ground arith, ground arith)
          | inl (hash, hashed) ↦
              let ends : ((is_ok m.0 ≡ false) × (m.1.resets ≡ s.resets))
                  ⊎ ((m ≡ (ok tt, mark_used r.token (update_password r.user_id hash s)))
                      × (r.used ≡ false)
                      × (ltb r.expires_at e.now ≡ false)
                      × (owner.is_active ≡ true)
                      × (ltb (byte_length (trim_space password)) 6 ≡ false)) =
                ground arith in
              elim ends [
                | inl refused ↦ inl refused
                | inr (through, unused, in_time, active, long) ↦
                    inr (done r owner hash found unused in_time known active long hashed through)
              ]
        ]
      ]
    ]

account_after :
    (id k : ℕ) (hash : String) (s : ResetStore) {owner : Account}
    → account_by_id id s ≡ some owner
    → account_by_id k (update_password id hash s)
      ≡ (if k == id then some (set_password hash owner) else account_by_id k s)
account_after id k hash s {owner} known = elim (Bool-cases (k == id)) [
  | inl here ↦
      rw
        (
          (==_iff k id).0 here,
          keyed-changed account_key id (set_password hash) s.accounts (λ a. refl) known,
        )
        (simp ((==_iff id id).1 refl) refl)
  | inr other ↦ simp other (
      keyed-others account_key id k (set_password hash) s.accounts (λ a. refl)
        (λ e. absurd (ground (arith, e))))
]

-- A reset that succeeds had an unused token in its time, of an active account, and a password of at
-- least six bytes; it gives the account of the token that password's hash, and no other account any.
pub reset_changes_owner :
    (e : Env) (token password : String) (s : ResetStore) (k : ℕ)
    → is_ok (reset_password e token password s).0 ≡ true
    → (r : PasswordReset) × (owner : Account) × (hash : String) × (reset_by_token
          (trim_space token)
          s
        ≡ some r)
      × (r.used ≡ false)
      × (ltb r.expires_at e.now ≡ false)
      × (account_by_id r.user_id s ≡ some owner)
      × (owner.is_active ≡ true)
      × (6 ≤ byte_length (trim_space password))
      × (e.hash (trim_space password) ≡ ok hash)
      × (account_by_id k (reset_password e token password s).1
          ≡ (if k == r.user_id then some (set_password hash owner) else account_by_id k s))
reset_changes_owner e token password s k passes = elim (reset_password-Done e token password s) [
  | inl (failed, kept) ↦ absurd (ground arith)
  | inr (done r owner hash found unused in_time known active long hashed through) ↦ (
    r,
    owner,
    hash,
    found,
    unused,
    in_time,
    known,
    active,
    ground arith,
    hashed,
    rw through (account_after r.user_id k hash s known),
  )
]
