-- ===== src/SignSessions/Guesses.antt =====
-- How many codes may be guessed on one session.
use kub.Base.{
  found-keyed, found-passes, ℕ, suc, ◌+◌, ◌≤◌, String, false, some, ◌==◌, ◌=ˢ◌, leb, ok, err, ◌≡◌,
  ◌≢◌, refl, sym, ◌∙◌, ap, inl, inr, arith, Bool-cases, keyed-changed, session_invalid_code,
}
use kub.SignSessions.Table.{
  SignSession, SignStore, session_key, session_by_id, session_by_hash, update_session, set_columns,
}
use kub.SignSessions.Service.{
  Crypto, Env, max_attempts, is_expired, expire_session, normalize_session_token, get_by_token,
}
use kub.SignSessions.Signing.{wrong_code, try_code, verify_session, verify}
use kub.SignSessions.Steps.{Request, serve, verify_code}
use kub.SignSessions.Steps.Codes.{get_by_token-cases}
use kub.SignSessions.Keys.{tried_at_most, IsValid}
use kub.SignSessions.Lifecycle.{serve-IsValid, session_after, Step-attempts}

verify_session-wrong :
    (c : Crypto) (e : Env) (r : SignSession) (given : String) (s : SignStore)
    → e.update_fails ≡ false
    → (verify_session c e r given s).0 ≡ err session_invalid_code
    → (verify_session c e r given s).1 ≡ update_session (wrong_code c r) s
unfolding verify_session expire_session try_code
verify_session-wrong c e r given s written wrong = elim (Bool-cases (r.status =ˢ "signed")) [
  | inl signed ↦ absurd (ground (arith, simp signed at wrong))
  | inr unsigned ↦ elim (Bool-cases (r.status =ˢ "expired")) [
    | inl gone ↦ elim (Bool-cases (leb max_attempts r.attempts)) [
      | inl many ↦ absurd (ground (arith, simp (unsigned, gone, many) at wrong))
      | inr few ↦ absurd (ground (arith, simp (unsigned, gone, few) at wrong))
    ]
    | inr live ↦ elim (Bool-cases (is_expired e r)) [
      | inl late ↦ absurd (ground (arith, simp (unsigned, live, late) at wrong))
      | inr in_time ↦ elim (Bool-cases (leb max_attempts r.attempts)) [
        | inl many ↦ absurd (ground (arith, simp (unsigned, live, in_time, many) at wrong))
        | inr few ↦ elim (Bool-cases (c.compare_code r.code_hash given)) [
          | inl right ↦
              absurd (ground (arith, simp (unsigned, live, in_time, few, right, written) at wrong))
          | inr other ↦ simp (unsigned, live, in_time, few, other, written) refl
        ]
      ]
    ]
  ]
]

get_by_token-error :
    (c : Crypto) (e : Env) (token : String) (s : SignStore)
    → (get_by_token c e token s).0 ≢ err session_invalid_code
unfolding get_by_token
get_by_token-error c e token s h = ground arith

-- A code that is refused as wrong has counted, where the database takes the update.
wrong_code_counts :
    (c : Crypto) (e : Env) (token given : String) (s : SignStore) {r : SignSession}
    → IsValid s
    → session_by_hash (c.hash_token (normalize_session_token c token)) s ≡ some r
    → e.update_fails ≡ false
    → (verify c e token given s).0 ≡ err session_invalid_code
    → (new : SignSession) × (session_by_id r.id (verify c e token given s).1 ≡ some new)
      × (new.attempts ≡ suc r.attempts)
unfolding verify
wrong_code_counts c e token given s {r} (o, few) found written wrong =
    elim (get_by_token-cases c e token s) [
      | inl (kept, failed) ↦ absurd (ground (arith, get_by_token-error c e token s))
      | inr (old, through, mine, hashed) ↦
          let alike : old ≡ r = ground (arith, mine, found) in
          let through' : get_by_token c e token s ≡ (ok r, s) =
            through ∙ ap (λ x. (ok x, s)) alike in
          let ends : verify c e token given s ≡ verify_session c e r given s = ground arith in
          let there =
            found-keyed session_key
              (λ (x : SignSession). x.token_hash =ˢ c.hash_token (normalize_session_token c token))
              s.sessions s.next_id o found in
          let done =
            verify_session-wrong c e r given s written (sym (ap (λ x. x.0) ends) ∙ wrong) in
          (
            set_columns (wrong_code c r) r,
            rw (ends, done)
                (keyed-changed session_key r.id (set_columns (wrong_code c r)) s.sessions
                  (λ x. refl) there),
            refl,
          )
    ]

-- Any requests of any callers, one after another, and the number of those that tried a code on the
-- session with key `k` and were answered that it is wrong.
pub data Run (c : Crypto) (k : ℕ) (s : SignStore) : ℕ → SignStore → Type 0 where
  start : {n : ℕ} {t : SignStore} → n ≡ 0 → t ≡ s → Run c k s n t
  go_on :
      {n : ℕ} {t u : SignStore} (e : Env) (q : Request)
      → Run c k s n t
      → u ≡ serve c e q t
      → Run c k s n u
  guess :
      {n m : ℕ} {t u : SignStore} (e : Env) (token given : String) (r : SignSession)
      → Run c k s n t
      → session_by_hash (c.hash_token (normalize_session_token c token)) t ≡ some r
      → r.id ≡ k
      → e.update_fails ≡ false
      → (verify c e token given t).0 ≡ err session_invalid_code
      → u ≡ (verify c e token given t).1
      → m ≡ n + 1
      → Run c k s m u

-- After `n` wrong codes the session counts at least as many.
abbrev Counts : ℕ → ℕ → SignStore → Type 0
Counts k n s = IsValid s × (r : SignSession) × (session_by_id k s ≡ some r) × (n ≤ r.attempts)

tried :
    (k : ℕ) (s : SignStore) {r : SignSession}
    → IsValid s
    → session_by_id k s ≡ some r
    → r.attempts ≤ 5
tried k s {r} (o, few) there = ground (
  arith,
  found-passes session_key (λ (x : SignSession). x.id == k) (tried_at_most 5) s.sessions few there,
)

never_forgets :
    (c : Crypto) (e : Env) (q : Request) (k : ℕ) (s : SignStore) {r : SignSession}
    → IsValid s
    → session_by_id k s ≡ some r
    → (new : SignSession) × (session_by_id k (serve c e q s) ≡ some new)
      × (r.attempts ≤ new.attempts)
never_forgets c e q k s {r} valid there = elim (session_after c e q s k valid there) [
  | inl kept ↦ (r, kept, omega arith)
  | inr (new, step, now) ↦ (new, now, (Step-attempts step (tried k s valid there)).0)
]

Run-Counts :
    (c : Crypto) (k : ℕ) (s : SignStore) {n : ℕ} {t : SignStore}
    → Counts k 0 s
    → Run c k s n t
    → Counts k n t
unfolding serve
Run-Counts c k s (valid, r, there, some_) (start none_ here) =
    rw (none_, here) (valid, r, there, some_)
Run-Counts c k s counts (go_on {t = t} e q before done) =
    let (valid, r, there, many) = Run-Counts c k s counts before in
    let (new, now, more) = never_forgets c e q k t valid there in
    rw done (serve-IsValid c e q t valid, new, now, omega (arith, many, more))
Run-Counts c k s counts (guess {t = t} e token given r before found mine written wrong done one) =
    let (valid, r', there, many) = Run-Counts c k s counts before in
    let (new, now, counted) = wrong_code_counts c e token given t valid found written wrong in
    let (o, few) = valid in
    let here =
      found-keyed session_key
        (λ (x : SignSession). x.token_hash =ˢ c.hash_token (normalize_session_token c token))
        t.sessions t.next_id o found in
    let alike : r ≡ r' = ground (arith, mine, here, there) in
    rw (done, one)
      (
        serve-IsValid c e (verify_code token given) t valid,
        new,
        rw⁻¹ mine now,
        omega (arith, ap (λ (x : SignSession). x.attempts) alike),
      )

-- Whatever else is asked meanwhile, at most five codes are ever answered as wrong on a session,
-- where the database takes the updates of those calls.
pub wrong_codes_bounded :
    (c : Crypto) (k : ℕ) (s : SignStore) {n : ℕ} {t : SignStore} {r : SignSession}
    → IsValid s
    → session_by_id k s ≡ some r
    → Run c k s n t
    → n ≤ 5
wrong_codes_bounded c k s {r = r} valid there run =
    let (valid', r', now, many) = Run-Counts c k s (valid, r, there, omega arith) run in
    omega (arith, many, tried k _ valid' now)
