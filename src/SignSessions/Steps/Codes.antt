-- ===== src/SignSessions/Steps/Codes.antt =====
-- The moves of a session by its token: the codes tried on it, and its signing.
use kub.Base.{
  suc, ◌<◌, String, Bool, true, false, some, find, ◌=ˢ◌, leb, ok, Error, is_ok, ◌≡◌, ◌⊎◌, refl, inl,
  inr, arith, Bool-cases, Option-cases, Result-cases, eq_iff,
}
use kub.SignSessions.Table.{SignSession, SignStore, session_by_hash}
use kub.SignSessions.Service.{
  Crypto, Env, max_attempts, is_expired, expire_session, is_document_changed,
  normalize_session_token, get_by_token,
}
use kub.SignSessions.Signing.{
  wrong_code, right_code, try_code, verify_session, verify, stamped, signed_now, finish_signing,
  sign,
}
use kub.SignSessions.Steps.{
  Request, verify_code, sign_token, expires, expires_late, guessed, verifies, signs, Effect, same,
  unchanged, updated, expired-Effect, expired_open,
}

guess_status :
    (c : Crypto) (old : SignSession)
    → ((wrong_code c old).status ≡ "expired") ⊎ ((wrong_code c old).status ≡ old.status)
guess_status c old = elim (Bool-cases (leb max_attempts (suc old.attempts))) [
  | inl last ↦ inl (simp last refl)
  | inr more ↦ inr (simp more refl)
]

-- A session that a code is tried on.
try_code-Effect :
    (c : Crypto) (e : Env) (token given : String) (p : SignSession → Bool) (old : SignSession)
    (s : SignStore)
    → find p s.sessions ≡ some old
    → old.token_hash ≡ c.hash_token (normalize_session_token c token)
    → (old.status =ˢ "signed") ≡ false
    → is_expired e old ≡ false
    → old.attempts < 5
    → Effect c e (verify_code token given) s (try_code c e old given s).1
unfolding try_code
try_code-Effect c e token given p old s found hashed unsigned in_time few =
    elim (Bool-cases e.update_fails) [
      | inl refused ↦ elim (Bool-cases (c.compare_code old.code_hash given)) [
        | inl right ↦ simp (right, refused) (unchanged c e _ refl)
        | inr wrong ↦ simp (wrong, refused) (unchanged c e _ refl)
      ]
      | inr written ↦ elim (Bool-cases (c.compare_code old.code_hash given)) [
        | inl right ↦
            simp (right, written)
              (updated c e _ p old (right_code c e old) found refl
                (verifies token given refl hashed unsigned in_time right refl refl) refl refl)
        | inr wrong ↦
            simp (wrong, written)
              (updated c e _ p old (wrong_code c old) found refl
                (guessed unsigned few refl (guess_status c old)) refl refl)
      ]
    ]

verify_session-Effect :
    (c : Crypto) (e : Env) (token given : String) (p : SignSession → Bool) (old : SignSession)
    (s : SignStore)
    → find p s.sessions ≡ some old
    → old.token_hash ≡ c.hash_token (normalize_session_token c token)
    → Effect c e (verify_code token given) s (verify_session c e old given s).1
unfolding verify_session expire_session
verify_session-Effect c e token given p old s found hashed =
    elim (Bool-cases (old.status =ˢ "signed")) [
      | inl signed ↦ simp signed (unchanged c e _ refl)
      | inr unsigned ↦ elim (Bool-cases (old.status =ˢ "expired")) [
        | inl gone ↦ simp (unsigned, gone) (unchanged c e _ refl)
        | inr live ↦ elim (Bool-cases (is_expired e old)) [
          | inl late ↦ simp (unsigned, live, late) (expired_open c e _ p old s found unsigned)
          | inr in_time ↦ elim (Bool-cases (leb max_attempts old.attempts)) [
            | inl many ↦
                simp (unsigned, live, in_time, many) (expired_open c e _ p old s found unsigned)
            | inr few ↦
                simp (unsigned, live, in_time, few)
                  (try_code-Effect c e token given p old s found hashed unsigned in_time
                    (ground arith))
          ]
        ]
      ]
    ]

-- How a session is found by its token.
pub get_by_token-cases :
    (c : Crypto) (e : Env) (token : String) (s : SignStore)
    → (((get_by_token c e token s).1 ≡ s) × (is_ok (get_by_token c e token s).0 ≡ false))
      ⊎ ((old : SignSession) × (get_by_token c e token s ≡ (ok old, s))
          × (session_by_hash (c.hash_token (normalize_session_token c token)) s ≡ some old)
          × (old.token_hash ≡ c.hash_token (normalize_session_token c token)))
unfolding get_by_token
get_by_token-cases c e token s =
    let hash = c.hash_token (normalize_session_token c token) in
    elim (Option-cases (session_by_hash hash s)) [
      | inl missing ↦ inl (ground arith, ground arith)
      | inr (old, found) ↦
          let m = get_by_token c e token s in
          let ends : ((m.1 ≡ s) × (is_ok m.0 ≡ false))
              ⊎ ((m ≡ (ok old, s)) × ((old.token_hash =ˢ hash) ≡ true)) =
            ground arith in
          elim ends [
            | inl closed ↦ inl closed
            | inr (through, equal) ↦ inr (old, through, found, (eq_iff old.token_hash hash).0 equal)
          ]
    ]

pub verify-Effect :
    (c : Crypto) (e : Env) (token given : String) (s : SignStore)
    → Effect c e (verify_code token given) s (verify c e token given s).1
unfolding verify
verify-Effect c e token given s = elim (get_by_token-cases c e token s) [
  | inl (kept, failed) ↦ unchanged c e _ (ground arith)
  | inr (old, through, found, hashed) ↦
      let ends : (verify c e token given s).1 ≡ (verify_session c e old given s).1 = ground arith in
      rw ends (verify_session-Effect c e token given _ old s found hashed)
]

pub finish_signing-Effect :
    (c : Crypto) (e : Env) (q : Request) (passed : Error → Error) (ip agent : String)
    (p : SignSession → Bool) (old : SignSession) (s : SignStore)
    → find p s.sessions ≡ some old
    → (old.status =ˢ "signed") ≡ false
    → is_expired e old ≡ false
    → Effect c e q s (finish_signing c e passed ip agent old s).1
unfolding finish_signing expire_session
finish_signing-Effect c e q passed ip agent p old s found unsigned in_time =
    elim (Result-cases e.artifact) [
      | inr (x, failed) ↦ elim (Bool-cases (is_document_changed x)) [
        | inl altered ↦
            simp (failed, altered)
              (expired-Effect c e q p old (stamped c e ip agent old) s found refl
                (expires unsigned refl refl))
        | inr other ↦ simp (failed, other) (unchanged c e q refl)
      ]
      | inl (made, ready) ↦ elim (Result-cases e.finalizing) [
        | inr (x, failed) ↦ simp (ready, failed) (unchanged c e q refl)
        | inl (final, done) ↦ elim (Bool-cases e.update_fails) [
          | inl refused ↦ simp (ready, done, refused) (same refl refl)
          | inr written ↦
              simp (ready, done, written)
                (updated c e q p old (signed_now c e ip agent old) found refl
                  (signs unsigned in_time refl refl) refl refl)
        ]
      ]
    ]

pub sign-Effect :
    (c : Crypto) (e : Env) (token ip agent : String) (s : SignStore)
    → Effect c e (sign_token token ip agent) s (sign c e token ip agent s).1
unfolding sign expire_session
sign-Effect c e token ip agent s = elim (get_by_token-cases c e token s) [
  | inl (kept, failed) ↦ unchanged c e _ (ground arith)
  | inr (old, through, found, hashed) ↦ elim (Bool-cases (is_expired e old)) [
    | inl late ↦
        let ends : (sign c e token ip agent s).1 ≡ (expire_session e old s).1 = ground arith in
        rw ends (
          expired-Effect c e _ _ old old s found refl
            (expires_late token ip agent refl hashed late refl))
    | inr in_time ↦ elim (Bool-cases (old.status =ˢ "signed")) [
      | inl signed ↦ unchanged c e _ (ground arith)
      | inr unsigned ↦ elim (Bool-cases (old.status =ˢ "verified")) [
        | inr unverified ↦ unchanged c e _ (ground arith)
        | inl verified ↦
            let ends : (sign c e token ip agent s).1
                ≡ (finish_signing c e (λ x. x) ip agent old s).1 =
              ground arith in
            rw ends (finish_signing-Effect c e _ (λ x. x) ip agent _ old s found unsigned in_time)
      ]
    ]
  ]
]
