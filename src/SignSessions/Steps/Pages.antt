-- ===== src/SignSessions/Steps/Pages.antt =====
-- The moves of a session by its key: the opening of its page, and the signing there.
use kub.Base.{
  ℕ, suc, ◌<◌, String, Bool, false, some, find, ◌=ˢ◌, leb, ok, is_ok, ◌≡◌, ◌⊎◌, refl, ◌∙◌, ap, inl,
  inr, arith, Bool-cases, Option-cases, change_row-twice,
}
use kub.SignSessions.Table.{
  SignSession, SignStore, session_key, session_by_id, set_columns, add_attempt,
}
use kub.SignSessions.Service.{
  Crypto, Env, max_attempts, is_expired, expire_session, finalize_error, normalize_session_token,
}
use kub.SignSessions.Signing.{
  finish_signing, wrong_token, validate_session, validate_by_id_token, sign_by_id,
}
use kub.SignSessions.Steps.{
  Request, open_page, sign_page, expires, guessed, Effect, changed, unchanged, expired_open,
}
use kub.SignSessions.Steps.Codes.{finish_signing-Effect}

wrong_token-Effect :
    (c : Crypto) (e : Env) (q : Request) (p : SignSession → Bool) (old : SignSession)
    (s : SignStore)
    → find p s.sessions ≡ some old
    → (old.status =ˢ "signed") ≡ false
    → old.attempts < 5
    → Effect c e q s (wrong_token c e old s).1
unfolding wrong_token expire_session
wrong_token-Effect c e q p old s found unsigned few = elim (Bool-cases e.increment_fails) [
  | inl refused ↦ simp refused (unchanged c e q refl)
  | inr counted ↦ elim (Bool-cases (leb max_attempts (suc old.attempts))) [
    | inr more ↦
        simp (counted, more)
          (changed p old add_attempt found (λ r. refl) (guessed unsigned few refl (inr refl)) refl
            refl)
    | inl last ↦ elim (Bool-cases e.update_fails) [
      | inl unwritten ↦
          simp (counted, last, unwritten)
            (changed p old add_attempt found (λ r. refl) (guessed unsigned few refl (inr refl)) refl
              refl)
      | inr written ↦
          simp (counted, last, written)
            (changed p old (λ r. set_columns (record old { status = "expired" }) (add_attempt r))
              found (λ r. refl) (expires unsigned refl refl)
              (change_row-twice session_key old.id (set_columns (record old { status = "expired" }))
                add_attempt s.sessions (λ r. refl))
              refl)
    ]
  ]
]

wrong_token-fails :
    (c : Crypto) (e : Env) (old : SignSession) (s : SignStore)
    → is_ok (wrong_token c e old s).0 ≡ false
unfolding wrong_token expire_session
wrong_token-fails c e old s = elim (Bool-cases e.increment_fails) [
  | inl refused ↦ simp refused refl
  | inr counted ↦ elim (Bool-cases (leb max_attempts (suc old.attempts))) [
    | inl last ↦ simp (counted, last) refl
    | inr more ↦ simp (counted, more) refl
  ]
]

-- A session whose page is opened is valid, or the opening ends in an error.
validate_session-cases :
    (c : Crypto) (e : Env) (q : Request) (token : String) (p : SignSession → Bool)
    (old : SignSession) (s : SignStore)
    → find p s.sessions ≡ some old
    → (Effect c e q s (validate_session c e old token s).1
        × (is_ok (validate_session c e old token s).0 ≡ false))
      ⊎ ((validate_session c e old token s ≡ (ok old, s))
          × ((old.status =ˢ "signed") ≡ false)
          × (is_expired e old ≡ false))
unfolding validate_session expire_session
validate_session-cases c e q token p old s found = elim (Bool-cases (old.status =ˢ "signed")) [
  | inl signed ↦ inl (simp signed (unchanged c e q refl), simp signed refl)
  | inr unsigned ↦ elim (Bool-cases (is_expired e old)) [
    | inl late ↦ inl (
      simp (unsigned, late) (expired_open c e q p old s found unsigned),
      simp (unsigned, late) refl,
    )
    | inr in_time ↦ elim (Bool-cases (leb max_attempts old.attempts)) [
      | inl many ↦ inl (
        simp (unsigned, in_time, many) (expired_open c e q p old s found unsigned),
        simp (unsigned, in_time, many) refl,
      )
      | inr few ↦ elim (Bool-cases (old.token_hash =ˢ c.hash_token token)) [
        | inl right ↦ inr (simp (unsigned, in_time, few, right) refl, unsigned, in_time)
        | inr wrong ↦ inl (
          simp (unsigned, in_time, few, wrong)
              (wrong_token-Effect c e q p old s found unsigned (ground arith)),
          simp (unsigned, in_time, few, wrong) (wrong_token-fails c e old s),
        )
      ]
    ]
  ]
]

validate_by_id_token-cases :
    (c : Crypto) (e : Env) (q : Request) (id : ℕ) (token : String) (s : SignStore)
    → (Effect c e q s (validate_by_id_token c e id token s).1
        × (is_ok (validate_by_id_token c e id token s).0 ≡ false))
      ⊎ ((old : SignSession) × (validate_by_id_token c e id token s ≡ (ok old, s))
          × (session_by_id id s ≡ some old)
          × ((old.status =ˢ "signed") ≡ false)
          × (is_expired e old ≡ false))
unfolding validate_by_id_token
validate_by_id_token-cases c e q id raw s =
    let token = normalize_session_token c raw in
    let m = validate_by_id_token c e id raw s in
    elim (Option-cases (session_by_id id s)) [
      | inl missing ↦ inl (unchanged c e q (ground arith), ground arith)
      | inr (old, found) ↦
          let ends : ((m.1 ≡ s) × (is_ok m.0 ≡ false)) ⊎ (m ≡ validate_session c e old token s) =
            ground arith in
          elim ends [
            | inl (kept, failed) ↦ inl (unchanged c e q kept, failed)
            | inr through ↦ elim (validate_session-cases c e q token _ old s found) [
              | inl (effect, failed) ↦ inl (rw through effect, rw through failed)
              | inr (valid, unsigned, in_time) ↦
                  inr (old, through ∙ valid, found, unsigned, in_time)
            ]
          ]
    ]

pub open_page-Effect :
    (c : Crypto) (e : Env) (id : ℕ) (token : String) (s : SignStore)
    → Effect c e (open_page id token) s (validate_by_id_token c e id token s).1
open_page-Effect c e id token s =
    elim (validate_by_id_token-cases c e (open_page id token) id token s) [
      | inl (effect, failed) ↦ effect
      | inr (old, valid, found, unsigned, in_time) ↦ unchanged c e _ (ap (λ x. x.1) valid)
    ]

pub sign_by_id-Effect :
    (c : Crypto) (e : Env) (id : ℕ) (token ip agent : String) (s : SignStore)
    → Effect c e (sign_page id token ip agent) s (sign_by_id c e id token ip agent s).1
unfolding sign_by_id
sign_by_id-Effect c e id token ip agent s =
    elim (validate_by_id_token-cases c e (sign_page id token ip agent) id token s) [
      | inl (effect, failed) ↦
          let ends : (sign_by_id c e id token ip agent s).1
              ≡ (validate_by_id_token c e id token s).1 =
            ground arith in
          rw ends effect
      | inr (old, valid, found, unsigned, in_time) ↦ elim (Bool-cases e.documents) [
        | inr missing ↦ unchanged c e _ (ground arith)
        | inl present ↦
            let ends : (sign_by_id c e id token ip agent s).1
                ≡ (finish_signing c e finalize_error ip agent old s).1 =
              ground arith in
            rw ends
              (finish_signing-Effect c e _ finalize_error ip agent _ old s found unsigned in_time)
      ]
    ]
