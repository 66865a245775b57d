-- ===== src/SignSessions/Limits.antt =====
-- The rate limit on the sessions that `Create` sends out.
use kub.Base.{
  ℕ, suc, ◌≤◌, ◌<◌, String, Bool, true, List, ◌∷◌, filter, length, is_ok, ok, ◌≡◌, inl, inr, arith,
  Result-cases,
}
use kub.Phone.{sanitize_e164_digits}
use kub.SignSessions.Table.{
  SignSession, SignStore, count_by_document, count_by_phone, stored, insert_session,
}
use kub.SignSessions.Service.{Crypto, Env, rate_limit_span, new_session, create}
use kub.SignSessions.Steps.Creation.{create_row-cases}

-- What `Create` has checked when it succeeds.
create-ok :
    (c : Crypto) (e : Env) (document : ℕ) (phone number : String) (s : SignStore)
    → sanitize_e164_digits phone ≡ ok number
    → is_ok (create c e document phone s).0 ≡ true
    → (row : SignSession) × ((create c e document phone s).1 ≡ insert_session row s)
      × (count_by_document document rate_limit_span e.now s < 3)
      × (count_by_phone number rate_limit_span e.now s < 3)
unfolding create
create-ok c e document phone number s sanitized passes = elim (Result-cases e.token) [
  | inr (x, failed) ↦ absurd (ground arith)
  | inl (token, drawn) ↦ elim (Result-cases e.code_hash) [
    | inr (x, failed) ↦ absurd (ground arith)
    | inl (hash, hashed) ↦
        let session = new_session c e document number hash token "" "" in
        let written = create_row-cases c e session s in
        (
          stored e.db_now session s,
          ground (arith, written),
          ground (arith, written),
          ground (arith, written),
        )
  ]
]

length-counted :
    (p : SignSession → Bool) (row : SignSession) (rows : List SignSession)
    → length (filter p (row ∷ rows)) ≤ suc (length (filter p rows))
length-counted p row rows = ground arith

-- When `Create` succeeds, the document and the number have at most three sessions of the last ten
-- minutes, the new one counted.
pub create_rate_limited :
    (c : Crypto) (e : Env) (document : ℕ) (phone number : String) (s : SignStore)
    → sanitize_e164_digits phone ≡ ok number
    → is_ok (create c e document phone s).0 ≡ true
    → (count_by_document document rate_limit_span e.now (create c e document phone s).1 ≤ 3)
      × (count_by_phone number rate_limit_span e.now (create c e document phone s).1 ≤ 3)
create_rate_limited c e document phone number s sanitized passes =
    let (row, inserted, few, few_calls) = create-ok c e document phone number s sanitized passes in
    (
      rw inserted (omega (arith, few, length-counted _ row s.sessions)),
      rw inserted (omega (arith, few_calls, length-counted _ row s.sessions)),
    )
