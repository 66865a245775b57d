-- ===== src/SignSessions/Steps/Creation.antt =====
-- New sessions.
use kub.Base.{
  ℕ, String, trim_space, ok, err, ◌≡◌, ◌⊎◌, refl, ap, inl, inr, arith, Bool-cases, Result-cases, db,
}
use kub.Phone.{sanitize_e164_digits}
use kub.SignSessions.Table.{SignSession, SignStore, insert_session, stored}
use kub.SignSessions.Service.{
  Crypto, Env, new_session, create_row, create, create_confirmed_session,
}
use kub.SignSessions.Steps.{Request, create_session, create_confirmed, Effect, added, unchanged}

new_row-Effect :
    (c : Crypto) (e : Env) (q : Request) (document : ℕ) (phone hash token email doc : String)
    {s t : SignStore}
    → t ≡ insert_session (stored e.db_now (new_session c e document phone hash token email doc) s) s
    → Effect c e q s t
new_row-Effect c e q document phone hash token email doc {s} h =
    added (stored e.db_now (new_session c e document phone hash token email doc) s) refl refl refl
      (ap (λ (x : SignStore). x.sessions) h) (ap (λ (x : SignStore). x.next_id) h)

-- What `repo.Create` answers.
pub create_row-cases :
    (c : Crypto) (e : Env) (session : SignSession) (s : SignStore)
    → (create_row c e session s ≡ (err db, s))
      ⊎ (create_row c e session s
          ≡ (ok (stored e.db_now session s), insert_session (stored e.db_now session s) s))
unfolding create_row
create_row-cases c e session s = elim (Bool-cases e.create_fails) [
  | inl refused ↦ inl (simp refused refl)
  | inr written ↦ inr (simp written refl)
]

pub create-Effect :
    (c : Crypto) (e : Env) (document : ℕ) (phone : String) (s : SignStore)
    → Effect c e (create_session document phone) s (create c e document phone s).1
unfolding create
create-Effect c e document phone s = elim (Result-cases e.token) [
  | inr (x, failed) ↦ unchanged c e _ (ground arith)
  | inl (token, drawn) ↦ elim (Result-cases e.code_hash) [
    | inr (x, failed) ↦ unchanged c e _ (ground arith)
    | inl (hash, hashed) ↦ elim (Result-cases (sanitize_e164_digits phone)) [
      | inr (x, failed) ↦ unchanged c e _ (ground arith)
      | inl (number, sanitized) ↦
          let t = (create c e document phone s).1 in
          let row = stored e.db_now (new_session c e document number hash token "" "") s in
          let ends : (t ≡ s) ⊎ (t ≡ insert_session row s) =
            ground
              (arith, create_row-cases c e (new_session c e document number hash token "" "") s) in
          elim ends [
            | inl kept ↦ unchanged c e _ kept
            | inr inserted ↦ new_row-Effect c e _ document number hash token "" "" inserted
          ]
    ]
  ]
]

pub create_confirmed-Effect :
    (c : Crypto) (e : Env) (document : ℕ) (identity doc : String) (s : SignStore)
    → Effect c e
        (create_confirmed document identity doc)
        s
        (create_confirmed_session c e document identity doc s).1
unfolding create_confirmed_session
create_confirmed-Effect c e document identity doc s = elim (Result-cases e.token) [
  | inr (x, failed) ↦ unchanged c e _ (ground arith)
  | inl (token, drawn) ↦
      let t = (create_confirmed_session c e document identity doc s).1 in
      let row =
        stored e.db_now
          (new_session c e document "" "" token (trim_space identity) (trim_space doc)) s in
      let ends : (t ≡ s) ⊎ (t ≡ insert_session row s) = ground (
        arith,
        create_row-cases c e
            (new_session c e document "" "" token (trim_space identity) (trim_space doc)) s,
      ) in
      elim ends [
        | inl kept ↦ unchanged c e _ kept
        | inr inserted ↦
            new_row-Effect c e _ document "" "" token (trim_space identity) (trim_space doc)
              inserted
      ]
]
