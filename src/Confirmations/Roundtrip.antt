-- ===== src/Confirmations/Roundtrip.antt =====
-- From the start of a signing by e-mail to its confirmation.
use mathlib.Core.Path.{subst}
use kub.Base.{
  ℕ, ◌+◌, ◌++ˢ◌, ◌=ˢ◌, ◌==◌, ◌&&◌, String, true, false, not, Option, none, some, List, [], ◌∷◌,
  confirm_invalid_code, confirm_invalid_token, not_configured, Result, pure, lift, fail_if, bind_ok,
  ◌>>=◌, ◌>>◌, confirm_hash_required, ltb, ok, err, db, ◌≡◌, ◌⊎◌, refl, sym, ap, ◌∙◌, inl, inr,
  arith, Bool-cases, Result-cases, is_empty, trim_space, trim_space_idem, eq_refl, eq_iff, to_lower,
  ==_iff, keyed, change_row,
}
use kub.Confirmations.Meta.{Meta, member, extract_signer_email}
use kub.Confirmations.Table.{
  confirmation_key, Confirmation, ConfirmStore, is_for, is_pending, later, latest, has_token,
  find_by_token_hash, holds, approved, update_row, pending_row, insert_row, cancel_rows,
  cancel_previous,
}
use kub.Confirmations.Service.{
  Confirming, Crypto, Env, agreement_version, normalize_email_otp, normalize_document_hash,
  hash_document_content, build_verify_url, normalize_confirm_token, hash_confirm_token, hash_of,
  open_by_token,
}
use kub.Confirmations.Starting.{
  Start, ready, parties, deliver, user_of, document_of, create_pending, email_meta, start_signing,
}
use kub.Confirmations.Confirm.{
  Confirmed, version_of, note, agreement_meta, check_agreement, check_hash, email_approval,
  approve_row, settle_email, try_code, confirm_by_code, confirm_by_email_token,
}

later-some : (x : Confirmation) (o : Option Confirmation) → later x o ≡ none → ⊥
later-some x none h = absurd (ground (arith, h))
later-some x (some w) h = absurd (ground (arith, h))

-- A token that no row has, no row has after the cancellation.
cancelled-latest :
    (hash : String) (document user : ℕ) (channel : String) (rows : List Confirmation)
    → latest (has_token "email" hash) rows ≡ none
    → latest (has_token "email" hash) (cancel_rows document user channel rows) ≡ none
unfolding latest
cancelled-latest hash document user channel [] h = refl
cancelled-latest hash document user channel (x ∷ rows) h =
    elim (Bool-cases (has_token "email" hash x)) [
      | inl hit ↦ absurd (later-some x (latest (has_token "email" hash) rows) (rw hit at h))
      | inr miss ↦
          let rest = cancelled-latest hash document user channel rows (rw miss at h) in
          elim (Bool-cases (is_for document user channel x && is_pending x)) [
            | inl cancelled ↦ simp (cancelled, miss, rest) refl
            | inr kept ↦ simp (kept, miss, rest) refl
          ]
    ]

open-found :
    (c : Crypto) (e : Env) (token : String) (t : ConfirmStore) (row : Confirmation)
    → e.find_fails ≡ false
    → is_empty (normalize_confirm_token c token) ≡ false
    → find_by_token_hash "email" (hash_of c e token) t ≡ some row
    → holds row.token_hash (hash_of c e token) ≡ true
    → open_by_token c e "email" token t ≡ (ok row, t)
unfolding open_by_token
open-found c e token t row answers named found held = simp (named, answers, found, held) refl

agreement-met :
    (e : Env) (version : String) (mismatch : Confirming (Unit {0})) (t : ConfirmStore)
    → version_of version ≡ agreement_version
    → check_agreement e version mismatch t ≡ (ok tt, t)
unfolding trim_space to_lower
agreement-met e version mismatch t agrees = simp agrees refl

module _ (c : Crypto) (e : Env) (document user : ℕ) (email token otp : String)
    (s : ConfirmStore) where
  -- The row that a start by e-mail leaves.
  abbrev pub begun_row : Confirmation
  begun_row =
      pending_row document user "email" (some otp)
        (some (hash_confirm_token c token e.token_pepper)) (e.now + e.email_ttl)
        (email_meta e (trim_space email)) (cancel_previous document user "email" s)

  create-row :
      let made =
        create_pending e document user "email"
          (some otp)
          (some (hash_confirm_token c token e.token_pepper))
          (e.now + e.email_ttl)
          (email_meta e (trim_space email)) in
      (made (cancel_previous document user "email" s)
        ≡ (err db, cancel_previous document user "email" s))
      ⊎ (made (cancel_previous document user "email" s)
          ≡ (ok begun_row, insert_row begun_row (cancel_previous document user "email" s)))
  unfolding create_pending
  create-row = elim (Bool-cases e.create_fails) [
    | inl refused ↦ inl (simp refused refl)
    | inr written ↦ inr (simp written refl)
  ]

  start-store :
      e.token ≡ ok token
      → e.otp_hash ≡ ok otp
      → (st : Start) → (start_signing c e document user email s).0 ≡ ok st
      → (start_signing c e document user email s).1
        ≡ insert_row begun_row (cancel_previous document user "email" s)
  unfolding start_signing ready parties deliver
  start-store drawn hashed st done = elim (Result-cases (user_of e user)) [
    | inr (x, failed) ↦ absurd (ground (arith, failed, done))
    | inl (account, known) ↦ elim (Result-cases (document_of e document)) [
      | inr (x, failed) ↦ absurd (ground (arith, failed, known, done))
      | inl (doc, there) ↦
          elim (Result-cases (build_verify_url e e.verify_base_url "/sign/email/verify" token)) [
            | inr (x, failed) ↦ absurd (ground (arith, failed, known, there, drawn, hashed, done))
            | inl (url, made) ↦ elim (Result-cases e.sent) [
              | inr (x, failed) ↦
                  absurd (ground (arith, failed, known, there, drawn, hashed, made, done))
              | inl (u, out) ↦ elim (Bool-cases e.cancel_fails) [
                | inl refused ↦ absurd (ground (arith, refused, known, there, done))
                | inr cancels ↦ elim create-row [
                  | inl refused ↦
                      absurd (ground (arith, cancels, refused, known, there, drawn, hashed, done))
                  | inr creates ↦
                      ground (arith, cancels, creates, known, there, drawn, hashed, made, out, done)
                ]
              ]
            ]
          ]
    ]
  ]

  approved-found :
      (db_now : ℕ) (update : Meta) (t : ConfirmStore)
      → keyed confirmation_key begun_row.id
          (update_row begun_row.id (approved db_now update) (insert_row begun_row t)).rows
        ≡ some (approved db_now update begun_row)
  unfolding change_row
  approved-found db_now update t = ground arith

  begun_email : extract_signer_email begun_row.meta ≡ trim_space email
  unfolding member
  begun_email = trim_space_idem email

  -- How the confirmation ends after the start.
  abbrev pub confirm_after_start :
      Env → String → String → String → String → String → Result Confirmed × ConfirmStore
  confirm_after_start e' given client version ip agent =
      let t = (start_signing c e document user email s).1 in
      confirm_by_email_token c e' document token given client version ip agent t

  module _ (e' : Env) (hash : String) (hashed : hash_of c e' token ≡ hash)
      (same_pepper : hash_confirm_token c token e.token_pepper ≡ hash)
      (named : is_empty (normalize_confirm_token c token) ≡ false)
      (fresh : find_by_token_hash "email" hash s ≡ none) where
    there : ConfirmStore
    there = insert_row begun_row (cancel_previous document user "email" s)

    open-there :
        e'.find_fails ≡ false → open_by_token c e' "email" token there ≡ (ok begun_row, there)
    unfolding there latest
    open-there answers =
        let rest : latest (has_token "email" hash) (cancel_rows document user "email" s.rows)
            ≡ none =
          cancelled-latest hash document user "email" s.rows fresh in
        let mine : (hash =ˢ hash) ≡ true = eq_refl hash in
        let found : find_by_token_hash "email" hash there ≡ some begun_row =
          simp (same_pepper, mine, rest) refl in
        let held : holds begun_row.token_hash hash ≡ true = simp (same_pepper, mine) refl in
        open-found c e' token there begun_row answers named
          (subst (λ h. find_by_token_hash "email" h there ≡ some begun_row) (sym hashed) found)
          (subst (λ h. holds begun_row.token_hash h ≡ true) (sym hashed) held)

    try-there :
        {A : Type 0} (given : String) (settle : Confirmation → Confirming A)
        → ltb (e.now + e.email_ttl) e'.now ≡ false
        → is_empty otp ≡ false
        → c.compare_code otp given ≡ true
        → (t : ConfirmStore) → try_code c e' begun_row given settle t ≡ settle begun_row t
    unfolding try_code
    try-there given settle early coded right t = simp (early, coded, right) refl

    settle-there :
        (client version ip agent content : String)
        → hash_document_content e' document ≡ ok content
        → is_empty (normalize_document_hash client) ≡ false
        → normalize_document_hash client ≡ normalize_document_hash ("sha256:" ++ˢ content)
        → version_of version ≡ agreement_version
        → e'.approve_fails ≡ false
        → (t : ConfirmStore)
        → (update : Meta) × (settle_email e' client version ip agent begun_row t ≡ (
          ok (
            "approved",
            extract_signer_email begun_row.meta,
            content,
            approved e'.db_now update begun_row,
          ),
          update_row begun_row.id (approved e'.db_now update) t,
        ))
    unfolding settle_email approve_row
    settle-there client version ip agent content hashed_ some_ equal agrees written t =
        let row = begun_row in
        let given = normalize_document_hash client in
        let current = normalize_document_hash ("sha256:" ++ˢ content) in
        let email = extract_signer_email row.meta in
        let update = email_approval e' ip agent email current in
        let finish = λ (done : Confirmation). pure ("approved", email, content, done) in
        let approve = approve_row e' row update >>= finish in
        let compared = check_hash e' row given current >> approve in
        let agreed = check_agreement e' version (note e' row (agreement_meta e' version)) in
        let tested = λ (hash : String).
          fail_if (is_empty given) confirm_hash_required
          >> (agreed
              >> (check_hash e' row given (normalize_document_hash ("sha256:" ++ˢ hash))
                  >> (approve_row e' row (
                        email_approval e' ip agent email
                          (normalize_document_hash ("sha256:" ++ˢ hash)))
                      >>= λ done. pure ("approved", email, hash, done)))) in
        let alike : (given =ˢ current) ≡ true = (eq_iff given current).1 equal in
        let first =
          bind_ok (lift (hash_document_content e' document)) tested t (ap (λ r. (r, t)) hashed_) in
        let second =
          bind_ok (fail_if (is_empty given) confirm_hash_required) (λ u. agreed >> compared) t
            {a = tt} {t = t} (simp some_ refl) in
        let third =
          bind_ok agreed (λ u. compared) t
            (agreement-met e' version (note e' row (agreement_meta e' version)) t agrees) in
        let fourth =
          bind_ok (check_hash e' row given current) (λ u. approve) t {a = tt} {t = t}
            (simp alike refl) in
        let fifth =
          bind_ok (approve_row e' row update) finish t {a = approved e'.db_now update row}
            {t = update_row row.id (approved e'.db_now update) t} (simp written refl) in
        (update, first ∙ second ∙ third ∙ fourth ∙ fifth)

    -- A signing that was started by e-mail is confirmed by the token and the code that were sent, in
    -- time, with the hash of the document as it is then and the version of the agreement: the row
    -- that the start added is approved in the table then, and the answer is that row, with the
    -- address that the start was given.
    pub start_then_confirm :
        (given client version ip agent content : String) (st : Start)
        → e.token ≡ ok token
        → e.otp_hash ≡ ok otp
        → (start_signing c e document user email s).0 ≡ ok st
        → is_empty otp ≡ false
        → is_empty (normalize_email_otp given) ≡ false
        → c.compare_code otp (normalize_email_otp given) ≡ true
        → ltb (e.now + e.email_ttl) e'.now ≡ false
        → hash_document_content e' document ≡ ok content
        → is_empty (normalize_document_hash client) ≡ false
        → normalize_document_hash client ≡ normalize_document_hash ("sha256:" ++ˢ content)
        → version_of version ≡ agreement_version
        → e'.repo ≡ true
        → e'.find_fails ≡ false
        → e'.approve_fails ≡ false
        → let end = confirm_after_start e' given client version ip agent in
          (r : Confirmation) × (r.status ≡ "approved")
          × (end.0 ≡ ok ("approved", trim_space email, content, r))
          × (keyed confirmation_key s.next_id end.1.rows ≡ some r)
    unfolding confirm_by_email_token confirm_by_code there
    start_then_confirm given client version ip agent content st drawn coded done has_code told right
          early hashed_ some_ equal agrees repo finds approves =
        let t = insert_row begun_row (cancel_previous document user "email" s) in
        let after = start-store drawn coded st done in
        let (update, settled) =
          settle-there client version ip agent content hashed_ some_ equal agrees approves t in
        let code = normalize_email_otp given in
        let settle = settle_email e' client version ip agent in
        let last = λ (row : Confirmation). try_code c e' row code settle in
        let coded =
          λ (row : Confirmation). fail_if (is_empty code) confirm_invalid_code >> last row in
        let act = λ (row : Confirmation).
          fail_if (not (row.document_id == document)) confirm_invalid_token >> coded row in
        let mine : (document == document) ≡ true = (==_iff document document).1 refl in
        let first =
          bind_ok (fail_if (not e'.repo) not_configured)
            (λ u. open_by_token c e' "email" token >>= act) t {a = tt} {t = t} (simp repo refl) in
        let second = bind_ok (open_by_token c e' "email" token) act t (open-there finds) in
        let third =
          bind_ok (fail_if (not (begun_row.document_id == document)) confirm_invalid_token)
            (λ u. coded begun_row) t {a = tt} {t = t} (simp mine refl) in
        let fourth =
          bind_ok (fail_if (is_empty code) confirm_invalid_code) (λ u. last begun_row) t {a = tt}
            {t = t} (simp told refl) in
        let fifth = try-there code settle early has_code right t in
        let whole = λ (u : ConfirmStore).
          confirm_by_email_token c e' document token given client version ip agent u in
        let r = approved e'.db_now update begun_row in
        let answer : String → Result Confirmed = λ m. ok ("approved", m, content, r) in
        let ends = ap whole after ∙ first ∙ second ∙ third ∙ fourth ∙ fifth ∙ settled in
        let found : ConfirmStore → Type 0 = λ u. keyed confirmation_key s.next_id u.rows ≡ some r in
        (
          r,
          refl,
          ap (λ (p : Result Confirmed × ConfirmStore). p.0) ends ∙ ap answer begun_email,
          subst found (sym (ap (λ (p : Result Confirmed × ConfirmStore). p.1) ends))
              (approved-found e'.db_now update (cancel_previous document user "email" s)),
        )
