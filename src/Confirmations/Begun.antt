-- ===== src/Confirmations/Begun.antt =====
-- The start of a signing, as a step of the table: what was pending of the same document, account and
-- channel is cancelled, and one row is new.
use kub.Base.{
  ℕ, ◌+◌, ◌==◌, ◌&&◌, String, Bool, true, false, not, Option, none, some, List, [], ◌∷◌, all, pure,
  lift, exec, fail_if, ◌>>=◌, ◌>>◌, is_empty, ◌≡◌, refl, inl, inr, arith, Bool-cases, Result-cases,
  change_row, Ordered, after_call, Pointwise, Pointwise-map, Pointwise-Ordered, after_test,
  after_read, after_lift, after_exec, change_row-absent, signer_email_required,
  signer_phone_required, trim_space,
}
use kub.Confirmations.Meta.{Meta}
use kub.Confirmations.Table.{
  Confirmation, ConfirmStore, confirmation_key, is_pending, is_for, update_row, with_meta,
  cancelled_if, cancel_rows, cancel_previous, pending_row, insert_row,
}
use kub.Confirmations.Service.{Crypto, Env, Confirming, build_verify_url}
use kub.Confirmations.Starting
use kub.Confirmations.Starting.{
  Start, ready, parties, deliver, user_of, document_of, create_pending, started, email_meta,
  sms_meta, provider_meta, note_provider, token_hash,
}
use kub.Confirmations.Requests.{Request, Step, unmoved, cancelled, Effect, moved, begun}
use kub.Confirmations.Finding.{unchanged, Step-id}

cancelled-Step :
    (c : Crypto) (e : Env) (q : Request) (b : Bool) (x : Confirmation)
    → Step c e q x (cancelled_if (b && is_pending x) x)
cancelled-Step c e q true x = elim (Bool-cases (is_pending x)) [
  | inl open_ ↦ simp open_ (cancelled open_ refl)
  | inr over ↦ simp over (unmoved refl)
]
cancelled-Step c e q false x = unmoved refl

-- After the cancellation none of them is pending.
none_pending :
    (document user : ℕ) (channel : String) (rows : List Confirmation)
    → all
        (λ r. not (is_for document user channel r && is_pending r))
        (cancel_rows document user channel rows)
      ≡ true
none_pending document user channel [] = refl
none_pending document user channel (x ∷ rows) =
    elim (Bool-cases (is_for document user channel x && is_pending x)) [
      | inl hit ↦ simp hit (ground (arith, none_pending document user channel rows))
      | inr miss ↦ simp (miss, none_pending document user channel rows) refl
    ]

ready-store : (e : Env) (sender : Bool) (t : ConfirmStore) → (ready e sender t).1 ≡ t
unfolding ready
ready-store e sender t = ground arith

parties-store : (e : Env) (user document : ℕ) (t : ConfirmStore) → (parties e user document t).1 ≡ t
unfolding parties
parties-store e user document t = elim (Result-cases (user_of e user)) [
  | inr (x, failed) ↦ simp failed refl
  | inl (a, found) ↦ elim (Result-cases (document_of e document)) [
    | inr (x, failed) ↦ simp (found, failed) refl
    | inl (d, there) ↦ simp (found, there) refl
  ]
]

deliver-store :
    (e : Env) (base path token : String) (t : ConfirmStore) → (deliver e base path token t).1 ≡ t
unfolding deliver
deliver-store e base path token t = elim (Result-cases (build_verify_url e base path token)) [
  | inr (x, failed) ↦ simp failed refl
  | inl (url, made) ↦ simp made refl
]

module _ (c : Crypto) (e : Env) (q : Request) (s : ConfirmStore)
    (o : Ordered confirmation_key s.rows s.next_id) where
  -- The table after the cancellation.
  abbrev cancelled_store : ℕ → ℕ → String → ConfirmStore
  cancelled_store document user channel = cancel_previous document user channel s

  each_cancelled :
      (document user : ℕ) (channel : String)
      → Pointwise (Step c e q) s.rows (cancel_rows document user channel s.rows)
  each_cancelled document user channel =
      Pointwise-map (Step c e q)
        (λ r. cancelled_if (is_for document user channel r && is_pending r) r)
        (λ x. cancelled-Step c e q (is_for document user channel x) x) s.rows

  new_row :
      (document user : ℕ) (channel : String) (otp token : Option String) (expires : ℕ) (meta : Meta)
      → let t = cancelled_store document user channel in
        Effect c e q s (insert_row (pending_row document user channel otp token expires meta t) t)
  new_row document user channel otp token expires meta =
      begun
        (pending_row document user channel otp token expires meta
          (cancelled_store document user channel))
        (cancel_rows document user channel s.rows) refl refl (each_cancelled document user channel)
        (none_pending document user channel s.rows) refl refl

  created-Effect :
      (B : Type 0) (document user : ℕ) (channel : String) (otp token : Option String) (expires : ℕ)
      (meta : Meta) (k : Confirmation → Confirming B)
      → let t = cancelled_store document user channel in
        let row = pending_row document user channel otp token expires meta t in
        Effect c e q s (k row (insert_row row t)).1
        → Effect c e q s ((create_pending e document user channel otp token expires meta >>= k) t).1
  unfolding create_pending
  created-Effect B document user channel otp token expires meta k go =
      elim (Bool-cases e.create_fails) [
        | inl refused ↦ simp refused (moved (each_cancelled document user channel) refl)
        | inr written ↦ simp written go
      ]

  pub start_email-Effect :
      (document user : ℕ) (signer_email : String)
      → Effect c e q s (Starting.start_signing c e document user signer_email s).1
  unfolding Starting.start_signing
  start_email-Effect document user signer_email =
      let Q = Effect c e q s in
      let stay : Q s = unchanged c e q s s refl refl in
      let email = trim_space signer_email in
      let expires = e.now + e.email_ttl in
      let t = cancelled_store document user "email" in
      let gone : Q t = moved (each_cancelled document user "email") refl in
      let send = λ (token : String).
        deliver e e.verify_base_url "/sign/email/verify" token
        >> pure (started e document user "email" expires) in
      let create = λ (token otp : String).
        create_pending e document user "email" (some otp) (token_hash c e token) expires
          (email_meta e email)
        >> send token in
      let addressed = λ (token otp : String).
        fail_if (is_empty email) signer_email_required >> create token otp in
      let coded = λ (token : String). lift e.otp_hash >>= addressed token in
      let drawn = lift e.token >>= coded in
      let cancel = exec e.cancel_fails (cancel_previous document user "email") >> drawn in
      let known = parties e user document >> cancel in
      after_read Q (ready e e.email) (λ u. known) s (ready-store e e.email s) stay
        (λ u has.
          after_read Q (parties e user document) (λ v. cancel) s (parties-store e user document s)
            stay
            (λ v there.
              after_exec Q e.cancel_fails (cancel_previous document user "email") drawn s stay
                (λ done. after_lift Q e.token coded t gone (λ token got.
                  after_lift Q e.otp_hash (addressed token) t gone (λ otp hashed.
                    after_test Q (is_empty email) signer_email_required (create token otp) t gone
                      (λ given.
                        created-Effect Start document user "email" (some otp) (token_hash c e token)
                          expires (email_meta e email) (λ row. send token)
                          (after_read Q (deliver e e.verify_base_url "/sign/email/verify" token)
                            (λ w. pure (started e document user "email" expires)) _
                            (deliver-store e e.verify_base_url "/sign/email/verify" token _)
                            (new_row document user "email" (some otp) (token_hash c e token) expires
                              (email_meta e email))
                            (λ w sent.
                              new_row document user "email" (some otp) (token_hash c e token)
                                expires (email_meta e email)))))))))

  -- A note on the new row changes no other.
  noted_row :
      (document user : ℕ) (channel : String) (otp token : Option String) (expires : ℕ)
      (meta m : Meta)
      → let t = cancelled_store document user channel in
        let row = pending_row document user channel otp token expires meta t in
        Effect c e q s (update_row row.id (with_meta m) (insert_row row t))
  unfolding change_row
  noted_row document user channel otp token expires meta m =
      let t = cancelled_store document user channel in
      let row = pending_row document user channel otp token expires meta t in
      let rest = cancel_rows document user channel s.rows in
      let kept : Ordered confirmation_key rest s.next_id =
        Pointwise-Ordered (Step c e q) confirmation_key (Step-id c e q) s.rows rest s.next_id
          (each_cancelled document user channel) o in
      let absent : change_row confirmation_key s.next_id (with_meta m) rest ≡ rest =
        change_row-absent confirmation_key s.next_id (with_meta m) rest s.next_id kept
          (omega arith) in
      let hit : (s.next_id == s.next_id) ≡ true = ground arith in
      begun (with_meta m row) rest refl refl (each_cancelled document user channel)
        (none_pending document user channel s.rows) (simp (hit, absent) refl) refl

  note_provider-Effect :
      (row : Confirmation) (p : Option (String × String)) (t : ConfirmStore)
      → Effect c e q s t
      → ((m : Meta) → Effect c e q s (update_row row.id (with_meta m) t))
      → Effect c e q s (note_provider e row p t).1
  note_provider-Effect row none t before after = before
  note_provider-Effect row (some p) t before after = elim (Bool-cases e.meta_fails) [
    | inl refused ↦ simp refused before
    | inr written ↦ simp written (after (provider_meta p))
  ]

  pub start_sms-Effect :
      (document user : ℕ) (signer_phone signer_email : String)
      → Effect c e q s
          (Starting.start_signing_by_sms c e document user signer_phone signer_email s).1
  unfolding Starting.start_signing_by_sms
  start_sms-Effect document user signer_phone signer_email =
      let Q = Effect c e q s in
      let stay : Q s = unchanged c e q s s refl refl in
      let phone = trim_space signer_phone in
      let expires = e.now + e.sms_ttl in
      let meta = sms_meta e phone signer_email in
      let t = cancelled_store document user "sms" in
      let gone : Q t = moved (each_cancelled document user "sms") refl in
      let answer = started e document user "sms" expires in
      let note = λ (row : Confirmation). note_provider e row e.provider >> pure answer in
      let send = λ (token : String) (row : Confirmation).
        deliver e e.sms_verify_base "/sign/sms/verify" token >> note row in
      let create = λ (token otp : String).
        create_pending e document user "sms" (some otp) (token_hash c e token) expires meta
        >>= send token in
      let coded = λ (token : String). lift e.otp_hash >>= create token in
      let drawn = lift e.token >>= coded in
      let cancel = exec e.cancel_fails (cancel_previous document user "sms") >> drawn in
      let known = parties e user document >> cancel in
      let called = fail_if (is_empty phone) signer_phone_required >> known in
      after_read Q (ready e e.sms) (λ u. called) s (ready-store e e.sms s) stay
        (λ u has. after_test Q (is_empty phone) signer_phone_required known s stay (λ given.
          after_read Q (parties e user document) (λ v. cancel) s (parties-store e user document s)
            stay
            (λ v there.
              after_exec Q e.cancel_fails (cancel_previous document user "sms") drawn s stay
                (λ done. after_lift Q e.token coded t gone (λ token got.
                  after_lift Q e.otp_hash (create token) t gone (λ otp hashed.
                    let hash = token_hash c e token in
                    let row = pending_row document user "sms" (some otp) hash expires meta t in
                    let new = new_row document user "sms" (some otp) hash expires meta in
                    let last =
                      note_provider-Effect row e.provider (insert_row row t) new
                        (noted_row document user "sms" (some otp) hash expires meta) in
                    created-Effect Start document user "sms" (some otp) hash expires meta
                      (send token)
                      (after_read Q (deliver e e.sms_verify_base "/sign/sms/verify" token)
                        (λ w. note row) (insert_row row t)
                        (deliver-store e e.sms_verify_base "/sign/sms/verify" token
                          (insert_row row t))
                        new
                        (λ w sent.
                          after_call Q (note_provider e row e.provider) (λ z. pure answer)
                            (insert_row row t) last (λ z kept. last)))))))))
