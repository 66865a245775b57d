-- ===== src/Confirmations/Codes.antt =====
-- The confirmations by a code, as steps of one row.
use kub.Base.{
  never_ok, Error, agreement_mismatch, after_guard, suc, ◌<◌, ◌++ˢ◌, ◌=ˢ◌, String, Bool, true,
  false, not, some, ltb, leb, ok, pure, fail, fail_if, ◌>>=◌, ◌>>◌, is_empty, ◌≡◌, refl, inl, inr,
  arith, Bool-cases, keyed, Ordered, after_test, after_read, after_lift, after_write,
  change_row-twice, confirm_expired, confirm_too_many_tries, confirm_hash_required,
  confirm_doc_mismatch, eq_iff,
}
use kub.Confirmations.Meta.{Meta, extract_signer_email}
use kub.Confirmations.Table.{
  Confirmation, ConfirmStore, confirmation_key, is_pending, update_row, approved, expired,
  add_attempt, with_meta,
}
use kub.Confirmations.Service.{
  Crypto, Env, Confirming, max_attempts, agreement_version, normalize_document_hash,
  hash_document_content, expire_row,
}
use kub.Confirmations.Confirm.{
  Confirmed, version_of, agreement_meta, mismatch_meta, email_approval, channel_approval,
  approve_row, note, check_agreement, check_hash, settle_email, settle_by_channel, wrong_code,
  code_matches, has_code, try_code, identity_of,
}
use kub.Confirmations.Requests.{Request, Right, noted, runs_out, guessed, confirmed, Effect}
use kub.Confirmations.Finding.{unchanged, one_row, expired-Effect}

double_negation : (b : Bool) → not b ≡ false → b ≡ true
double_negation b h = ground arith

module _ (c : Crypto) (e : Env) (q : Request) (s : ConfirmStore)
    (o : Ordered confirmation_key s.rows s.next_id) where
  abbrev pub Here : Confirmation → Type 0
  Here row = keyed confirmation_key row.id s.rows ≡ some row

  pub note-Effect : (row : Confirmation) (m : Meta) → Here row → Effect c e q s (note e row m s).1
  unfolding note
  note-Effect row m here =
      after_write (Effect c e q s) e.meta_fails (update_row row.id (with_meta m)) s
        (unchanged c e q s s refl refl) (one_row c e q s o row (with_meta m) here (noted m refl))

  wrong_code-Effect :
      (A : Type 0) (row : Confirmation)
      → Here row
      → is_pending row ≡ true
      → row.attempts < 5
      → Effect c e q s (wrong_code {A = A} e row s).1
  unfolding wrong_code expire_row
  wrong_code-Effect A row here open_ few = elim (Bool-cases e.increment_fails) [
    | inl refused ↦ simp refused (unchanged c e q s s refl refl)
    | inr counts ↦ elim (Bool-cases (leb max_attempts (suc row.attempts))) [
      | inr more ↦
          simp (counts, more)
            (one_row c e q s o row add_attempt here (guessed open_ few (inl refl)))
      | inl last ↦ elim (Bool-cases e.expire_fails) [
        | inl refused ↦
            simp (counts, last, refused)
              (one_row c e q s o row add_attempt here (guessed open_ few (inl refl)))
        | inr written ↦
            let twice =
              change_row-twice confirmation_key row.id expired add_attempt s.rows (λ x. refl) in
            simp (counts, last, written, twice)
              (one_row c e q s o row (λ x. expired (add_attempt x)) here
                (guessed open_ few (inr refl)))
      ]
    ]
  ]

  pub try_code-Effect :
      (A : Type 0) (row : Confirmation) (given : String) (settle : Confirmation → Confirming A)
      → Here row
      → (is_pending row ≡ true
          → ltb row.expires_at e.now ≡ false
          → row.attempts < 5
          → code_matches c row.otp_hash given ≡ true
          → Effect c e q s (settle row s).1)
      → Effect c e q s (try_code c e row given settle s).1
  unfolding try_code
  try_code-Effect A row given settle here go = elim (Bool-cases (is_pending row)) [
    | inr used ↦ simp used (unchanged c e q s s refl refl)
    | inl open_ ↦ elim (Bool-cases (ltb row.expires_at e.now)) [
      | inl late ↦
          simp (open_, late)
            (expired-Effect c e q s o A row confirm_expired here (runs_out open_ refl))
      | inr in_time ↦ elim (Bool-cases (leb max_attempts row.attempts)) [
        | inl many ↦
            simp (open_, in_time, many)
              (expired-Effect c e q s o A row confirm_too_many_tries here (runs_out open_ refl))
        | inr few ↦ elim (Bool-cases (has_code c row.otp_hash)) [
          | inr none_ ↦ simp (open_, in_time, few, none_) (unchanged c e q s s refl refl)
          | inl has ↦ elim (Bool-cases (code_matches c row.otp_hash given)) [
            | inl right ↦
                simp (open_, in_time, few, has, right) (go open_ in_time (ground arith) right)
            | inr wrong ↦
                simp (open_, in_time, few, has, wrong)
                  (wrong_code-Effect A row here open_ (ground arith))
          ]
        ]
      ]
    ]
  ]

  approve-Effect :
      (B : Type 0) (row : Confirmation) (m : Meta) (answer : Confirmation → B)
      → Here row
      → Right c e q row
      → Effect c e q s ((approve_row e row m >>= λ done. pure (answer done)) s).1
  unfolding approve_row
  approve-Effect B row m answer here right = elim (Bool-cases e.approve_fails) [
    | inl refused ↦ simp refused (unchanged c e q s s refl refl)
    | inr written ↦
        simp written (one_row c e q s o row (approved e.db_now m) here (confirmed m right refl))
  ]

  -- What the client has read is tested before an approval.
  abbrev pub Agreed : String → String → Confirmation → Type 0
  Agreed client hash row =
      (hash_document_content e row.document_id ≡ ok hash)
      × (normalize_document_hash client ≡ normalize_document_hash ("sha256:" ++ˢ hash))
      × (is_empty (normalize_document_hash client) ≡ false)

  pub note_fail-Effect :
      (A : Type 0) (row : Confirmation) (m : Meta) (x : Error)
      → Here row
      → Effect c e q s ((note e row m >> fail {A = A} x) s).1
  unfolding note
  note_fail-Effect A row m x here = elim (Bool-cases e.meta_fails) [
    | inl refused ↦ simp refused (unchanged c e q s s refl refl)
    | inr written ↦ simp written (one_row c e q s o row (with_meta m) here (noted m refl))
  ]

  -- The tests of what the client has read, in an e-mail: where they write they fail.
  agreement-Effect :
      (row : Confirmation) (version : String)
      → Here row
      → Effect c e q s (check_agreement e version (note e row (agreement_meta e version)) s).1
  agreement-Effect row version here = elim (Bool-cases (is_empty (version_of version))) [
    | inl blank ↦ simp blank (unchanged c e q s s refl refl)
    | inr told ↦ elim (Bool-cases (version_of version =ˢ version_of agreement_version)) [
      | inl agrees ↦ simp (told, agrees) (unchanged c e q s s refl refl)
      | inr other ↦
          simp (told, other)
            (note_fail-Effect (Unit {0}) row (agreement_meta e version) agreement_mismatch here)
    ]
  ]

  agreement-kept :
      (row : Confirmation) (version : String) (mismatch : Confirming (Unit {0})) (u : Unit {0})
      → (check_agreement e version mismatch s).0 ≡ ok u
      → (check_agreement e version mismatch s).1 ≡ s
  agreement-kept row version mismatch u done = elim (Bool-cases (is_empty (version_of version))) [
    | inl blank ↦ absurd (ground (arith, blank, done))
    | inr told ↦ elim (Bool-cases (version_of version =ˢ version_of agreement_version)) [
      | inl agrees ↦ simp (told, agrees) refl
      | inr other ↦ absurd (never_ok mismatch agreement_mismatch s u (rw (told, other) at done))
    ]
  ]

  agreement-store : (version : String) → (check_agreement e version (pure tt) s).1 ≡ s
  agreement-store version = ground arith

  hashes-Effect :
      (row : Confirmation) (client current : String)
      → Here row
      → Effect c e q s (check_hash e row client current s).1
  hashes-Effect row client current here = elim (Bool-cases (client =ˢ current)) [
    | inl same ↦ simp same (unchanged c e q s s refl refl)
    | inr differs ↦
        simp differs (
          note_fail-Effect (Unit {0}) row (mismatch_meta e client current) confirm_doc_mismatch
            here)
  ]

  hashes-kept :
      (row : Confirmation) (client current : String) (u : Unit {0})
      → (check_hash e row client current s).0 ≡ ok u
      → ((check_hash e row client current s).1 ≡ s) × (client ≡ current)
  hashes-kept row client current u done = elim (Bool-cases (client =ˢ current)) [
    | inl same ↦ (ground arith, (eq_iff client current).0 same)
    | inr differs ↦ absurd (
        never_ok (note e row (mismatch_meta e client current)) confirm_doc_mismatch s u
          (rw differs at done))
  ]

  pub settle_email-Effect :
      (client version ip agent : String) (row : Confirmation)
      → Here row
      → ((hash : String) → Agreed client hash row → Right c e q row)
      → Effect c e q s (settle_email e client version ip agent row s).1
  unfolding settle_email
  settle_email-Effect client version ip agent row here proof =
      let Q = Effect c e q s in
      let stay : Q s = unchanged c e q s s refl refl in
      let given = normalize_document_hash client in
      let update = λ (hash : String).
        email_approval e ip agent (extract_signer_email row.meta)
          (normalize_document_hash ("sha256:" ++ˢ hash)) in
      let finish = λ (hash : String). approve_row e row (update hash) >>= λ done.
      pure ("approved", extract_signer_email row.meta, hash, done) in
      let compared = λ (hash : String).
        check_hash e row given (normalize_document_hash ("sha256:" ++ˢ hash)) >> finish hash in
      let agreed = λ (hash : String).
        check_agreement e version (note e row (agreement_meta e version)) >> compared hash in
      let whole =
        λ (hash : String). fail_if (is_empty given) confirm_hash_required >> agreed hash in
      after_lift Q (hash_document_content e row.document_id) whole s stay (λ hash hashed.
        let current = normalize_document_hash ("sha256:" ++ˢ hash) in
        after_test Q (is_empty given) confirm_hash_required (agreed hash) s stay (λ some_.
          after_guard Q (check_agreement e version (note e row (agreement_meta e version)))
            (λ u. compared hash) s (agreement-Effect row version here)
            (λ u passed. (
              agreement-kept row version (note e row (agreement_meta e version)) u passed,
              after_guard Q (check_hash e row given current) (λ v. finish hash) s
                  (hashes-Effect row given current here)
                  (λ v equal.
                    let (kept, same) = hashes-kept row given current v equal in
                    (
                      kept,
                      approve-Effect Confirmed row (update hash)
                          (λ done. ("approved", extract_signer_email row.meta, hash, done)) here
                          (proof hash (hashed, same, some_)),
                    )),
            ))))

  pub settle_by_channel-Effect :
      (channel client version ip agent : String) (row : Confirmation)
      → Here row
      → ((hash : String) → Agreed client hash row → Right c e q row)
      → Effect c e q s (settle_by_channel e channel client version ip agent row s).1
  unfolding settle_by_channel
  settle_by_channel-Effect channel client version ip agent row here proof =
      let Q = Effect c e q s in
      let stay : Q s = unchanged c e q s s refl refl in
      let given = normalize_document_hash client in
      let update = λ (hash : String).
        channel_approval channel ip agent (normalize_document_hash ("sha256:" ++ˢ hash)) in
      let finish = λ (hash : String). approve_row e row (update hash) >>= λ done.
      pure ("approved", identity_of row.meta, hash, done) in
      let compared = λ (hash : String).
        fail_if (not (given =ˢ normalize_document_hash ("sha256:" ++ˢ hash))) confirm_doc_mismatch
        >> finish hash in
      let agreed = λ (hash : String). check_agreement e version (pure tt) >> compared hash in
      let whole =
        λ (hash : String). fail_if (is_empty given) confirm_hash_required >> agreed hash in
      after_lift Q (hash_document_content e row.document_id) whole s stay (λ hash hashed.
        let current = normalize_document_hash ("sha256:" ++ˢ hash) in
        after_test Q (is_empty given) confirm_hash_required (agreed hash) s stay (λ some_.
          after_read Q (check_agreement e version (pure tt)) (λ u. compared hash) s
            (agreement-store version) stay
            (λ u passed.
              after_test Q (not (given =ˢ current)) confirm_doc_mismatch (finish hash) s stay
                (λ equal.
                  let same : given ≡ current =
                    (eq_iff given current).0 (double_negation (given =ˢ current) equal) in
                  approve-Effect Confirmed row (update hash)
                    (λ done. ("approved", identity_of row.meta, hash, done)) here
                    (proof hash (hashed, same, some_))))))
