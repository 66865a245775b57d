-- ===== src/Confirmations/Pages.antt =====
-- The requests with a code, of pages and previews, and of Telegram, as steps of one row.
use mathlib.Core.Path.{subst}
use kub.Base.{
  [], ◌∷◌, trim_space, ℕ, String, Bool, true, false, not, ltb, leb, ◌>>=◌, ◌≡◌, refl, sym, ap, inl,
  inr, arith, Bool-cases, Result-cases, Ordered, after_test, after_call, confirm_expired,
  confirm_too_many_tries, not_configured,
}
use kub.Confirmations.Meta.{Meta, build_open_meta_update}
use kub.Confirmations.Table.{Confirmation, ConfirmStore, confirmation_key, is_pending}
use kub.Confirmations.Service.{
  Crypto, Env, Confirming, max_attempts, document_and_preview_path, open_by_token,
}
use kub.Confirmations.Confirm.{
  Confirmed, settle_email, settle_by_channel, confirm_by_email_token, confirm_by_token_and_channel,
  confirm_by_code,
}
use kub.Confirmations.Opening.{
  Preview, Verification, in_time, gated, limited, opened, page_document, shown_page, note_any,
  previewed, validate_email_token, validate_token_by_channel, prepare_email_document_preview,
  prepare_document_preview_by_channel,
}
use kub.Confirmations.Requests.{
  Request, email_code, sms_code, preview_sms, proved, runs_out, runs_out_late, Effect,
}
use kub.Confirmations.Finding.{unchanged, expired-Effect}
use kub.Confirmations.Codes.{Here, note-Effect, settle_email-Effect, settle_by_channel-Effect}
use kub.Confirmations.Answers.{by_token-Effect, confirm_by_code-Effect}

shown_page-store :
    (e : Env) (passes : Bool) (row : Confirmation) (t : ConfirmStore)
    → (shown_page e passes row t).1 ≡ t
unfolding shown_page
shown_page-store e passes row t = elim (Result-cases (page_document e passes row.document_id)) [
  | inl (doc, found) ↦ simp found refl
  | inr (x, failed) ↦ simp failed refl
]

previewed-store :
    (e : Env) (needs : Bool) (row : Confirmation) (t : ConfirmStore)
    → (previewed e needs row t).1 ≡ t
unfolding previewed
previewed-store e needs row t = elim (Result-cases (document_and_preview_path e row.document_id)) [
  | inr (x, failed) ↦ simp failed refl
  | inl ((doc, rel), found) ↦
      elim (Result-cases (e.file_there (e.join (trim_space e.files_root) rel))) [
        | inl (u, there) ↦ ground arith
        | inr (x, gone) ↦ ground arith
      ]
]

module _ (c : Crypto) (e : Env) (s : ConfirmStore)
    (o : Ordered confirmation_key s.rows s.next_id) where
  pub email_code-Effect :
      (document : ℕ) (token given client version ip agent : String)
      → let q = email_code document token given client version ip agent in
        Effect c e q s (confirm_by_email_token c e document token given client version ip agent s).1
  unfolding confirm_by_email_token
  email_code-Effect document token given client version ip agent =
      let q = email_code document token given client version ip agent in
      after_test (Effect c e q s) (not e.repo) not_configured
        (confirm_by_code c e "email" document token given (settle_email e client version ip agent))
        s (unchanged c e q s s refl refl)
        (λ there.
          confirm_by_code-Effect c e q s o Confirmed "email" document token given
            (settle_email e client version ip agent)
            (λ row here mine held open_ in_time few right.
              settle_email-Effect c e q s o client version ip agent row here
                (λ hash (hashed, same, some_).
                  proved token given client version ip agent hash
                    (inl (ap (λ d. email_code d token given client version ip agent) (sym mine)))
                    open_ in_time few held right hashed same some_)))

  pub sms_code-Effect :
      (document : ℕ) (token given client version ip agent : String)
      → let q = sms_code document token given client version ip agent in
        Effect c e q s
          (confirm_by_token_and_channel c e "sms" document token given client version ip agent s).1
  unfolding confirm_by_token_and_channel
  sms_code-Effect document token given client version ip agent =
      let q = sms_code document token given client version ip agent in
      confirm_by_code-Effect c e q s o Confirmed "sms" document token given
        (settle_by_channel e "sms" client version ip agent)
        (λ row here mine held open_ in_time few right.
          settle_by_channel-Effect c e q s o "sms" client version ip agent row here
            (λ hash (hashed, same, some_).
              proved token given client version ip agent hash
                (inr (ap (λ d. sms_code d token given client version ip agent) (sym mine))) open_
                in_time few held right hashed same some_))

  module _ (q : Request) where
    note_any-Effect :
        (row : Confirmation) (m : Meta) → Here c e q s o row → Effect c e q s (note_any e row m s).1
    note_any-Effect row [] here = unchanged c e q s s refl refl
    note_any-Effect row (m ∷ rest) here = note-Effect c e q s o row (m ∷ rest) here

    -- The calls that only read end where they begin.
    ends_here :
        {A : Type 0} (m : Confirming A) (t : ConfirmStore)
        → (m t).1 ≡ t
        → Effect c e q s t
        → Effect c e q s (m t).1
    ends_here m t reads before = subst (Effect c e q s) (sym reads) before

    opened-Effect :
        (passes : Bool) (ip agent : String) (row : Confirmation)
        → Here c e q s o row
        → Effect c e q s (opened e passes ip agent row s).1
    unfolding opened
    opened-Effect passes ip agent row here =
        let m = note_any e row (build_open_meta_update row.meta ip agent e.now) in
        let noted_ = note_any-Effect row (build_open_meta_update row.meta ip agent e.now) here in
        after_call (Effect c e q s) m (λ u. shown_page e passes row) s noted_
          (λ u done.
            ends_here (shown_page e passes row) (m s).1 (shown_page-store e passes row (m s).1)
              noted_)

    previewed-Effect :
        (needs : Bool) (row : Confirmation) → Effect c e q s (previewed e needs row s).1
    previewed-Effect needs row =
        ends_here (previewed e needs row) s (previewed-store e needs row s)
          (unchanged c e q s s refl refl)

    -- A row that is shown only while it is pending and in time.
    gated-Effect :
        (A : Type 0) (row : Confirmation) (act : Confirming A)
        → Here c e q s o row
        → (is_pending row ≡ true → Effect c e q s (act s).1)
        → Effect c e q s (gated e row act s).1
    gated-Effect A row act here go = elim (Bool-cases (is_pending row)) [
      | inr used ↦ simp used (unchanged c e q s s refl refl)
      | inl open_ ↦ elim (Bool-cases (ltb row.expires_at e.now)) [
        | inl late ↦
            simp (open_, late)
              (expired-Effect c e q s o A row confirm_expired here (runs_out open_ refl))
        | inr in_time ↦ simp (open_, in_time) (go open_)
      ]
    ]

    limited-Effect :
        (A : Type 0) (row : Confirmation) (act : Confirming A)
        → Here c e q s o row
        → Effect c e q s (act s).1
        → Effect c e q s (gated e row (limited e row act) s).1
    limited-Effect A row act here go = gated-Effect A row (limited e row act) here (λ open_.
        elim (Bool-cases (leb max_attempts row.attempts)) [
          | inl many ↦
              simp many
                (expired-Effect c e q s o A row confirm_too_many_tries here (runs_out open_ refl))
          | inr few ↦ simp few go
        ])

    pub open_email-Effect :
        (token ip agent : String) → Effect c e q s (validate_email_token c e token ip agent s).1
    unfolding validate_email_token
    open_email-Effect token ip agent =
        let act =
          λ (row : Confirmation). gated e row (limited e row (opened e true ip agent row)) in
        after_test (Effect c e q s) (not e.repo) not_configured
          (open_by_token c e "email" token >>= act) s (unchanged c e q s s refl refl)
          (λ there. by_token-Effect c e q s o Verification "email" token act (λ row here held.
            limited-Effect Verification row (opened e true ip agent row) here
              (opened-Effect true ip agent row here)))

    pub open_sms-Effect :
        (channel token ip agent : String)
        → Effect c e q s (validate_token_by_channel c e channel token ip agent s).1
    unfolding validate_token_by_channel
    open_sms-Effect channel token ip agent =
        by_token-Effect c e q s o Verification channel token
          (λ row. gated e row (opened e false ip agent row))
          (λ row here held.
            gated-Effect Verification row (opened e false ip agent row) here
              (λ open_. opened-Effect false ip agent row here))

    pub preview_email-Effect :
        (token : String) → Effect c e q s (prepare_email_document_preview c e token s).1
    unfolding prepare_email_document_preview
    preview_email-Effect token =
        let act = λ (row : Confirmation). gated e row (previewed e true row) in
        after_test (Effect c e q s) (not e.repo) not_configured
          (open_by_token c e "email" token >>= act) s (unchanged c e q s s refl refl)
          (λ there. by_token-Effect c e q s o Preview "email" token act (λ row here held.
            gated-Effect Preview row (previewed e true row) here
              (λ open_. previewed-Effect true row)))

  pub preview_sms-Effect :
      (token : String)
      → Effect c e (preview_sms token) s (prepare_document_preview_by_channel c e "sms" token s).1
  unfolding prepare_document_preview_by_channel
  preview_sms-Effect token =
      by_token-Effect c e (preview_sms token) s o Preview "sms" token
        (λ row. in_time e row (previewed e false row))
        (λ row here held. elim (Bool-cases (ltb row.expires_at e.now)) [
          | inl late ↦ simp late (
              expired-Effect c e (preview_sms token) s o Preview row confirm_expired here
                (runs_out_late token refl held late refl))
          | inr early ↦ simp early (previewed-Effect (preview_sms token) false row)
        ])
