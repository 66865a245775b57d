-- ===== src/Confirmations/Answers.antt =====
-- The requests that answer for an existing confirmation: codes, pages, previews and Telegram.
use kub.Base.{
  ℕ, ◌<◌, ◌==◌, String, true, false, not, ltb, fail_if, ◌>>=◌, ◌>>◌, is_empty, ◌≡◌, refl, arith,
  ==_iff, Ordered, after_test, after_read, confirm_invalid_token, confirm_invalid_code,
}
use kub.Confirmations.Table.{
  Confirmation, ConfirmStore, confirmation_key, is_pending, holds, has_token,
}
use kub.Confirmations.Service.{Crypto, Env, Confirming, normalize_email_otp, hash_of, open_by_token}
use kub.Confirmations.Confirm.{code_matches, try_code, confirm_by_code}
use kub.Confirmations.Requests.{Request, Effect}
use kub.Confirmations.Finding.{latest-keyed, unchanged, open_by_token-store, open_by_token-row}
use kub.Confirmations.Codes.{Here, try_code-Effect}

module _ (c : Crypto) (e : Env) (q : Request) (s : ConfirmStore)
    (o : Ordered confirmation_key s.rows s.next_id) where
  -- Whatever is done to the row of a token.
  pub by_token-Effect :
      (A : Type 0) (channel token : String) (act : Confirmation → Confirming A)
      → ((row : Confirmation)
          → Here c e q s o row
          → holds row.token_hash (hash_of c e token) ≡ true
          → Effect c e q s (act row s).1)
      → Effect c e q s ((open_by_token c e channel token >>= act) s).1
  by_token-Effect A channel token act each =
      after_read (Effect c e q s) (open_by_token c e channel token) act s
        (open_by_token-store c e channel token s) (unchanged c e q s s refl refl)
        (λ row got.
          let (found, held) = open_by_token-row c e channel token s got in
          let (passes, below, here) =
            latest-keyed (has_token channel (hash_of c e token)) s.rows s.next_id o found in
          each row here held)

  pub confirm_by_code-Effect :
      (A : Type 0) (channel : String) (document : ℕ) (token given : String)
      (settle : Confirmation → Confirming A)
      → ((row : Confirmation)
          → Here c e q s o row
          → row.document_id ≡ document
          → holds row.token_hash (hash_of c e token) ≡ true
          → is_pending row ≡ true
          → ltb row.expires_at e.now ≡ false
          → row.attempts < 5
          → code_matches c row.otp_hash (normalize_email_otp given) ≡ true
          → Effect c e q s (settle row s).1)
      → Effect c e q s (confirm_by_code c e channel document token given settle s).1
  unfolding confirm_by_code
  confirm_by_code-Effect A channel document token given settle each =
      let Q = Effect c e q s in
      let stay : Q s = unchanged c e q s s refl refl in
      let code = normalize_email_otp given in
      let last = λ (row : Confirmation). try_code c e row code settle in
      let coded =
        λ (row : Confirmation). fail_if (is_empty code) confirm_invalid_code >> last row in
      let act = λ (row : Confirmation).
        fail_if (not (row.document_id == document)) confirm_invalid_token >> coded row in
      by_token-Effect A channel token act (λ row here held.
        after_test Q (not (row.document_id == document)) confirm_invalid_token (coded row) s stay
          (λ mine. after_test Q (is_empty code) confirm_invalid_code (last row) s stay (λ given_.
            try_code-Effect c e q s o A row code settle here (λ open_ in_time few right.
              each row here ((==_iff row.document_id document).0 (ground (arith, mine))) held open_
                in_time few right))))
