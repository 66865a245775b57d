-- ===== src/Confirmations/Serving.antt =====
-- The start of a signing, Telegram and the rest of the requests, and all requests together.
use kub.Base.{
  ℕ, ◌=ˢ◌, ◌&&◌, ◌||◌, String, Bool, true, not, Option, some, List, [], ◌∷◌, find, ltb, query,
  or_fail, fail_if, ◌>>=◌, ◌>>◌, ◌≡◌, refl, ◌∙◌, inl, inr, arith, Bool-cases, Result-cases, keyed,
  Ordered, queried, Pointwise-change_all, after_test, after_read, after_find, after_write,
  found-keyed, not_configured, invalid_action, confirm_invalid_token, confirm_not_found, to_lower,
  trim_space,
}
use kub.Confirmations.Meta.{Meta}
use kub.Confirmations.Table.{
  Confirmation, ConfirmStore, confirmation_key, is_pending, holds, has_token,
  find_pending_by_token_hash, update_row, approved, rejected, with_meta,
}
use kub.Confirmations.Service.{Crypto, Env, hash_of}
use kub.Confirmations.Opening.{
  Preview, opened_meta, telegram_meta, evaluate_policy, answer_row, confirm_by_telegram_callback,
  record_preview_opened, update_confirmation_meta,
}
use kub.Confirmations.Requests.{
  Request, telegram, Step, unmoved, noted, answered, Effect, moved, begun,
}
use kub.Confirmations.Finding.{unchanged, one_row}

find-passes :
    (p : Confirmation → Bool) (rows : List Confirmation) {r : Confirmation}
    → find p rows ≡ some r
    → p r ≡ true
find-passes p [] h = absurd (ground arith)
find-passes p (x ∷ rows) {r} h = elim (Bool-cases (p x)) [
  | inl here ↦ ground arith
  | inr beyond ↦ find-passes p rows {r = r} (rw beyond at h)
]

policy-rows :
    (e : Env) (document : ℕ) (s : ConfirmStore)
    → ((evaluate_policy e document s).1.rows ≡ s.rows)
      × ((evaluate_policy e document s).1.next_id ≡ s.next_id)
unfolding evaluate_policy
policy-rows e document s = elim (Result-cases e.finalizing) [
  | inl (u, done) ↦ (ground arith, ground arith)
  | inr (x, failed) ↦ (ground arith, ground arith)
]

module _ (c : Crypto) (e : Env) (s : ConfirmStore)
    (o : Ordered confirmation_key s.rows s.next_id) where
  -- What writes to other tables only.
  same_rows :
      (q : Request) (t u : ConfirmStore)
      → u.rows ≡ t.rows
      → u.next_id ≡ t.next_id
      → Effect c e q s t
      → Effect c e q s u
  same_rows q t u rows bound (moved each kept) = moved (rw rows each) (bound ∙ kept)
  same_rows q t u rows bound (begun row rest id fresh each others now kept) =
      begun row rest id fresh each others (rows ∙ now) (bound ∙ kept)

  answer-Effect :
      (token given : String) (sent : Meta) (meta : Meta) (row : Confirmation) (action : String)
      → keyed confirmation_key row.id s.rows ≡ some row
      → is_pending row ≡ true
      → ltb e.db_now row.expires_at ≡ true
      → holds row.token_hash (hash_of c e token) ≡ true
      → Effect c e (telegram token given sent) s (answer_row c e action meta row s).1
  answer-Effect token given sent meta row action here open_ early held =
      let q = telegram token given sent in
      let yes = answered token given sent meta refl open_ early held (inl refl) in
      let no = answered token given sent meta refl open_ early held (inr refl) in
      elim (Bool-cases (action =ˢ "approve")) [
        | inl approves ↦ elim (Bool-cases e.approve_fails) [
          | inl refused ↦ simp (approves, refused) (unchanged c e q s s refl refl)
          | inr written ↦
              let t = update_row row.id (approved e.db_now meta) s in
              let (rows, bound) = policy-rows e row.document_id t in
              simp (approves, written)
                (same_rows q t (evaluate_policy e row.document_id t).1 rows bound
                  (one_row c e q s o row (approved e.db_now meta) here yes))
        ]
        | inr rejects ↦ elim (Bool-cases e.reject_fails) [
          | inl refused ↦ simp (rejects, refused) (unchanged c e q s s refl refl)
          | inr written ↦
              simp (rejects, written) (one_row c e q s o row (rejected e.db_now meta) here no)
        ]
      ]

  -- The row that Telegram's token finds.
  last-Effect :
      (token action : String) (given : Meta) (row : Confirmation)
      → find_pending_by_token_hash e.db_now "telegram" (hash_of c e token) s ≡ some row
      → Effect c e
          (telegram token action given)
          s
          (answer_row c e (to_lower (trim_space action)) (telegram_meta c given) row s).1
  last-Effect token action given row found =
      let p = λ (r : Confirmation).
        has_token "telegram" (hash_of c e token) r && (is_pending r && ltb e.db_now r.expires_at) in
      let passes : p row ≡ true = find-passes p s.rows found in
      let here = found-keyed confirmation_key p s.rows s.next_id o found in
      answer-Effect token action given (telegram_meta c given) row (to_lower (trim_space action))
        here (ground (arith, passes)) (ground (arith, passes)) (ground (arith, passes))

  pub telegram-Effect :
      (token action : String) (given : Meta)
      → Effect c e
          (telegram token action given)
          s
          (confirm_by_telegram_callback c e token action given s).1
  unfolding confirm_by_telegram_callback
  telegram-Effect token action given =
      let Q = Effect c e (telegram token action given) s in
      let stay : Q s = unchanged c e (telegram token action given) s s refl refl in
      let word = to_lower (trim_space action) in
      let hash = hash_of c e token in
      let last = λ (row : Confirmation). answer_row c e word (telegram_meta c given) row in
      let act = λ (row : Confirmation).
        fail_if (not (holds row.token_hash hash)) confirm_invalid_token >> last row in
      let found_or = λ (found : Option Confirmation). or_fail found confirm_not_found >>= act in
      let look = query e.find_fails (find_pending_by_token_hash e.db_now "telegram" hash) in
      let known = look >>= found_or in
      let said = fail_if (not (word =ˢ "approve" || word =ˢ "reject")) invalid_action >> known in
      after_test Q (not e.repo) not_configured said s stay (λ there.
        after_test Q (not (word =ˢ "approve" || word =ˢ "reject")) invalid_action known s stay
          (λ meant. after_read Q look found_or s refl stay (λ found got.
            after_find Q found confirm_not_found act s stay (λ row one.
              after_test Q (not (holds row.token_hash hash)) confirm_invalid_token (last row) s stay
                (λ held. last-Effect token action given row (
                  queried e.find_fails (find_pending_by_token_hash e.db_now "telegram" hash) s got
                  ∙ one))))))

  pub noted-Effect :
      (q : Request) (id : ℕ) (m : Meta) → Effect c e q s (update_row id (with_meta m) s)
  noted-Effect q id m =
      moved
        (Pointwise-change_all (Step c e q) confirmation_key id (with_meta m) (λ x. unmoved refl)
          (λ x. noted m refl) s.rows)
        refl

  pub preview_opened-Effect :
      (q : Request) (p : Preview) (ip agent : String)
      → Effect c e q s (record_preview_opened e p ip agent s).1
  unfolding record_preview_opened
  preview_opened-Effect q p ip agent = elim (Bool-cases e.repo) [
    | inr none_ ↦ simp none_ (unchanged c e q s s refl refl)
    | inl there ↦ simp there (
        after_write (Effect c e q s) e.meta_fails
          (update_row p.confirmation_id (with_meta (opened_meta e p ip agent))) s
          (unchanged c e q s s refl refl)
          (noted-Effect q p.confirmation_id (opened_meta e p ip agent)))
  ]

  pub add_meta-Effect :
      (q : Request) (id : ℕ) (m : Meta) → Effect c e q s (update_confirmation_meta e id m s).1
  unfolding update_confirmation_meta
  add_meta-Effect q id [] = elim (Bool-cases e.repo) [
    | inr none_ ↦ simp none_ (unchanged c e q s s refl refl)
    | inl there ↦ simp there (unchanged c e q s s refl refl)
  ]
  add_meta-Effect q id (x ∷ m) = elim (Bool-cases e.repo) [
    | inr none_ ↦ simp none_ (unchanged c e q s s refl refl)
    | inl there ↦ simp there (
        after_write (Effect c e q s) e.meta_fails (update_row id (with_meta (x ∷ m))) s
          (unchanged c e q s s refl refl) (noted-Effect q id (x ∷ m)))
  ]
