-- ===== src/Base/Outcomes.antt =====
-- Errors as values, and handlers that change a store and may fail: what was written before an error
-- stays written, so the store comes back beside the error too.
use mathlib.Core.Bool.{Bool, true, false, true≢false}
use mathlib.Core.Option.{Option, none, some}
use mathlib.Core.Path.{◌≡◌, refl, sym, ap, ◌∙◌, subst}
use mathlib.Core.Logic.{◌⊎◌, ◌≢◌, inl, inr}
use kub.Base.Tests.{if◌then◌else◌}
use native.Mathlib.Omega.{arith}

-- The errors of internal/services (errors.go and the `var` blocks of the services), those that the
-- services build by `errors.New`, and `db`, an error that a repository passes up.
pub data Error : Type 0 where
  forbidden read_only not_found invalid_state : Error
  lead_not_found deal_not_found client_not_found : Error
  client_id_required client_type_required invalid_client_type client_type_mismatch : Error
  amount_invalid currency_required not_configured deal_already_exists : Error
  already_archived not_archived status_not_via_update invalid_transition not_convertible : Error
  no_pending_verification already_verified code_invalid code_expired too_many_attempts : Error
  resend_throttled email_required delivery_failed hash_failed : Error
  token_or_password_required password_too_short : Error
  reset_token_not_found reset_token_used reset_token_expired : Error
  session_not_found session_expired session_invalid_code session_too_many_tries : Error
  session_not_verified session_already_signed session_rate_limited session_invalid_phone : Error
  session_doc_not_found session_forbidden session_invalid_status session_base_url : Error
  session_invalid_token session_invalid_email document_changed : Error
  empty_phone invalid_phone_length : Error
  approval_not_found approval_already_resolved request_incomplete : Error
  unsupported_doc_type doc_type_required file_required invalid_filename bad_action : Error
  bad_filepath file_not_found file_failed document_not_approved pdf_not_configured : Error
  invalid_status random_failed delivery_missing : Error
  confirm_not_found confirm_expired confirm_invalid_code confirm_too_many_tries : Error
  confirm_invalid_token confirm_already_used confirm_hash_required confirm_doc_mismatch : Error
  agreement_required agreement_mismatch signer_email_required signer_phone_required : Error
  user_not_found document_not_found unsupported_channel invalid_action invalid_policy : Error
  files_root_required stage_has_deals : Error
  client_data_required stored_type_required stored_type_mismatch : Error
  db : Error

pub data Result {ℓ} (A : Type ℓ) : Type ℓ where
  ok : A → Result A
  err : Error → Result A

pub Result-cases {ℓ} :
    {A : Type ℓ} (r : Result A) → ((a : A) × (r ≡ ok a)) ⊎ ((e : Error) × (r ≡ err e))
Result-cases (ok a) = inl (a, refl)
Result-cases (err e) = inr (e, refl)

abbrev pub is_ok {ℓ} : {A : Type ℓ} → Result A → Bool
is_ok (ok a) = true
is_ok (err e) = false

abbrev pub Handler {ℓ} : Type 0 → Type ℓ → Type ℓ
Handler S A = S → Result A × S

module _ {ℓ} {S : Type 0} {A : Type ℓ} where
  abbrev pub pure : A → Handler S A
  pure a s = (ok a, s)

  abbrev pub fail : Error → Handler S A
  fail e s = (err e, s)

  abbrev pub lift : Result A → Handler S A
  lift r s = (r, s)

  abbrev pub or_fail : Option A → Error → Handler S A
  or_fail none e s = (err e, s)
  or_fail (some a) e s = (ok a, s)

  -- A repository call that answers by reading the store.
  abbrev pub query : Bool → (S → A) → Handler S A
  query fails f s = (if fails then err db else ok (f s), s)

infixl 5 ◌>>=◌ ◌>>◌
abbrev pub ◌>>=◌ {ℓ κ} :
    {S : Type 0} {A : Type ℓ} {B : Type κ} → Handler S A → (A → Handler S B) → Handler S B
◌>>=◌ m f s = let (r, s') = m s in elim r [ ok a ↦ f a s' | err e ↦ (err e, s') ]

abbrev pub ◌>>◌ {ℓ κ} :
    {S : Type 0} {A : Type ℓ} {B : Type κ} → Handler S A → Handler S B → Handler S B
m >> k = m >>= λ _. k

-- `if c { return err }`.
abbrev pub fail_if : {S : Type 0} → Bool → Error → Handler S (Unit {0})
fail_if c e s = (if c then err e else ok tt, s)

-- A repository call that writes to the store, unless the database refuses it.
abbrev pub exec : {S : Type 0} → Bool → (S → S) → Handler S (Unit {0})
exec fails f s = if fails then (err db, s) else (ok tt, f s)

-- `_ = call`: the error is dropped.
abbrev pub ignore : {S : Type 0} → Handler S (Unit {0}) → Handler S (Unit {0})
ignore m s = (ok tt, (m s).1)

abbrev pub next : {S A B : Type 0} → (A → Handler S B) → Result A → S → S
next k (ok a) t = (k a t).1
next k (err x) t = t

next-same :
    {S A B : Type 0} (t : S) (k : A → Handler S B) (r : Result A)
    → ((lift r >>= k) t).1 ≡ next k r t
next-same t k (ok a) = refl
next-same t k (err x) = refl

-- Where a handler ends, by the answer of its first call.
pub goes_on :
    {S A B : Type 0} (m : Handler S A) (k : A → Handler S B) (s : S) {r : Result A} {t : S}
    → (m s).0 ≡ r
    → (m s).1 ≡ t
    → ((m >>= k) s).1 ≡ next k r t
goes_on m k s answer after = next-same (m s).1 k (m s).0 ∙ (λ i. next k (answer i) (after i))

stops :
    {S A : Type 0} (B : Type 0) (x : Error) (r : Result A) (t : S)
    → is_ok ((lift r >> fail {A = B} x) t).0 ≡ false
stops B x (ok a) t = refl
stops B x (err y) t = refl

-- A call that an error is returned after.
pub never_ok :
    {S A B : Type 0} (m : Handler S A) (x : Error) (s : S) (b : B)
    → ((m >> fail {A = B} x) s).0 ≢ ok b
never_ok {B = B} m x s b done =
    absurd (true≢false (sym (ap is_ok done) ∙ stops B x (m s).0 (m s).1))

-- What a query that succeeds has read.
pub queried :
    {S A : Type 0} (fails : Bool) (f : S → A) (s : S) {a : A} → (query fails f s).0 ≡ ok a → f s ≡ a
queried true f s h = absurd (ground (arith, h))
queried false f s h = ground (arith, h)

ends_answer :
    {S A B : Type 0} (Q : Result B × S → Type 0) (r : Result A) (k : A → Handler S B) (s : S)
    → ((e : Error) → Q (err e, s))
    → ((a : A) → r ≡ ok a → Q (k a s))
    → Q ((lift r >>= k) s)
ends_answer Q (ok a) k s refused go = go a refl
ends_answer Q (err e) k s refused go = refused e

-- Where a first call writes nothing: what holds of how the whole ends.
pub ends_after :
    {S A B : Type 0} (Q : Result B × S → Type 0) (m : Handler S A) (k : A → Handler S B) (s : S)
    → (m s).1 ≡ s
    → ((e : Error) → Q (err e, s))
    → ((a : A) → (m s).0 ≡ ok a → Q (k a s))
    → Q ((m >>= k) s)
ends_after {S} {A} Q m k s same refused go =
    let whole : (m >>= k) s ≡ (lift (m s).0 >>= k) s =
      ap (λ t. ((λ (x : S). ((m s).0, t)) >>= k) s) same in
    subst Q (sym whole) (ends_answer Q (m s).0 k s refused go)

-- A test that lets the handler go on.
pub passed :
    {S : Type 0} (c : Bool) (x : Error) (s : S) {u : Unit {0}}
    → (fail_if c x s).0 ≡ ok u
    → c ≡ false
passed true x s done = absurd (ground (arith, done))
passed false x s done = refl

-- A first call that succeeds.
pub bind_ok :
    {S A B : Type 0} (m : Handler S A) (k : A → Handler S B) (s : S) {a : A} {t : S}
    → m s ≡ (ok a, t)
    → (m >>= k) s ≡ k a t
bind_ok {S = S} {A = A} m k s h = ap (λ (p : Result A × S). ((λ (x : S). p) >>= k) s) h
