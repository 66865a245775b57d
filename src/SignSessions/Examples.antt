-- ===== src/SignSessions/Examples.antt =====
-- A sign session of a test, and the theorems on sign sessions there.
use kub.Base.{
  ℕ, ◌≤◌, ◌<◌, String, true, false, none, some, [], ◌∷◌, ◌=ˢ◌, ◌++ˢ◌, ok, ◌≡◌, ◌⊎◌, refl, arith,
  eq_iff, trim_space, has_prefix, change_row,
}
use kub.Phone.{sanitize_e164_digits, digits_of, size}
use kub.SignSessions.Table.{
  SignSession, SignStore, session_by_id, count_by_document, count_by_phone,
}
use kub.SignSessions.Service.{
  Crypto, Env, rate_limit_span, is_expired, expire_session, normalize_session_token, get_by_token,
  create, create_row,
}
use kub.SignSessions.Signing.{try_code, verify_session, verify, sign}
use kub.SignSessions.Steps.{verify_code, sign_token, serve}
use kub.SignSessions.Keys.{IsValid}
use kub.SignSessions.Lifecycle.{serve-IsValid, signed_stays, verified_only_by_code}
use kub.SignSessions.Guesses.{Run, start, guess, wrong_codes_bounded}
use kub.SignSessions.Limits.{create_rate_limited}

-- Hashes that are not secret, but hashes.
abbrev crypto : Crypto
crypto = record {
  hash_token = λ t. "h" ++ˢ t;
  compare_code = λ hash code. hash =ˢ ("c" ++ˢ code);
  unescape = λ t. some t;
}

abbrev env : ℕ → Env
env now = record {
  now = now;
  db_now = now;
  session_ttl = 100;
  sign_base_url = "https://kub.kz/sign/";
  token_visible = true;
  documents = true;
  delivery = true;
  signing_allowed = ok tt;
  artifact = ok tt;
  finalizing = ok tt;
  code_hash = ok "c123456";
  token = ok "t";
  code_sent = true;
  link_sent = true;
  count_fails = false;
  phone_count_fails = false;
  get_fails = false;
  create_fails = false;
  update_fails = false;
  increment_fails = false;
}

abbrev session : String → SignSession
session status = record {
  id = 4;
  document_id = 9;
  phone_e164 = "77010000000";
  code_hash = "c123456";
  token_hash = "ht";
  signer_email = "";
  doc_hash = "";
  expires_at = 100;
  attempts = 0;
  status = status;
  verified_at = none;
  signed_at = none;
  signed_ip = "";
  signed_user_agent = "";
  created_at = 0;
}

abbrev store : String → SignStore
store status = record { sessions = session status ∷ []; next_id = 5; finalized = [] }

store-IsValid : (status : String) → IsValid (store status)
store-IsValid status = ((omega arith, tt), refl)

serve-IsValid_example : IsValid (serve crypto (env 10) (verify_code "t" "000000") (store "pending"))
serve-IsValid_example =
    serve-IsValid crypto (env 10) (verify_code "t" "000000") (store "pending")
      (store-IsValid "pending")

signed_stays_example :
    (session_by_id 4 (serve crypto (env 200) (sign_token "t" "" "") (store "signed"))
      ≡ some (session "signed"))
    ⊎ ((token : String) × (ip : String) × (agent : String) × (sign_token "t" "" ""
          ≡ sign_token token ip agent)
        × ("ht" ≡ crypto.hash_token (normalize_session_token crypto token))
        × (100 < 200)
        × (session_by_id 4 (serve crypto (env 200) (sign_token "t" "" "") (store "signed"))
            ≡ some (session "expired")))
signed_stays_example =
    signed_stays crypto (env 200) (sign_token "t" "" "") (store "signed") 4 (store-IsValid "signed")
      refl refl

verified_only_by_code_example :
    (token : String) × (given : String) × (verify_code " t" "123456" ≡ verify_code token given)
    × ("ht" ≡ crypto.hash_token (normalize_session_token crypto token))
    × (crypto.compare_code "c123456" given ≡ true)
    × (is_expired (env 10) (session "pending") ≡ false)
unfolding serve verify get_by_token normalize_session_token trim_space verify_session is_expired
    try_code change_row
verified_only_by_code_example =
    verified_only_by_code crypto (env 10) (verify_code " t" "123456") (store "pending") 4
      (store-IsValid "pending") refl (λ e. ground (arith, eq_iff "pending" "verified")) refl refl

one_guess :
    Run crypto 4 (store "pending") 1 (verify crypto (env 10) "t" "000000" (store "pending")).1
unfolding verify normalize_session_token trim_space get_by_token verify_session is_expired try_code
one_guess =
    guess (env 10) "t" "000000" (session "pending") (start refl refl) refl refl refl refl refl refl

wrong_codes_bounded_example : 1 ≤ 5
wrong_codes_bounded_example =
    wrong_codes_bounded crypto 4 (store "pending") (store-IsValid "pending") refl one_guess

create_rate_limited_example :
    (count_by_document 9 rate_limit_span 10
        (create crypto (env 10) 9 "+7 701 000 00 00" (store "pending")).1
      ≤ 3)
    × (count_by_phone "77010000000" rate_limit_span 10
          (create crypto (env 10) 9 "+7 701 000 00 00" (store "pending")).1
        ≤ 3)
unfolding create sanitize_e164_digits digits_of trim_space size has_prefix create_row
create_rate_limited_example =
    create_rate_limited crypto (env 10) 9 "+7 701 000 00 00" "77010000000" (store "pending") refl
      refl

-- The signature is lost where a signed session is signed again after its time.
signature_lost :
    session_by_id 4 (sign crypto (env 200) "t" "" "" (store "signed")).1 ≡ some (session "expired")
unfolding sign get_by_token normalize_session_token trim_space is_expired expire_session change_row
signature_lost = refl
