-- ===== src/SignSessions/Lifecycle.antt =====
-- What holds of every sign session, whatever is asked of the service and whichever call fails.
use Prim.Native.Nat.{ℕ}
use mathlib.Core.Path.{subst}
use kub.Base.{
  found-below, found-keyed, found-passes, key_of, change_row-Ordered, all-change_row, ◌≤◌, ◌<◌,
  String, true, false, some, ◌==◌, ◌≡◌, ◌≢◌, ◌⊎◌, sym, ◌∙◌, ap, inl, inr, arith, Bool-cases, ==_iff,
  ltb→lt, keyed-changed, keyed-others, eq_iff,
}
use kub.SignSessions.Table.{SignSession, SignStore, session_key, session_by_id}
use kub.SignSessions.Service.{Crypto, Env, is_expired, normalize_session_token}
use kub.SignSessions.Keys.{tried_at_most, IsValid}
use kub.SignSessions.Steps.{
  Request, create_session, create_confirmed, verify_code, sign_token, open_page, sign_page, serve,
  Step, expires, expires_late, guessed, verifies, signs, Effect, same, added, changed,
}
use kub.SignSessions.Steps.Codes.{verify-Effect, sign-Effect}
use kub.SignSessions.Steps.Pages.{open_page-Effect, sign_by_id-Effect}
use kub.SignSessions.Steps.Creation.{create-Effect, create_confirmed-Effect}

pub serve-Effect :
    (c : Crypto) (e : Env) (q : Request) (s : SignStore) → Effect c e q s (serve c e q s)
unfolding serve
serve-Effect c e (create_session document phone) s = create-Effect c e document phone s
serve-Effect c e (create_confirmed document identity hash) s =
    create_confirmed-Effect c e document identity hash s
serve-Effect c e (verify_code token given) s = verify-Effect c e token given s
serve-Effect c e (sign_token token ip agent) s = sign-Effect c e token ip agent s
serve-Effect c e (open_page id token) s = open_page-Effect c e id token s
serve-Effect c e (sign_page id token ip agent) s = sign_by_id-Effect c e id token ip agent s

-- A move counts at most one wrong attempt, and only below the limit.
pub Step-attempts :
    {c : Crypto} {e : Env} {q : Request} {old new : SignSession}
    → Step c e q old new
    → old.attempts ≤ 5
    → (old.attempts ≤ new.attempts) × (new.attempts ≤ 5)
Step-attempts (expires unsigned gone kept) h = (omega arith, omega arith)
Step-attempts (expires_late token ip agent asked hashed late done) h =
    (rw done (omega arith), rw done h)
Step-attempts (guessed unsigned few counted next) h = (omega arith, omega arith)
Step-attempts (verifies token given asked hashed unsigned in_time right done kept) h =
    (omega arith, omega arith)
Step-attempts (signs unsigned in_time done kept) h = (omega arith, omega arith)

-- Every request keeps the table valid: its keys are distinct and fresh, and no session counts more
-- than five wrong attempts.
pub serve-IsValid :
    (c : Crypto) (e : Env) (q : Request) (s : SignStore) → IsValid s → IsValid (serve c e q s)
serve-IsValid c e q s (o, few) = elim (serve-Effect c e q s) [
  | same rows bound ↦ (rw (rows, bound) o, rw rows few)
  | added row fresh untried pending rows bound ↦
      (rw (rows, bound) (omega arith, rw fresh o), rw (rows, untried) few)
  | changed p old f found keeps step rows bound ↦
      let there = found-keyed session_key p s.sessions s.next_id o found in
      let tried : old.attempts ≤ 5 =
        ground (arith, found-passes session_key p (tried_at_most 5) s.sessions few found) in
      let fits : tried_at_most 5 (f old) ≡ true = ground (arith, (Step-attempts step tried).1) in
      (
        rw (rows, bound) (change_row-Ordered session_key old.id f s.sessions s.next_id keeps o),
        rw rows (
            all-change_row session_key (tried_at_most 5) old.id f s.sessions s.next_id o there fits
              few),
      )
]

-- What becomes of one session by a request: nothing, or one of its moves.
pub session_after :
    (c : Crypto) (e : Env) (q : Request) (s : SignStore) (k : ℕ) {r : SignSession}
    → IsValid s
    → session_by_id k s ≡ some r
    → (session_by_id k (serve c e q s) ≡ some r)
      ⊎ ((new : SignSession) × Step c e q r new × (session_by_id k (serve c e q s) ≡ some new))
session_after c e q s k {r} (o, few) there = elim (serve-Effect c e q s) [
  | same rows bound ↦ inl (rw rows there)
  | added row fresh untried pending rows bound ↦
      let known : k < s.next_id = ground (
        arith,
        found-below session_key (λ (x : SignSession). x.id == k) s.sessions s.next_id o there,
        key_of session_key k s.sessions there,
      ) in
      inl (rw rows (ground (arith, there)))
  | changed p old f found keeps step rows bound ↦ elim (Bool-cases (k == old.id)) [
    | inl here ↦
        let e' : k ≡ old.id = (==_iff k old.id).0 here in
        let mine = found-keyed session_key p s.sessions s.next_id o found in
        let alike : r ≡ old = ground (arith, e', there, mine) in
        inr (
          f old,
          subst (λ x. Step c e q x (f old)) (sym alike) step,
          rw (rows, e') (keyed-changed session_key old.id f s.sessions keeps mine),
        )
    | inr other ↦ inl (
        rw rows (
          keyed-others session_key old.id k f s.sessions keeps (λ e'. absurd (ground (arith, e')))
          ∙ there))
  ]
]

-- The one move that a signed session has.
Step-signed :
    {c : Crypto} {e : Env} {q : Request} {old new : SignSession}
    → Step c e q old new
    → old.status ≡ "signed"
    → (token : String) × (ip : String) × (agent : String) × (q ≡ sign_token token ip agent)
      × (old.token_hash ≡ c.hash_token (normalize_session_token c token))
      × (is_expired e old ≡ true)
      × (new ≡ record old { status = "expired" })
Step-signed (expires_late token ip agent asked hashed late done) signed =
    (token, ip, agent, asked, hashed, late, done)
Step-signed {old = old} (expires unsigned gone kept) signed =
    absurd (ground (arith, (eq_iff old.status "signed").1 signed))
Step-signed {old = old} (guessed unsigned few counted next) signed =
    absurd (ground (arith, (eq_iff old.status "signed").1 signed))
Step-signed {old = old} (verifies token given asked hashed unsigned in_time right done kept)
      signed =
    absurd (ground (arith, (eq_iff old.status "signed").1 signed))
Step-signed {old = old} (signs unsigned in_time done kept) signed =
    absurd (ground (arith, (eq_iff old.status "signed").1 signed))

expired_by_time :
    (e : Env) (r : SignSession) → r.status ≡ "signed" → is_expired e r ≡ true → r.expires_at < e.now
unfolding is_expired
expired_by_time e r signed late = ltb→lt r.expires_at e.now (rw signed at late)

-- A signed session stays as it is, whatever is asked, with one exception: `Sign` with its own token
-- after its time has run out overwrites it as expired.
pub signed_stays :
    (c : Crypto) (e : Env) (q : Request) (s : SignStore) (k : ℕ) {r : SignSession}
    → IsValid s
    → session_by_id k s ≡ some r
    → r.status ≡ "signed"
    → (session_by_id k (serve c e q s) ≡ some r)
      ⊎ ((token : String) × (ip : String) × (agent : String) × (q ≡ sign_token token ip agent)
          × (r.token_hash ≡ c.hash_token (normalize_session_token c token))
          × (r.expires_at < e.now)
          × (session_by_id k (serve c e q s) ≡ some (record r { status = "expired" })))
signed_stays c e q s k valid there signed = elim (session_after c e q s k valid there) [
  | inl kept ↦ inl kept
  | inr (new, step, now) ↦
      let (token, ip, agent, asked, hashed, late, done) = Step-signed step signed in
      inr (token, ip, agent, asked, hashed, expired_by_time e _ signed late, now ∙ ap some done)
]

-- What a move to "verified" takes.
Step-verified :
    {c : Crypto} {e : Env} {q : Request} {old new : SignSession}
    → Step c e q old new
    → old.status ≢ "verified"
    → new.status ≡ "verified"
    → (token : String) × (given : String) × (q ≡ verify_code token given)
      × (old.token_hash ≡ c.hash_token (normalize_session_token c token))
      × (c.compare_code old.code_hash given ≡ true)
      × (is_expired e old ≡ false)
Step-verified (verifies token given asked hashed unsigned in_time right done kept) un ver =
    (token, given, asked, hashed, right, in_time)
Step-verified (expires_late token ip agent asked hashed late done) un ver =
    absurd (ground (arith, eq_iff "expired" "verified"))
Step-verified (expires unsigned gone kept) un ver =
    absurd (ground (arith, eq_iff "expired" "verified"))
Step-verified (guessed unsigned few counted (inl gone)) un ver =
    absurd (ground (arith, eq_iff "expired" "verified"))
Step-verified (guessed unsigned few counted (inr next)) un ver = absurd (un (sym next ∙ ver))
Step-verified (signs unsigned in_time done kept) un ver =
    absurd (ground (arith, eq_iff "signed" "verified"))

-- A session comes to be verified only by `Verify` with its own token and a code that matches its
-- hash, in time.
pub verified_only_by_code :
    (c : Crypto) (e : Env) (q : Request) (s : SignStore) (k : ℕ) {r r' : SignSession}
    → IsValid s
    → session_by_id k s ≡ some r
    → r.status ≢ "verified"
    → session_by_id k (serve c e q s) ≡ some r'
    → r'.status ≡ "verified"
    → (token : String) × (given : String) × (q ≡ verify_code token given)
      × (r.token_hash ≡ c.hash_token (normalize_session_token c token))
      × (c.compare_code r.code_hash given ≡ true)
      × (is_expired e r ≡ false)
verified_only_by_code c e q s k {r} {r'} valid there un after ver =
    elim (session_after c e q s k valid there) [
      | inl kept ↦
          let alike : r ≡ r' = ground (arith, kept, after) in
          absurd (un (ap (λ (x : SignSession). x.status) alike ∙ ver))
      | inr (new, step, now) ↦
          let alike : new ≡ r' = ground (arith, now, after) in
          Step-verified step un (ap (λ (x : SignSession). x.status) alike ∙ ver)
    ]
