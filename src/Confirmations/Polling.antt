-- ===== src/Confirmations/Polling.antt =====
-- GetStatus, which may expire the newest row of each channel, and all requests together.
use mathlib.Core.Path.{subst}
use kub.Base.{
  ℕ, String, true, Option, none, some, List, [], ◌∷◌, ltb, pure, query, not, ◌&&◌, ◌=ˢ◌, ◌>>=◌, ◌≡◌,
  ◌⊎◌, refl, ap, ◌∙◌, inl, inr, Bool-cases, &&_elim, Ordered, Pointwise, Pointwise-refl,
  Pointwise-change_row, Pointwise-trans, Pointwise-weaken, Pointwise-Ordered, after_test,
  after_read, after_call, queried, not_configured, to_lower, trim_space,
}
use kub.Confirmations.Table.{
  Confirmation, ConfirmStore, confirmation_key, is_pending, is_for, get_latest_by_channel, expired,
}
use kub.Confirmations.Service.{Crypto, Env, expire_row}
use kub.Confirmations.Starting.{start_signing_by_channel}
use kub.Confirmations.Opening.{
  ChannelStatus, channel_status, statuses_of, get_status, lookup_by_token,
}
use kub.Confirmations.Requests.{
  Request, start, email_code, sms_code, open_email, open_sms, preview_email, preview_sms,
  preview_opened, telegram, look_up, add_meta, poll, serve, Step, unmoved, runs_out, Effect, moved,
}
use kub.Confirmations.Finding.{latest-keyed, unchanged}
use kub.Confirmations.Pages.{
  email_code-Effect, sms_code-Effect, open_email-Effect, open_sms-Effect, preview_email-Effect,
  preview_sms-Effect,
}
use kub.Confirmations.Serving.{telegram-Effect, preview_opened-Effect, add_meta-Effect}
use kub.Confirmations.Begun.{start_email-Effect, start_sms-Effect}

-- A pending row may have expired meanwhile.
abbrev Lapse : Confirmation → Confirmation → Type 0
Lapse x y = (y ≡ x) ⊎ ((is_pending x ≡ true) × (y ≡ expired x))

Lapse-trans : (x y z : Confirmation) → Lapse x y → Lapse y z → Lapse x z
Lapse-trans x y z (inl is) b = subst (λ w. Lapse w z) is b
Lapse-trans x y z (inr (open_, is)) (inl same) = inr (open_, same ∙ is)
Lapse-trans x y z (inr (open_, is)) (inr (still, gone)) = inr (open_, gone ∙ ap expired is)

Lapse-id : (x y : Confirmation) → Lapse x y → y.id ≡ x.id
Lapse-id x y (inl is) = rw is refl
Lapse-id x y (inr (open_, is)) = rw is refl

Lapse-Step : (c : Crypto) (e : Env) (q : Request) (x y : Confirmation) → Lapse x y → Step c e q x y
Lapse-Step c e q x y (inl is) = unmoved is
Lapse-Step c e q x y (inr (open_, is)) = runs_out open_ is

abbrev Lapsed : ConfirmStore → ConfirmStore → Type 0
Lapsed s t = Pointwise Lapse s.rows t.rows × (t.next_id ≡ s.next_id)

lapse_none : (s : ConfirmStore) → Lapsed s s
lapse_none s = (Pointwise-refl Lapse (λ x. inl refl) s.rows, refl)

channel-Lapsed :
    (e : Env) (document user : ℕ) (channel : String) (found : Option Confirmation)
    (s : ConfirmStore)
    → Ordered confirmation_key s.rows s.next_id
    → get_latest_by_channel document user channel s ≡ found
    → Lapsed s (channel_status e channel found s).1
unfolding channel_status expire_row
channel-Lapsed e document user channel none s o got = lapse_none s
channel-Lapsed e document user channel (some row) s o got =
    elim (Bool-cases (is_pending row && ltb row.expires_at e.now)) [
      | inr stays ↦ simp stays (lapse_none s)
      | inl late ↦ elim (Bool-cases e.expire_fails) [
        | inl refused ↦ simp (late, refused) (lapse_none s)
        | inr written ↦
            let (passes, below, here) =
              latest-keyed (is_for document user channel) s.rows s.next_id o got in
            let (open_, over) = &&_elim (is_pending row) (ltb row.expires_at e.now) late in
            simp (late, written)
              (
                Pointwise-change_row Lapse confirmation_key (λ x. inl refl) expired s.rows s.next_id
                    o here (inr (open_, refl)),
                refl,
              )
      ]
    ]

statuses-Lapsed :
    (e : Env) (document user : ℕ) (channels : List String) (s : ConfirmStore)
    → Ordered confirmation_key s.rows s.next_id
    → Lapsed s (statuses_of e document user channels s).1
unfolding statuses_of
statuses-Lapsed e document user [] s o = lapse_none s
statuses-Lapsed e document user (channel ∷ channels) s o =
    let look = query e.latest_fails (get_latest_by_channel document user channel) in
    let rest = statuses_of e document user channels in
    let end = λ (status : ChannelStatus). rest >>= λ more. pure (status ∷ more) in
    after_read (Lapsed s) look (λ found. channel_status e channel found >>= end) s refl
      (lapse_none s)
      (λ found got.
        let first =
          channel-Lapsed e document user channel found s o
            (queried e.latest_fails (get_latest_by_channel document user channel) s got) in
        let t = (channel_status e channel found s).1 in
        let again : Ordered confirmation_key t.rows t.next_id =
          rw (first.1)
            (Pointwise-Ordered Lapse confirmation_key Lapse-id s.rows t.rows s.next_id first.0 o) in
        let second = statuses-Lapsed e document user channels t again in
        let both : Lapsed s (rest t).1 = (
          Pointwise-trans Lapse Lapse-trans s.rows t.rows (rest t).1.rows first.0 second.0,
          second.1 ∙ first.1,
        ) in
        after_call (Lapsed s) (channel_status e channel found) end s first (λ status done.
          after_call (Lapsed s) rest (λ more. pure (status ∷ more)) t both (λ more all_done. both)))

poll-Effect :
    (c : Crypto) (e : Env) (q : Request) (document user : ℕ) (s : ConfirmStore)
    → Ordered confirmation_key s.rows s.next_id
    → Effect c e q s (get_status e document user s).1
unfolding get_status
poll-Effect c e q document user s o =
    after_test (Effect c e q s) (not e.repo) not_configured
      (statuses_of e document user ("email" ∷ "sms" ∷ [])) s (unchanged c e q s s refl refl)
      (λ there.
        let t = (statuses_of e document user ("email" ∷ "sms" ∷ []) s).1 in
        let (rows, bound) = statuses-Lapsed e document user ("email" ∷ "sms" ∷ []) s o in
        moved (Pointwise-weaken Lapse (Step c e q) (Lapse-Step c e q) s.rows t.rows rows) bound)

start-Effect :
    (c : Crypto) (e : Env) (q : Request) (channel : String) (document user : ℕ)
    (phone email : String) (s : ConfirmStore)
    → Ordered confirmation_key s.rows s.next_id
    → Effect c e q s (start_signing_by_channel c e channel document user phone email s).1
unfolding start_signing_by_channel
start-Effect c e q channel document user phone email s o =
    elim (Bool-cases (to_lower (trim_space channel) =ˢ "sms")) [
      | inl sms ↦ simp sms (start_sms-Effect c e q s o document user phone email)
      | inr other ↦ elim (Bool-cases (to_lower (trim_space channel) =ˢ "email")) [
        | inl mail ↦ simp (other, mail) (start_email-Effect c e q s o document user email)
        | inr none_ ↦ simp (other, none_) (unchanged c e q s s refl refl)
      ]
    ]

pub serve-Effect :
    (c : Crypto) (e : Env) (q : Request) (s : ConfirmStore)
    → Ordered confirmation_key s.rows s.next_id
    → Effect c e q s (serve c e q s)
unfolding serve lookup_by_token
serve-Effect c e (start channel document user phone email) s o =
    start-Effect c e (start channel document user phone email) channel document user phone email s o
serve-Effect c e (email_code document token given client version ip agent) s o =
    email_code-Effect c e s o document token given client version ip agent
serve-Effect c e (sms_code document token given client version ip agent) s o =
    sms_code-Effect c e s o document token given client version ip agent
serve-Effect c e (open_email token ip agent) s o =
    open_email-Effect c e s o (open_email token ip agent) token ip agent
serve-Effect c e (open_sms token ip agent) s o =
    open_sms-Effect c e s o (open_sms token ip agent) "sms" token ip agent
serve-Effect c e (preview_email token) s o =
    preview_email-Effect c e s o (preview_email token) token
serve-Effect c e (preview_sms token) s o = preview_sms-Effect c e s o token
serve-Effect c e (preview_opened p ip agent) s o =
    preview_opened-Effect c e s o (preview_opened p ip agent) p ip agent
serve-Effect c e (telegram token action meta) s o = telegram-Effect c e s o token action meta
serve-Effect c e (look_up channel token) s o = unchanged c e (look_up channel token) s s refl refl
serve-Effect c e (add_meta id meta) s o = add_meta-Effect c e s o (add_meta id meta) id meta
serve-Effect c e (poll document user) s o = poll-Effect c e (poll document user) document user s o
