-- ===== src/Confirmations/Lifecycle.antt =====
-- What holds of every confirmation, whatever is asked of the service and whichever call fails.
use mathlib.Core.Path.{subst}
use kub.Base.{
  ℕ, ◌<◌, ◌=ˢ◌, ◌==◌, ◌&&◌, String, Bool, true, false, not, some, List, [], ◌∷◌, all, leb, ltb, ◌≡◌,
  ◌≢◌, ◌⊎◌, refl, sym, ap, ◌∙◌, inl, inr, arith, Bool-cases, keyed, Ordered, Pointwise,
  Pointwise-Ordered, all-Pointwise, keyed-Pointwise, found-below, keyed-key, eq_iff,
}
use kub.Confirmations.Meta.{Meta}
use kub.Confirmations.Table.{
  Confirmation, ConfirmStore, confirmation_key, is_pending, is_for, holds, expired,
}
use kub.Confirmations.Service.{Crypto, Env, hash_of}
use kub.Confirmations.Requests.{
  Request, preview_sms, telegram, serve, Right, proved, Step, unmoved, noted, cancelled, runs_out,
  runs_out_late, guessed, confirmed, answered, moved, begun,
}
use kub.Confirmations.Finding.{Step-id}
use kub.Confirmations.Polling.{serve-Effect}

abbrev pub tried_at_most : ℕ → Confirmation → Bool
tried_at_most n r = leb r.attempts n

abbrev pub is_other : Confirmation → Confirmation → Bool
is_other r x = not (is_for r.document_id r.user_id r.channel x && is_pending x)

-- At most one confirmation of a document, an account and a channel is pending.
abbrev pub Single : List Confirmation → Type 0
Single [] = Unit
Single (r ∷ rows) = (is_pending r ≡ true → all (is_other r) rows ≡ true) × Single rows

abbrev pub IsValid : ConfirmStore → Type 0
IsValid s =
    Ordered confirmation_key s.rows s.next_id
    × (all (tried_at_most 5) s.rows ≡ true)
    × Single s.rows

free_if : (a b : Bool) → b ≡ false → not (a && b) ≡ true
free_if a b h = ground arith

not_approved :
    (status : String) (y : Confirmation)
    → (status =ˢ "approved") ≡ false
    → y.status ≡ status
    → y.status ≢ "approved"
not_approved status y differs is now =
    let same : (status =ˢ "approved") ≡ true = (eq_iff status "approved").1 (sym is ∙ now) in
    absurd (ground (arith, same, differs))

free_same : (a b a' b' : Bool) → a' ≡ a → b ≡ true → not (a && b) ≡ true → not (a' && b') ≡ true
free_same a b a' b' same h k = ground arith

module _ (c : Crypto) (e : Env) (q : Request) where
  -- A step neither moves a row to another signer nor makes it pending again.
  Tame : Confirmation → Confirmation → Type 0
  Tame x y =
      (y.document_id ≡ x.document_id)
      × (y.user_id ≡ x.user_id)
      × (y.channel ≡ x.channel)
      × (is_pending y ≡ true → is_pending x ≡ true)

  Step-Tame : (x y : Confirmation) → Step c e q x y → Tame x y
  unfolding Tame
  Step-Tame x y (unmoved is) = rw is (refl, refl, refl, λ h. h)
  Step-Tame x y (noted m is) = rw is (refl, refl, refl, λ h. h)
  Step-Tame x y (cancelled open_ is) = rw is (refl, refl, refl, λ h. open_)
  Step-Tame x y (runs_out open_ is) = rw is (refl, refl, refl, λ h. open_)
  Step-Tame x y (runs_out_late token asked held late is) =
      rw is (refl, refl, refl, λ h. absurd (ground arith))
  Step-Tame x y (guessed open_ few (inl is)) = rw is (refl, refl, refl, λ h. open_)
  Step-Tame x y (guessed open_ few (inr is)) = rw is (refl, refl, refl, λ h. open_)
  Step-Tame x y (confirmed m right is) = rw is (refl, refl, refl, λ h. absurd (ground arith))
  Step-Tame x y (answered token action given m asked open_ early held (inl is)) =
      rw is (refl, refl, refl, λ h. open_)
  Step-Tame x y (answered token action given m asked open_ early held (inr is)) =
      rw is (refl, refl, refl, λ h. open_)

  Step-attempts :
      (x y : Confirmation) → Step c e q x y → tried_at_most 5 x ≡ true → tried_at_most 5 y ≡ true
  Step-attempts x y (unmoved is) h = rw is h
  Step-attempts x y (noted m is) h = rw is h
  Step-attempts x y (cancelled open_ is) h = rw is h
  Step-attempts x y (runs_out open_ is) h = rw is h
  Step-attempts x y (runs_out_late token asked held late is) h = rw is h
  Step-attempts x y (guessed open_ few (inl is)) h = rw is (ground arith)
  Step-attempts x y (guessed open_ few (inr is)) h = rw is (ground arith)
  Step-attempts x y (confirmed m right is) h = rw is h
  Step-attempts x y (answered token action given m asked open_ early held (inl is)) h = rw is h
  Step-attempts x y (answered token action given m asked open_ early held (inr is)) h = rw is h

  other-Tame :
      (r : Confirmation) (x y : Confirmation)
      → Step c e q x y
      → is_other r x ≡ true
      → is_other r y ≡ true
  unfolding Tame
  other-Tame r x y step h =
      let (document, user, channel, back) = Step-Tame x y step in
      elim (Bool-cases (is_pending y)) [
        | inr over ↦ free_if (is_for r.document_id r.user_id r.channel y) (is_pending y) over
        | inl open_ ↦
            free_same (is_for r.document_id r.user_id r.channel x) (is_pending x)
              (is_for r.document_id r.user_id r.channel y) (is_pending y)
              (simp (document, user, channel) refl) (back open_) h
      ]

  Single-Pointwise :
      (xs ys : List Confirmation) → Pointwise (Step c e q) xs ys → Single xs → Single ys
  unfolding Tame
  Single-Pointwise [] [] rel h = tt
  Single-Pointwise [] (y ∷ ys) rel h = absurd rel
  Single-Pointwise (x ∷ xs) [] rel h = absurd rel
  Single-Pointwise (x ∷ xs) (y ∷ ys) (here, rest) (alone, h) =
      let (document, user, channel, back) = Step-Tame x y here in
      let head : is_pending y ≡ true → all (is_other y) ys ≡ true = λ open_.
        let before : all (is_other x) ys ≡ true =
          all-Pointwise (Step c e q) (is_other x) (other-Tame x) xs ys rest (alone (back open_)) in
        subst
          (λ (p : ℕ × ℕ × String). all (λ z. not (is_for p.0 p.1 p.2 z && is_pending z)) ys ≡ true)
          (λ i. (sym document i, sym user i, sym channel i)) before in
      (head, Single-Pointwise xs ys rest h)

  -- Every request keeps the keys distinct and fresh, the wrong codes of each confirmation at most
  -- five, and at most one confirmation of a document, an account and a channel pending.
  pub request-IsValid : (s : ConfirmStore) → IsValid s → IsValid (serve c e q s)
  request-IsValid s (o, few, single) = elim (serve-Effect c e q s o) [
    | moved each bound ↦
        let t = serve c e q s in
        (
          rw bound (
              Pointwise-Ordered (Step c e q) confirmation_key (Step-id c e q) s.rows t.rows
                s.next_id each o),
          all-Pointwise (Step c e q) (tried_at_most 5) Step-attempts s.rows t.rows each few,
          Single-Pointwise s.rows t.rows each single,
        )
    | begun row rest id fresh each others rows bound ↦
        let ordered =
          Pointwise-Ordered (Step c e q) confirmation_key (Step-id c e q) s.rows rest s.next_id each
            o in
        let tried =
          all-Pointwise (Step c e q) (tried_at_most 5) Step-attempts s.rows rest each few in
        (
          rw (rows, bound)
              (omega (arith, id), subst (λ k. Ordered confirmation_key rest k) (sym id) ordered),
          rw rows (ground (arith, fresh, tried)),
          rw rows ((λ open_. others), Single-Pointwise s.rows rest each single),
        )
  ]

  -- What becomes of one confirmation by a request.
  pub confirmation_after :
      (s : ConfirmStore) (k : ℕ) {r : Confirmation}
      → IsValid s
      → keyed confirmation_key k s.rows ≡ some r
      → (r' : Confirmation) × (keyed confirmation_key k (serve c e q s).rows ≡ some r')
        × Step c e q r r'
  confirmation_after s k {r} (o, few, single) there = elim (serve-Effect c e q s o) [
    | moved each bound ↦
        keyed-Pointwise (Step c e q) confirmation_key (Step-id c e q) k s.rows (serve c e q s).rows
          each there
    | begun row rest id fresh each others rows bound ↦
        let (r', after, step) =
          keyed-Pointwise (Step c e q) confirmation_key (Step-id c e q) k s.rows rest each there in
        let known : k < s.next_id = ground (
          arith,
          found-below confirmation_key (λ (x : Confirmation). x.id == k) s.rows s.next_id o there,
          keyed-key confirmation_key k s.rows there,
        ) in
        (r', rw rows (ground (arith, after, id)), step)
  ]

  -- An approval is by a code or by Telegram.
  Step-approved :
      (x y : Confirmation)
      → Step c e q x y
      → x.status ≢ "approved"
      → y.status ≡ "approved"
      → Right c e q x
        ⊎ ((token : String) × (action : String) × (given : Meta) × (q ≡ telegram token action given)
            × (is_pending x ≡ true)
            × (ltb e.db_now x.expires_at ≡ true)
            × (holds x.token_hash (hash_of c e token) ≡ true))
  Step-approved x y (unmoved is) was now =
      absurd (was (sym (ap (λ (r : Confirmation). r.status) is) ∙ now))
  Step-approved x y (noted m is) was now =
      absurd (was (sym (ap (λ (r : Confirmation). r.status) is) ∙ now))
  Step-approved x y (cancelled open_ is) was now =
      absurd (not_approved "cancelled" y refl (ap (λ (r : Confirmation). r.status) is) now)
  Step-approved x y (runs_out open_ is) was now =
      absurd (not_approved "expired" y refl (ap (λ (r : Confirmation). r.status) is) now)
  Step-approved x y (runs_out_late token asked held late is) was now =
      absurd (not_approved "expired" y refl (ap (λ (r : Confirmation). r.status) is) now)
  Step-approved x y (guessed open_ few (inl is)) was now =
      absurd (was (sym (ap (λ (r : Confirmation). r.status) is) ∙ now))
  Step-approved x y (guessed open_ few (inr is)) was now =
      absurd (not_approved "expired" y refl (ap (λ (r : Confirmation). r.status) is) now)
  Step-approved x y (confirmed m right is) was now = inl right
  Step-approved x y (answered token action given m asked open_ early held how) was now =
      inr (token, action, given, asked, open_, early, held)

  -- A confirmation becomes approved only by its own token: with a code that matches its stored hash,
  -- in time, below five wrong codes and with the hash of the document as it is now; or, while it is
  -- pending and in time, by an answer in Telegram.
  pub approved_only_by_code :
      (s : ConfirmStore) (k : ℕ) {r r' : Confirmation}
      → IsValid s
      → keyed confirmation_key k s.rows ≡ some r
      → r.status ≢ "approved"
      → keyed confirmation_key k (serve c e q s).rows ≡ some r'
      → r'.status ≡ "approved"
      → Right c e q r
        ⊎ ((token : String) × (action : String) × (given : Meta) × (q ≡ telegram token action given)
            × (is_pending r ≡ true)
            × (ltb e.db_now r.expires_at ≡ true)
            × (holds r.token_hash (hash_of c e token) ≡ true))
  approved_only_by_code s k {r} {r'} valid there was after now =
      let (y, found, step) = confirmation_after s k valid there in
      let one : y ≡ r' = ground (arith, found, after) in
      Step-approved r y step was (ap (λ (x : Confirmation). x.status) one ∙ now)

  -- A confirmation that is settled.
  Step-settled :
      (x y : Confirmation)
      → Step c e q x y
      → is_pending x ≡ false
      → ((y.status ≡ x.status) × (y.approved_at ≡ x.approved_at) × (y.attempts ≡ x.attempts))
        ⊎ ((token : String) × (q ≡ preview_sms token)
            × (holds x.token_hash (hash_of c e token) ≡ true)
            × (ltb x.expires_at e.now ≡ true)
            × (y ≡ expired x))
  Step-settled x y (unmoved is) over = inl (rw is (refl, refl, refl))
  Step-settled x y (noted m is) over = inl (rw is (refl, refl, refl))
  Step-settled x y (cancelled open_ is) over = absurd (ground (arith, open_, over))
  Step-settled x y (runs_out open_ is) over = absurd (ground (arith, open_, over))
  Step-settled x y (runs_out_late token asked held late is) over =
      inr (token, asked, held, late, is)
  Step-settled x y (guessed open_ few how) over = absurd (ground (arith, open_, over))
  Step-settled x y
        (confirmed m
          (proved token given client version ip agent hash asked open_ in_time few held right hashed
            same some_)
          is)
        over =
      absurd (ground (arith, open_, over))
  Step-settled x y (answered token action given m asked open_ early held how) over =
      absurd (ground (arith, open_, over))

  -- A confirmation that is no longer pending keeps its status, the moment of its approval and its
  -- count of wrong codes, with one exception: the preview of a text message's document by its own
  -- token, after its time has run out, overwrites it as expired.
  pub settled_stays :
      (s : ConfirmStore) (k : ℕ) {r r' : Confirmation}
      → IsValid s
      → keyed confirmation_key k s.rows ≡ some r
      → is_pending r ≡ false
      → keyed confirmation_key k (serve c e q s).rows ≡ some r'
      → ((r'.status ≡ r.status) × (r'.approved_at ≡ r.approved_at) × (r'.attempts ≡ r.attempts))
        ⊎ ((token : String) × (q ≡ preview_sms token)
            × (holds r.token_hash (hash_of c e token) ≡ true)
            × (ltb r.expires_at e.now ≡ true)
            × (r' ≡ expired r))
  settled_stays s k {r} {r'} valid there over after =
      let (y, found, step) = confirmation_after s k valid there in
      let one : y ≡ r' = ground (arith, found, after) in
      Step-settled r r' (subst (Step c e q r) one step) over
