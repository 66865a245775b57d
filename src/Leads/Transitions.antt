-- ===== src/Leads/Transitions.antt =====
-- internal/services/status_transitions_service.go: the statuses of leads and of deals, and the moves
-- between them.
use mathlib.Core.Path.{subst₂}
use kub.Base.{
  all, all-any, &&_elim, ◌&&◌, ltb, ltb→lt, ℕ, ◌+◌, ◌<◌, ◌≤◌, ◌≢◌, not, String, Bool, true, List,
  [], ◌∷◌, ◌=ˢ◌, if◌then◌else◌, any, ◌≡◌, refl, arith, eq_iff, inl, inr, ◌⊎◌, Bool-cases,
}

-- `map[string]map[string]bool`: a status, and the statuses that it may move to. The maps hold no
-- `false`, so the inner map is the list of its keys.
abbrev pub Transitions : Type 0
Transitions = List (String × List String)

abbrev pub lead_transitions : Transitions
lead_transitions =
    ("new", "in_progress" ∷ "confirmed" ∷ "cancelled" ∷ [])
    ∷ ("in_progress", "confirmed" ∷ "cancelled" ∷ [])
    ∷ ("confirmed", "cancelled" ∷ [])
    ∷ ("converted", [])
    ∷ ("cancelled", [])
    ∷ []

abbrev pub deal_transitions : Transitions
deal_transitions =
    ("new", "in_progress" ∷ "negotiation" ∷ "won" ∷ "lost" ∷ "cancelled" ∷ [])
    ∷ ("in_progress", "negotiation" ∷ "won" ∷ "lost" ∷ "cancelled" ∷ [])
    ∷ ("negotiation", "won" ∷ "lost" ∷ "cancelled" ∷ [])
    ∷ ("won", [])
    ∷ ("lost", [])
    ∷ ("cancelled", [])
    ∷ []

abbrev next_statuses : Transitions → String → List String
next_statuses [] s = []
next_statuses ((t, next) ∷ ts) s = if t =ˢ s then next else next_statuses ts s

-- A status that is no key has no next status, as in the source: `!ok` answers false, and so does
-- the look-up of any status in an empty map.
unfoldable pub can_transition : String → String → Transitions → Bool
can_transition current to ts =
    if current =ˢ to then true else any (λ s. s =ˢ to) (next_statuses ts current)

-- A table in which every entry passes the test `p` of its two statuses allows only such moves.
next_statuses_sound :
    (p : String → String → Bool) (ts : Transitions) (a b : String)
    → all (λ row. all (p row.0) row.1) ts ≡ true
    → any (λ s. s =ˢ b) (next_statuses ts a) ≡ true
    → p a b ≡ true
next_statuses_sound p [] a b h k = cc
next_statuses_sound p ((t, next) ∷ ts) a b h k = elim (Bool-cases (t =ˢ a)) [
  | inl same ↦
      let e = (eq_iff t a).0 same in
      let (s, passes, found) = all-any (p t) (λ s. s =ˢ b) next (&&_elim _ _ h).0 (rw same at k) in
      subst₂ (λ x y. p x y ≡ true) e ((eq_iff s b).0 found) passes
  | inr other ↦ next_statuses_sound p ts a b (&&_elim _ _ h).1 (rw other at k)
]

-- A move that is allowed stays, or passes the test.
can_transition_sound :
    (p : String → String → Bool) (ts : Transitions) (a b : String)
    → all (λ row. all (p row.0) row.1) ts ≡ true
    → can_transition a b ts ≡ true
    → (a ≡ b) ⊎ (p a b ≡ true)
unfolding can_transition
can_transition_sound p ts a b h k = elim (Bool-cases (a =ˢ b)) [
  | inl same ↦ inl ((eq_iff a b).0 same)
  | inr other ↦ inr (next_statuses_sound p ts a b h (rw other at k))
]

-- How far along its way a lead is.
unfoldable pub lead_rank : String → ℕ
lead_rank s =
    if s =ˢ "new" then 0 else if s =ˢ "in_progress" then 1 else if s =ˢ "confirmed" then 2 else 3

unfoldable pub deal_rank : String → ℕ
deal_rank s =
    if s =ˢ "new" then 0 else if s =ˢ "in_progress" then 1 else if s =ˢ "negotiation" then 2 else 3

abbrev lead_advances : String → String → Bool
lead_advances a b = ltb (lead_rank a) (lead_rank b) && not (b =ˢ "converted")

abbrev deal_advances : String → String → Bool
deal_advances a b = ltb (deal_rank a) (deal_rank b)

-- An allowed move of a lead stays or goes strictly on, and it never newly makes the lead converted.
pub lead_transition_advances :
    (a b : String)
    → can_transition a b lead_transitions ≡ true
    → (a ≡ b) ⊎ ((lead_rank a < lead_rank b) × (b ≢ "converted"))
unfolding lead_rank
lead_transition_advances a b h =
    elim (can_transition_sound lead_advances lead_transitions a b refl h) [
      | inl same ↦ inl same
      | inr on ↦
          let (further, unconverted) = &&_elim (ltb (lead_rank a) (lead_rank b)) _ on in
          inr (ltb→lt _ _ further, λ e. ground (arith, eq_iff b "converted"))
    ]

-- A row of allowed moves, each to another status, and their number.
pub data Moves (ts : Transitions) (a : String) : String → ℕ → Type 0 where
  here : {n : ℕ} → n ≡ 0 → Moves ts a a n
  go_on :
      {b c : String} {n m : ℕ}
      → Moves ts a b n
      → can_transition b c ts ≡ true
      → b ≢ c
      → m ≡ n + 1
      → Moves ts a c m

deal_transition_advances :
    (a b : String) → can_transition a b deal_transitions ≡ true → a ≢ b → deal_rank a < deal_rank b
unfolding deal_rank
deal_transition_advances a b h ne =
    elim (can_transition_sound deal_advances deal_transitions a b refl h) [
      | inl same ↦ absurd (ne same)
      | inr on ↦ ltb→lt _ _ on
    ]

deal_rank-le : (a : String) → deal_rank a ≤ 3
unfolding deal_rank
deal_rank-le a = ground arith

Moves-deal_rank :
    {a b : String} {n : ℕ} → Moves deal_transitions a b n → n + deal_rank a ≤ deal_rank b
Moves-deal_rank (here e) = omega arith
Moves-deal_rank (go_on {b} {c} before step ne e) =
    omega (arith, deal_transition_advances b c step ne, Moves-deal_rank before)

-- However the status of a deal is updated by allowed moves, it changes at most three times.
pub deal_moves_bounded : {a b : String} {n : ℕ} → Moves deal_transitions a b n → n ≤ 3
deal_moves_bounded {b} m = omega (arith, Moves-deal_rank m, deal_rank-le b)
