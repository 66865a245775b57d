-- ===== src/Deals/Hops.antt =====
-- The rows of hops that transition rules set off, and what each leaves behind.
use kub.Base.{
  ℕ, zero, suc, ◌≤◌, Option, none, some, List, [], ◌∷◌, ◌++◌, append_assoc, length-append, length,
  ◌||◌, not, ok, err, Result, db, ◌≡◌, ◌≢◌, refl, sym, ◌∙◌, inl, inr, arith, Bool-cases,
  keyed-changed, keyed-others,
}
use kub.Models.Deals.{Deal, FunnelStage, TransitionRule, DealStageHistory}
use kub.Leads.Rows.{active_only}
use kub.Deals.Table.{
  DealRow, DealStore, deal_row, find_deal, find_stage, find_active_by_trigger, set_stage_and_funnel,
  update_deal, insert_history,
}
use kub.Deals.Stages.{
  Env, Failures, Deals, status_of_stage, auto_history, enter, reloaded, first_rule, go_on, hop,
  apply_transition_rules,
}

-- A deal is on the board: its stage is on record, and its status is the stage's.
abbrev pub InStage : ℕ → DealStore → Type 0
InStage deal s =
    (r : DealRow) × (stage : FunnelStage) × (id : ℕ) × (deal_row deal s ≡ some r)
    × (r.stage_id ≡ some id)
    × (find_stage id s ≡ some stage)
    × (r.status ≡ some (status_of_stage stage))

-- How a hop may end: nothing written; the move written, and its history refused or written.
data Hopped (deal stage by : ℕ) (s : DealStore) (m : Result (Option (ℕ × ℕ)) × DealStore)
    : Type 0 where
  stopped : m.1 ≡ s → ((x : ℕ × ℕ) → m.0 ≢ ok (some x)) → Hopped deal stage by s m
  unlogged :
      (rule : TransitionRule) (to : FunnelStage)
      → find_stage rule.to_stage_id s ≡ some to
      → m ≡ (
        err db,
        update_deal deal
            (set_stage_and_funnel rule.to_stage_id rule.to_funnel_id (status_of_stage to))
            s,
      )
      → Hopped deal stage by s m
  hopped :
      (rule : TransitionRule) (to : FunnelStage)
      → find_stage rule.to_stage_id s ≡ some to
      → m ≡ (
        ok (some (rule.to_funnel_id, rule.to_stage_id)),
        insert_history (auto_history deal stage by rule) (
            update_deal deal
              (set_stage_and_funnel rule.to_stage_id rule.to_funnel_id (status_of_stage to))
              s),
      )
      → Hopped deal stage by s m

enter-Hopped :
    (f : Failures) (deal stage by : ℕ) (s : DealStore) (rule : TransitionRule)
    (to : Option FunnelStage)
    → find_stage rule.to_stage_id s ≡ to
    → Hopped deal stage by s (enter f deal stage by rule to s)
enter-Hopped f deal stage by s rule none found = stopped refl (λ x h. ground arith)
enter-Hopped f deal stage by s rule (some to) found = elim (Bool-cases f.move) [
  | inl refused ↦ rw refused (stopped refl (λ x h. ground arith))
  | inr moved ↦ elim (Bool-cases f.history) [
    | inl refused ↦ rw (moved, refused) (unlogged rule to found refl)
    | inr logged ↦ rw (moved, logged) (hopped rule to found refl)
  ]
]

reloaded-Hopped :
    (f : Failures) (deal stage by : ℕ) (s : DealStore) (rule : TransitionRule) (found : Option Deal)
    → Hopped deal stage by s (reloaded f deal stage by rule found s)
reloaded-Hopped f deal stage by s rule none = stopped refl (λ x h. ground arith)
reloaded-Hopped f deal stage by s rule (some d) = elim (Bool-cases f.stage) [
  | inl failed ↦ rw failed (stopped refl (λ x h. ground arith))
  | inr answered ↦
      rw answered (enter-Hopped f deal stage by s rule (find_stage rule.to_stage_id s) refl)
]

first_rule-Hopped :
    (f : Failures) (deal stage by : ℕ) (s : DealStore) (rules : List TransitionRule)
    → Hopped deal stage by s (first_rule f deal stage by rules s)
first_rule-Hopped f deal stage by s [] = stopped refl (λ x h. ground arith)
first_rule-Hopped f deal stage by s (rule ∷ more) = elim (Bool-cases f.deal) [
  | inl failed ↦ rw failed (stopped refl (λ x h. ground arith))
  | inr answered ↦
      rw answered (reloaded-Hopped f deal stage by s rule (find_deal active_only deal s))
]

hop-Hopped :
    (e : Env) (f : Failures) (deal funnel stage by : ℕ) (s : DealStore)
    → Hopped deal stage by s (hop e f deal funnel stage by s)
unfolding hop
hop-Hopped e f deal funnel stage by s = elim (Bool-cases f.rules) [
  | inl failed ↦ rw failed (stopped refl (λ x h. ground arith))
  | inr answered ↦
      rw answered
        (first_rule-Hopped f deal stage by s (e.order (find_active_by_trigger funnel stage s)))
]

-- A deal that has a row is in its stage once that is written, whatever was written to the history.
pub set-InStage :
    (deal id : ℕ) (f : DealRow → DealRow) (s : DealStore) {r : DealRow} (stage : FunnelStage)
    → ((x : DealRow) → (f x).id ≡ x.id)
    → ((x : DealRow) → (f x).stage_id ≡ some id)
    → ((x : DealRow) → (f x).status ≡ some (status_of_stage stage))
    → deal_row deal s ≡ some r
    → find_stage id s ≡ some stage
    → InStage deal (update_deal deal f s)
set-InStage deal id f s {r} stage keeps staged synced row found = (
  f r,
  stage,
  id,
  keyed-changed (λ (x : DealRow). x.id) deal f s.deals keeps row,
  staged r,
  found,
  synced r,
)

-- A row of hops of one deal: the rules that moved it, each entered in the history, and at the end
-- perhaps a move whose entry was refused.
pub data Hops (deal by : ℕ) : ℕ → DealStore → DealStore → Type 0 where
  done : {n : ℕ} {s t : DealStore} → t ≡ s → Hops deal by n s t
  half :
      {n : ℕ} {s t : DealStore} (rule : TransitionRule) (to : FunnelStage)
      → find_stage rule.to_stage_id s ≡ some to
      → t
        ≡ update_deal deal
            (set_stage_and_funnel rule.to_stage_id rule.to_funnel_id (status_of_stage to))
            s
      → Hops deal by n s t
  also :
      {n m : ℕ} {s t : DealStore} (stage : ℕ) (rule : TransitionRule) (to : FunnelStage)
      → find_stage rule.to_stage_id s ≡ some to
      → m ≡ suc n
      → Hops deal by n
          (insert_history (auto_history deal stage by rule) (
            update_deal deal
              (set_stage_and_funnel rule.to_stage_id rule.to_funnel_id (status_of_stage to))
              s))
          t
      → Hops deal by m s t

go_on-Hops :
    (deal stage by left : ℕ) (s : DealStore) (next : ℕ → ℕ → Deals (Unit {0}))
    (m : Result (Option (ℕ × ℕ)) × DealStore)
    → ((funnel to : ℕ) (t : DealStore) → Hops deal by left t (next funnel to t).1)
    → Hopped deal stage by s m
    → Hops deal by (suc left) s (go_on next m).1
go_on-Hops deal stage by left s next (err x, t) rest (stopped same never) = done same
go_on-Hops deal stage by left s next (ok none, t) rest (stopped same never) = done same
go_on-Hops deal stage by left s next (ok (some x), t) rest (stopped same never) =
    absurd (never x refl)
go_on-Hops deal stage by left s next m rest (unlogged rule to found e) =
    half rule to found (rw e refl)
go_on-Hops deal stage by left s next m rest (hopped rule to found e) =
    also stage rule to found refl (rw e (rest _ _ _))

pub apply-Hops :
    (e : Env) (deal by left funnel stage : ℕ) (s : DealStore)
    → Hops deal by left s (apply_transition_rules e deal by left funnel stage s).1
unfolding apply_transition_rules
apply-Hops e deal by zero funnel stage s = done refl
apply-Hops e deal by (suc left) funnel stage s =
    elim (Bool-cases (not e.rule_repo || not e.stage_repo)) [
      | inl missing ↦ rw missing (done refl)
      | inr present ↦ rw present (
          go_on-Hops deal stage by left s (apply_transition_rules e deal by left)
            (hop e (e.hopping left) deal funnel stage by s) (apply-Hops e deal by left)
            (hop-Hopped e (e.hopping left) deal funnel stage by s))
    ]

pub Hops-InStage :
    {deal by n : ℕ} {s t : DealStore} → Hops deal by n s t → InStage deal s → InStage deal t
Hops-InStage (done e) on = rw e on
Hops-InStage {deal} {by} {n} {s} (half rule to found e) (r, stage, id, row, staged, known, synced) =
    rw e (set-InStage deal rule.to_stage_id _ s to (λ x. refl) (λ x. refl) (λ x. refl) row found)
Hops-InStage {deal} {by} {n} {s} (also from rule to found e rest)
      (r, stage, id, row, staged, known, synced) =
    Hops-InStage rest
      (set-InStage deal rule.to_stage_id _ s to (λ x. refl) (λ x. refl) (λ x. refl) row found)

pub Hops-others :
    {deal by n : ℕ} {s t : DealStore}
    → Hops deal by n s t
    → (k : ℕ) → k ≢ deal
    → deal_row k t ≡ deal_row k s
Hops-others (done e) k other = rw e refl
Hops-others {deal} {by} {n} {s} (half rule to found e) k other =
    rw e (keyed-others (λ (x : DealRow). x.id) deal k _ s.deals (λ x. refl) other)
Hops-others {deal} {by} {n} {s} (also from rule to found e rest) k other =
    Hops-others rest k other
    ∙ keyed-others (λ (x : DealRow). x.id) deal k _ s.deals (λ x. refl) other

-- The history grows at its new end, by no more entries than there are hops left.
pub Hops-history :
    {deal by n : ℕ} {s t : DealStore}
    → Hops deal by n s t
    → (logged : List DealStageHistory) × (t.history ≡ logged ++ s.history) × (length logged ≤ n)
Hops-history (done e) = ([], rw e refl, omega arith)
Hops-history (half rule to found e) = ([], rw e refl, omega arith)
Hops-history {deal} {by} (also from rule to found e rest) =
    let (logged, same, few) = Hops-history rest in
    (
      logged ++ auto_history deal from by rule ∷ [],
      same ∙ sym (append_assoc logged (auto_history deal from by rule ∷ []) _),
      omega (arith, length-append logged (auto_history deal from by rule ∷ [])),
    )
