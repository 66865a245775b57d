-- ===== src/Deals/Moves.antt =====
-- What a stage move leaves behind: the deal in a stage that its status agrees with, a history of
-- boundedly many hops, and every other deal as it was.
use mathlib.Core.Path.{subst}
use kub.Base.{
  ℕ, ◌≤◌, String, true, false, none, some, List, ◌∷◌, ◌++◌, length, ◌==◌, ok, Result, ◌≡◌, ◌≢◌, ◌⊎◌,
  refl, sym, ◌∙◌, ap, inl, inr, arith, Bool-cases, Option-cases, Result-cases, is_ok, keyed-others,
  ==_iff,
}
use kub.Models.Deals.{Deal, FunnelStage, DealStageHistory}
use kub.Leads.Rows.{ArchiveScope, active_only}
use kub.DataScope.{DataScope, resolve_deal_scope, deal_matches_scope}
use kub.Deals.Table.{
  DealRow, DealStore, deal_row, find_deal, find_stage, set_stage, update_deal, insert_history,
  scan_deal,
}
use kub.Deals.Stages.{
  Env, status_of_stage, apply_transition_rules, check_move, move_history, move_stage,
}
use kub.Models.Users.{UserRepo}
use kub.Authz.Roles.{is_elevated}
use kub.DataScope.Fences.{HasBranch, HasBranch-unique, deal_fence}
use kub.Deals.Hops.{InStage, Hops, set-InStage, apply-Hops, Hops-InStage, Hops-others, Hops-history}

-- `MoveStage` is refused by its checks and writes nothing, or what it goes on with passed them.
data Checked (e : Env) (id stage_id : ℕ) (s : DealStore) : Type 0 where
  refused :
      (check_move e id stage_id s).1 ≡ s
      → is_ok (check_move e id stage_id s).0 ≡ false
      → Checked e id stage_id s
  passed :
      (deal : Deal) (stage : FunnelStage) (scope : DataScope)
      → check_move e id stage_id s ≡ (ok (deal, stage), s)
      → find_deal active_only id s ≡ some deal
      → find_stage stage_id s ≡ some stage
      → resolve_deal_scope e.user_id e.role_id e.repo ≡ ok scope
      → deal_matches_scope scope (some deal) ≡ true
      → Checked e id stage_id s

check_move-Checked : (e : Env) (id stage_id : ℕ) (s : DealStore) → Checked e id stage_id s
unfolding check_move
check_move-Checked e id stage_id s = elim (Option-cases (find_deal active_only id s)) [
  | inl missing ↦ refused (ground arith) (ground arith)
  | inr (deal, found) ↦ elim (Option-cases (find_stage stage_id s)) [
    | inl missing ↦ refused (ground arith) (ground arith)
    | inr (stage, known) ↦ elim (Result-cases (resolve_deal_scope e.user_id e.role_id e.repo)) [
      | inr (x, no_scope) ↦ refused (ground arith) (ground arith)
      | inl (scope, resolved) ↦
          let m = check_move e id stage_id s in
          let ends : ((m.1 ≡ s) × (is_ok m.0 ≡ false))
              ⊎ ((m ≡ (ok (deal, stage), s)) × (deal_matches_scope scope (some deal) ≡ true)) =
            ground arith in
          elim ends [
            | inl (same, failed) ↦ refused same failed
            | inr (through, reached) ↦ passed deal stage scope through found known resolved reached
          ]
    ]
  ]
]

-- The stores after the move itself and after its entry in the history.
abbrev placed : ℕ → ℕ → FunnelStage → DealStore → DealStore
placed id stage_id stage =
    update_deal id (set_stage stage_id stage.funnel_id (status_of_stage stage))

abbrev entered : Env → ℕ → ℕ → Deal → FunnelStage → String → DealStore → DealStore
entered e id stage_id deal stage comment s =
    insert_history (move_history e id deal stage_id comment) (placed id stage_id stage s)

-- How a stage move may end: nothing written; the deal placed, and the entry refused; or all done.
data Moved (e : Env) (id stage_id : ℕ) (comment : String) (s : DealStore)
    (m : Result (Unit {0}) × DealStore) : Type 0 where
  nothing : m.1 ≡ s → is_ok m.0 ≡ false → Moved e id stage_id comment s m
  written :
      (deal : Deal) (stage : FunnelStage) (scope : DataScope)
      → find_deal active_only id s ≡ some deal
      → find_stage stage_id s ≡ some stage
      → resolve_deal_scope e.user_id e.role_id e.repo ≡ ok scope
      → deal_matches_scope scope (some deal) ≡ true
      → ((m.1 ≡ placed id stage_id stage s) × (is_ok m.0 ≡ false))
        ⊎ Hops id e.user_id 10 (entered e id stage_id deal stage comment s) m.1
      → Moved e id stage_id comment s m

move_stage-Moved :
    (e : Env) (id stage_id : ℕ) (comment : String) (s : DealStore)
    → Moved e id stage_id comment s (move_stage e id stage_id comment s)
unfolding move_stage
move_stage-Moved e id stage_id comment s = elim (check_move-Checked e id stage_id s) [
  | refused same failed ↦ nothing (ground arith) (ground arith)
  | passed deal stage scope through found known resolved reached ↦ elim (Bool-cases e.moving.move) [
    | inl stuck ↦ nothing (ground arith) (ground arith)
    | inr moved ↦
        written deal stage scope found known resolved reached (elim (Bool-cases e.moving.history) [
          | inl unlogged ↦ inl (ground arith, ground arith)
          | inr logged ↦
              let rest =
                apply_transition_rules e id e.user_id 10 stage.funnel_id stage_id
                  (entered e id stage_id deal stage comment s) in
              let ends : (move_stage e id stage_id comment s).1 ≡ rest.1 = ground arith in
              inr (
                rw ends (
                  apply-Hops e id e.user_id 10 stage.funnel_id stage_id
                    (entered e id stage_id deal stage comment s)))
        ])
  ]
]

pub find_deal-row :
    (scope : ArchiveScope) (id : ℕ) (s : DealStore) {deal : Deal}
    → find_deal scope id s ≡ some deal
    → (r : DealRow) × (deal_row id s ≡ some r) × (scan_deal r ≡ deal)
unfolding find_deal
find_deal-row scope id s {deal} found = elim (Option-cases (deal_row id s)) [
  | inl missing ↦ absurd (ground arith)
  | inr (r, row) ↦ (r, row, ground arith)
]

placed-InStage :
    (id stage_id : ℕ) (s : DealStore) (stage : FunnelStage) {deal : Deal}
    → find_deal active_only id s ≡ some deal
    → find_stage stage_id s ≡ some stage
    → InStage id (placed id stage_id stage s)
placed-InStage id stage_id s stage found known =
    let (r, row, read) = find_deal-row active_only id s found in
    set-InStage id stage_id (set_stage stage_id stage.funnel_id (status_of_stage stage)) s stage
      (λ x. refl) (λ x. refl) (λ x. refl) row known

-- A stage move fails and changes nothing, or leaves the deal in a stage on record with the status
-- of that stage, however many rules moved it on and whichever call failed on the way.
pub move_stage_syncs :
    (e : Env) (id stage_id : ℕ) (comment : String) (s : DealStore)
    → (((move_stage e id stage_id comment s).1 ≡ s)
        × (is_ok (move_stage e id stage_id comment s).0 ≡ false))
      ⊎ InStage id (move_stage e id stage_id comment s).1
move_stage_syncs e id stage_id comment s = elim (move_stage-Moved e id stage_id comment s) [
  | nothing same failed ↦ inl (same, failed)
  | written deal stage scope found known resolved reached ends ↦
      let on = placed-InStage id stage_id s stage found known in
      inr (elim ends [ inl (same, failed) ↦ rw same on | inr hops ↦ Hops-InStage hops on ])
]

-- A stage move that succeeds adds its own entry to the history, in which the stage that the deal
-- came from is missing, and after it at most ten entries of rules.
pub move_stage_history :
    (e : Env) (id stage_id : ℕ) (comment : String) (s : DealStore)
    → is_ok (move_stage e id stage_id comment s).0 ≡ true
    → (logged : List DealStageHistory) × ((move_stage e id stage_id comment s).1.history
        ≡ logged
          ++ record {
            deal_id = id;
            from_stage_id = none;
            to_stage_id = some stage_id;
            changed_by = some e.user_id;
            comment = comment;
          }
            ∷ s.history)
      × (length logged ≤ 10)
unfolding scan_deal
move_stage_history e id stage_id comment s passes =
    elim (move_stage-Moved e id stage_id comment s) [
      | nothing same failed ↦ absurd (ground arith)
      | written deal stage scope found known resolved reached ends ↦ elim ends [
        | inl (same, failed) ↦ absurd (ground arith)
        | inr hops ↦
            let (logged, grown, few) = Hops-history hops in
            let (r, row, read) = find_deal-row active_only id s found in
            let unknown : deal.stage_id ≡ none = sym (ap (λ (d : Deal). d.stage_id) read) in
            (
              logged,
              subst
                  (λ x.
                    (move_stage e id stage_id comment s).1.history
                    ≡ logged
                      ++ record {
                        deal_id = id;
                        from_stage_id = x;
                        to_stage_id = some stage_id;
                        changed_by = some e.user_id;
                        comment = comment;
                      }
                        ∷ s.history)
                  unknown grown,
              few,
            )
      ]
    ]

placed-others :
    (id stage_id k : ℕ) (stage : FunnelStage) (s : DealStore)
    → k ≢ id
    → deal_row k (placed id stage_id stage s) ≡ deal_row k s
placed-others id stage_id k stage s other =
    keyed-others (λ (r : DealRow). r.id) id k
      (set_stage stage_id stage.funnel_id (status_of_stage stage)) s.deals (λ x. refl) other

Moved-others :
    {e : Env} {id stage_id : ℕ} {comment : String} {s : DealStore}
    {m : Result (Unit {0}) × DealStore}
    → Moved e id stage_id comment s m
    → (k : ℕ) → k ≢ id
    → deal_row k m.1 ≡ deal_row k s
Moved-others (nothing same failed) k other = rw same refl
Moved-others {e} {id} {stage_id} {comment} {s}
      (written deal stage scope found known resolved reached (inl (same, failed))) k other =
    rw same (placed-others id stage_id k stage s other)
Moved-others {e} {id} {stage_id} {comment} {s}
      (written deal stage scope found known resolved reached (inr hops)) k other =
    Hops-others hops k other ∙ placed-others id stage_id k stage s other

module _ (e : Env) (repo : UserRepo) (b : ℕ) (confined : is_elevated e.role_id ≡ false)
    (users : e.repo ≡ some repo) (home : HasBranch repo e.user_id b) where
  -- Whoever is confined to a branch moves no deal of another branch: a row whose branch is another
  -- or none is found as it was, after the rules too.
  pub other_branches_stay :
      (id stage_id : ℕ) (comment : String) (s : DealStore) (k : ℕ) {r : DealRow}
      → deal_row k s ≡ some r
      → r.branch_id ≢ some b
      → deal_row k (move_stage e id stage_id comment s).1 ≡ some r
  unfolding scan_deal
  other_branches_stay id stage_id comment s k {r} row away = elim (Bool-cases (k == id)) [
    | inr other ↦
        Moved-others (move_stage-Moved e id stage_id comment s) k
          (λ same. absurd (ground (arith, same)))
        ∙ row
    | inl same ↦ elim (move_stage-Moved e id stage_id comment s) [
      | nothing kept failed ↦ rw kept row
      | written deal stage scope found known resolved reached ends ↦
          let (b', branch, has) =
            deal_fence e.user_id e.role_id repo deal confined
              (subst (λ x. resolve_deal_scope e.user_id e.role_id x ≡ ok scope) users resolved)
              reached in
          let (r', row', read) = find_deal-row active_only id s found in
          let mine : r.branch_id ≡ deal.branch_id =
            ground (arith, (==_iff k id).0 same, row', read) in
          absurd (away (mine ∙ branch ∙ ap some (HasBranch-unique repo e.user_id has home)))
    ]
  ]
