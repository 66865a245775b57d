-- ===== src/Funnels/Deletion.antt =====
-- What the deletion of a stage, `DeleteStage` of internal/services/funnel_stage_service.go, does to
-- the deals.
use mathlib.Core.Path.{subst}
use kub.Base.{
  ℕ, String, Bool, true, false, Option, none, some, List, ok, ◌>>◌, ◌≡◌, ◌≢◌, sym, ap, ◌∙◌, inl,
  inr, arith, Bool-cases, Option-cases, keyed, remove_row, keyed-remove_row, points_to, Pointwise,
  Pointwise-refl, Pointwise-map_none, Pointwise-map-map, after_read,
}
use kub.Deals.Table.{DealRow}
use kub.Funnels.Table.{
  StageRow, FunnelStore, stage_key, find_stage, restage, restage_all, drop_stage, has_deals,
}
use kub.Funnels.Service.{
  Env, open_stage, check_target, fits_target, delete_row, delete_stage, in_funnel,
}
use kub.Funnels.StageSteps.{open_stage-store, check_target-store}

abbrev stands_in : List StageRow → Option ℕ → Option ℕ → Bool
stands_in stages none stage = false
stands_in stages (some f) none = false
stands_in stages (some f) (some g) = in_funnel f (keyed stage_key g stages)

-- The deal is in a stage on record, of its own funnel.
abbrev pub deal_fits : List StageRow → DealRow → Bool
deal_fits stages d = stands_in stages d.funnel_id d.stage_id

spared :
    (id : ℕ) (rows : List StageRow) (d : DealRow)
    → points_to d.stage_id id ≡ false
    → deal_fits rows d ≡ true
    → deal_fits (remove_row stage_key id rows) (restage none id d) ≡ true
spared id rows d other fits = elim (Option-cases d.funnel_id) [
  | inl none_f ↦ absurd (ground (arith, none_f, fits))
  | inr (f, at_f) ↦ elim (Option-cases d.stage_id) [
    | inl none_g ↦ absurd (ground (arith, at_f, none_g, fits))
    | inr (g, at_g) ↦
        let away : g ≢ id = λ e. absurd (ground (arith, at_g, other, e)) in
        ground (arith, at_f, at_g, fits, other, keyed-remove_row stage_key id g rows away)
  ]
]

unmoved : (to id : ℕ) (d : DealRow) → points_to d.stage_id id ≡ false → restage (some to) id d ≡ d
unmoved to id d other = ground (arith, other)

module _ (id to : ℕ) (rows : List StageRow) {g target : StageRow} where
  moved :
      (d : DealRow)
      → to ≢ id
      → keyed stage_key id rows ≡ some g
      → keyed stage_key to rows ≡ some target
      → target.funnel_id ≡ g.funnel_id
      → deal_fits rows d ≡ true
      → deal_fits (remove_row stage_key id rows) (restage none id (restage (some to) id d)) ≡ true
  moved d away here there same fits = elim (Bool-cases (points_to d.stage_id id)) [
    | inr other ↦
        subst (λ x. deal_fits (remove_row stage_key id rows) (restage none id x) ≡ true)
          (sym (unmoved to id d other)) (spared id rows d other fits)
    | inl at ↦ elim (Option-cases d.funnel_id) [
      | inl none_f ↦ absurd (ground (arith, none_f, fits))
      | inr (f, at_f) ↦ elim (Option-cases d.stage_id) [
        | inl none_g ↦ absurd (ground (arith, at_f, none_g, fits))
        | inr (n, at_n) ↦
            let e : n ≡ id = ground (arith, at_n, at) in
            ground (
              arith,
              at_f,
              at_n,
              e,
              here,
              there,
              same,
              fits,
              keyed-remove_row stage_key id to rows away,
            )
      ]
    ]
  ]

open_stage-found :
    (e : Env) (id : ℕ) (action : String) (s : FunnelStore) (g : StageRow)
    → (open_stage e id action s).0 ≡ ok g
    → find_stage id s ≡ some g
unfolding open_stage
open_stage-found e id action s g done = ground arith

check_target-fits :
    (e : Env) (g : StageRow) (to : ℕ) (s : FunnelStore) (u : Unit {0})
    → (check_target e g (some to) s).0 ≡ ok u
    → fits_target g (find_stage to s) ≡ true
check_target-fits e g to s u done = ground arith

-- What a deletion may do to a deal: one that fits the stages before fits those after.
abbrev pub StillFits : List StageRow → List StageRow → DealRow → DealRow → Type 0
StillFits rows rows' d d' = deal_fits rows d ≡ true → deal_fits rows' d' ≡ true

abbrev pub Settled : FunnelStore → FunnelStore → Type 0
Settled s t = Pointwise (StillFits s.stages t.stages) s.deals t.deals

unused-Settled : (id : ℕ) (s : FunnelStore) → has_deals id s ≡ false → Settled s (drop_stage id s)
unused-Settled id s free =
    Pointwise-map_none (StillFits s.stages (remove_row stage_key id s.stages))
      (λ d. points_to d.stage_id id) (restage none id) (spared id s.stages) s.deals free

restaged-Settled :
    (id to : ℕ) (s : FunnelStore) {g target : StageRow}
    → to ≢ id
    → find_stage id s ≡ some g
    → find_stage to s ≡ some target
    → target.funnel_id ≡ g.funnel_id
    → Settled s (drop_stage id (restage_all (some to) id s))
restaged-Settled id to s away here there same =
    Pointwise-map-map (StillFits s.stages (remove_row stage_key id s.stages)) (restage (some to) id)
      (restage none id) (λ d fits. moved id to s.stages d away here there same fits) s.deals

still : (s : FunnelStore) → Settled s s
still s = Pointwise-refl (StillFits s.stages s.stages) (λ d fits. fits) s.deals

module _ (e : Env) (id : ℕ) (s : FunnelStore) (g : StageRow) (here : find_stage id s ≡ some g) where
  delete_row-Settled :
      (to : Option ℕ)
      → to ≢ some id
      → ((k : ℕ) → to ≡ some k → fits_target g (find_stage k s) ≡ true)
      → Settled s (delete_row e id to s).1
  delete_row-Settled to away target = elim (Bool-cases e.write_fails) [
    | inl down ↦ simp down (still s)
    | inr up ↦ elim (Bool-cases (has_deals id s)) [
      | inr free ↦ simp (up, free) (unused-Settled id s free)
      | inl used ↦ elim (Option-cases to) [
        | inl nowhere ↦ simp (up, used, nowhere) (still s)
        | inr (k, is) ↦ elim (Option-cases (find_stage k s)) [
          | inl missing ↦ absurd (ground (arith, missing, target k is))
          | inr (row, there) ↦
              let same : row.funnel_id ≡ g.funnel_id = ground (arith, there, target k is) in
              simp (up, used, is)
                (restaged-Settled id k s (λ hit. away (is ∙ ap some hit)) here there same)
        ]
      ]
    ]
  ]

-- Deleting a stage leaves every deal that was in a stage on record, of the deal's own funnel, in
-- such a stage: whoever asks, whatever the answer, and whether or not the deals are to go to another
-- stage. The one condition is that they are not to go to the stage that is deleted.
pub deletion_keeps_deals_in_stages :
    (e : Env) (id : ℕ) (to : Option ℕ) (s : FunnelStore)
    → to ≢ some id
    → Settled s (delete_stage e id to s).1
unfolding delete_stage
deletion_keeps_deals_in_stages e id to s away =
    after_read (Settled s) (open_stage e id "funnels.delete")
      (λ g. check_target e g to >> delete_row e id to) s (open_stage-store e id "funnels.delete" s)
      (still s)
      (λ g opened.
        after_read (Settled s) (check_target e g to) (λ u. delete_row e id to) s
          (check_target-store e g to s) (still s)
          (λ u checked.
            delete_row-Settled e id s g (open_stage-found e id "funnels.delete" s g opened) to away
              (λ k is.
                check_target-fits e g k s u
                  (subst (λ o. (check_target e g o s).0 ≡ ok u) is checked))))
