-- ===== src/Funnels/Links.antt =====
-- The rules between funnels fit the stages, whatever is asked of the two services.
use kub.Base.{
  ℕ, suc, ◌*◌, Bool, true, List, [], ◌∷◌, ◌++◌, filter, all, not, ◌==◌, ◌&&◌, ◌≡◌, ◌≢◌, refl, inl,
  inr, arith, Bool-cases, Option-cases, &&_elim, keyed, keyed-change_row, keyed-append,
  keyed-remove_row, change_row, remove_row,
}
use kub.Models.Deals.{TransitionRule}
use kub.Funnels.Table.{StageRow, FunnelStore, stage_key, place, reorder, names}
use kub.Funnels.Service

abbrev pub rule_fits : List StageRow → TransitionRule → Bool
rule_fits stages r =
    Service.in_funnel r.from_funnel_id (keyed stage_key r.from_stage_id stages)
    && Service.in_funnel r.to_funnel_id (keyed stage_key r.to_stage_id stages)

-- Every rule leads from a stage of the funnel that it names to a stage of the other that it names.
abbrev pub RulesFit : FunnelStore → Type 0
RulesFit s = all (rule_fits s.stages) s.rules ≡ true

-- Every stage on record is on record still, in the same funnel.
abbrev pub Kept : List StageRow → List StageRow → Type 0
Kept rows rows' =
    (k f : ℕ)
    → Service.in_funnel f (keyed stage_key k rows) ≡ true
    → Service.in_funnel f (keyed stage_key k rows') ≡ true

pub all-wider :
    {A : Type 0} (p q : A → Bool) (xs : List A)
    → ((x : A) → p x ≡ true → q x ≡ true)
    → all p xs ≡ true
    → all q xs ≡ true
all-wider p q [] wider h = refl
all-wider p q (x ∷ xs) wider h =
    let (a, b) = &&_elim (p x) (all p xs) h in ground (arith, wider x a, all-wider p q xs wider b)

pub Kept-RulesFit :
    (rows rows' : List StageRow) (rules : List TransitionRule)
    → Kept rows rows'
    → all (rule_fits rows) rules ≡ true
    → all (rule_fits rows') rules ≡ true
Kept-RulesFit rows rows' rules kept h =
    all-wider (rule_fits rows) (rule_fits rows') rules
      (λ r fits.
        let (from, to) =
          &&_elim (Service.in_funnel r.from_funnel_id (keyed stage_key r.from_stage_id rows))
            (Service.in_funnel r.to_funnel_id (keyed stage_key r.to_stage_id rows)) fits in
        ground
          (arith, kept r.from_stage_id r.from_funnel_id from, kept r.to_stage_id r.to_funnel_id to))
      h

pub Kept-append : (rows more : List StageRow) → Kept rows (rows ++ more)
Kept-append rows more k f h = elim (Option-cases (keyed stage_key k rows)) [
  | inl missing ↦ absurd (ground (arith, missing, h))
  | inr (g, found) ↦ ground (arith, found, h, keyed-append stage_key k rows more {r = g} found)
]

pub Kept-change_row :
    (id : ℕ) (f : StageRow → StageRow) (rows : List StageRow)
    → ((r : StageRow) → (f r).id ≡ r.id)
    → ((r : StageRow) → (f r).funnel_id ≡ r.funnel_id)
    → Kept rows (change_row stage_key id f rows)
Kept-change_row id f rows keeps stays k n h = elim (Option-cases (keyed stage_key k rows)) [
  | inl missing ↦ absurd (ground (arith, missing, h))
  | inr (g, found) ↦
      let after = keyed-change_row stage_key id k f rows keeps in
      elim (Bool-cases (k == id)) [
        | inl hit ↦ ground (arith, found, h, after, hit, stays g)
        | inr miss ↦ ground (arith, found, h, after, miss)
      ]
]

pub place-id : (funnel p : ℕ) (r : StageRow) → (place funnel p r).id ≡ r.id
place-id funnel p r = ground arith

pub place-funnel : (funnel p : ℕ) (r : StageRow) → (place funnel p r).funnel_id ≡ r.funnel_id
place-funnel funnel p r = ground arith

pub Kept-reorder :
    (funnel n : ℕ) (ids : List ℕ) (rows : List StageRow) → Kept rows (reorder funnel n ids rows)
unfolding reorder
Kept-reorder funnel n [] rows k f h = h
Kept-reorder funnel n (id ∷ ids) rows k f h =
    let p = suc n * 10 in
    Kept-reorder funnel (suc n) ids (change_row stage_key id (place funnel p) rows) k f
      (Kept-change_row id (place funnel p) rows (place-id funnel p) (place-funnel funnel p) k f h)

-- The rules that are left by a deletion do not name the stage.
pub dropped :
    (id : ℕ) (rows : List StageRow) (rules : List TransitionRule)
    → all (rule_fits rows) rules ≡ true
    → all (rule_fits (remove_row stage_key id rows)) (filter (λ r. not (names id r)) rules) ≡ true
dropped id rows [] h = refl
dropped id rows (r ∷ rules) h =
    let (fits, rest) = &&_elim (rule_fits rows r) (all (rule_fits rows) rules) h in
    elim (Bool-cases (names id r)) [
      | inl named ↦ simp named (dropped id rows rules rest)
      | inr free ↦
          let from : r.from_stage_id ≢ id = λ e. absurd (ground (arith, free, e)) in
          let to : r.to_stage_id ≢ id = λ e. absurd (ground (arith, free, e)) in
          let kept : rule_fits (remove_row stage_key id rows) r ≡ true =
            rw
              (
                keyed-remove_row stage_key id r.from_stage_id rows from,
                keyed-remove_row stage_key id r.to_stage_id rows to,
              )
              fits in
          simp (free, kept) (dropped id rows rules rest)
    ]
