-- ===== src/Funnels/Table.antt =====
-- internal/repositories/funnel_stage_repository.go and funnel_transition_rule_repository.go: what they
-- write. The foreign keys are those of db/migrations, 045 and 049: a stage that is deleted
-- takes its rules with it, and leaves NULL in deals and in the history.
use kub.Base.{
  ℕ, zero, suc, ◌+◌, ◌-◌, ◌*◌, String, Bool, Option, none, some, List, [], ◌∷◌, ◌++◌, map, any,
  filter, ◌==◌, ◌||◌, not, ltb, leb, if◌then◌else◌, keyed, change_row, remove_row, points_to,
}
use kub.Models.Deals.{TransitionRule, DealStageHistory}
use kub.Deals.Table.{DealRow}

-- Go's `int` where it may be negative.
pub data ℤ : Type 0 where
  pos : ℕ → ℤ
  negsuc : ℕ → ℤ

abbrev pub plus_ten : ℤ → ℤ
plus_ten (pos n) = pos (n + 10)
plus_ten (negsuc n) = if leb n 9 then pos (9 - n) else negsuc (n - 10)

abbrev pub max : ℤ → ℤ → ℤ
max (pos a) (pos b) = if ltb a b then pos b else pos a
max (pos a) (negsuc b) = pos a
max (negsuc a) (pos b) = pos b
max (negsuc a) (negsuc b) = if ltb a b then negsuc a else negsuc b

-- models.FunnelStage; `kind` is the field `Type`.
pub record StageRow : Type 0 where
  pub id : ℕ
  pub funnel_id : ℕ
  pub name : String
  pub code : String
  pub color : String
  pub kind : String
  pub position : ℤ
  pub probability : ℤ
  pub description : String
  pub is_active : Bool

pub record FunnelStore : Type 0 where
  pub stages : List StageRow
  pub rules : List TransitionRule
  pub deals : List DealRow
  pub history : List DealStageHistory
  pub next_stage : ℕ
  pub next_rule : ℕ

abbrev pub stage_key : StageRow → ℕ
stage_key r = r.id

abbrev pub rule_key : TransitionRule → ℕ
rule_key r = r.id

abbrev pub find_stage : ℕ → FunnelStore → Option StageRow
find_stage id s = keyed stage_key id s.stages

abbrev pub find_rule : ℕ → FunnelStore → Option TransitionRule
find_rule id s = keyed rule_key id s.rules

-- `SELECT MAX(position) … WHERE funnel_id = $1`, NULL read as 0.
abbrev larger : Option ℤ → ℤ → Option ℤ
larger none p = some p
larger (some q) p = some (max q p)

unfoldable pub max_position : ℕ → List StageRow → Option ℤ
max_position funnel [] = none
max_position funnel (r ∷ rows) =
    let rest = max_position funnel rows in
    if r.funnel_id == funnel then larger rest r.position else rest

abbrev or_zero : Option ℤ → ℤ
or_zero none = pos 0
or_zero (some p) = p

abbrev pub last_position : ℕ → FunnelStore → ℤ
last_position funnel s = plus_ten (or_zero (max_position funnel s.stages))

abbrev pub given_position : ℤ → ℤ → ℤ
given_position (pos zero) last = last
given_position p last = p

-- `Create`.
abbrev pub insert_stage : StageRow → FunnelStore → FunnelStore
insert_stage g s = record s {
  stages =
      s.stages
      ++ record g {
        id = s.next_stage;
        position = given_position g.position (last_position g.funnel_id s);
      }
        ∷ [];
  next_stage = suc s.next_stage;
}

-- The SET clause of `Update`: neither the funnel nor the position.
abbrev pub set_stage : StageRow → StageRow → StageRow
set_stage g r = record g { id = r.id; funnel_id = r.funnel_id; position = r.position }

abbrev pub update_stage : ℕ → (StageRow → StageRow) → FunnelStore → FunnelStore
update_stage id f s = record s { stages = change_row stage_key id f s.stages }

-- `WHERE id=$2 AND funnel_id=$3`.
abbrev pub place : ℕ → ℕ → StageRow → StageRow
place funnel p r = if r.funnel_id == funnel then record r { position = pos p } else r

-- The loop of `Reorder`, from the place that is next.
unfoldable pub reorder : ℕ → ℕ → List ℕ → List StageRow → List StageRow
reorder funnel n [] rows = rows
reorder funnel n (id ∷ ids) rows =
    reorder funnel (suc n) ids (change_row stage_key id (place funnel (suc n * 10)) rows)

abbrev pub reorder_stages : ℕ → List ℕ → FunnelStore → FunnelStore
reorder_stages funnel ids s = record s { stages = reorder funnel 0 ids s.stages }

abbrev pub has_deals : ℕ → FunnelStore → Bool
has_deals id s = any (λ (d : DealRow). points_to d.stage_id id) s.deals

-- `UPDATE deals SET stage_id = $1 WHERE stage_id = $2`.
abbrev pub restage : Option ℕ → ℕ → DealRow → DealRow
restage to id d = if points_to d.stage_id id then record d { stage_id = to } else d

abbrev pub restage_all : Option ℕ → ℕ → FunnelStore → FunnelStore
restage_all to id s = record s { deals = map (restage to id) s.deals }

abbrev cleared : ℕ → Option ℕ → Option ℕ
cleared id none = none
cleared id (some g) = if g == id then none else some g

abbrev forget : ℕ → DealStageHistory → DealStageHistory
forget id h = record h {
  from_stage_id = cleared id h.from_stage_id;
  to_stage_id = cleared id h.to_stage_id;
}

abbrev pub names : ℕ → TransitionRule → Bool
names id r = r.from_stage_id == id || r.to_stage_id == id

-- `DELETE FROM funnel_stages`, with what the foreign keys do.
abbrev pub drop_stage : ℕ → FunnelStore → FunnelStore
drop_stage id s = record s {
  stages = remove_row stage_key id s.stages;
  rules = filter (λ r. not (names id r)) s.rules;
  deals = map (restage none id) s.deals;
  history = map (forget id) s.history;
}

abbrev pub insert_rule : TransitionRule → FunnelStore → FunnelStore
insert_rule r s = record s {
  rules = s.rules ++ record r { id = s.next_rule } ∷ [];
  next_rule = suc s.next_rule;
}

abbrev pub set_rule : TransitionRule → TransitionRule → TransitionRule
set_rule given r = record given { id = r.id }

abbrev pub update_rule : ℕ → (TransitionRule → TransitionRule) → FunnelStore → FunnelStore
update_rule id f s = record s { rules = change_row rule_key id f s.rules }

abbrev pub drop_rule : ℕ → FunnelStore → FunnelStore
drop_rule id s = record s { rules = remove_row rule_key id s.rules }
