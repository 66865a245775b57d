-- ===== src/Funnels/Copies.antt =====
-- The copy of a stage, `Duplicate` of internal/repositories/funnel_stage_repository.go.
use kub.Base.{
  ℕ, suc, zero, String, Bool, Option, none, some, List, any, ◌==◌, ◌=ˢ◌, ◌++ˢ◌, ◌&&◌, if◌then◌else◌,
  length,
}
use kub.Funnels.Table.{StageRow, FunnelStore, insert_stage, last_position}

-- `SELECT EXISTS(… WHERE funnel_id=$1 AND code=$2)`.
abbrev pub is_taken : ℕ → List StageRow → String → Bool
is_taken funnel rows code = any (λ (r : StageRow). r.funnel_id == funnel && r.code =ˢ code) rows

-- The source's loop, from the number `i` of the next code: `code` is the one that is tried. The fuel
-- stands for a loop without a bound.
unfoldable pub free_code :
    (String → ℕ → String) → ℕ → List StageRow → String → ℕ → ℕ → String → Option String
free_code sprintf funnel rows source i zero code = none
free_code sprintf funnel rows source i (suc fuel) code =
    let rest = free_code sprintf funnel rows source (suc i) fuel (sprintf source i) in
    if is_taken funnel rows code then rest else some code

abbrev pub copy_code : (String → ℕ → String) → StageRow → List StageRow → Option String
copy_code sprintf g rows =
    free_code sprintf g.funnel_id rows g.code 1 (suc (suc (length rows))) g.code

-- The copy stands last in its funnel.
abbrev pub insert_copy : StageRow → Option String → FunnelStore → FunnelStore
insert_copy g none s = s
insert_copy g (some code) s =
    insert_stage
      (record g {
        name = g.name ++ˢ " (копия)";
        code = code;
        position = last_position g.funnel_id s;
      })
      s
