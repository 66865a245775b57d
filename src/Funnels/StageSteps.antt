-- ===== src/Funnels/StageSteps.antt =====
-- What each operation of internal/services/funnel_stage_service.go keeps of the rules between stages.
use kub.Base
use kub.Base.{
  ◌++ˢ◌, is_none, ℕ, String, Bool, true, false, Option, none, some, List, [], ◌∷◌, ◌++◌, all, not,
  ◌==◌, ◌&&◌, ◌||◌, ok, err, lift, query, or_fail, exec, fail_if, ◌>>=◌, ◌>>◌, ◌≡◌, refl, sym, ap,
  ◌∙◌, inl, inr, arith, Bool-cases, Option-cases, &&_elim, keyed, all-changed, found-passes,
  after_test, after_lift, after_read, after_find, after_exec, after_write, queried, forbidden,
  invalid_state, not_found, remove_row, change_row,
}
use kub.Funnels.Copies.{copy_code, insert_copy}
use kub.Funnels.Table.{
  StageRow, FunnelStore, find_stage, insert_stage, set_stage, given_position, last_position,
  reorder, update_stage, reorder_stages, has_deals,
}
use kub.Funnels.Service
use kub.Funnels.Service.{
  Env, Funnels, normalize_stage, open_stage, check_stages, principal_of, load_funnel_for_manage,
  is_complete, is_loop, copied, check_target, fits_target, delete_row,
}
use kub.Funnels.Links.{RulesFit, Kept-RulesFit, Kept-append, Kept-change_row, Kept-reorder, dropped}

pub open_stage-store :
    (e : Env) (id : ℕ) (action : String) (s : FunnelStore) → (open_stage e id action s).1 ≡ s
unfolding open_stage
open_stage-store e id action s =
    let same : FunnelStore → Type 0 = λ t. t ≡ s in
    after_lift same (principal_of e)
      (λ p. query e.get_fails (find_stage id) >>= λ found. or_fail found not_found >>= λ g.
        lift (load_funnel_for_manage e g.funnel_id p action) >>= λ f. Base.pure g)
      s refl
      (λ p granted.
        after_read same (query e.get_fails (find_stage id))
          (λ found. or_fail found not_found >>= λ g.
            lift (load_funnel_for_manage e g.funnel_id p action) >>= λ f. Base.pure g)
          s refl refl
          (λ found read.
            after_find same found not_found
              (λ g. lift (load_funnel_for_manage e g.funnel_id p action) >>= λ f. Base.pure g) s
              refl
              (λ g there.
                after_lift same (load_funnel_for_manage e g.funnel_id p action) (λ f. Base.pure g) s
                  refl (λ f seen. refl))))

pub check_target-store :
    (e : Env) (g : StageRow) (to : Option ℕ) (s : FunnelStore) → (check_target e g to s).1 ≡ s
check_target-store e g none s = refl
check_target-store e g (some to) s =
    let same : FunnelStore → Type 0 = λ t. t ≡ s in
    after_read same (query e.target_fails (find_stage to))
      (λ target. fail_if (not (fits_target g target)) invalid_state) s refl refl
      (λ target read. refl)

module _ (e : Env) (s : FunnelStore) (fit : RulesFit s) where
  inserted-fit : (g : StageRow) → RulesFit (insert_stage g s)
  inserted-fit g =
      Kept-RulesFit s.stages (insert_stage g s).stages s.rules
        (Kept-append s.stages (
          record g {
            id = s.next_stage;
            position = given_position g.position (last_position g.funnel_id s);
          }
          ∷ []))
        fit

  copied-fit : (g : StageRow) (code : Option String) → RulesFit (insert_copy g code s)
  copied-fit g none = fit
  copied-fit g (some code) = inserted-fit (record g {
    name = g.name ++ˢ " (копия)";
    code = code;
    position = last_position g.funnel_id s;
  })

  updated-fit : (id : ℕ) (g : StageRow) → RulesFit (update_stage id (set_stage g) s)
  updated-fit id g =
      Kept-RulesFit s.stages (update_stage id (set_stage g) s).stages s.rules
        (Kept-change_row id (set_stage g) s.stages (λ r. refl) (λ r. refl)) fit

  reordered-fit : (funnel : ℕ) (ids : List ℕ) → RulesFit (reorder_stages funnel ids s)
  reordered-fit funnel ids =
      Kept-RulesFit s.stages (reorder funnel 0 ids s.stages) s.rules
        (Kept-reorder funnel 0 ids s.stages) fit

  delete_row-fit : (id : ℕ) (to : Option ℕ) → RulesFit (delete_row e id to s).1
  delete_row-fit id to = elim (Bool-cases e.write_fails) [
    | inl down ↦ simp down fit
    | inr up ↦ elim (Bool-cases (has_deals id s)) [
      | inr free ↦ simp (up, free) (dropped id s.stages s.rules fit)
      | inl used ↦ elim (Bool-cases (is_none to)) [
        | inl nowhere ↦ simp (up, used, nowhere) fit
        | inr given ↦ simp (up, used, given) (dropped id s.stages s.rules fit)
      ]
    ]
  ]

  module _ (id : ℕ) (action : String) (k : StageRow → Funnels (Unit {0})) where
    opened-fit :
        ((g : StageRow) → RulesFit (k g s).1) → RulesFit ((open_stage e id action >>= k) s).1
    opened-fit go =
        after_read RulesFit (open_stage e id action) k s (open_stage-store e id action s) fit
          (λ g found. go g)

  pub create_stage-fit : (g : StageRow) → RulesFit (Service.create_stage e g s).1
  unfolding Service.create_stage
  create_stage-fit g =
      let row = record (normalize_stage g) { is_active = true } in
      let write : Funnels (Unit {0}) = exec e.write_fails (insert_stage row) in
      after_lift RulesFit (principal_of e)
        (λ p. lift (load_funnel_for_manage e g.funnel_id p "funnels.update") >>= λ f. write) s fit
        (λ p granted.
          after_lift RulesFit (load_funnel_for_manage e g.funnel_id p "funnels.update") (λ f. write)
            s fit
            (λ f seen.
              after_write RulesFit e.write_fails (insert_stage row) s fit (inserted-fit row)))

  pub change_stage-fit : (g : StageRow) → RulesFit (Service.change_stage e g s).1
  unfolding Service.change_stage
  change_stage-fit g =
      let row : StageRow → StageRow =
        λ old. normalize_stage (record g { funnel_id = old.funnel_id }) in
      opened-fit g.id "funnels.update"
        (λ old. exec e.write_fails (update_stage g.id (set_stage (row old))))
        (λ old.
          after_write RulesFit e.write_fails (update_stage g.id (set_stage (row old))) s fit
            (updated-fit g.id (row old)))

  pub delete_stage-fit : (id : ℕ) (to : Option ℕ) → RulesFit (Service.delete_stage e id to s).1
  unfolding Service.delete_stage
  delete_stage-fit id to =
      opened-fit id "funnels.delete" (λ g. check_target e g to >> delete_row e id to)
        (λ g.
          after_read RulesFit (check_target e g to) (λ u. delete_row e id to) s
            (check_target-store e g to s) fit (λ u fits. delete_row-fit id to))

  pub reorder_funnel-fit :
      (funnel : ℕ) (ids : List ℕ) → RulesFit (Service.reorder_funnel e funnel ids s).1
  unfolding Service.reorder_funnel
  reorder_funnel-fit funnel ids =
      let write : Funnels (Unit {0}) = exec e.write_fails (reorder_stages funnel ids) in
      after_lift RulesFit (principal_of e)
        (λ p. lift (load_funnel_for_manage e funnel p "funnels.reorder") >>= λ f. write) s fit
        (λ p granted.
          after_lift RulesFit (load_funnel_for_manage e funnel p "funnels.reorder") (λ f. write) s
            fit
            (λ f seen.
              after_write RulesFit e.write_fails (reorder_stages funnel ids) s fit
                (reordered-fit funnel ids)))

  pub duplicate_stage-fit : (id : ℕ) → RulesFit (Service.duplicate_stage e id s).1
  unfolding Service.duplicate_stage
  duplicate_stage-fit id =
      opened-fit id "funnels.create" (λ g. exec e.write_fails (copied e g))
        (λ g.
          after_write RulesFit e.write_fails (copied e g) s fit
            (copied-fit g (copy_code e.sprintf g s.stages)))
