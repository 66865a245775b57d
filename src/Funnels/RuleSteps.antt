-- ===== src/Funnels/RuleSteps.antt =====
-- What each operation of internal/services/funnel_transition_rule_service.go keeps of the rules
-- between stages.
use kub.Base.{
  ℕ, Bool, true, List, [], ◌∷◌, ◌++◌, all, not, ◌==◌, ok, query, or_fail, exec, fail_if, ◌>>=◌,
  ◌>>◌, ◌≡◌, refl, ◌∙◌, arith, all-changed, found-passes, after_test, after_read, after_find,
  after_write, queried, forbidden, invalid_state, not_found, remove_row,
}
use kub.Authz.Roles.{can_manage_funnels}
use kub.Models.Deals.{TransitionRule}
use kub.Funnels.Table.{
  FunnelStore, rule_key, find_rule, insert_rule, set_rule, update_rule, drop_rule,
}
use kub.Funnels.Service
use kub.Funnels.Service.{
  Env, Funnels, normalize_stage, open_stage, check_stages, principal_of, load_funnel_for_manage,
  is_complete, is_loop, copied, check_target, fits_target, delete_row,
}
use kub.Funnels.Links.{rule_fits, RulesFit}

removed-all :
    (p : TransitionRule → Bool) (id : ℕ) (rules : List TransitionRule)
    → all p rules ≡ true
    → all p (remove_row rule_key id rules) ≡ true
unfolding remove_row
removed-all p id [] h = refl
removed-all p id (r ∷ rules) h = ground (arith, removed-all p id rules, h)

appended-all :
    (p : TransitionRule → Bool) (r : TransitionRule) (rules : List TransitionRule)
    → p r ≡ true
    → all p rules ≡ true
    → all p (rules ++ r ∷ []) ≡ true
appended-all p r [] fits h = ground (arith, fits)
appended-all p r (x ∷ rules) fits h = ground (arith, appended-all p r rules fits, h)

check_stages-fits :
    (e : Env) (r : TransitionRule) (s : FunnelStore) (u : Unit {0})
    → (check_stages e r s).0 ≡ ok u
    → rule_fits s.stages r ≡ true
unfolding check_stages
check_stages-fits e r s u done = ground arith

check_stages-store : (e : Env) (r : TransitionRule) (s : FunnelStore) → (check_stages e r s).1 ≡ s
unfolding check_stages
check_stages-store e r s = ground arith

module _ (e : Env) (s : FunnelStore) (fit : RulesFit s) where
  -- A rule that is written after its stages are checked.
  checked-fit :
      (r : TransitionRule) (write : FunnelStore → FunnelStore)
      → (rule_fits s.stages r ≡ true → RulesFit (write s))
      → RulesFit ((check_stages e r >> exec e.write_fails write) s).1
  checked-fit r write go =
      after_read RulesFit (check_stages e r) (λ u. exec e.write_fails write) s
        (check_stages-store e r s) fit
        (λ u done.
          after_write RulesFit e.write_fails write s fit (go (check_stages-fits e r s u done)))

  pub create_rule-fit : (r : TransitionRule) → RulesFit (Service.create_rule e r s).1
  unfolding Service.create_rule
  create_rule-fit r =
      let write : Funnels (Unit {0}) = check_stages e r >> exec e.write_fails (insert_rule r) in
      after_test RulesFit (not (can_manage_funnels e.role_id)) forbidden
        (fail_if (not (is_complete r)) invalid_state
          >> (fail_if (is_loop r) invalid_state >> write))
        s fit
        (λ may.
          after_test RulesFit (not (is_complete r)) invalid_state
            (fail_if (is_loop r) invalid_state >> write) s fit
            (λ full. after_test RulesFit (is_loop r) invalid_state write s fit (λ leads.
              checked-fit r (insert_rule r) (λ fits.
                appended-all (rule_fits s.stages) (record r { id = s.next_rule }) s.rules fits
                  fit))))

  module _ (k : TransitionRule → Funnels (Unit {0})) (id : ℕ) where
    found_rule-fit :
        (fails : Bool)
        → ((r : TransitionRule) → rule_fits s.stages r ≡ true → RulesFit (k r s).1)
        → RulesFit ((query fails (find_rule id) >>= λ found. or_fail found not_found >>= k) s).1
    found_rule-fit fails go =
        after_read RulesFit (query fails (find_rule id)) (λ found. or_fail found not_found >>= k) s
          refl fit
          (λ found read. after_find RulesFit found not_found k s fit (λ r there. go r (
            found-passes rule_key (λ x. rule_key x == id) (rule_fits s.stages) s.rules fit
              (queried fails (find_rule id) s read ∙ there))))

  pub change_rule-fit : (r : TransitionRule) → RulesFit (Service.change_rule e r s).1
  unfolding Service.change_rule
  change_rule-fit r =
      let write : Funnels (Unit {0}) =
        check_stages e r >> exec e.write_fails (update_rule r.id (set_rule r)) in
      let look : Funnels (Unit {0}) =
        query e.get_fails (find_rule r.id) >>= λ found. or_fail found not_found >>= λ old. write in
      after_test RulesFit (not (can_manage_funnels e.role_id)) forbidden
        (fail_if (not (is_complete r)) invalid_state >> look) s fit
        (λ may. after_test RulesFit (not (is_complete r)) invalid_state look s fit (λ full.
          found_rule-fit (λ old. write) r.id e.get_fails
            (λ old there. checked-fit r (update_rule r.id (set_rule r)) (λ fits.
              all-changed rule_key (rule_fits s.stages) r.id (set_rule r) s.rules (λ x h. fits)
                fit))))

  pub delete_rule-fit : (id : ℕ) → RulesFit (Service.delete_rule e id s).1
  unfolding Service.delete_rule
  delete_rule-fit id =
      let write : Funnels (Unit {0}) = exec e.write_fails (drop_rule id) in
      after_test RulesFit (not (can_manage_funnels e.role_id)) forbidden
        (query e.write_fails (find_rule id) >>= λ found. or_fail found not_found >>= λ old. write) s
        fit
        (λ may.
          found_rule-fit (λ old. write) id e.write_fails
            (λ old there.
              after_write RulesFit e.write_fails (drop_rule id) s fit
                (removed-all (rule_fits s.stages) id s.rules fit)))

  pub toggle_active-fit :
      (id : ℕ) (active : Bool) → RulesFit (Service.toggle_active e id active s).1
  unfolding Service.toggle_active
  toggle_active-fit id active =
      let set : TransitionRule → FunnelStore → FunnelStore =
        λ r. update_rule id (set_rule (record r { is_active = active })) in
      after_test RulesFit (not (can_manage_funnels e.role_id)) forbidden
        (query e.get_fails (find_rule id) >>= λ found.
          or_fail found not_found >>= λ r. exec e.write_fails (set r))
        s fit
        (λ may.
          found_rule-fit (λ r. exec e.write_fails (set r)) id e.get_fails
            (λ r fits. after_write RulesFit e.write_fails (set r) s fit (
              all-changed rule_key (rule_fits s.stages) id
                (set_rule (record r { is_active = active })) s.rules (λ x h. fits) fit)))
