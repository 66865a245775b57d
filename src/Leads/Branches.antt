-- ===== src/Leads/Branches.antt =====
-- No request of the lead service crosses the fence of a branch, lead_service.go with scope.go.
use mathlib.Core.Path.{subst}
use kub.Base.{sym, ap, ◌∷◌, [], ℕ, false, some, ok, Result, ◌≡◌, ◌≢◌, refl, inl, inr, arith, ◌∙◌}
use kub.Authz.Roles.{is_elevated}
use kub.Models.Users.{UserRepo}
use kub.Models.Leads.{Lead}
use kub.DataScope.{resolve_lead_scope}
use kub.DataScope.Fences.{HasBranch, HasBranch-unique, lead_fence}
use kub.Leads.Rows.{LeadRow, ArchiveScope, active_only, scan_lead}
use kub.Leads.Table.{
  LeadStore, LeadDeal, set_status_of, new_row, row_of, find_lead, insert_lead, row_of-append,
}
use kub.Leads.Service.{Call, create, assign_owner, get_by_id}
use kub.Leads.Conversion.{Terms}
use kub.Leads.Converting.{Converted, stays, already, made}
use kub.Leads.Converts.{Ended, refused, settled, convert-Ended, convert_with_data-Ended}
use kub.Leads.Outcomes.{
  Reached, update_lead_others, Outcome, kept, wrote, update-Outcome, update_status-Outcome,
  delete-Outcome, archive_lead-Outcome, unarchive_lead-Outcome, create-store,
}
use kub.Leads.Requests.{
  Request, create_lead, update_lead_fields, set_status, remove, archive_row, unarchive_row, assign,
  read_lead, convert, convert_with_data, void, serve, void-store, get_by_id-store,
}

-- A row that is found with a key has the branch of the lead that is read from it.
find_lead-branch :
    (archive : ArchiveScope) (id : ℕ) (s : LeadStore) {lead : Lead} {r : LeadRow}
    → find_lead archive id s ≡ some lead
    → row_of id s.rows ≡ some r
    → lead.branch_id ≡ r.branch_id
unfolding find_lead scan_lead
find_lead-branch archive id s {lead} {r} found row = ground arith

create-others :
    (c : Call) (lead : Lead) (s : LeadStore) (k : ℕ) {r : LeadRow}
    → row_of k s.rows ≡ some r
    → row_of k (create c lead s).1.rows ≡ some r
unfolding insert_lead
create-others c lead s k {r} row = elim (create-store c lead s) [
  | inl same ↦ rw same row
  | inr (l, done) ↦ rw done (row_of-append k s.rows (new_row c.now l s ∷ []) row)
]

assign_owner-store :
    (c : Call) (id who : ℕ) (s : LeadStore)
    → is_elevated c.role_id ≡ false
    → (assign_owner c id who s).1 ≡ s
unfolding assign_owner is_elevated
assign_owner-store c id who s h = ground arith

module _ (c : Call) (repo : UserRepo) (b : ℕ) (confined : is_elevated c.role_id ≡ false)
    (users : c.repo ≡ some repo) (home : HasBranch repo c.user_id b) where
  -- A lead that the caller reaches is of the caller's branch.
  Reached-at_home :
      (archive : ArchiveScope) (id : ℕ) (s : LeadStore) (k : ℕ) {r : LeadRow}
      → Reached c archive id s
      → row_of k s.rows ≡ some r
      → r.branch_id ≢ some b
      → k ≢ id
  Reached-at_home archive id s k {r} (lead, scope, found, resolved, accepted) row away e =
      let (b', branch, has) =
        lead_fence c.user_id c.role_id repo lead confined
          (subst (λ x. resolve_lead_scope c.user_id c.role_id x ≡ ok scope) users resolved)
          accepted in
      let row' = subst (λ x. row_of x s.rows ≡ some r) e row in
      let mine = find_lead-branch archive id s found row' in
      away (sym mine ∙ branch ∙ ap some (HasBranch-unique repo c.user_id has home))

  Outcome-others :
      {id : ℕ} {s : LeadStore} {m : Result (Unit {0}) × LeadStore}
      → Outcome c id s m
      → (k : ℕ) {r : LeadRow} → row_of k s.rows ≡ some r
      → r.branch_id ≢ some b
      → row_of k m.1.rows ≡ some r
  Outcome-others (kept same) k row away = rw same row
  Outcome-others {id} {s} {m} (wrote archive w reached done others) k {r} row away =
      rw done (others k (Reached-at_home archive id s k reached row away) ∙ row)

  Converted-others :
      {id : ℕ} {offered : LeadDeal} {s : LeadStore} {m : Result LeadDeal × LeadStore}
      → Converted id offered s m
      → (k : ℕ) {r : LeadRow} → k ≢ id
      → row_of k s.rows ≡ some r
      → row_of k m.1.rows ≡ some r
  Converted-others (stays e done) k other row = rw done row
  Converted-others {id} {s = s} (already done) k other row =
      rw done (update_lead_others id (set_status_of "converted") s (λ r. refl) k other ∙ row)
  Converted-others {id} {s = s} (made r d here ready fresh is done) k other row =
      rw done (update_lead_others id (set_status_of "converted") s (λ r. refl) k other ∙ row)

  Ended-others :
      {id : ℕ} {t : Terms} {s : LeadStore} {m : Result LeadDeal × LeadStore}
      → Ended c id t s m
      → (k : ℕ) {r : LeadRow} → row_of k s.rows ≡ some r
      → r.branch_id ≢ some b
      → row_of k (void m).1.rows ≡ some r
  Ended-others {m = m} (refused e done) k row away = rw (void-store m, done) row
  Ended-others {id} {s = s} {m = m} (settled lead scope client found resolved accepted ends) k row
        away =
      rw (void-store m) (
        Converted-others ends k
          (Reached-at_home active_only id s k (lead, scope, found, resolved, accepted) row away)
          row)

  -- Whoever is confined to a branch changes no lead of another branch, whatever is asked for: a row
  -- whose branch is another or none is found as it was.
  pub other_branches_untouched :
      (q : Request) (s : LeadStore) (k : ℕ) {r : LeadRow}
      → row_of k s.rows ≡ some r
      → r.branch_id ≢ some b
      → row_of k (serve c q s).1.rows ≡ some r
  unfolding serve
  other_branches_untouched (create_lead lead) s k row away =
      rw (void-store (create c lead s)) (create-others c lead s k row)
  other_branches_untouched (update_lead_fields lead) s k row away =
      Outcome-others (update-Outcome c lead s) k row away
  other_branches_untouched (set_status id to) s k row away =
      Outcome-others (update_status-Outcome c id to s) k row away
  other_branches_untouched (remove id) s k row away =
      Outcome-others (delete-Outcome c id s) k row away
  other_branches_untouched (archive_row id reason) s k row away =
      Outcome-others (archive_lead-Outcome c id reason s) k row away
  other_branches_untouched (unarchive_row id) s k row away =
      Outcome-others (unarchive_lead-Outcome c id s) k row away
  other_branches_untouched (assign id who) s k row away =
      rw (assign_owner-store c id who s confined) row
  other_branches_untouched (read_lead scope id) s k row away =
      rw (void-store (get_by_id c scope id s), get_by_id-store c scope id s) row
  other_branches_untouched (convert w id t client kind) s k row away =
      Ended-others (convert-Ended w c id t s client kind) k row away
  other_branches_untouched (convert_with_data w id t client) s k row away =
      Ended-others (convert_with_data-Ended w c id t s client) k row away
