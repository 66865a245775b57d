-- ===== src/Deals/Guards.antt =====
-- What the operations on one deal keep, whichever of them is asked for.
use mathlib.Core.Path.{subst}
use kub.Base.{
  ℕ, String, Bool, true, false, Option, none, some, ◌&&◌, not, ok, err, Error, Result, ◌≡◌, ◌≢◌,
  ◌⊎◌, refl, ◌∙◌, ap, inl, inr, arith, Bool-cases, Result-cases, keyed-others, keyed-remove_row,
  pure, forbidden, read_only, invalid_state, deal_not_found, fail_if, exec, query, ◌>>◌,
}
use kub.Authz.Roles.{
  is_elevated, is_read_only, can_hard_delete_business_entity, can_archive_business_entity,
}
use kub.Models.Users.{UserRepo}
use kub.Models.Deals.{Deal}
use kub.DataScope.{DataScope, resolve_deal_scope, deal_matches_scope}
use kub.DataScope.Fences.{HasBranch, HasBranch-unique, deal_fence}
use kub.Leads.Rows.{ArchiveScope, active_only, all_rows}
use kub.Leads.Transitions.{can_transition, deal_transitions}
use kub.Deals.Table.{DealRow, DealStore, deal_row, find_deal, scan_deal, update_deal}
use kub.Deals.Stages.{Env, Deals, move_stage}
use kub.Deals.Moves.{other_branches_stay, find_deal-row}
use kub.Deals.Service.{
  set_status_of, set_archived, delete_deal, history_of, status_step, archive_step, unarchive_step,
  foreign_to_sales, reach_deal, reached, on_deal, update_status, delete, archive_deal,
  unarchive_deal, get_by_id, get_history,
}

-- The requests that the routes of a deal make of the service.
pub data Request : Type 0 where
  move_to : ℕ → ℕ → String → Request
  set_status : ℕ → String → Request
  remove archive_row unarchive_row : ℕ → Request
  read_deal : ArchiveScope → ℕ → Request
  read_history : ℕ → Request

unfoldable pub serve : Env → Request → DealStore → DealStore
serve e (move_to id stage comment) s = (move_stage e id stage comment s).1
serve e (set_status id to) s = (update_status e id to s).1
serve e (remove id) s = (delete e id s).1
serve e (archive_row id) s = (archive_deal e id s).1
serve e (unarchive_row id) s = (unarchive_deal e id s).1
serve e (read_deal archive id) s = (get_by_id e archive id s).1
serve e (read_history id) s = (get_history e id s).1

reach_deal-cases :
    (e : Env) (owned : Bool) (deal : Deal) (s : DealStore)
    → ((x : Error) × (reach_deal e owned deal s ≡ (err x, s)))
      ⊎ ((scope : DataScope) × (reach_deal e owned deal s ≡ (ok tt, s))
          × (resolve_deal_scope e.user_id e.role_id e.repo ≡ ok scope)
          × (deal_matches_scope scope (some deal) ≡ true))
unfolding reach_deal
reach_deal-cases e owned deal s = elim (Bool-cases (owned && foreign_to_sales e deal)) [
  | inl foreign ↦ inl (forbidden, simp foreign refl)
  | inr own ↦ elim (Result-cases (resolve_deal_scope e.user_id e.role_id e.repo)) [
    | inr (x, refused) ↦ inl (x, simp (own, refused) refl)
    | inl (scope, resolved) ↦ elim (Bool-cases (deal_matches_scope scope (some deal))) [
      | inr outside ↦ inl (forbidden, simp (own, resolved, outside) refl)
      | inl inside ↦ inr (scope, simp (own, resolved, inside) refl, resolved, inside)
    ]
  ]
]

module _ (e : Env) (repo : UserRepo) (b : ℕ) (confined : is_elevated e.role_id ≡ false)
    (users : e.repo ≡ some repo) (home : HasBranch repo e.user_id b) (s : DealStore) (k : ℕ)
    {r : DealRow} (row : deal_row k s ≡ some r) (away : r.branch_id ≢ some b) where
  -- The deal that is reached has another key, since its branch is the caller's.
  reached_apart :
      (archive : ArchiveScope) (id : ℕ) (deal : Deal) (scope : DataScope)
      → find_deal archive id s ≡ some deal
      → resolve_deal_scope e.user_id e.role_id e.repo ≡ ok scope
      → deal_matches_scope scope (some deal) ≡ true
      → k ≢ id
  unfolding scan_deal
  reached_apart archive id deal scope found resolved inside same =
      let (b', branch, has) =
        deal_fence e.user_id e.role_id repo deal confined
          (subst (λ x. resolve_deal_scope e.user_id e.role_id x ≡ ok scope) users resolved)
          inside in
      let (r', row', read) = find_deal-row archive id s found in
      let mine : r.branch_id ≡ deal.branch_id = ground (arith, same, row', read) in
      absurd (away (mine ∙ branch ∙ ap some (HasBranch-unique repo e.user_id has home)))

  reached-keeps :
      {A : Type 0} (archive : ArchiveScope) (owned : Bool) (missing : Result A) (id : ℕ)
      (act : Deal → Deals A) (found : Option Deal)
      → find_deal archive id s ≡ found
      → ((deal : Deal) → k ≢ id → deal_row k (act deal s).1 ≡ deal_row k s)
      → deal_row k (reached e owned missing act found s).1 ≡ some r
  reached-keeps archive owned missing id act none found keeps = row
  reached-keeps archive owned missing id act (some deal) found keeps =
      elim (reach_deal-cases e owned deal s) [
        | inl (x, closed) ↦
            let ends : (reached e owned missing act (some deal) s).1 ≡ s = ground arith in
            rw ends row
        | inr (scope, through, resolved, inside) ↦
            let ends : (reached e owned missing act (some deal) s).1 ≡ (act deal s).1 =
              ground arith in
            rw ends (keeps deal (reached_apart archive id deal scope found resolved inside) ∙ row)
      ]

  on_deal-keeps :
      {A : Type 0} (archive : ArchiveScope) (owned : Bool) (missing : Result A) (id : ℕ)
      (act : Deal → Deals A)
      → ((deal : Deal) → k ≢ id → deal_row k (act deal s).1 ≡ deal_row k s)
      → deal_row k (on_deal e archive owned missing id act s).1 ≡ some r
  unfolding on_deal
  on_deal-keeps archive owned missing id act keeps = elim (Bool-cases e.moving.deal) [
    | inl failed ↦
        let ends : (on_deal e archive owned missing id act s).1 ≡ s = ground arith in rw ends row
    | inr answered ↦
        let ends : (on_deal e archive owned missing id act s).1
            ≡ (reached e owned missing act (find_deal archive id s) s).1 =
          ground arith in
        rw ends (reached-keeps archive owned missing id act (find_deal archive id s) refl keeps)
  ]

  update_others :
      (id : ℕ) (f : DealRow → DealRow)
      → ((x : DealRow) → (f x).id ≡ x.id)
      → k ≢ id
      → deal_row k (update_deal id f s) ≡ deal_row k s
  update_others id f keeps other = keyed-others (λ (x : DealRow). x.id) id k f s.deals keeps other

  written-keeps :
      (fails : Bool) (f : DealStore → DealStore)
      → deal_row k (f s) ≡ deal_row k s
      → deal_row k (exec fails f s).1 ≡ deal_row k s
  written-keeps true f kept = refl
  written-keeps false f kept = kept

  set_field-keeps :
      (id : ℕ) (f : DealRow → DealRow)
      → ((x : DealRow) → (f x).id ≡ x.id)
      → k ≢ id
      → deal_row k (exec e.moving.move (update_deal id f) s).1 ≡ deal_row k s
  set_field-keeps id f keeps other =
      written-keeps e.moving.move (update_deal id f) (update_others id f keeps other)

  status_step-keeps :
      (id : ℕ) (to : String) (deal : Deal)
      → k ≢ id
      → deal_row k (status_step e id to deal s).1 ≡ deal_row k s
  status_step-keeps id to deal other =
      elim (Bool-cases (not (can_transition deal.status to deal_transitions))) [
        | inl refused ↦ simp refused refl
        | inr allowed ↦
            let ends : (status_step e id to deal s).1
                ≡ (exec e.moving.move (update_deal id (set_status_of to)) s).1 =
              simp allowed refl in
            rw ends (set_field-keeps id (set_status_of to) (λ x. refl) other)
      ]

  archive_step-keeps :
      (id : ℕ) (deal : Deal) → k ≢ id → deal_row k (archive_step e id deal s).1 ≡ deal_row k s
  archive_step-keeps id deal other = elim (Bool-cases deal.is_archived) [
    | inl already ↦ simp already refl
    | inr active ↦
        let ends : (archive_step e id deal s).1
            ≡ (exec e.moving.move (update_deal id (set_archived true)) s).1 =
          simp active refl in
        rw ends (set_field-keeps id (set_archived true) (λ x. refl) other)
  ]

  unarchive_step-keeps :
      (id : ℕ) (deal : Deal) → k ≢ id → deal_row k (unarchive_step e id deal s).1 ≡ deal_row k s
  unarchive_step-keeps id deal other = elim (Bool-cases deal.is_archived) [
    | inr active ↦ simp active refl
    | inl archived ↦
        let ends : (unarchive_step e id deal s).1
            ≡ (exec e.moving.move (update_deal id (set_archived false)) s).1 =
          simp archived refl in
        rw ends (set_field-keeps id (set_archived false) (λ x. refl) other)
  ]

  delete_step-keeps :
      (id : ℕ) → k ≢ id → deal_row k (exec e.moving.move (delete_deal id) s).1 ≡ deal_row k s
  delete_step-keeps id other =
      written-keeps e.moving.move (delete_deal id)
        (keyed-remove_row (λ (x : DealRow). x.id) id k s.deals other)

  read_log-keeps :
      {A : Type 0} (fails : Bool) (read : DealStore → A)
      → deal_row k (query fails read s).1 ≡ deal_row k s
  read_log-keeps true read = refl
  read_log-keeps false read = refl

  -- An operation that is refused at once, or goes on to the deal.
  guarded-keeps :
      {A : Type 0} (closed : Bool) (x : Error) (m : Deals A)
      → deal_row k (m s).1 ≡ some r
      → deal_row k ((fail_if closed x >> m) s).1 ≡ some r
  guarded-keeps true x m kept = row
  guarded-keeps false x m kept = kept

  -- Whoever is confined to a branch changes no deal of another branch, whatever is asked for: a row
  -- whose branch is another or none is found as it was.
  pub other_deals_untouched : (q : Request) → deal_row k (serve e q s) ≡ some r
  unfolding serve update_status delete archive_deal unarchive_deal get_by_id get_history
  other_deals_untouched (move_to id stage comment) =
      other_branches_stay e repo b confined users home id stage comment s k row away
  other_deals_untouched (set_status id to) =
      guarded-keeps (is_read_only e.role_id) read_only
        (on_deal e active_only true (ok tt) id (status_step e id to))
        (on_deal-keeps active_only true (ok tt) id (status_step e id to) (status_step-keeps id to))
  other_deals_untouched (remove id) =
      guarded-keeps (not (can_hard_delete_business_entity e.role_id)) forbidden
        (on_deal e all_rows false (err deal_not_found) id
          (λ deal. exec e.moving.move (delete_deal id)))
        (on_deal-keeps all_rows false (err deal_not_found) id
          (λ deal. exec e.moving.move (delete_deal id)) (λ deal other. delete_step-keeps id other))
  other_deals_untouched (archive_row id) =
      guarded-keeps (not (can_archive_business_entity e.role_id)) forbidden
        (on_deal e all_rows true (err deal_not_found) id (archive_step e id))
        (on_deal-keeps all_rows true (err deal_not_found) id (archive_step e id)
          (archive_step-keeps id))
  other_deals_untouched (unarchive_row id) =
      guarded-keeps (not (can_archive_business_entity e.role_id)) forbidden
        (on_deal e all_rows true (err deal_not_found) id (unarchive_step e id))
        (on_deal-keeps all_rows true (err deal_not_found) id (unarchive_step e id)
          (unarchive_step-keeps id))
  other_deals_untouched (read_deal archive id) =
      on_deal-keeps archive false (ok none) id (λ deal. pure (some deal)) (λ deal other. refl)
  other_deals_untouched (read_history id) =
      guarded-keeps (not e.stage_repo) invalid_state
        (on_deal e active_only true (err deal_not_found) id
          (λ deal. query e.moving.history (history_of id)))
        (on_deal-keeps active_only true (err deal_not_found) id
          (λ deal. query e.moving.history (history_of id))
          (λ deal other. read_log-keeps e.moving.history (history_of id)))
