-- ===== src/Leads/Examples.antt =====
-- Runs of the lead modules, and their theorems on one small table.
use kub.Base.{
  ok, forbidden, ℕ, ◌≤◌, ◌-◌, trim_space, to_lower, true, false, none, some, List, [], ◌∷◌, all,
  length, filter, ◌≡◌, refl, arith, eq_iff,
}
use Prim.Native.Nat.{min}
use kub.Authz.Roles.{
  can_archive_business_entity, is_known_role, role_sales, role_control, is_elevated, is_read_only,
}
use kub.DataScope.{
  resolve_user_context, resolve_lead_scope, lead_matches_scope, scope_owner_for_dept,
}
use kub.DataScope.Examples.{manager, users, manager_scope}
use kub.Leads.Rows.{
  LeadRow, LeadListFilter, active_only, scan_lead, normalize_lead_status, lead_archive_where,
  lead_list_where, status_where, lead_statuses_from_group,
}
use kub.Leads.Transitions.{deal_transitions, can_transition, Moves, here, go_on, deal_moves_bounded}
use kub.Leads.Listing.{
  Engine, list_for_role, list_for_role_with_total, list_leads_for_scope, list_all, count_all,
  count_leads_for_scope, scoped_filter,
}
use kub.Leads.Visible.{visible, list_for_role_visible, list_for_role_with_total_lem}
use kub.Leads.Table.{LeadStore, LeadDeal, row_of, find_lead, set_status_of, update_row}
use kub.Leads.Service.{Call, update_status, archive_lead, open_lead}
use kub.Leads.Guards.{read_only_keeps_leads, Unchanged, failed_request_keeps_leads}
use kub.Leads.Branches.{other_branches_untouched}
use kub.Leads.Requests.{serve, set_status, archive_row}
use kub.Leads.Conversion.{
  World, Terms, mark_converted, convert_lead_to_deal, convert_to_deal,
  normalize_required_deal_client_type,
}
use kub.Leads.NewDeals.{Made, convert_makes_deal}

bargains_then_wins : Moves deal_transitions "new" "won" 2
unfolding can_transition
bargains_then_wins =
    go_on {b = "negotiation"}
      (go_on {b = "new"} (here refl) refl (λ e. ground (arith, eq_iff "new" "negotiation")) refl)
      refl (λ e. ground (arith, eq_iff "negotiation" "won")) refl

deal_moves_bounded_example : 2 ≤ 3
deal_moves_bounded_example = deal_moves_bounded bargains_then_wins

-- A database that keeps the rows in their order.
abbrev engine : Engine
engine = record {
  like = λ text r. true;
  sort = λ by order rows. rows;
  sort_keeps = λ by order p rows h. h;
  length-sort = λ by order rows. refl;
}

abbrev row : ℕ → ℕ → LeadRow
row id branch = record {
  id = id;
  title = "Visa";
  description = none;
  phone = none;
  source = none;
  created_at = 0;
  owner_id = some 7;
  branch_id = some branch;
  department_id = none;
  funnel_id = none;
  status = some "new";
  is_archived = false;
  archived_at = none;
  archived_by = none;
  archive_reason = none;
}

abbrev table : List LeadRow
table = row 1 2 ∷ row 2 3 ∷ row 3 2 ∷ []

abbrev store : LeadStore
store = record {
  rows = table;
  next_id = 4;
  funnel_department = λ f. none;
  user_department = λ u. none;
  deals = [];
  next_deal = 1;
}

-- A filter that asks for branch 3.
abbrev asked : LeadListFilter
asked = record {
  text = "";
  status = "";
  status_group = "";
  sort_by = "";
  order = "";
  branch_id = some 3;
  department_id = none;
  source = "";
  scope_user_id = none;
}

list_for_role_visible_example :
    all
      (λ l. lead_matches_scope manager_scope (some l))
      (list_leads_for_scope engine table manager_scope 10 0 asked active_only)
    ≡ true
unfolding list_for_role resolve_lead_scope resolve_user_context is_elevated
list_for_role_visible_example =
    list_for_role_visible engine table 7 role_sales 10 0 (some users) active_only asked
      {scope = manager_scope} refl refl

list_for_role_with_total_lem_example :
    (◌≡◌ {A = ℕ} 2 (length (filter (visible engine active_only asked manager_scope) table)))
    × (◌≡◌ {A = ℕ} 1 (min 1 (2 - 0)))
unfolding list_for_role list_for_role_with_total list_leads_for_scope list_all scoped_filter
    resolve_lead_scope resolve_user_context is_elevated lead_archive_where count_leads_for_scope
    lead_list_where status_where lead_statuses_from_group trim_space to_lower scope_owner_for_dept
    count_all
list_for_role_with_total_lem_example =
    list_for_role_with_total_lem engine table 7 role_sales 1 0 (some users) active_only asked
      {scope = manager_scope} refl {items = scan_lead (row 1 2) ∷ []} refl

abbrev call : ℕ → Call
call role = record {
  user_id = 7;
  role_id = role;
  repo = some users;
  now = 100;
  get_fails = false;
  write_fails = false;
}

read_only_keeps_leads_example :
    (serve (call role_control) (set_status 1 "confirmed") store).1 ≡ store
unfolding is_read_only
read_only_keeps_leads_example =
    read_only_keeps_leads (call role_control) (set_status 1 "confirmed") store refl

other_branches_untouched_example :
    row_of 2 (serve (call role_sales) (set_status 1 "confirmed") store).1.rows ≡ some (row 2 3)
unfolding is_elevated
other_branches_untouched_example =
    other_branches_untouched (call role_sales) users 2 refl refl (manager, refl, refl)
      (set_status 1 "confirmed") store 2 refl (λ e. ground (arith, e))

failed_request_keeps_leads_example :
    Unchanged
      (archive_row 2 "twice")
      store
      forbidden
      (serve (call role_sales) (archive_row 2 "twice") store).1
unfolding serve archive_lead open_lead find_lead lead_archive_where resolve_lead_scope
    resolve_user_context scan_lead lead_matches_scope can_archive_business_entity is_known_role
    is_read_only
failed_request_keeps_leads_example =
    failed_request_keeps_leads (call role_sales) (archive_row 2 "twice") store refl

-- The manager's request on a lead of the own branch is carried out.
moves_own_lead :
    row_of 1 (serve (call role_sales) (set_status 1 "confirmed") store).1.rows
    ≡ some (set_status_of "confirmed" (row 1 2))
unfolding serve update_status open_lead update_row is_read_only find_lead lead_archive_where
    resolve_lead_scope resolve_user_context scan_lead lead_matches_scope can_transition
    normalize_lead_status
moves_own_lead = refl

-- The service of clients knows one client, an individual.
abbrev world : World
world = record {
  client_svc = some (record {
    get_by_id = λ id. ok (some (record { id = id; client_type = "individual" }));
    get_or_create_by_bin = λ d. ok (some (record { id = 5; client_type = "individual" }));
  });
  stored_type = λ id. some (some "individual");
  lock_fails = false;
  existing_fails = false;
  lookup_fails = false;
  insert_fails = false;
  raced = false;
  update_fails = false;
  commit_fails = false;
}

abbrev terms : Terms
terms = record { amount = 4607182418800017408; currency = "KZT"; owner_id = 7 }

abbrev confirmed_store : LeadStore
confirmed_store = record store { rows = set_status_of "confirmed" (row 1 2) ∷ row 2 3 ∷ [] }

abbrev added : LeadDeal
added = record {
  id = 1;
  lead_id = 1;
  client_id = 5;
  owner_id = 7;
  branch_id = some 2;
  department_id = none;
  amount = 4607182418800017408;
  currency = "KZT";
  status = "new";
  created_at = 100;
}

convert_makes_deal_example :
    Made
      (call role_sales)
      1
      confirmed_store
      added
      (convert_lead_to_deal world (call role_sales) 1 terms 5 " Individual" confirmed_store).1
unfolding convert_lead_to_deal is_read_only trim_space normalize_required_deal_client_type to_lower
    find_lead lead_archive_where resolve_lead_scope resolve_user_context scan_lead
    lead_matches_scope convert_to_deal normalize_lead_status update_row
convert_makes_deal_example =
    convert_makes_deal world (call role_sales) 1 terms 5 " Individual" confirmed_store refl

-- A second conversion fails, and marks the lead all the same.
abbrev dealt_store : LeadStore
dealt_store = record confirmed_store { deals = added ∷ []; next_deal = 2 }

marks_again :
    (convert_lead_to_deal world (call role_sales) 1 terms 5 "individual" dealt_store).1
    ≡ mark_converted 1 dealt_store
unfolding convert_lead_to_deal is_read_only trim_space normalize_required_deal_client_type to_lower
    find_lead lead_archive_where resolve_lead_scope resolve_user_context scan_lead
    lead_matches_scope convert_to_deal normalize_lead_status update_row
marks_again = refl
