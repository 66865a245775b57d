-- ===== src/Leads/Conversion.antt =====
-- The conversion of a lead to a deal: `ConvertLeadToDeal` and `ConvertLeadToDealWithClientData` of
-- internal/services/lead_service.go over `ConvertToDeal` of internal/repositories/lead_repository.go.
-- A transaction that is not committed has written nothing. The deal that comes back beside
-- `ErrDealAlreadyExists` is left out.
use kub.Base.{
  ℕ, suc, String, Bool, false, Option, none, some, ◌∷◌, find, ◌==◌, ◌=ˢ◌, ◌&&◌, ◌||◌, leb, not,
  if◌then◌else◌, is_empty, trim_space, to_lower, Result, ok, err, pure, fail, lift, or_fail, query,
  exec, fail_if, ◌>>=◌, ◌>>◌, db, read_only, forbidden, lead_not_found, amount_invalid,
  currency_required, client_id_required, client_type_required, invalid_client_type, not_configured,
  client_not_found, client_type_mismatch, deal_already_exists, not_convertible,
  client_data_required, stored_type_required, stored_type_mismatch,
}
use kub.Authz.Roles.{is_read_only}
use kub.Models.Leads.{Lead}
use kub.DataScope.{resolve_lead_scope, lead_matches_scope}
use kub.Leads.Rows.{LeadRow, active_only, normalize_lead_status}
use kub.Leads.Table.{
  LeadDeal, LeadStore, row_of, find_lead, set_status_of, update_lead, coalesce,
  department_of_funnel,
}
use kub.Leads.Service.{Call, Leads, foreign_to_sales}

-- models.Client, its number and kind.
pub record Client : Type 0 where
  pub id : ℕ
  pub client_type : String

-- models.Client, what a conversion is given of one.
pub record ClientData : Type 0 where
  pub bin_iin : String
  pub client_type : String
  pub owner_id : ℕ

-- The service of clients, for the caller.
pub record ClientSvc : Type 0 where
  pub get_by_id : ℕ → Result (Option Client)
  pub get_or_create_by_bin : ClientData → Result (Option Client)

-- The service and the table of clients, which statements fail, and whether another transaction puts a
-- deal of the lead between the question for one and the insertion: that deal is its write, not one of
-- this request.
pub record World : Type 0 where
  pub client_svc : Option ClientSvc
  pub stored_type : ℕ → Option (Option String)
  pub lock_fails : Bool
  pub existing_fails : Bool
  pub lookup_fails : Bool
  pub insert_fails : Bool
  pub raced : Bool
  pub update_fails : Bool
  pub commit_fails : Bool

-- `amount <= 0` on the bits of a float64: the two zeros and the negative numbers, NaN left out.
abbrev pub at_most_zero : ℕ → Bool
at_most_zero bits = bits == 0 || leb 9223372036854775808 bits && leb bits 18442240474082181120

abbrev pub normalized : String → String
normalized kind = to_lower (trim_space kind)

abbrev known_type : String → Result String
known_type v =
    if is_empty v
    then err client_type_required
    else if v =ˢ "individual" || v =ˢ "legal"
    then ok v
    else err invalid_client_type

unfoldable pub normalize_required_deal_client_type : String → Result String
normalize_required_deal_client_type kind = known_type (normalized kind)

abbrev pub mark_converted : ℕ → LeadStore → LeadStore
mark_converted id s = update_lead id (set_status_of "converted") s

abbrev pub is_converted : LeadRow → Bool
is_converted row = normalize_lead_status row.status =ˢ "converted"

abbrev pub deal_of : ℕ → LeadStore → Option LeadDeal
deal_of id s = find (λ (d : LeadDeal). d.lead_id == id) s.deals

-- The row that is inserted, with the department of the lead's funnel or of the owner.
abbrev pub new_deal : LeadRow → LeadDeal → LeadStore → LeadDeal
new_deal row deal s = record deal {
  id = s.next_deal;
  department_id = coalesce (department_of_funnel s row.funnel_id) (s.user_department deal.owner_id);
}

abbrev pub insert_deal : LeadDeal → LeadStore → LeadStore
insert_deal deal s = record s { deals = deal ∷ s.deals; next_deal = suc s.next_deal }

-- Where the lead has a deal.
abbrev pub settle_existing : World → ℕ → LeadRow → Leads LeadDeal
settle_existing w id row = do
  exec (w.commit_fails || not (is_converted row) && w.update_fails)
      (λ s. if is_converted row then s else mark_converted id s)
  fail deal_already_exists

-- From the insertion on.
abbrev pub add_deal : World → ℕ → LeadRow → LeadDeal → Leads LeadDeal
add_deal w id row deal =
    if w.raced
    then exec (w.insert_fails || w.update_fails || w.commit_fails) (mark_converted id)
      >> fail deal_already_exists
    else query false (new_deal row deal) >>= λ made.
        exec (w.insert_fails || w.update_fails || w.commit_fails)
          (λ s. insert_deal made (mark_converted id s))
        >> pure made

abbrev pub settle_new : World → ℕ → LeadRow → LeadDeal → Client → Leads LeadDeal
settle_new w id row deal client = do
  fail_if (not (normalize_lead_status row.status =ˢ "confirmed")) not_convertible
  fail_if (client.id == 0) client_data_required
  found ← query w.lookup_fails (λ s. w.stored_type client.id)
  column ← or_fail found client_not_found
  kind ← or_fail column db
  fail_if (is_empty (trim_space client.client_type)) stored_type_required
  fail_if (not (normalized client.client_type =ˢ normalized kind)) stored_type_mismatch
  add_deal w id row (record deal { client_id = client.id })

abbrev pub settle : World → ℕ → LeadRow → LeadDeal → Client → Option LeadDeal → Leads LeadDeal
settle w id row deal client none = settle_new w id row deal client
settle w id row deal client (some existing) = settle_existing w id row

unfoldable pub convert_to_deal : World → ℕ → LeadDeal → Client → Leads LeadDeal
convert_to_deal w id deal client = do
  locked ← query w.lock_fails (λ s. row_of id s.rows)
  row ← or_fail locked lead_not_found
  existing ← query w.existing_fails (deal_of id)
  settle w id row deal client existing

-- `GetByID`, whose error is told as a missing lead.
abbrev pub lead_of : Call → ℕ → LeadStore → Result Lead
lead_of c id s =
    if c.get_fails
    then err lead_not_found
    else elim (find_lead active_only id s) [ none ↦ err lead_not_found | some lead ↦ ok lead ]

abbrev pub configured : Option ClientSvc → Result ClientSvc
configured none = err not_configured
configured (some svc) = ok svc

abbrev pub present : Result (Option Client) → Result Client
present (err e) = err e
present (ok none) = err client_not_found
present (ok (some client)) = ok client

-- What the routes give: the amount, the currency and the owner of the deal to be.
pub record Terms : Type 0 where
  pub amount : ℕ
  pub currency : String
  pub owner_id : ℕ

abbrev pub build_converted_deal : ℕ → ℕ → Terms → Lead → ℕ → LeadDeal
build_converted_deal id client t lead now = record {
  id = 0;
  lead_id = id;
  client_id = client;
  owner_id = t.owner_id;
  branch_id = lead.branch_id;
  department_id = none;
  amount = t.amount;
  currency = t.currency;
  status = "new";
  created_at = now;
}

-- From the question for the client on.
abbrev pub convert_for_client : World → Call → ℕ → Terms → ℕ → String → Lead → Leads LeadDeal
convert_for_client w c id t client_id kind lead = do
  svc ← lift (configured w.client_svc)
  client ← lift (present (svc.get_by_id client_id))
  fail_if (not (normalized client.client_type =ˢ kind)) client_type_mismatch
  convert_to_deal w id (build_converted_deal id client_id t lead c.now) client

unfoldable pub convert_lead_to_deal : World → Call → ℕ → Terms → ℕ → String → Leads LeadDeal
convert_lead_to_deal w c id t client_id client_type = do
  fail_if (is_read_only c.role_id) read_only
  fail_if (at_most_zero t.amount) amount_invalid
  fail_if (is_empty (trim_space t.currency)) currency_required
  fail_if (client_id == 0) client_id_required
  kind ← lift (normalize_required_deal_client_type client_type)
  lead ← λ s. (lead_of c id s, s)
  scope ← lift (resolve_lead_scope c.user_id c.role_id c.repo)
  fail_if (foreign_to_sales c lead) forbidden
  fail_if (not (lead_matches_scope scope (some lead))) forbidden
  convert_for_client w c id t client_id kind lead

abbrev pub given_data : Option ClientData → Result ClientData
given_data none = err client_data_required
given_data (some data_) = ok data_

abbrev pub filled_data : Terms → String → ClientData → ClientData
filled_data t kind d = record d {
  client_type = kind;
  owner_id = if d.owner_id == 0 then t.owner_id else d.owner_id;
}

unfoldable pub convert_lead_to_deal_with_client_data :
    World → Call → ℕ → Terms → Option ClientData → Leads LeadDeal
convert_lead_to_deal_with_client_data w c id t client_data = do
  fail_if (is_read_only c.role_id) read_only
  fail_if (at_most_zero t.amount) amount_invalid
  fail_if (is_empty (trim_space t.currency)) currency_required
  given ← lift (given_data client_data)
  kind ← lift (normalize_required_deal_client_type given.client_type)
  svc ← lift (configured w.client_svc)
  client ← lift (present (svc.get_or_create_by_bin (filled_data t kind given)))
  convert_lead_to_deal w c id t client.id kind
