-- ===== src/Leads/Converts.antt =====
-- What the conversion of a lead asks for and leaves, `ConvertLeadToDeal` and
-- `ConvertLeadToDealWithClientData` of internal/services/lead_service.go.
use kub.Base.{
  ℕ, String, Bool, true, false, Option, some, ◌==◌, ◌=ˢ◌, not, Error, Result, ok, err, lift,
  fail_if, ◌>>=◌, ◌>>◌, ends_after, passed, ◌≡◌, refl, arith, Bool-cases, inl, inr, Option-cases,
  is_empty, trim_space, read_only, forbidden, amount_invalid, currency_required, client_id_required,
  client_type_mismatch,
}
use kub.Authz.Roles.{is_read_only}
use kub.Models.Leads.{Lead}
use kub.DataScope.{DataScope, resolve_lead_scope, lead_matches_scope}
use kub.Leads.Rows.{active_only}
use kub.Leads.Table.{LeadDeal, LeadStore, find_lead}
use kub.Leads.Service.{Call, foreign_to_sales}
use kub.Leads.Converting.{Converted, convert_to_deal-Converted}
use kub.Leads.Conversion.{
  convert_for_client, ClientSvc, World, Client, ClientData, Terms, normalized, convert_to_deal,
  lead_of, configured, present, build_converted_deal, at_most_zero,
  normalize_required_deal_client_type, given_data, filled_data, convert_lead_to_deal,
  convert_lead_to_deal_with_client_data,
}

-- How a conversion may end: refused, or by its transaction on a lead that the caller reaches.
pub data Ended (c : Call) (id : ℕ) (t : Terms) (s : LeadStore) (m : Result LeadDeal × LeadStore)
    : Type 0 where
  refused : (e : Error) → m ≡ (err e, s) → Ended c id t s m
  settled :
      (lead : Lead) (scope : DataScope) (client : ℕ)
      → find_lead active_only id s ≡ some lead
      → resolve_lead_scope c.user_id c.role_id c.repo ≡ ok scope
      → lead_matches_scope scope (some lead) ≡ true
      → Converted id (build_converted_deal id client t lead c.now) s m
      → Ended c id t s m

lead_of-found :
    (c : Call) (id : ℕ) (s : LeadStore) {lead : Lead}
    → lead_of c id s ≡ ok lead
    → find_lead active_only id s ≡ some lead
lead_of-found c id s h = elim (Bool-cases c.get_fails) [
  | inl down ↦ absurd (ground (arith, down, h))
  | inr up ↦ elim (Option-cases (find_lead active_only id s)) [
    | inl missing ↦ absurd (ground (arith, up, missing, h))
    | inr (l, found) ↦ ground (arith, up, found, h)
  ]
]

accepted_if : {b : Bool} → not b ≡ false → b ≡ true
accepted_if {b} h = ground (arith, h)

module _ (w : World) (c : Call) (id : ℕ) (t : Terms) (s : LeadStore) where
  convert_for_client-Ended :
      (client_id : ℕ) (kind : String) (lead : Lead) (scope : DataScope)
      → find_lead active_only id s ≡ some lead
      → resolve_lead_scope c.user_id c.role_id c.repo ≡ ok scope
      → lead_matches_scope scope (some lead) ≡ true
      → Ended c id t s (convert_for_client w c id t client_id kind lead s)
  convert_for_client-Ended client_id kind lead scope found resolved accepted =
      let ends = Ended c id t s in
      let deal = build_converted_deal id client_id t lead c.now in
      let alike = λ (client : Client).
        fail_if (not (normalized client.client_type =ˢ kind)) client_type_mismatch
        >> convert_to_deal w id deal client in
      let asked = λ (svc : ClientSvc). lift (present (svc.get_by_id client_id)) >>= alike in
      ends_after ends (lift (configured w.client_svc)) asked s refl (λ e. refused e refl)
        (λ svc there.
          ends_after ends (lift (present (svc.get_by_id client_id))) alike s refl
            (λ e. refused e refl)
            (λ client known.
              ends_after ends
                (fail_if (not (normalized client.client_type =ˢ kind)) client_type_mismatch)
                (λ v. convert_to_deal w id deal client) s refl (λ e. refused e refl)
                (λ v same.
                  settled lead scope client.id found resolved accepted
                    (convert_to_deal-Converted w id deal client s))))

  pub convert-Ended :
      (client_id : ℕ) (client_type : String)
      → Ended c id t s (convert_lead_to_deal w c id t client_id client_type s)
  unfolding convert_lead_to_deal
  convert-Ended client_id client_type =
      let ends = Ended c id t s in
      let ask = λ (kind : String) (lead : Lead). convert_for_client w c id t client_id kind lead in
      let scoped = λ (kind : String) (lead : Lead) (scope : DataScope).
        fail_if (not (lead_matches_scope scope (some lead))) forbidden >> ask kind lead in
      let own = λ (kind : String) (lead : Lead) (scope : DataScope).
        fail_if (foreign_to_sales c lead) forbidden >> scoped kind lead scope in
      let resolve = λ (kind : String) (lead : Lead).
        lift (resolve_lead_scope c.user_id c.role_id c.repo) >>= own kind lead in
      let read = λ (kind : String). (λ u. (lead_of c id u, u)) >>= resolve kind in
      let typed = lift (normalize_required_deal_client_type client_type) >>= read in
      let third = fail_if (client_id == 0) client_id_required >> typed in
      let second = fail_if (is_empty (trim_space t.currency)) currency_required >> third in
      let first = fail_if (at_most_zero t.amount) amount_invalid >> second in
      ends_after ends (fail_if (is_read_only c.role_id) read_only) (λ v. first) s refl
        (λ e. refused e refl)
        (λ v may.
          ends_after ends (fail_if (at_most_zero t.amount) amount_invalid) (λ v. second) s refl
            (λ e. refused e refl)
            (λ v more.
              ends_after ends (fail_if (is_empty (trim_space t.currency)) currency_required)
                (λ v. third) s refl (λ e. refused e refl)
                (λ v money.
                  ends_after ends (fail_if (client_id == 0) client_id_required) (λ v. typed) s refl
                    (λ e. refused e refl)
                    (λ v given.
                      ends_after ends (lift (normalize_required_deal_client_type client_type)) read
                        s refl (λ e. refused e refl)
                        (λ kind is.
                          ends_after ends (λ u. (lead_of c id u, u)) (resolve kind) s refl
                            (λ e. refused e refl)
                            (λ lead found.
                              ends_after ends (lift (resolve_lead_scope c.user_id c.role_id c.repo))
                                (own kind lead) s refl (λ e. refused e refl)
                                (λ scope resolved.
                                  ends_after ends (fail_if (foreign_to_sales c lead) forbidden)
                                    (λ v. scoped kind lead scope) s refl (λ e. refused e refl)
                                    (λ v mine.
                                      ends_after ends
                                        (fail_if (not (lead_matches_scope scope (some lead)))
                                          forbidden)
                                        (λ v. ask kind lead) s refl (λ e. refused e refl)
                                        (λ v fits.
                                          convert_for_client-Ended client_id kind lead scope
                                            (lead_of-found c id s found) resolved
                                            (accepted_if (
                                              passed (not (lead_matches_scope scope (some lead)))
                                                forbidden s fits)))))))))))

  pub convert_with_data-Ended :
      (given : Option ClientData)
      → Ended c id t s (convert_lead_to_deal_with_client_data w c id t given s)
  unfolding convert_lead_to_deal_with_client_data
  convert_with_data-Ended given =
      let ends = Ended c id t s in
      let convert =
        λ (kind : String) (client : Client). convert_lead_to_deal w c id t client.id kind in
      let asked = λ (d : ClientData) (kind : String) (svc : ClientSvc).
        lift (present (svc.get_or_create_by_bin (filled_data t kind d))) >>= convert kind in
      let ready =
        λ (d : ClientData) (kind : String). lift (configured w.client_svc) >>= asked d kind in
      let typed =
        λ (d : ClientData). lift (normalize_required_deal_client_type d.client_type) >>= ready d in
      let third = lift (given_data given) >>= typed in
      let second = fail_if (is_empty (trim_space t.currency)) currency_required >> third in
      let first = fail_if (at_most_zero t.amount) amount_invalid >> second in
      ends_after ends (fail_if (is_read_only c.role_id) read_only) (λ v. first) s refl
        (λ e. refused e refl)
        (λ v may.
          ends_after ends (fail_if (at_most_zero t.amount) amount_invalid) (λ v. second) s refl
            (λ e. refused e refl)
            (λ v more.
              ends_after ends (fail_if (is_empty (trim_space t.currency)) currency_required)
                (λ v. third) s refl (λ e. refused e refl)
                (λ v money.
                  ends_after ends (lift (given_data given)) typed s refl (λ e. refused e refl)
                    (λ d there.
                      ends_after ends (lift (normalize_required_deal_client_type d.client_type))
                        (ready d) s refl (λ e. refused e refl)
                        (λ kind is.
                          ends_after ends (lift (configured w.client_svc)) (asked d kind) s refl
                            (λ e. refused e refl)
                            (λ svc up.
                              ends_after ends
                                (lift (present (svc.get_or_create_by_bin (filled_data t kind d))))
                                (convert kind) s refl (λ e. refused e refl)
                                (λ client known. convert-Ended client.id kind)))))))
