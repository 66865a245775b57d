-- ===== src/Leads/Guards.antt =====
-- What the requests of the lead service keep: those of a read-only role, and those that fail.
use kub.Base.{
  Option, ◌⊎◌, deal_already_exists, ℕ, String, true, some, err, Error, Result, ◌≡◌, refl, inl, inr,
  arith, ◌∙◌,
}
use kub.Authz.Roles.{is_read_only, can_hard_delete_business_entity, can_archive_business_entity}
use kub.Models.Leads.{Lead}
use kub.Leads.Table.{LeadStore, LeadDeal}
use kub.Leads.Service.{
  Call, create, update, update_status, delete, archive_lead, unarchive_lead, assign_owner,
  get_by_id,
}
use kub.Leads.Conversion.{
  World, Terms, ClientData, mark_converted, convert_lead_to_deal,
  convert_lead_to_deal_with_client_data,
}
use kub.Leads.Converting.{stays, already, made}
use kub.Leads.Converts.{Ended, refused, settled, convert-Ended, convert_with_data-Ended}
use kub.Leads.Outcomes.{
  Outcome, kept, wrote, update-Outcome, update_status-Outcome, delete-Outcome, archive_lead-Outcome,
  unarchive_lead-Outcome,
}
use kub.Leads.Requests.{
  Request, create_lead, update_lead_fields, set_status, remove, archive_row, unarchive_row, assign,
  read_lead, convert, convert_with_data, converts, void, serve, void-store, get_by_id-store,
}

convert-read_only :
    (w : World) (c : Call) (id : ℕ) (t : Terms) (client : ℕ) (kind : String) (s : LeadStore)
    → is_read_only c.role_id ≡ true
    → (convert_lead_to_deal w c id t client kind s).1 ≡ s
unfolding convert_lead_to_deal
convert-read_only w c id t client kind s h = simp h refl

convert_with_data-read_only :
    (w : World) (c : Call) (id : ℕ) (t : Terms) (client : Option ClientData) (s : LeadStore)
    → is_read_only c.role_id ≡ true
    → (convert_lead_to_deal_with_client_data w c id t client s).1 ≡ s
unfolding convert_lead_to_deal_with_client_data
convert_with_data-read_only w c id t client s h = simp h refl

-- A read-only role changes no lead, whatever it asks for.
pub read_only_keeps_leads :
    (c : Call) (q : Request) (s : LeadStore) → is_read_only c.role_id ≡ true → (serve c q s).1 ≡ s
unfolding serve create update update_status delete archive_lead unarchive_lead assign_owner
    is_read_only can_hard_delete_business_entity can_archive_business_entity
read_only_keeps_leads c (create_lead lead) s h = ground arith
read_only_keeps_leads c (update_lead_fields lead) s h = ground arith
read_only_keeps_leads c (set_status id to) s h = ground arith
read_only_keeps_leads c (remove id) s h = ground arith
read_only_keeps_leads c (archive_row id reason) s h = ground arith
read_only_keeps_leads c (unarchive_row id) s h = ground arith
read_only_keeps_leads c (assign id who) s h = ground arith
read_only_keeps_leads c (read_lead scope id) s h =
    void-store (get_by_id c scope id s) ∙ get_by_id-store c scope id s
read_only_keeps_leads c (convert w id t client kind) s h =
    void-store (convert_lead_to_deal w c id t client kind s)
    ∙ convert-read_only w c id t client kind s h
read_only_keeps_leads c (convert_with_data w id t client) s h =
    void-store (convert_lead_to_deal_with_client_data w c id t client s)
    ∙ convert_with_data-read_only w c id t client s h

Outcome-failed :
    {c : Call} {id : ℕ} {s : LeadStore} {m : Result (Unit {0}) × LeadStore} {e : Error}
    → Outcome c id s m
    → m.0 ≡ err e
    → m.1 ≡ s
Outcome-failed (kept same) h = same
Outcome-failed (wrote archive w reached done others) h = absurd (ground (arith, done))

create-failed :
    (c : Call) (lead : Lead) (s : LeadStore) {e : Error}
    → (void (create c lead s)).0 ≡ err e
    → (void (create c lead s)).1 ≡ s
unfolding create
create-failed c lead s h = ground arith

assign_owner-failed :
    (c : Call) (id who : ℕ) (s : LeadStore) {e : Error}
    → (assign_owner c id who s).0 ≡ err e
    → (assign_owner c id who s).1 ≡ s
unfolding assign_owner
assign_owner-failed c id who s h = ground arith

-- How a request that ends in an error leaves the leads.
abbrev pub Unchanged : Request → LeadStore → Error → LeadStore → Type 0
Unchanged q s e s' =
    (s' ≡ s)
    ⊎ ((id : ℕ) × (converts q ≡ some id) × (e ≡ deal_already_exists) × (s' ≡ mark_converted id s))

Ended-failed :
    {c : Call} {id : ℕ} {t : Terms} {s : LeadStore} {m : Result LeadDeal × LeadStore} {e : Error}
    → Ended c id t s m
    → (void m).0 ≡ err e
    → ((void m).1 ≡ s) ⊎ ((e ≡ deal_already_exists) × ((void m).1 ≡ mark_converted id s))
Ended-failed (refused x done) h = inl (ground (arith, done))
Ended-failed (settled lead scope client found resolved accepted (stays x done)) h =
    inl (ground (arith, done))
Ended-failed (settled lead scope client found resolved accepted (already done)) h =
    inr (ground (arith, done, h), ground (arith, done))
Ended-failed (settled lead scope client found resolved accepted (made r d here ready fresh is done))
      h =
    absurd (ground (arith, done, h))

conversion-failed :
    (q : Request) {c : Call} {id : ℕ} {t : Terms} {s : LeadStore} {m : Result LeadDeal × LeadStore}
    {e : Error}
    → converts q ≡ some id
    → Ended c id t s m
    → (void m).0 ≡ err e
    → Unchanged q s e (void m).1
conversion-failed q {id = id} its ends h = elim (Ended-failed ends h) [
  | inl same ↦ inl same
  | inr (is, marked) ↦ inr (id, its, is, marked)
]

-- A request that ends in an error has changed no lead and added no deal, with one exception: a
-- conversion that answers that the lead has a deal already may have marked that lead as converted.
pub failed_request_keeps_leads :
    (c : Call) (q : Request) (s : LeadStore) {e : Error}
    → (serve c q s).0 ≡ err e
    → Unchanged q s e (serve c q s).1
unfolding serve
failed_request_keeps_leads c (create_lead lead) s h = inl (create-failed c lead s h)
failed_request_keeps_leads c (update_lead_fields lead) s h =
    inl (Outcome-failed (update-Outcome c lead s) h)
failed_request_keeps_leads c (set_status id to) s h =
    inl (Outcome-failed (update_status-Outcome c id to s) h)
failed_request_keeps_leads c (remove id) s h = inl (Outcome-failed (delete-Outcome c id s) h)
failed_request_keeps_leads c (archive_row id reason) s h =
    inl (Outcome-failed (archive_lead-Outcome c id reason s) h)
failed_request_keeps_leads c (unarchive_row id) s h =
    inl (Outcome-failed (unarchive_lead-Outcome c id s) h)
failed_request_keeps_leads c (assign id who) s h = inl (assign_owner-failed c id who s h)
failed_request_keeps_leads c (read_lead scope id) s h =
    inl (void-store (get_by_id c scope id s) ∙ get_by_id-store c scope id s)
failed_request_keeps_leads c (convert w id t client kind) s h =
    conversion-failed (convert w id t client kind) refl (convert-Ended w c id t s client kind) h
failed_request_keeps_leads c (convert_with_data w id t client) s h =
    conversion-failed (convert_with_data w id t client) refl
      (convert_with_data-Ended w c id t s client) h
