-- ===== src/Leads/Requests.antt =====
-- The requests of internal/services/lead_service.go.
use kub.Base.{Option, none, ℕ, String, some, ok, err, Result, ◌≡◌, refl, arith}
use kub.Models.Leads.{Lead}
use kub.Leads.Rows.{ArchiveScope}
use kub.Leads.Table.{LeadStore}
use kub.Leads.Service.{
  Call, Leads, create, update, update_status, delete, archive_lead, unarchive_lead, assign_owner,
  get_by_id,
}
use kub.Leads.Conversion.{
  World, Terms, ClientData, convert_lead_to_deal, convert_lead_to_deal_with_client_data,
}

-- The requests that the routes of a lead make of the service; a conversion stands with what the
-- service of clients and the database do during it.
pub data Request : Type 0 where
  create_lead update_lead_fields : Lead → Request
  set_status : ℕ → String → Request
  remove : ℕ → Request
  archive_row : ℕ → String → Request
  unarchive_row : ℕ → Request
  assign : ℕ → ℕ → Request
  read_lead : ArchiveScope → ℕ → Request
  convert : World → ℕ → Terms → ℕ → String → Request
  convert_with_data : World → ℕ → Terms → Option ClientData → Request

abbrev pub void {ℓ} : {A : Type ℓ} → Result A × LeadStore → Result (Unit {0}) × LeadStore
void (ok a, s) = (ok tt, s)
void (err e, s) = (err e, s)

unfoldable pub serve : Call → Request → Leads (Unit {0})
serve c (create_lead lead) s = void (create c lead s)
serve c (update_lead_fields lead) s = update c lead s
serve c (set_status id to) s = update_status c id to s
serve c (remove id) s = delete c id s
serve c (archive_row id reason) s = archive_lead c id reason s
serve c (unarchive_row id) s = unarchive_lead c id s
serve c (assign id who) s = assign_owner c id who s
serve c (read_lead scope id) s = void (get_by_id c scope id s)
serve c (convert w id t client kind) s = void (convert_lead_to_deal w c id t client kind s)
serve c (convert_with_data w id t client) s =
    void (convert_lead_to_deal_with_client_data w c id t client s)

-- The lead that a request converts.
abbrev pub converts : Request → Option ℕ
converts (convert w id t client kind) = some id
converts (convert_with_data w id t client) = some id
converts _ = none

pub void-store {ℓ} : {A : Type ℓ} (m : Result A × LeadStore) → (void m).1 ≡ m.1
void-store (ok a, s) = refl
void-store (err e, s) = refl

pub get_by_id-store :
    (c : Call) (scope : ArchiveScope) (id : ℕ) (s : LeadStore) → (get_by_id c scope id s).1 ≡ s
unfolding get_by_id
get_by_id-store c scope id s = ground arith
