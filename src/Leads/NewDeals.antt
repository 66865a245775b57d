-- ===== src/Leads/NewDeals.antt =====
-- The deal that ConvertLeadToDeal of internal/services/lead_service.go makes.
use kub.Base.{ℕ, String, true, none, some, Result, ok, ◌≡◌, sym, ap, ◌∙◌, arith}
use kub.Models.Leads.{Lead}
use kub.DataScope.{DataScope, resolve_lead_scope, lead_matches_scope}
use kub.Leads.Rows.{LeadRow, scan_lead, active_only, normalize_lead_status}
use kub.Leads.Table.{LeadDeal, LeadStore, row_of, find_lead}
use kub.Leads.Service.{Call}
use kub.Leads.Converting.{stays, already, made}
use kub.Leads.Conversion.{World, Terms, mark_converted, deal_of, insert_deal, convert_lead_to_deal}
use kub.Leads.Rows.{scan_lead}
use kub.Leads.Converts.{Ended, refused, settled, convert-Ended}

find_lead-status :
    (id : ℕ) (s : LeadStore) {lead : Lead} {r : LeadRow}
    → find_lead active_only id s ≡ some lead
    → row_of id s.rows ≡ some r
    → lead.status ≡ normalize_lead_status r.status
unfolding find_lead scan_lead
find_lead-status id s {lead} {r} found row = ground arith

-- A lead that was converted: confirmed, in the caller's scope and without a deal; the deal that comes
-- back has the lead's branch, and is the one that was added as the lead was marked.
abbrev pub Made : Call → ℕ → LeadStore → LeadDeal → LeadStore → Type 0
Made c id s d s' =
    (lead : Lead) × (scope : DataScope) × (find_lead active_only id s ≡ some lead)
    × (resolve_lead_scope c.user_id c.role_id c.repo ≡ ok scope)
    × (lead_matches_scope scope (some lead) ≡ true)
    × (lead.status ≡ "confirmed")
    × (deal_of id s ≡ none)
    × (d.lead_id ≡ id)
    × (d.branch_id ≡ lead.branch_id)
    × (s' ≡ insert_deal d (mark_converted id s))

Ended-Made :
    {c : Call} {id : ℕ} {t : Terms} {s : LeadStore} {m : Result LeadDeal × LeadStore} {d : LeadDeal}
    → Ended c id t s m
    → m.0 ≡ ok d
    → Made c id s d m.1
Ended-Made (refused e done) h = absurd (ground (arith, done, h))
Ended-Made (settled lead scope client found resolved accepted (stays e done)) h =
    absurd (ground (arith, done, h))
Ended-Made (settled lead scope client found resolved accepted (already done)) h =
    absurd (ground (arith, done, h))
Ended-Made {c} {id} {t} {s} {m} {d}
      (settled lead scope client found resolved accepted (made r deal here ready fresh is done)) h =
    let same : deal ≡ d = ground (arith, done, h) in
    let built = sym same ∙ is in
    (
      lead,
      scope,
      found,
      resolved,
      accepted,
      find_lead-status id s found here ∙ ready,
      fresh,
      ap (λ (x : LeadDeal). x.lead_id) built,
      ap (λ (x : LeadDeal). x.branch_id) built,
      ap (λ (p : Result LeadDeal × LeadStore). p.1) done
          ∙ ap (λ x. insert_deal x (mark_converted id s)) same,
    )

-- ConvertLeadToDeal that succeeds has found a confirmed lead without a deal in the caller's scope,
-- gives back a deal of that lead and of its branch, and leaves that one deal added and the lead
-- converted.
pub convert_makes_deal :
    (w : World) (c : Call) (id : ℕ) (t : Terms) (client : ℕ) (kind : String) (s : LeadStore)
    {d : LeadDeal}
    → (convert_lead_to_deal w c id t client kind s).0 ≡ ok d
    → Made c id s d (convert_lead_to_deal w c id t client kind s).1
convert_makes_deal w c id t client kind s h = Ended-Made (convert-Ended w c id t s client kind) h
