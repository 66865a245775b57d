-- ===== src/Leads.antt =====
-- Leads: the table and its queries (internal/repositories/lead_repository.go), the statuses
-- (internal/services/status_transitions_service.go), and the service (lead_service.go).
pub mod Rows
pub mod Transitions
pub mod Listing
pub mod Visible
pub mod Service
pub mod Conversion
pub mod Converting
pub mod Converts
pub mod NewDeals
pub mod Outcomes
pub mod Requests
pub mod Branches
pub mod Guards
pub mod Table
mod Examples
