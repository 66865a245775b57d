-- ===== src/Funnels.antt =====
-- Funnels of deals, their stages and the rules between them:
-- internal/services/funnel_stage_service.go and funnel_transition_rule_service.go over
-- internal/repositories/funnel_stage_repository.go and funnel_transition_rule_repository.go.
pub mod Table
pub mod Service
pub mod StageSteps
pub mod RuleSteps
pub mod Deletion
mod Examples
pub mod Copies
pub mod Codes
pub mod Links
pub mod Requests
