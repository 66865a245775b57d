-- ===== src/Approvals.antt =====
-- internal/services/user_approval_service.go: a lawyer's or a personnel officer's request to create,
-- delete or change an account, which an administrator approves or rejects.
pub mod Table
pub mod Service
pub mod Effects
pub mod Resolution
mod Examples
