-- ===== src/SignSessions.antt =====
-- Sign sessions: internal/services/sign_session_service.go over
-- internal/repositories/sign_session_repository.go.
pub mod Table
pub mod Service
pub mod Signing
pub mod Steps
pub mod Keys
pub mod Lifecycle
pub mod Guesses
pub mod Limits
mod Examples
