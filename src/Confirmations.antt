-- ===== src/Confirmations.antt =====
-- Confirmations of a signature by e-mail, text message or Telegram:
-- internal/services/document_signing_confirmation_service.go over
-- internal/repositories/signature_confirmation_repository.go.
pub mod Meta
pub mod Table
pub mod Service
pub mod Starting
pub mod Confirm
pub mod Opening
pub mod Requests
pub mod Finding
pub mod Codes
pub mod Answers
pub mod Pages
pub mod Serving
pub mod Begun
pub mod Polling
pub mod Lifecycle
pub mod Roundtrip
mod Examples
