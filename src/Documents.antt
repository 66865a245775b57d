-- ===== src/Documents.antt =====
-- Documents of deals: internal/services/document_service.go and document_registry.go over
-- internal/repositories/document_repository.go.
pub mod Table
pub mod Access
pub mod Service
pub mod Files
pub mod Requests
pub mod Reach
pub mod Effects
pub mod Serving
pub mod Lifecycle
pub mod Reading
pub mod Fences
pub mod Pages
pub mod Runs
mod Examples
