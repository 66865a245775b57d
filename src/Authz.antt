-- ===== src/Authz.antt =====
-- internal/authz: who may do what. Roles and their tests, the ranks of scopes, the table of
-- permissions, and what the tables promise together.
pub mod Roles
pub mod Scopes
pub mod Permissions
pub mod Matrix
pub mod Separation
pub mod Effective
mod Examples
