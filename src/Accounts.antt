-- ===== src/Accounts.antt =====
-- Accounts: the reset of a forgotten password and the verification of a new account.
pub mod Table
pub mod Reset
pub mod Owner
pub mod SingleUse
pub mod Verification
pub mod Requests
pub mod Confirmed
mod Examples
