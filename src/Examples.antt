-- ===== src/Examples.antt =====
-- Runs of the theorems at concrete inputs.
pub mod Data
mod Sharing
mod Shared
mod Generator
mod Texts
mod Accounts
mod Templates
mod Certificates
