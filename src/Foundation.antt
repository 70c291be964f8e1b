-- ===== src/Foundation.antt =====
-- The checks of the repository and of the AWS organization, scripts/validate_foundation.py.
pub mod Suite
pub mod Repo
pub mod Terraform
pub mod Backend
pub mod Org
pub mod Services
pub mod Main
pub mod Keeps
pub mod Kept
pub mod Exit
pub mod Refused
mod Tests
