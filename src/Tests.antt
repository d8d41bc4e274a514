-- ===== src/Tests.antt =====
-- Runs of the code on small inputs, and the theorems at concrete data.
mod Fixtures
mod Commits
mod Database
mod Deployed
mod Crashes
mod Reorgs
mod Sources
mod Schemas
mod Settings
mod Values
mod Portal
mod Node
mod Tips
mod Untils
mod Indexes
mod Health
mod Doubles
mod Upserts
mod Commands
mod Printers
mod Addresses
mod Backfills
