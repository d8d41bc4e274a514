-- ===== src/Core.antt =====
-- crates/subdex-core/src: the chain-agnostic data model, the errors, and the traits of the
-- pipeline (`Traits` has `DataSource`, `Store`, `Handler` and the observer's hooks).
pub mod Error
pub mod Types
pub mod Traits
pub mod Chain
pub mod StoreLaws
