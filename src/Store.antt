-- ===== src/Store.antt =====
-- The stores: crates/subdex/src/testkit.rs (`MemStore`) and crates/subdex-store/src (`PgStore`).
pub mod Map
pub mod Config
pub mod Memory
pub mod Postgres
