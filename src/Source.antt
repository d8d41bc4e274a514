-- ===== src/Source.antt =====
-- crates/subdex-source/src: the configuration, the retries, and the sources.
pub mod Config
pub mod Retry
pub mod Hybrid
pub mod Subxt
pub mod Ss58
pub mod Value
pub mod Sqd
