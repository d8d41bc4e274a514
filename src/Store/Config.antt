-- ===== src/Store/Config.antt =====
-- crates/subdex-store/src/config.rs: `StoreConfig` and its builders.
use subdex.Prelude.{ℕ, max, String}

pub record StoreConfig : Type 0 where
  pub url : String
  pub max_connections : ℕ
  pub reorg_retention : ℕ

abbrev pub new_store_config : String → StoreConfig
new_store_config url = record { url = url; max_connections = 5; reorg_retention = 5000 }

unfoldable pub with_max_connections : ℕ → StoreConfig → StoreConfig
with_max_connections n c = record c { max_connections = max n 1 }

abbrev pub with_reorg_retention : ℕ → StoreConfig → StoreConfig
with_reorg_retention blocks c = record c { reorg_retention = blocks }
