-- ===== src/Codegen/Scaffold/Sources.antt =====
-- The bodies of a new project's files, in crates/subdex-codegen/src/scaffold.rs.
use subdex.Prelude.{String, [], ◌∷◌}
use subdex.Codegen.Text.{concat}

abbrev pub repo_git : String
repo_git = "https://github.com/kunal171/subdex"

unfoldable pub cargo_toml : String → String
cargo_toml name = concat (
    "[package]\n" ∷ "name = \"" ∷ name ∷ "\"\n" ∷ "version = \"0.1.0\"\n" ∷ "edition = \"2021\"\n"
    ∷ "\n" ∷ "[[bin]]\n" ∷ "name = \"" ∷ name ∷ "\"\n" ∷ "path = \"src/main.rs\"\n" ∷ "\n"
    ∷ "[dependencies]\n"
    ∷ "# The subdex framework crates (pinned to the repo; swap for a crates.io version\n"
    ∷ "# once published).\n" ∷ "subdex = { git = \"" ∷ repo_git ∷ "\" }\n"
    ∷ "subdex-source = { git = \"" ∷ repo_git ∷ "\" }\n" ∷ "subdex-store = { git = \"" ∷ repo_git
    ∷ "\" }\n" ∷ "subdex-graphql = { git = \"" ∷ repo_git ∷ "\" }\n" ∷ "subdex-config = { git = \""
    ∷ repo_git ∷ "\" }\n" ∷ "\n" ∷ "async-graphql = \"7\"\n" ∷ "async-trait = \"0.1\"\n"
    ∷ "tokio = { version = \"1\", features = [\"full\"] }\n"
    ∷ "sqlx = { version = \"0.9\", features = [\"runtime-tokio\", \"tls-rustls\", \"postgres\"] }\n"
    ∷ "tracing = \"0.1\"\n"
    ∷ "tracing-subscriber = { version = \"0.3\", features = [\"env-filter\"] }\n"
    ∷ "anyhow = \"1\"\n" ∷ [])

abbrev pub lib_rs : String
lib_rs = concat (
    "//! Your indexer's library crate: the handler(s) and (once you run\n"
    ∷ "//! `subdex-codegen generate`) the generated `entities` / `graphql` modules.\n" ∷ "\n"
    ∷ "pub mod handler;\n" ∷ "pub use handler::MyHandler;\n" ∷ [])

abbrev pub handler_rs : String
handler_rs = concat (
    "//! Your handler: turn decoded blocks into rows in your own tables.\n" ∷ "//!\n"
    ∷ "//! Fill in `init` (create your tables) and `process_block` (write rows). The\n"
    ∷ "//! writes use the transaction the processor hands you, so they commit atomically\n"
    ∷ "//! with the indexer cursor — a crash never half-applies a block.\n" ∷ "//!\n"
    ∷ "//! The `subdex_source::value` helpers (`field_u128`, `field_account_ss58`, …) pull\n"
    ∷ "//! typed fields out of an event's dynamic `fields` value.\n" ∷ "\n"
    ∷ "use async_trait::async_trait;\n"
    ∷ "use subdex::{Block, Handler, Result, Store, SubdexError};\n" ∷ "use subdex_store::PgStore;\n"
    ∷ "\n" ∷ "pub struct MyHandler;\n" ∷ "\n" ∷ "#[async_trait]\n"
    ∷ "impl Handler<PgStore> for MyHandler {\n"
    ∷ "    /// Create your tables once at startup (runs outside the per-block tx).\n"
    ∷ "    async fn init(&self, store: &PgStore) -> Result<()> {\n" ∷ "        sqlx::query(\n"
    ∷ "            \"CREATE TABLE IF NOT EXISTS events (\\\n"
    ∷ "                id            BIGSERIAL PRIMARY KEY, \\\n"
    ∷ "                block_height  BIGINT NOT NULL, \\\n"
    ∷ "                event_index   BIGINT NOT NULL, \\\n"
    ∷ "                pallet        TEXT   NOT NULL, \\\n"
    ∷ "                name          TEXT   NOT NULL, \\\n"
    ∷ "                UNIQUE (block_height, event_index))\",\n" ∷ "        )\n"
    ∷ "        .execute(store.pool())\n" ∷ "        .await\n"
    ∷ "        .map_err(|e| SubdexError::Handler(format!(\"create events table: {e}\")))?;\n"
    ∷ "        Ok(())\n" ∷ "    }\n" ∷ "\n"
    ∷ "    /// Called once per block, in order. Write your rows on `tx`.\n"
    ∷ "    async fn process_block<'a>(\n" ∷ "        &self,\n" ∷ "        block: &Block,\n"
    ∷ "        tx: &mut <PgStore as Store>::Tx<'a>,\n" ∷ "    ) -> Result<()> {\n"
    ∷ "        // Starter behavior: record one row per event so you can see data flowing.\n"
    ∷ "        // Replace this with your own event matching + `subdex_source::value` reads.\n"
    ∷ "        for ev in &block.events {\n" ∷ "            sqlx::query(\n"
    ∷ "                \"INSERT INTO events (block_height, event_index, pallet, name) \\\n"
    ∷ "                 VALUES ($1, $2, $3, $4) \\\n"
    ∷ "                 ON CONFLICT (block_height, event_index) DO NOTHING\",\n" ∷ "            )\n"
    ∷ "            .bind(block.id.number as i64)\n" ∷ "            .bind(ev.index as i64)\n"
    ∷ "            .bind(&ev.pallet)\n" ∷ "            .bind(&ev.name)\n"
    ∷ "            .execute(&mut **tx)\n" ∷ "            .await\n"
    ∷ "            .map_err(|e| SubdexError::Handler(format!(\"insert event: {e}\")))?;\n"
    ∷ "        }\n" ∷ "        Ok(())\n" ∷ "    }\n" ∷ "\n" ∷ "    fn name(&self) -> &str {\n"
    ∷ "        \"my_handler\"\n" ∷ "    }\n" ∷ "}\n" ∷ [])
