-- ===== src/Codegen.antt =====
-- crates/subdex-codegen/src: the entity model of a schema, its names, the reading of a schema, what
-- is printed of it, a new project's files, and the command line.
pub mod Names
pub mod Model
pub mod Parse
pub mod Sql
pub mod Upsert
pub mod Text
pub mod Rust
pub mod Graphql
pub mod Scaffold
pub mod Files
pub mod Cli
