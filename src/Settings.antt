-- ===== src/Settings.antt =====
-- crates/subdex-config/src/lib.rs: the configuration file with the environment laid over it. The file
-- system and the TOML parser are parameters of `load_from`, and so is the environment; an `expect` that
-- panics is `none`.
pub mod FromStr
pub mod Ends
pub mod Overlay
pub mod Loads
pub mod Builds
use subdex.Prelude.{
  Attempt, ℕ, String, ◌<>◌, Bool, not, ◌&&◌, Option, none, some, ltb, ◌==◌, if◌then◌else◌, decimal,
  u32_max, u64_max, ◌^◌, ◌-◌,
}
use subdex.Settings.FromStr.{parse_uint, parse_bool}
use subdex.Source.Config.{
  SourceConfig, new, with_batch_size as with_source_batch_size, with_concurrency, with_ss58_prefix,
  with_strict,
}
use subdex.Store.Config.{StoreConfig, new_store_config, with_max_connections, with_reorg_retention}
use subdex.Processor.{ProcessorConfig}
use subdex.Processor.Config.{from_height, with_batch_size, with_max_reorg_depth}

pub data ConfigError : Type 0 where
  read parse : String → String → ConfigError
  bad_env missing : String → String → String → ConfigError
  invalid : String → String → ConfigError

pub data ConfigResult {ℓ} (A : Type ℓ) : Type ℓ where
  ok : A → ConfigResult A
  err : ConfigError → ConfigResult A

module _ {A B : Type 0} where
  infixl 5 ◌>>=◌
  unfoldable pub ◌>>=◌ : ConfigResult A → (A → ConfigResult B) → ConfigResult B
  ConfigResult.ok a >>= f = f a
  ConfigResult.err e >>= f = ConfigResult.err e

pub record SourceSection : Type 0 where
  pub url : Option String
  pub batch_size : Option ℕ
  pub concurrency : Option ℕ
  pub ss58_prefix : Option ℕ
  pub strict : Option Bool

pub record StoreSection : Type 0 where
  pub url : Option String
  pub max_connections : Option ℕ
  pub reorg_retention : Option ℕ

pub record ProcessorSection : Type 0 where
  pub start_height : Option ℕ
  pub batch_size : Option ℕ
  pub max_reorg_depth : Option ℕ

pub record IndexerConfig : Type 0 where
  pub source : SourceSection
  pub store : StoreSection
  pub processor : ProcessorSection

abbrev pub empty_config : IndexerConfig
empty_config = record {
  source = record {
    url = none;
    batch_size = none;
    concurrency = none;
    ss58_prefix = none;
    strict = none;
  };
  store = record { url = none; max_connections = none; reorg_retention = none };
  processor = record { start_height = none; batch_size = none; max_reorg_depth = none };
}

abbrev pub Env : Type 0
Env = String → Option String

-- `raw.parse::<T>().map_err(…)?`, with the text that was read.
unfoldable pub parsed : {T : Type 0} → String → String → String → Option T → ConfigResult (Option T)
parsed key raw expected none = ConfigResult.err (ConfigError.bad_env key raw expected)
parsed key raw expected (some v) = ConfigResult.ok (some v)

-- The new content of the slot.
unfoldable pub set_opt :
    {T : Type 0} → (String → Option T) → Option T → Env → String → String → ConfigResult (Option T)
set_opt from_str slot env key expected = elim (env key) [
  | none ↦ ConfigResult.ok slot
  | some raw ↦ parsed key raw expected (from_str raw)
]

-- `if let Some(v) = env(key) { slot = Some(v) }`
unfoldable pub or_kept : {A : Type 0} → Option A → Option A → Option A
or_kept none kept = kept
or_kept (some v) kept = some v

abbrev pub parse_u32 : String → Option ℕ
parse_u32 = parse_uint u32_max

abbrev pub parse_usize : String → Option ℕ
parse_usize = parse_uint u64_max

abbrev pub parse_u16 : String → Option ℕ
parse_u16 = parse_uint (2 ^ 16 - 1)

unfoldable pub overlay_env : Env → IndexerConfig → ConfigResult IndexerConfig
overlay_env env cfg = do
  batch_size ← set_opt parse_u32 cfg.source.batch_size env "BATCH_SIZE" "u32"
  concurrency ← set_opt parse_usize cfg.source.concurrency env "CONCURRENCY" "usize"
  ss58_prefix ← set_opt parse_u16 cfg.source.ss58_prefix env "SS58_PREFIX" "u16"
  strict ← set_opt parse_bool cfg.source.strict env "STRICT" "bool"
  max_connections ← set_opt parse_u32 cfg.store.max_connections env "MAX_CONNECTIONS" "u32"
  reorg_retention ← set_opt parse_u32 cfg.store.reorg_retention env "REORG_RETENTION" "u32"
  start_height ← set_opt parse_u32 cfg.processor.start_height env "START_HEIGHT" "u32"
  max_reorg_depth ← set_opt parse_u32 cfg.processor.max_reorg_depth env "MAX_REORG_DEPTH" "u32"
  ConfigResult.ok (record {
    source = record {
      url = or_kept (env "WS_URL") cfg.source.url;
      batch_size = batch_size;
      concurrency = concurrency;
      ss58_prefix = ss58_prefix;
      strict = strict;
    };
    store = record {
      url = or_kept (env "DATABASE_URL") cfg.store.url;
      max_connections = max_connections;
      reorg_retention = reorg_retention;
    };
    processor = record {
      start_height = start_height;
      batch_size = or_kept cfg.processor.batch_size batch_size;
      max_reorg_depth = max_reorg_depth;
    };
  })

unfoldable pub unwrap_or : ℕ → Option ℕ → ℕ
unwrap_or other none = other
unwrap_or other (some n) = n

-- The check of the window, given both values.
unfoldable pub check_retention : ℕ → ℕ → ConfigResult (Unit {0})
check_retention retention depth =
    if not (retention == 0) && ltb retention depth
    then ConfigResult.err (
        ConfigError.invalid "store.reorg_retention" (
          "must be >= processor.max_reorg_depth ("
          <> (decimal depth
              <> (") so a reorg's fork point stays in the table, or 0 to disable pruning; got "
                  <> decimal retention))))
    else ConfigResult.ok tt

unfoldable pub require : Option String → ConfigError → ConfigResult (Unit {0})
require none e = ConfigResult.err e
require (some url) e = ConfigResult.ok tt

unfoldable pub validate : IndexerConfig → ConfigResult (Unit {0})
validate cfg = do
  url ← require cfg.source.url (ConfigError.missing "source.url" "WS_URL" "source")
  store_url ← require cfg.store.url (ConfigError.missing "store.url" "DATABASE_URL" "store")
  check_retention (unwrap_or 5000 cfg.store.reorg_retention)
      (unwrap_or 64 cfg.processor.max_reorg_depth)

unfoldable pub attempted : {A : Type 0} → (String → ConfigError) → Attempt A → ConfigResult A
attempted f (Attempt.got a) = ConfigResult.ok a
attempted f (Attempt.lost e) = ConfigResult.err (f e)

module _ (read_to_string : String → Attempt String)
    (from_toml : String → Attempt IndexerConfig) where
  unfoldable pub read_file : Option String → ConfigResult IndexerConfig
  read_file none = ConfigResult.ok empty_config
  read_file (some path) = attempted (ConfigError.read path) (read_to_string path) >>= λ text.
      attempted (ConfigError.parse path) (from_toml text)

  unfoldable pub load_from : Option String → Env → ConfigResult IndexerConfig
  load_from path env = do
    file ← read_file path
    cfg ← overlay_env env file
    valid ← validate cfg
    ConfigResult.ok cfg

-- `if let Some(v) = field { c = c.with_field(v) }`
unfoldable pub when_some : {A C : Type 0} → Option A → (A → C → C) → C → C
when_some none set c = c
when_some (some v) set c = set v c

unfoldable pub source_config : IndexerConfig → Option SourceConfig
source_config cfg = elim cfg.source.url [
  | none ↦ none
  | some url ↦ some (
      when_some cfg.source.strict with_strict (
        when_some cfg.source.ss58_prefix with_ss58_prefix (
          when_some cfg.source.concurrency with_concurrency
            (when_some cfg.source.batch_size with_source_batch_size (new url)))))
]

unfoldable pub store_config : IndexerConfig → Option StoreConfig
store_config cfg = elim cfg.store.url [
  | none ↦ none
  | some url ↦ some (
      when_some cfg.store.reorg_retention with_reorg_retention
        (when_some cfg.store.max_connections with_max_connections (new_store_config url)))
]

unfoldable pub processor_config : IndexerConfig → ProcessorConfig
processor_config cfg = when_some cfg.processor.max_reorg_depth with_max_reorg_depth (
    when_some cfg.processor.batch_size with_batch_size
      (from_height (unwrap_or 0 cfg.processor.start_height)))
