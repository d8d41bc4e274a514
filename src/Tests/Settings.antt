-- ===== src/Tests/Settings.antt =====
-- A configuration file with two variables over it, and one that does not parse.
use subdex.Prelude.{Attempt, String, str_eq, none, some, if◌then◌else◌, ◌≡◌, refl}
use subdex.Settings.FromStr.{parse_uint, after_sign, some_digits, digits_value}
use subdex.Settings.{
  ConfigError, ConfigResult, ◌>>=◌, IndexerConfig, Env, parsed, set_opt, or_kept, overlay_env,
  unwrap_or, check_retention, require, validate, attempted, read_file, load_from, source_config,
  store_config, processor_config,
}
use subdex.Settings.Loads.{IsLoaded, IsCause, load_from-IsLoaded, load_from-IsCause}
use subdex.Settings.Builds.{IsFit, load_from-IsFit}
use subdex.Source.Config.{SourceConfig}
use subdex.Store.Config.{StoreConfig}

-- What the file `subdex.toml` holds.
abbrev file : IndexerConfig
file = record {
  source = record {
    url = some "wss://node:9944";
    batch_size = some 50;
    concurrency = none;
    ss58_prefix = none;
    strict = none;
  };
  store = record { url = none; max_connections = none; reorg_retention = some 900 };
  processor = record { start_height = some 7; batch_size = none; max_reorg_depth = none };
}

abbrev read_text : String → Attempt String
read_text path = Attempt.got "text"

abbrev read_toml : String → Attempt IndexerConfig
read_toml text = Attempt.got file

abbrev env : String → Env
env batch key =
    if str_eq key "DATABASE_URL"
    then some "postgres://localhost/subdex"
    else if str_eq key "BATCH_SIZE"
    then some batch
    else none

abbrev loaded : IndexerConfig
loaded = record {
  source = record {
    url = some "wss://node:9944";
    batch_size = some 20;
    concurrency = none;
    ss58_prefix = none;
    strict = none;
  };
  store = record {
    url = some "postgres://localhost/subdex";
    max_connections = none;
    reorg_retention = some 900;
  };
  processor = record { start_height = some 7; batch_size = some 20; max_reorg_depth = none };
}

loads : load_from read_text read_toml (some "subdex.toml") (env "20") ≡ ConfigResult.ok loaded
unfolding load_from read_file attempted overlay_env set_opt parsed ◌>>=◌ or_kept validate require
    check_retention unwrap_or parse_uint after_sign some_digits digits_value
loads = refl

fails :
    load_from read_text read_toml (some "subdex.toml") (env "many")
    ≡ ConfigResult.err (ConfigError.bad_env "BATCH_SIZE" "many" "u32")
unfolding load_from read_file attempted overlay_env set_opt parsed ◌>>=◌ parse_uint after_sign
    some_digits digits_value
fails = refl

load_from-IsLoaded_example : IsLoaded read_text read_toml (some "subdex.toml") (env "20") loaded
load_from-IsLoaded_example =
    load_from-IsLoaded read_text read_toml (env "20") (some "subdex.toml") loaded loads

load_from-IsCause_example :
    IsCause read_text read_toml
      (some "subdex.toml")
      (env "many")
      (ConfigError.bad_env "BATCH_SIZE" "many" "u32")
load_from-IsCause_example =
    load_from-IsCause read_text read_toml (env "many") (some "subdex.toml")
      (ConfigError.bad_env "BATCH_SIZE" "many" "u32") fails

load_from-IsFit_example :
    (s : SourceConfig) × (t : StoreConfig) × (source_config loaded ≡ some s)
    × (store_config loaded ≡ some t)
    × IsFit s t (processor_config loaded)
load_from-IsFit_example =
    load_from-IsFit read_text read_toml (env "20") (some "subdex.toml") loaded loads
