-- ===== src/Settings/Overlay.antt =====
-- `overlay_env`: each variable over its field, and the variables that do not parse.
use subdex.Prelude.{String, Option, none, some, ◌≡◌, ◌≢◌, refl, sym, Option-cases, inl, inr}
use subdex.Settings.FromStr.{parse_bool}
use subdex.Settings.{
  ConfigError, IndexerConfig, Env, set_opt, parsed, or_kept, parse_u32, parse_usize, parse_u16,
  overlay_env,
}
use subdex.Settings.Ends.{Ends, Ends-bind}

-- The new content of a field: the variable's value, or the file's where there is no variable.
abbrev pub FromEnv :
    {T : Type 0} → (String → Option T) → Option String → Option T → Option T → Type 0
FromEnv from_str none slot new = new ≡ slot
FromEnv from_str (some raw) slot new = (new ≡ from_str raw) × (new ≢ none)

-- The variables that are parsed.
pub data Knob : Type 0 where
  batch_size concurrency ss58_prefix strict max_connections reorg_retention start_height
        max_reorg_depth :
      Knob

abbrev pub key_of : Knob → String
key_of Knob.batch_size = "BATCH_SIZE"
key_of Knob.concurrency = "CONCURRENCY"
key_of Knob.ss58_prefix = "SS58_PREFIX"
key_of Knob.strict = "STRICT"
key_of Knob.max_connections = "MAX_CONNECTIONS"
key_of Knob.reorg_retention = "REORG_RETENTION"
key_of Knob.start_height = "START_HEIGHT"
key_of Knob.max_reorg_depth = "MAX_REORG_DEPTH"

abbrev pub expected_of : Knob → String
expected_of Knob.concurrency = "usize"
expected_of Knob.ss58_prefix = "u16"
expected_of Knob.strict = "bool"
expected_of _ = "u32"

abbrev pub Rejects : Knob → String → Type 0
Rejects Knob.concurrency raw = parse_usize raw ≡ none
Rejects Knob.ss58_prefix raw = parse_u16 raw ≡ none
Rejects Knob.strict raw = parse_bool raw ≡ none
Rejects _ raw = parse_u32 raw ≡ none

-- The error names a variable that is set, its text, and the type that the text is not of.
pub record IsBadEnv (env : Env) (e : ConfigError) : Type 0 where
  pub knob : Knob
  pub raw : String
  pub is_set : env (key_of knob) ≡ some raw
  pub rejected : Rejects knob raw
  pub named : e ≡ ConfigError.bad_env (key_of knob) raw (expected_of knob)

-- Every field of the result.
pub record IsOverlaid (env : Env) (file cfg : IndexerConfig) : Type 0 where
  pub source_url : cfg.source.url ≡ or_kept (env "WS_URL") file.source.url
  pub store_url : cfg.store.url ≡ or_kept (env "DATABASE_URL") file.store.url
  pub batch_size : FromEnv parse_u32 (env "BATCH_SIZE") file.source.batch_size cfg.source.batch_size
  pub concurrency :
      FromEnv parse_usize (env "CONCURRENCY") file.source.concurrency cfg.source.concurrency
  pub ss58_prefix :
      FromEnv parse_u16 (env "SS58_PREFIX") file.source.ss58_prefix cfg.source.ss58_prefix
  pub strict : FromEnv parse_bool (env "STRICT") file.source.strict cfg.source.strict
  pub max_connections :
      FromEnv parse_u32 (env "MAX_CONNECTIONS") file.store.max_connections cfg.store.max_connections
  pub reorg_retention :
      FromEnv parse_u32 (env "REORG_RETENTION") file.store.reorg_retention cfg.store.reorg_retention
  pub start_height :
      FromEnv parse_u32 (env "START_HEIGHT") file.processor.start_height cfg.processor.start_height
  pub max_reorg_depth :
      FromEnv parse_u32
        (env "MAX_REORG_DEPTH")
        file.processor.max_reorg_depth
        cfg.processor.max_reorg_depth
  -- the file's own value wins here, also over the variable
  pub processor_batch_size :
      cfg.processor.batch_size ≡ or_kept file.processor.batch_size cfg.source.batch_size

module _ {T : Type 0} (F : ConfigError → Type 0) (from_str : String → Option T) where
  parsed-Ends :
      (key raw expected : String) (slot : Option T)
      → (from_str raw ≡ none → F (ConfigError.bad_env key raw expected))
      → Ends F (FromEnv from_str (some raw) slot) (parsed key raw expected (from_str raw))
  unfolding Ends parsed
  parsed-Ends key raw expected slot bad = elim (Option-cases (from_str raw)) [
    | inl e ↦ rw (e, parsed) (bad e)
    | inr (v, e) ↦ rw (e, parsed, Ends) (sym e, λ x. cc)
  ]

  set_opt-Ends :
      (slot : Option T) (env : Env) (key expected : String)
      → ((raw : String)
          → env key ≡ some raw
          → from_str raw ≡ none
          → F (ConfigError.bad_env key raw expected))
      → Ends F (FromEnv from_str (env key) slot) (set_opt from_str slot env key expected)
  unfolding set_opt Ends
  set_opt-Ends slot env key expected bad = elim (Option-cases (env key)) [
    | inl e ↦ rw (e, set_opt) refl
    | inr (raw, e) ↦ rw (e, set_opt) (parsed-Ends key raw expected slot (bad raw e))
  ]

pub overlay_env-Ends :
    (env : Env) (file : IndexerConfig)
    → Ends (IsBadEnv env) (IsOverlaid env file) (overlay_env env file)
unfolding overlay_env Ends
overlay_env-Ends env file =
    let F = IsBadEnv env in
    let Q = IsOverlaid env file in
    let bad : (k : Knob) (raw : String)
        → env (key_of k) ≡ some raw
        → Rejects k raw
        → F (ConfigError.bad_env (key_of k) raw (expected_of k)) =
      λ k raw s r. record { knob = k; raw = raw; is_set = s; rejected = r; named = refl } in
    Ends-bind F Q _ _ _ (set_opt-Ends F parse_u32 _ env _ _ (bad Knob.batch_size)) λ a₁ h₁.
      Ends-bind F Q _ _ _ (set_opt-Ends F parse_usize _ env _ _ (bad Knob.concurrency)) λ a₂ h₂.
        Ends-bind F Q _ _ _ (set_opt-Ends F parse_u16 _ env _ _ (bad Knob.ss58_prefix)) λ a₃ h₃.
          Ends-bind F Q _ _ _ (set_opt-Ends F parse_bool _ env _ _ (bad Knob.strict)) λ a₄ h₄.
            Ends-bind F Q _ _ _ (set_opt-Ends F parse_u32 _ env _ _ (bad Knob.max_connections))
              λ a₅ h₅.
                Ends-bind F Q _ _ _ (set_opt-Ends F parse_u32 _ env _ _ (bad Knob.reorg_retention))
                  λ a₆ h₆.
                    Ends-bind F Q _ _ _ (set_opt-Ends F parse_u32 _ env _ _ (bad Knob.start_height))
                      λ a₇ h₇.
                        Ends-bind F Q _ _ _
                          (set_opt-Ends F parse_u32 _ env _ _ (bad Knob.max_reorg_depth))
                          λ a₈ h₈. record {
                            source_url = refl;
                            store_url = refl;
                            batch_size = h₁;
                            concurrency = h₂;
                            ss58_prefix = h₃;
                            strict = h₄;
                            max_connections = h₅;
                            reorg_retention = h₆;
                            start_height = h₇;
                            max_reorg_depth = h₈;
                            processor_batch_size = refl;
                          }
