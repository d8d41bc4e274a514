-- ===== src/Settings/Loads.antt =====
-- `load_from` as a whole, and the configurations that are built of what it loads.
use subdex.Prelude.{
  Attempt, ℕ, ◌≤◌, ◌<◌, ◌≢◌, String, Option, none, some, ltb, ◌==◌, ◌≡◌, refl, ◌⊎◌, inl, inr, arith,
  Bool-cases,
}
use subdex.Settings.{
  ConfigError, ConfigResult, IndexerConfig, Env, unwrap_or, check_retention, require, validate,
  attempted, read_file, load_from,
}
use subdex.Settings.Ends.{Ends, Ends-ok, Ends-err, Ends-bind, Ends-self, Ends-map, Ends-any}
use subdex.Settings.Overlay.{IsOverlaid, IsBadEnv, overlay_env-Ends}

abbrev pub retention_of : IndexerConfig → ℕ
retention_of cfg = unwrap_or 5000 cfg.store.reorg_retention

abbrev pub depth_of : IndexerConfig → ℕ
depth_of cfg = unwrap_or 64 cfg.processor.max_reorg_depth

pub record IsValid (cfg : IndexerConfig) : Type 0 where
  pub source_url : cfg.source.url ≢ none
  pub store_url : cfg.store.url ≢ none
  pub retained : (retention_of cfg ≡ 0) ⊎ (depth_of cfg ≤ retention_of cfg)

-- Why `validate` refuses a configuration, and with which error.
pub data IsRefused (cfg : IndexerConfig) (e : ConfigError) : Type 0 where
  no_source_url :
      cfg.source.url ≡ none
      → e ≡ ConfigError.missing "source.url" "WS_URL" "source"
      → IsRefused cfg e
  no_store_url :
      cfg.store.url ≡ none
      → e ≡ ConfigError.missing "store.url" "DATABASE_URL" "store"
      → IsRefused cfg e
  small_window :
      (reason : String)
      → retention_of cfg ≢ 0
      → retention_of cfg < depth_of cfg
      → e ≡ ConfigError.invalid "store.reorg_retention" reason
      → IsRefused cfg e

require-Ends :
    (F : ConfigError → Type 0) (url : Option String) (e : ConfigError)
    → (url ≡ none → F e)
    → Ends F (λ _. url ≢ none) (require url e)
unfolding Ends require
require-Ends F none e bad = bad refl
require-Ends F (some u) e bad = λ x. cc

check_retention-Ends :
    (F : ConfigError → Type 0) (Q : Unit {0} → Type 0) (retention depth : ℕ)
    → ((reason : String)
        → retention ≢ 0
        → retention < depth
        → F (ConfigError.invalid "store.reorg_retention" reason))
    → ((retention ≡ 0) ⊎ (depth ≤ retention) → Q tt)
    → Ends F Q (check_retention retention depth)
unfolding Ends check_retention
check_retention-Ends F Q retention depth bad good = elim (Bool-cases (retention == 0)) [
  | inl z ↦ rw z (good (inl (ground arith)))
  | inr z ↦ rw z (elim (Bool-cases (ltb retention depth)) [
    | inl b ↦ rw b (bad _ (ground arith) (ground arith))
    | inr b ↦ rw b (good (inr (ground arith)))
  ])
]

validate-Ends : (cfg : IndexerConfig) → Ends (IsRefused cfg) (λ _. IsValid cfg) (validate cfg)
unfolding validate
validate-Ends cfg =
    let F = IsRefused cfg in
    let Q : Unit {0} → Type 0 = λ _. IsValid cfg in
    Ends-bind F Q (λ _. cfg.source.url ≢ none) _ _
      (require-Ends F cfg.source.url _ (λ n. no_source_url n refl))
      λ _ u.
        Ends-bind F Q (λ _. cfg.store.url ≢ none) _ _
          (require-Ends F cfg.store.url _ (λ n. no_store_url n refl))
          λ _ v.
            check_retention-Ends F Q (retention_of cfg) (depth_of cfg)
              (λ reason z lt. small_window reason z lt refl)
              (λ k. record { source_url = u; store_url = v; retained = k })

module _ (read_to_string : String → Attempt String) (from_toml : String → Attempt IndexerConfig)
    (path : Option String) (env : Env) where
  -- What is loaded: the file, or nothing, with the environment over it.
  pub record IsLoaded (cfg : IndexerConfig) : Type 0 where
    pub file : IndexerConfig
    pub from_file : read_file read_to_string from_toml path ≡ ConfigResult.ok file
    pub overlaid : IsOverlaid env file cfg
    pub valid : IsValid cfg

  -- Each way to fail, and the error that tells of it.
  pub data IsCause (e : ConfigError) : Type 0 where
    unreadable :
        (p m : String)
        → path ≡ some p
        → read_to_string p ≡ Attempt.lost m
        → e ≡ ConfigError.read p m
        → IsCause e
    unparsable :
        (p text m : String)
        → path ≡ some p
        → read_to_string p ≡ Attempt.got text
        → from_toml text ≡ Attempt.lost m
        → e ≡ ConfigError.parse p m
        → IsCause e
    bad_variable : IsBadEnv env e → IsCause e
    refused :
        (file cfg : IndexerConfig)
        → read_file read_to_string from_toml path ≡ ConfigResult.ok file
        → IsOverlaid env file cfg
        → IsRefused cfg e
        → IsCause e

attempted-Ends :
    {A : Type 0} (F : ConfigError → Type 0) (f : String → ConfigError) (a : Attempt A)
    → ((m : String) → a ≡ Attempt.lost m → F (f m))
    → Ends F (λ x. a ≡ Attempt.got x) (attempted f a)
unfolding Ends attempted
attempted-Ends F f (Attempt.got x) bad = refl
attempted-Ends F f (Attempt.lost m) bad = bad m refl

module _ (read_to_string : String → Attempt String) (from_toml : String → Attempt IndexerConfig)
    (env : Env) where
  read_file-Ends :
      (path : Option String)
      → Ends
          (IsCause read_to_string from_toml path env)
          (λ _. Unit {0})
          (read_file read_to_string from_toml path)
  unfolding read_file Ends
  read_file-Ends none = tt
  read_file-Ends (some p) =
      let F = IsCause read_to_string from_toml (some p) env in
      Ends-bind F (λ _. Unit {0}) (λ text. read_to_string p ≡ Attempt.got text) _ _
        (attempted-Ends F (ConfigError.read p) (read_to_string p)
          (λ m e. unreadable p m refl e refl))
        λ text got. Ends-any F _ _ (
          attempted-Ends F (ConfigError.parse p) (from_toml text)
            (λ m e. unparsable p text m refl got e refl))

  kept :
      (path : Option String) (file cfg : IndexerConfig)
      → read_file read_to_string from_toml path ≡ ConfigResult.ok file
      → IsOverlaid env file cfg
      → IsValid cfg
      → Ends
          (IsCause read_to_string from_toml path env)
          (IsLoaded read_to_string from_toml path env)
          (ConfigResult.ok cfg)
  unfolding Ends
  kept path file cfg r o v = record { file = file; from_file = r; overlaid = o; valid = v }

  load_from-Ends :
      (path : Option String)
      → Ends
          (IsCause read_to_string from_toml path env)
          (IsLoaded read_to_string from_toml path env)
          (load_from read_to_string from_toml path env)
  unfolding load_from
  load_from-Ends path =
      let F = IsCause read_to_string from_toml path env in
      let Q = IsLoaded read_to_string from_toml path env in
      Ends-bind F Q _ _ _ (Ends-self F (λ _. Unit {0}) _ (read_file-Ends path)) λ file h.
        Ends-bind F Q (IsOverlaid env file) _ _
          (Ends-map (IsBadEnv env) (IsOverlaid env file) F _ (overlay_env-Ends env file)
            (λ e b. bad_variable b))
          λ cfg o.
            Ends-bind F Q (λ _. IsValid cfg) _ _
              (Ends-map (IsRefused cfg) (λ _. IsValid cfg) F _ (validate-Ends cfg)
                (λ e r. refused file cfg h.0 o r))
              λ _ v. kept path file cfg h.0 o v

  -- A configuration that `load_from` returns is that of the file, or an empty one without a path, with
  -- every variable that is set over its field, but for a batch size of the processor's own in the file;
  -- it has both URLs, and a window that is 0 or not below `max_reorg_depth` as a number (whose 0,
  -- documented as unlimited, is let through with every window).
  pub load_from-IsLoaded :
      (path : Option String) (cfg : IndexerConfig)
      → load_from read_to_string from_toml path env ≡ ConfigResult.ok cfg
      → IsLoaded read_to_string from_toml path env cfg
  load_from-IsLoaded path cfg e =
      Ends-ok (IsCause read_to_string from_toml path env)
        (IsLoaded read_to_string from_toml path env) (load_from read_to_string from_toml path env)
        cfg (load_from-Ends path) e

  -- An error of `load_from` tells its cause: the file cannot be read or parsed, a variable that is set
  -- does not parse, with its name, text and type, a URL is missing, or the window is too small.
  pub load_from-IsCause :
      (path : Option String) (x : ConfigError)
      → load_from read_to_string from_toml path env ≡ ConfigResult.err x
      → IsCause read_to_string from_toml path env x
  load_from-IsCause path x e =
      Ends-err (IsCause read_to_string from_toml path env)
        (IsLoaded read_to_string from_toml path env) (load_from read_to_string from_toml path env) x
        (load_from-Ends path) e
