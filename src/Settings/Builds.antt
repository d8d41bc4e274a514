-- ===== src/Settings/Builds.antt =====
-- `source_config`, `store_config` and `processor_config` of a configuration that is loaded.
use subdex.Prelude.{
  Attempt, ℕ, ◌≤◌, ◌≢◌, String, Option, none, some, ◌≡◌, refl, ◌⊎◌, inl, inr, arith, Option-cases,
}
use subdex.Source.Config.{
  SourceConfig, new, with_batch_size as with_source_batch_size, with_concurrency, with_ss58_prefix,
  with_strict,
}
use subdex.Store.Config.{StoreConfig, new_store_config, with_max_connections, with_reorg_retention}
use subdex.Processor.{ProcessorConfig}
use subdex.Processor.Config.{with_batch_size}
use subdex.Settings.{
  ConfigResult, IndexerConfig, Env, unwrap_or, load_from, when_some, source_config, store_config,
  processor_config,
}
use subdex.Settings.Loads.{IsValid, retention_of, depth_of, load_from-IsLoaded}

-- The three configurations fit the engine and each other.
pub record IsFit (source : SourceConfig) (store : StoreConfig) (processor : ProcessorConfig)
    : Type 0 where
  pub source_batch : 1 ≤ source.batch_size
  pub source_concurrency : 1 ≤ source.concurrency
  pub connections : 1 ≤ store.max_connections
  pub batch : 1 ≤ processor.batch_size
  pub retained : (store.reorg_retention ≡ 0) ⊎ (processor.max_reorg_depth ≤ store.reorg_retention)

-- What holds before the steps, and is kept by each, holds after them.
when_some-keeps :
    {A C : Type 0} (P : C → Type 0) (o : Option A) (set : A → C → C) (c : C)
    → P c
    → ((v : A) → P (set v c))
    → P (when_some o set c)
unfolding when_some
when_some-keeps P none set c h k = h
when_some-keeps P (some v) set c h k = k v

module _ (url : String) where
  abbrev built_store : Option ℕ → Option ℕ → StoreConfig
  built_store r m =
      when_some r with_reorg_retention (when_some m with_max_connections (new_store_config url))

  built_store-Floors :
      (r m : Option ℕ)
      → (1 ≤ (built_store r m).max_connections)
        × ((built_store r m).reorg_retention ≡ unwrap_or 5000 r)
  unfolding when_some with_max_connections unwrap_or
  built_store-Floors none none = (omega arith, refl)
  built_store-Floors none (some m) = (omega arith, refl)
  built_store-Floors (some r) none = (omega arith, refl)
  built_store-Floors (some r) (some m) = (omega arith, refl)

module _ (cfg : IndexerConfig) where
  abbrev Floors : SourceConfig → Type 0
  Floors c = (1 ≤ c.batch_size) × (1 ≤ c.concurrency)

  source-Floors :
      (url : String)
      → Floors (
          when_some cfg.source.strict with_strict (
            when_some cfg.source.ss58_prefix with_ss58_prefix (
              when_some cfg.source.concurrency with_concurrency
                (when_some cfg.source.batch_size with_source_batch_size (new url)))))
  unfolding with_source_batch_size with_concurrency
  source-Floors url =
      let h₁ =
        when_some-keeps Floors cfg.source.batch_size with_source_batch_size (new url)
          (omega arith, omega arith) (λ v. (omega arith, omega arith)) in
      let h₂ =
        when_some-keeps Floors cfg.source.concurrency with_concurrency _ h₁
          (λ v. (h₁.0, omega arith)) in
      let h₃ = when_some-keeps Floors cfg.source.ss58_prefix with_ss58_prefix _ h₂ (λ v. h₂) in
      when_some-keeps Floors cfg.source.strict with_strict _ h₃ (λ v. h₃)

  source_config-Floors :
      cfg.source.url ≢ none → (c : SourceConfig) × (source_config cfg ≡ some c) × Floors c
  unfolding source_config
  source_config-Floors h = elim (Option-cases cfg.source.url) [
    | inl e ↦ absurd (h e)
    | inr (url, e) ↦ rw (e, source_config) (_, refl, source-Floors url)
  ]

  store_config-Floors :
      cfg.store.url ≢ none
      → (c : StoreConfig) × (store_config cfg ≡ some c)
        × (1 ≤ c.max_connections)
        × (c.reorg_retention ≡ retention_of cfg)
  unfolding store_config
  store_config-Floors h = elim (Option-cases cfg.store.url) [
    | inl e ↦ absurd (h e)
    | inr (url, e) ↦
        let b = built_store-Floors url cfg.store.reorg_retention cfg.store.max_connections in
        rw (e, store_config) (_, refl, b.0, b.1)
  ]

  processor_config-Floors :
      (1 ≤ (processor_config cfg).batch_size)
      × ((processor_config cfg).max_reorg_depth ≡ depth_of cfg)
  unfolding processor_config when_some with_batch_size unwrap_or
  processor_config-Floors = ground arith

  IsValid-builds :
      IsValid cfg
      → (s : SourceConfig) × (t : StoreConfig) × (source_config cfg ≡ some s)
        × (store_config cfg ≡ some t)
        × IsFit s t (processor_config cfg)
  IsValid-builds h =
      let (s, se, sf) = source_config-Floors h.source_url in
      let (t, te, tm, tr) = store_config-Floors h.store_url in
      let p = processor_config-Floors in
      (
        s,
        t,
        se,
        te,
        record {
          source_batch = sf.0;
          source_concurrency = sf.1;
          connections = tm;
          batch = p.0;
          retained = elim h.retained [
            | inl z ↦ inl (omega (arith, tr))
            | inr le ↦ inr (omega (arith, tr, p.1))
          ];
        },
      )

-- Of a configuration that `load_from` returns all three are built, without a panic. Batch sizes,
-- concurrency and connections are at least 1, and the store keeps every row or a window not
-- below `max_reorg_depth` as a number (whose 0, documented as unlimited, is let through with every
-- window).
pub load_from-IsFit :
    (read_to_string : String → Attempt String) (from_toml : String → Attempt IndexerConfig)
    (env : Env) (path : Option String) (cfg : IndexerConfig)
    → load_from read_to_string from_toml path env ≡ ConfigResult.ok cfg
    → (s : SourceConfig) × (t : StoreConfig) × (source_config cfg ≡ some s)
      × (store_config cfg ≡ some t)
      × IsFit s t (processor_config cfg)
load_from-IsFit read_to_string from_toml env path cfg e =
    IsValid-builds cfg (load_from-IsLoaded read_to_string from_toml env path cfg e).valid
