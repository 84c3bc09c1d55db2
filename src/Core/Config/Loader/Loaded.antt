-- ===== src/Core/Config/Loader/Loaded.antt =====
-- What a configuration that has been loaded can be relied on for.
use network_engine_portfolio.Prelude.{
  ℕ, ◌≡◌, refl, subst, Bool, Option, none, some, List, inl, inr, Option-cases, Bool-cases, ◌==◌,
}
use network_engine_portfolio.Core.Config.{
  ConfigError, is_empty, validate_engine_config, make_effective_engine_options,
}
use network_engine_portfolio.Core.Config.Sound.{IsSound, make_effective_engine_options-IsSound}
use network_engine_portfolio.Core.Config.Keys
use network_engine_portfolio.Core.Config.Loader.{
  Tables, LoadError, Result, ok, err, ◌>>=◌, GlobalConfig, scan_cli_for_config_path,
}
use network_engine_portfolio.Core.Config.Loader.Apply.{
  is_there, sim_table, apply_engine_toml, apply_app_toml, refused_by, validated, validate_fail_fast,
  load_root, load_path, load,
}

-- What comes before a result.
record Before {A B : Type 0} (r : Result A) (f : A → Result B) (b : B) : Type 0 where
  value : A
  first : r ≡ ok value
  then_ : f value ≡ ok b

not_ok : {A : Type 0} {e : LoadError} {a : A} → err e ≡ ok a → ⊥
not_ok h = absurd cc

bind-Before :
    {A B : Type 0} (r : Result A) (f : A → Result B) (b : B) → (r >>= f) ≡ ok b → Before r f b
bind-Before (ok a) f b h = record { value = a; first = refl; then_ = h }
bind-Before (err e) f b h = absurd (not_ok h)

same_value : {A : Type 0} {a b : A} → Path (Result A) (ok a) (ok b) → a ≡ b
same_value h = cc

module _ {T : Type 0} (calls : Tables T) (to_lower : ℕ → ℕ) where
  validated-valid :
      (hardware : ℕ) (cfg cfg' : GlobalConfig)
      → validated calls to_lower hardware cfg ≡ ok cfg'
      → validate_engine_config hardware cfg'.engine ≡ none
  validated-valid hardware cfg cfg' h = go (validate_engine_config hardware cfg.engine) refl h
    where
      go :
          (o : Option ConfigError)
          → validate_engine_config hardware cfg.engine ≡ o
          → refused_by calls to_lower o cfg ≡ ok cfg'
          → validate_engine_config hardware cfg'.engine ≡ none
      go none e a =
          subst (λ (c : GlobalConfig). validate_engine_config hardware c.engine ≡ none)
            (same_value a) e
      go (some error) e a = absurd (not_ok a)

  validate_fail_fast-valid :
      (hardware : ℕ) (root : T) (cfg cfg' : GlobalConfig)
      → validate_fail_fast calls to_lower hardware root cfg ≡ ok cfg'
      → validate_engine_config hardware cfg'.engine ≡ none
  unfolding validate_fail_fast
  validate_fail_fast-valid hardware root cfg cfg' h =
      elim (Option-cases (calls.as_table root Keys.app)) [
        | inl e ↦ validated-valid hardware cfg cfg' (rw (validate_fail_fast, e) at h)
        | inr (app, e) ↦ elim (Bool-cases (is_there (sim_table calls to_lower app))) [
          | inr f ↦ validated-valid hardware cfg cfg' (rw (validate_fail_fast, e, f) at h)
          | inl t ↦ elim (Bool-cases (is_empty cfg.sim.fep_host)) [
            | inl a ↦ absurd (not_ok (rw (validate_fail_fast, e, t, a) at h))
            | inr a ↦ elim (Bool-cases (cfg.sim.fep_port == 0)) [
              | inl b ↦ absurd (not_ok (rw (validate_fail_fast, e, t, a, b) at h))
              | inr b ↦ validated-valid hardware cfg cfg' (rw (validate_fail_fast, e, t, a, b) at h)
            ]
          ]
        ]
      ]

  load_root-valid :
      (hardware : ℕ) (defaults cfg : GlobalConfig) (root : Option T)
      → load_root calls to_lower hardware defaults root ≡ ok cfg
      → validate_engine_config hardware cfg.engine ≡ none
  unfolding load_root
  load_root-valid hardware defaults cfg none h = absurd (not_ok h)
  load_root-valid hardware defaults cfg (some root) h =
      let b =
        bind-Before
          (apply_engine_toml calls to_lower root defaults >>= apply_app_toml calls to_lower root)
          (validate_fail_fast calls to_lower hardware root) cfg h in
      validate_fail_fast-valid hardware root b.value cfg b.then_

  module _ (hardware : ℕ) (exists : List ℕ → Bool) (parse_file : List ℕ → Option T)
      (defaults cfg : GlobalConfig) where
    load_path-valid :
        (path : Option (List ℕ))
        → load_path calls to_lower hardware exists parse_file defaults path ≡ ok cfg
        → validate_engine_config hardware cfg.engine ≡ none
    unfolding load_path
    load_path-valid none h = absurd (not_ok h)
    load_path-valid (some p) h = elim (Bool-cases (exists p)) [
      | inl t ↦ load_root-valid hardware defaults cfg (parse_file p) (rw (load_path, t) at h)
      | inr f ↦ absurd (not_ok (rw (load_path, f) at h))
    ]

    -- A configuration that is loaded passes the validation of the engine, and the options that the
    -- engine makes of it are sound.
    pub load-IsSound :
        (args : List (Option (List ℕ)))
        → load calls to_lower hardware exists parse_file defaults args ≡ ok cfg
        → (validate_engine_config hardware cfg.engine ≡ none)
          × IsSound (make_effective_engine_options hardware cfg.engine)
    unfolding load
    load-IsSound args h =
        let b =
          bind-Before (scan_cli_for_config_path args)
            (load_path calls to_lower hardware exists parse_file defaults) cfg h in
        let valid = load_path-valid b.value b.then_ in
        (valid, make_effective_engine_options-IsSound hardware cfg.engine valid)
