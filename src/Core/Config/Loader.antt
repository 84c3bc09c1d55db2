-- ===== src/Core/Config/Loader.antt =====
-- engine/src/hypernet/core/ConfigLoader.cpp: the configuration from the command line and from a
-- table. The TOML parser is a parameter, as are the file system and the case of letters.
pub mod Apply
pub mod Loaded
use network_engine_portfolio.Prelude.{
  ℕ, ◌-◌, ◌^◌, Bool, true, false, not, ◌&&◌, ◌||◌, Option, none, some, List, [], ◌∷◌, ◌==◌, ltb,
  if◌then◌else◌, map, get_elem?, same_bytes,
}
use network_engine_portfolio.Core.Config.Keys.{
  trace_word, debug_word, info_word, warn_word, warning_word, error_word, fatal_word, config_flag,
  config_letter,
}
use network_engine_portfolio.Core.Config.{
  EngineConfig, ConfigError, is_empty, validate_engine_config,
}

-- An `int64`.
pub data Int64 : Type 0 where
  pos : ℕ → Int64
  -- -1 - n
  negsuc : ℕ → Int64

-- What a table `T` answers for a key: the table, number, text or truth value there, if there is one.
pub record Tables (T : Type 0) : Type 0 where
  pub as_table : T → ℕ → Option T
  pub int_value : T → ℕ → Option Int64
  pub string_value : T → ℕ → Option (List ℕ)
  pub bool_value : T → ℕ → Option Bool

pub data LogLevel : Type 0 where
  trace debug info warn error fatal : LogLevel

-- Which of the exceptions is thrown; a key is a name.
pub data LoadError : Type 0 where
  config_needs_path config_missing file_missing toml_error engine_missing : LoadError
  bad_log_level fep_host_missing fep_port_missing : LoadError
  out_of_range : ℕ → LoadError
  invalid : ConfigError → LoadError

pub data Result (A : Type 0) : Type 0 where
  ok : A → Result A
  err : LoadError → Result A

infixl 5 ◌>>=◌
abbrev pub ◌>>=◌ : {A B : Type 0} → Result A → (A → Result B) → Result B
ok a >>= f = f a
err e >>= f = err e

unfoldable pub checked_port_from_i64 : ℕ → Int64 → Result ℕ
checked_port_from_i64 key (pos n) = if ltb 65535 n then err (out_of_range key) else ok n
checked_port_from_i64 key (negsuc n) = err (out_of_range key)

unfoldable pub checked_uint_from_i64 : ℕ → Int64 → Result ℕ
checked_uint_from_i64 key (pos n) = if ltb (2 ^ 32 - 1) n then err (out_of_range key) else ok n
checked_uint_from_i64 key (negsuc n) = err (out_of_range key)

unfoldable pub checked_size_from_i64 : ℕ → Int64 → Result ℕ
checked_size_from_i64 key (pos n) = ok n
checked_size_from_i64 key (negsuc n) = err (out_of_range key)

-- `ExchangeSimConfig` and `FepConfig`.
pub record SimConfig : Type 0 where
  pub fep_host : List ℕ
  pub fep_port : ℕ
  pub connection_count : ℕ
  pub auto_scope : Bool

pub record FepConfig : Type 0 where
  pub upstream_host : List ℕ
  pub upstream_port : ℕ
  pub worker_threads : ℕ
  pub handoff_mode : Bool

-- `engine` and `more` are the fields of the one `EngineConfig`.
pub record EngineMore : Type 0 where
  pub log_level : LogLevel
  pub log_file_path : List ℕ
  pub metrics_http_address : List ℕ
  pub idle_timeout_ms : ℕ
  pub heartbeat_interval_ms : ℕ

pub record GlobalConfig : Type 0 where
  pub engine : EngineConfig
  pub more : EngineMore
  pub sim : SimConfig
  pub fep : FepConfig

abbrev pub with_engine : GlobalConfig → EngineConfig → GlobalConfig
with_engine cfg engine = record cfg { engine = engine }

abbrev pub with_more : GlobalConfig → EngineMore → GlobalConfig
with_more cfg more = record cfg { more = more }

-- A value that is given is checked and stored; without one the configuration stays as it is.
unfoldable pub store_int :
    (ℕ → Int64 → Result ℕ)
    → ℕ
    → (ℕ → GlobalConfig)
    → GlobalConfig
    → Option Int64
    → Result GlobalConfig
store_int check key put cfg none = ok cfg
store_int check key put cfg (some v) = check key v >>= λ n. ok (put n)

unfoldable pub store_value :
    {A : Type 0} → (A → GlobalConfig) → GlobalConfig → Option A → GlobalConfig
store_value put cfg none = cfg
store_value put cfg (some v) = put v

-- `words` are the lower-case names of the levels, each with its level.
unfoldable pub first_level : List (List ℕ × LogLevel) → List ℕ → Result LogLevel
first_level [] v = err bad_log_level
first_level ((word, level) ∷ words) v =
    let rest = first_level words v in if same_bytes v word then ok level else rest

unfoldable pub parse_log_level : (to_lower : ℕ → ℕ) → List ℕ → Result LogLevel
parse_log_level to_lower s =
    first_level
      ((trace_word, trace)
        ∷ (debug_word, debug)
        ∷ (info_word, info)
        ∷ (warn_word, warn)
        ∷ (warning_word, warn)
        ∷ (error_word, error)
        ∷ (fatal_word, fatal)
        ∷ [])
      (map to_lower s)

-- The arguments behind the name of the program; `none` is a null pointer.
abbrev pub is_config_flag : Option (List ℕ) → Bool
is_config_flag none = false
is_config_flag (some a) = same_bytes a config_flag || same_bytes a config_letter

abbrev pub path_of : Option (Option (List ℕ)) → Result (Option (List ℕ))
path_of none = err config_needs_path
path_of (some none) = err config_needs_path
path_of (some (some [])) = err config_needs_path
path_of (some (some (c ∷ path))) = ok (some (c ∷ path))

unfoldable pub scan_cli_for_config_path : List (Option (List ℕ)) → Result (Option (List ℕ))
scan_cli_for_config_path [] = ok none
scan_cli_for_config_path (a ∷ args) =
    let rest = scan_cli_for_config_path args in
    if is_config_flag a then path_of (get_elem? args 0) else rest
