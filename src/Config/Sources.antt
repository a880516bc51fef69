-- ===== src/Config/Sources.antt =====
-- linux-c/config-demo: config.h, defaults_source.c, env_source.c and cli_source.c.
use Prim.Native.String.{String}
use snippet.Base.{
  ℕ, Bool, true, false, Option, none, some, List, [], ◌∷◌, ◌++◌, drop, ◌==◌, if◌then◌else◌,
  case_option, ℤ, pos, is_zero,
}
use snippet.Posix.{codes, c_string, strncmp_eq}
use snippet.Config.Text.{Text, text_eq, atoi, to_int, to_uint16, is_true}

-- `app_config_t`; `none` is a null pointer.
pub record AppConfig : Type 0 where
  pub address : Option Text
  pub port : ℕ
  pub log_level : ℤ
  pub debug : Bool
  pub config_file : Option Text

-- `config_init`
abbrev pub config_init : AppConfig
config_init = record {
  address = none;
  port = 0;
  log_level = pos 0;
  debug = false;
  config_file = none;
}

-- `config_set_string` on each of the two fields. `strdup` finds memory.
abbrev pub set_address : Option Text → AppConfig → AppConfig
set_address v cfg = record cfg { address = v }

abbrev pub set_config_file : Option Text → AppConfig → AppConfig
set_config_file v cfg = record cfg { config_file = v }

-- `cfg->port = (uint16_t)atoi(v)` and so on
unfoldable pub set_port : Text → AppConfig → AppConfig
unfolding atoi
set_port v cfg = record cfg { port = to_uint16 (atoi v) }

unfoldable pub set_log_level : Text → AppConfig → AppConfig
unfolding atoi
set_log_level v cfg = record cfg { log_level = to_int (atoi v) }

abbrev pub set_debug : Bool → AppConfig → AppConfig
set_debug v cfg = record cfg { debug = v }

unfoldable pub apply_defaults : AppConfig → AppConfig
apply_defaults cfg = record cfg {
  address = case_option cfg.address (some (codes "localhost")) (λ given. some given);
  port = if cfg.port == 0 then 8080 else cfg.port;
  log_level = if is_zero cfg.log_level then pos 3 else cfg.log_level;
}

-- `if ((env_value = getenv(...)) != NULL)`
abbrev pub when_set : Option Text → (Text → AppConfig → AppConfig) → AppConfig → AppConfig
when_set v f cfg = case_option v cfg λ text. f text cfg

unfoldable pub apply_env_config : (String → Option Text) → AppConfig → AppConfig
unfolding set_port set_log_level is_true
apply_env_config getenv cfg =
    let cfg₁ = when_set (getenv "CONFIG_DEMO_ADDRESS") (λ v. set_address (some v)) cfg in
    let cfg₂ = when_set (getenv "CONFIG_DEMO_PORT") set_port cfg₁ in
    let cfg₃ = when_set (getenv "CONFIG_DEMO_LOG_LEVEL") set_log_level cfg₂ in
    let cfg₄ = when_set (getenv "CONFIG_DEMO_DEBUG") (λ v. set_debug (is_true v)) cfg₃ in
    when_set (getenv "CONFIG_DEMO_CONFIG") (λ v. set_config_file (some v)) cfg₄

-- `strncmp(arg, "--config=", 10) == 0`
unfoldable pub is_config_option : Text → Bool
unfolding strncmp_eq
is_config_option arg = strncmp_eq 10 (arg ++ 0 ∷ []) (c_string "--config=")

-- The arguments behind the first, the program's name. `beyond` is what stands in memory behind the
-- end of an argument, which `argv[i] + 10` reaches.
unfoldable pub apply_cli_args_for_config_file : Text → List Text → AppConfig → AppConfig
unfolding text_eq is_config_option
apply_cli_args_for_config_file beyond [] cfg = cfg
apply_cli_args_for_config_file beyond (arg ∷ []) cfg =
    if is_config_option arg then set_config_file (some (drop 10 (arg ++ 0 ∷ beyond))) cfg else cfg
apply_cli_args_for_config_file beyond (arg ∷ next ∷ rest) cfg =
    apply_cli_args_for_config_file beyond (next ∷ rest) (
      if text_eq arg (codes "-c")
      then set_config_file (some next) cfg
      else if is_config_option arg
      then set_config_file (some (drop 10 (arg ++ 0 ∷ beyond))) cfg
      else cfg)

-- What `getopt_long` returns in turn, with `optarg`, which is null for an option that takes no
-- argument: `-c`, as "s:p:l:dch" has it, takes none, and `--config` one.
pub data CliOption : Type 0 where
  option_s : (optarg : Text) → CliOption
  option_p : (optarg : Text) → CliOption
  option_l : (optarg : Text) → CliOption
  option_d : CliOption
  option_c : (optarg : Option Text) → CliOption
  option_h : CliOption
  unknown : CliOption

-- The body of the loop. `none`: the program has exited, as `--help` makes it.
unfoldable pub cli_step : CliOption → AppConfig → Option AppConfig
unfolding set_port set_log_level
cli_step (CliOption.option_s optarg) cfg = some (set_address (some optarg) cfg)
cli_step (CliOption.option_p optarg) cfg = some (set_port optarg cfg)
cli_step (CliOption.option_l optarg) cfg = some (set_log_level optarg cfg)
cli_step CliOption.option_d cfg = some (set_debug true cfg)
cli_step (CliOption.option_c optarg) cfg = some (set_config_file optarg cfg)
cli_step CliOption.option_h cfg = none
cli_step CliOption.unknown cfg = some cfg

unfoldable pub apply_cli_args : List CliOption → AppConfig → Option AppConfig
unfolding cli_step
apply_cli_args [] cfg = some cfg
apply_cli_args (opt ∷ rest) cfg =
    case_option (cli_step opt cfg) none λ changed. apply_cli_args rest changed
