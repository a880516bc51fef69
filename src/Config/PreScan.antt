-- ===== src/Config/PreScan.antt =====
-- linux-c/config-demo/cli_source.c: the options that name the configuration file.
use mathlib.Core.Option.{some-injective}
use snippet.Base.{
  ℕ, false, ◌≡◌, ◌≢◌, sym, ap, ◌∙◌, Option, none, some, List, [], ◌∷◌, ◌++◌, ◌==◌, arith,
}
use snippet.Posix.{codes, strncmp_eq}
use snippet.Config.Text.{Text, text_eq}
use snippet.Config.Sources.{
  AppConfig, CliOption, apply_defaults, apply_env_config, apply_cli_args_for_config_file,
  is_config_option, set_port, set_log_level, cli_step, config_init,
}
use snippet.Config.FileSource.{Surroundings, apply_file_config}
use snippet.Config.Load.{CommandLine, config_load}
use snippet.Config.Layers.{or_else, last_of, apply_cli_args-last}

-- What an option says of the name of the configuration file.
abbrev pub config_file_option : CliOption → Option (Option Text)
config_file_option (CliOption.option_c optarg) = some optarg
config_file_option opt = none

config_file-law :
    (opt : CliOption) (cfg changed : AppConfig)
    → cli_step opt cfg ≡ some changed
    → changed.config_file ≡ or_else (config_file_option opt) cfg.config_file
unfolding cli_step set_port set_log_level
config_file-law (CliOption.option_s v) cfg changed e =
    ap (λ c. c.config_file) (sym (some-injective _ _ e))
config_file-law (CliOption.option_p v) cfg changed e =
    ap (λ c. c.config_file) (sym (some-injective _ _ e))
config_file-law (CliOption.option_l v) cfg changed e =
    ap (λ c. c.config_file) (sym (some-injective _ _ e))
config_file-law CliOption.option_d cfg changed e =
    ap (λ c. c.config_file) (sym (some-injective _ _ e))
config_file-law (CliOption.option_c v) cfg changed e =
    ap (λ c. c.config_file) (sym (some-injective _ _ e))
config_file-law CliOption.unknown cfg changed e =
    ap (λ c. c.config_file) (sym (some-injective _ _ e))
config_file-law CliOption.option_h cfg changed e = cc

-- An argument `--config=NAME` changes nothing in the first reading of the command line: the ten
-- bytes that it compares take in the terminator of `--config=`.
pub long_option_passed_over :
    (beyond : Text) (c : ℕ) (name : Text) (args : List Text) (cfg : AppConfig)
    → c ≢ 0
    → apply_cli_args_for_config_file beyond ((codes "--config=" ++ c ∷ name) ∷ args) cfg
      ≡ apply_cli_args_for_config_file beyond args cfg
unfolding apply_cli_args_for_config_file is_config_option text_eq strncmp_eq
long_option_passed_over beyond c name [] cfg ne =
    let differ : (c == 0) ≡ false = ground arith in rw (differ)
long_option_passed_over beyond c name (next ∷ rest) cfg ne =
    let differ : (c == 0) ≡ false = ground arith in rw (differ)

-- If the last option that names a configuration file is `-c`, for which `optarg` is null, the
-- loaded configuration names none, whatever file was read.
pub short_option_forgets :
    (s : Surroundings) (line : CommandLine) (cfg : AppConfig)
    → config_load s line ≡ some cfg
    → last_of config_file_option line.options ≡ some none
    → cfg.config_file ≡ none
unfolding config_load
short_option_forgets s line cfg e last =
    let scanned =
      apply_cli_args_for_config_file line.beyond line.args (apply_defaults config_init) in
    let before = apply_env_config s.getenv (apply_file_config s scanned) in
    apply_cli_args-last (λ c. c.config_file) config_file_option config_file-law line.options before
      cfg e
    ∙ ap (λ o. or_else o before.config_file) last
