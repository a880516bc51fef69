-- ===== src/Config/Load.antt =====
-- linux-c/config-demo/config-demo.c: `config_load`.
use snippet.Base.{Option, List}
use snippet.Config.Text.{Text}
use snippet.Config.Sources.{
  AppConfig, CliOption, config_init, apply_defaults, apply_env_config,
  apply_cli_args_for_config_file, apply_cli_args,
}
use snippet.Config.FileSource.{Surroundings, apply_file_config}

-- What stands behind the end of an argument in memory, the arguments, and what `getopt_long`
-- makes of them.
pub record CommandLine : Type 0 where
  pub beyond : Text
  pub args : List Text
  pub options : List CliOption

-- The sources of high priority are read last.
unfoldable pub config_load : Surroundings → CommandLine → Option AppConfig
unfolding apply_defaults apply_env_config apply_cli_args_for_config_file apply_cli_args
    apply_file_config
config_load s line =
    let cfg₁ = apply_defaults config_init in
    let cfg₂ = apply_cli_args_for_config_file line.beyond line.args cfg₁ in
    let cfg₃ = apply_file_config s cfg₂ in
    let cfg₄ = apply_env_config s.getenv cfg₃ in apply_cli_args line.options cfg₄
