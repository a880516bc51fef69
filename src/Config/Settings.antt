-- ===== src/Config/Settings.antt =====
-- linux-c/config-demo: the four settings, and where the values of a loaded configuration come from.
use Prim.Native.String.{String}
use mathlib.Core.Option.{some-injective}
use snippet.Base.{
  ℕ, Bool, true, false, Option-cases, inl, inr, ◌≡◌, refl, subst, ap, ◌∙◌, Option, none, some,
  case_option, if◌then◌else◌, ℤ, pos,
}
use snippet.Posix.{codes}
use snippet.Config.Text.{Text, text_eq, atoi, to_int, to_uint16, is_true}
use snippet.Config.Sources.{
  AppConfig, CliOption, apply_defaults, apply_env_config, set_port, set_log_level, set_debug,
  set_address, set_config_file, when_set, cli_step,
}
use snippet.Config.FileSource.{Surroundings, parse_line, apply_setting, apply_line}
use snippet.Config.Keys.{key_cases}
use snippet.Config.Load.{CommandLine, config_load}
use snippet.Config.Layers.{or_else, Setting}
use snippet.Config.Priority.{layered, config_load-layered, when_set-here, when_set-elsewhere}

-- What a line says of the setting called `name`, whose texts `read` reads.
abbrev pub value_of {ℓ} : {A : Type ℓ} → String → (Text → A) → Text → Option A
value_of name read line =
    case_option (parse_line line) none
      λ setting. if text_eq setting.0 (codes name) then some (read setting.1) else none

abbrev pub address_option : CliOption → Option (Option Text)
address_option (CliOption.option_s optarg) = some (some optarg)
address_option opt = none

abbrev pub port_option : CliOption → Option ℕ
port_option (CliOption.option_p optarg) = some (to_uint16 (atoi optarg))
port_option opt = none

abbrev pub log_level_option : CliOption → Option ℤ
log_level_option (CliOption.option_l optarg) = some (to_int (atoi optarg))
log_level_option opt = none

abbrev pub debug_option : CliOption → Option Bool
debug_option CliOption.option_d = some true
debug_option opt = none

module _ {A : Type 0} (get : AppConfig → A) (name : String) (read : Text → A) where
  pub line_law_of :
      ((key value : Text) (cfg : AppConfig)
        → get (apply_setting key value cfg)
          ≡ or_else (if text_eq key (codes name) then some (read value) else none) (get cfg))
      → (line : Text) (cfg : AppConfig)
      → get (apply_line line cfg) ≡ or_else (value_of name read line) (get cfg)
  unfolding apply_line
  line_law_of law line cfg = elim (Option-cases (parse_line line)) [
    | inl nothing ↦ rw (nothing)
    | inr (setting, e) ↦ rw (e) (law setting.0 setting.1 cfg)
  ]

abbrev pub AllLaws : CliOption → AppConfig → AppConfig → Type 0
AllLaws opt cfg changed =
    (changed.address ≡ or_else (address_option opt) cfg.address)
    × (changed.port ≡ or_else (port_option opt) cfg.port)
    × (changed.log_level ≡ or_else (log_level_option opt) cfg.log_level)
    × (changed.debug ≡ or_else (debug_option opt) cfg.debug)

pub option_laws :
    (opt : CliOption) (cfg changed : AppConfig)
    → cli_step opt cfg ≡ some changed
    → AllLaws opt cfg changed
unfolding cli_step set_port set_log_level
option_laws (CliOption.option_s v) cfg changed e =
    subst (AllLaws (CliOption.option_s v) cfg) (some-injective _ _ e) (refl, refl, refl, refl)
option_laws (CliOption.option_p v) cfg changed e =
    subst (AllLaws (CliOption.option_p v) cfg) (some-injective _ _ e) (refl, refl, refl, refl)
option_laws (CliOption.option_l v) cfg changed e =
    subst (AllLaws (CliOption.option_l v) cfg) (some-injective _ _ e) (refl, refl, refl, refl)
option_laws CliOption.option_d cfg changed e =
    subst (AllLaws CliOption.option_d cfg) (some-injective _ _ e) (refl, refl, refl, refl)
option_laws (CliOption.option_c v) cfg changed e =
    subst (AllLaws (CliOption.option_c v) cfg) (some-injective _ _ e) (refl, refl, refl, refl)
option_laws CliOption.option_h cfg changed e = cc
option_laws CliOption.unknown cfg changed e =
    subst (AllLaws CliOption.unknown cfg) (some-injective _ _ e) (refl, refl, refl, refl)

module _ (getenv : String → Option Text) (cfg : AppConfig) where
  pub env_laws :
      ((apply_env_config getenv cfg).address
        ≡ or_else
            (case_option (getenv "CONFIG_DEMO_ADDRESS") none (λ v. some (some v)))
            cfg.address)
      × ((apply_env_config getenv cfg).port
          ≡ or_else
              (case_option (getenv "CONFIG_DEMO_PORT") none (λ v. some (to_uint16 (atoi v))))
              cfg.port)
      × ((apply_env_config getenv cfg).log_level
          ≡ or_else
              (case_option (getenv "CONFIG_DEMO_LOG_LEVEL") none (λ v. some (to_int (atoi v))))
              cfg.log_level)
      × ((apply_env_config getenv cfg).debug
          ≡ or_else
              (case_option (getenv "CONFIG_DEMO_DEBUG") none (λ v. some (is_true v)))
              cfg.debug)
  unfolding apply_env_config set_port set_log_level
  env_laws =
      let e₁ = getenv "CONFIG_DEMO_ADDRESS" in
      let e₂ = getenv "CONFIG_DEMO_PORT" in
      let e₃ = getenv "CONFIG_DEMO_LOG_LEVEL" in
      let e₄ = getenv "CONFIG_DEMO_DEBUG" in
      let e₅ = getenv "CONFIG_DEMO_CONFIG" in
      let f₁ : Text → AppConfig → AppConfig = λ v. set_address (some v) in
      let f₄ : Text → AppConfig → AppConfig = λ v. set_debug (is_true v) in
      let f₅ : Text → AppConfig → AppConfig = λ v. set_config_file (some v) in
      let cfg₁ = when_set e₁ f₁ cfg in
      let cfg₂ = when_set e₂ set_port cfg₁ in
      let cfg₃ = when_set e₃ set_log_level cfg₂ in
      let cfg₄ = when_set e₄ f₄ cfg₃ in
      (
        when_set-elsewhere (λ c. c.address) e₅ f₅ cfg₄ (λ v. refl)
            ∙ when_set-elsewhere (λ c. c.address) e₄ f₄ cfg₃ (λ v. refl)
            ∙ when_set-elsewhere (λ c. c.address) e₃ set_log_level cfg₂ (λ v. refl)
            ∙ when_set-elsewhere (λ c. c.address) e₂ set_port cfg₁ (λ v. refl)
            ∙ when_set-here (λ c. c.address) some e₁ f₁ cfg (λ v. refl),
        when_set-elsewhere (λ c. c.port) e₅ f₅ cfg₄ (λ v. refl)
            ∙ when_set-elsewhere (λ c. c.port) e₄ f₄ cfg₃ (λ v. refl)
            ∙ when_set-elsewhere (λ c. c.port) e₃ set_log_level cfg₂ (λ v. refl)
            ∙ when_set-here (λ c. c.port) (λ v. to_uint16 (atoi v)) e₂ set_port cfg₁ (λ v. refl)
            ∙ ap (or_else (case_option e₂ none (λ v. some (to_uint16 (atoi v)))))
                (when_set-elsewhere (λ c. c.port) e₁ f₁ cfg (λ v. refl)),
        when_set-elsewhere (λ c. c.log_level) e₅ f₅ cfg₄ (λ v. refl)
            ∙ when_set-elsewhere (λ c. c.log_level) e₄ f₄ cfg₃ (λ v. refl)
            ∙ when_set-here (λ c. c.log_level) (λ v. to_int (atoi v)) e₃ set_log_level cfg₂
                (λ v. refl)
            ∙ ap (or_else (case_option e₃ none (λ v. some (to_int (atoi v))))) (
                when_set-elsewhere (λ c. c.log_level) e₂ set_port cfg₁ (λ v. refl)
                ∙ when_set-elsewhere (λ c. c.log_level) e₁ f₁ cfg (λ v. refl)),
        when_set-elsewhere (λ c. c.debug) e₅ f₅ cfg₄ (λ v. refl)
            ∙ when_set-here (λ c. c.debug) is_true e₄ f₄ cfg₃ (λ v. refl)
            ∙ ap (or_else (case_option e₄ none (λ v. some (is_true v)))) (
                when_set-elsewhere (λ c. c.debug) e₃ set_log_level cfg₂ (λ v. refl)
                ∙ when_set-elsewhere (λ c. c.debug) e₂ set_port cfg₁ (λ v. refl)
                ∙ when_set-elsewhere (λ c. c.debug) e₁ f₁ cfg (λ v. refl)),
      )

unfoldable pub address_setting : Setting (Option Text)
unfolding apply_defaults apply_setting text_eq set_port set_log_level
address_setting = record {
  get = λ cfg. cfg.address;
  default = some (codes "localhost");
  of_line = value_of "address" some;
  of_env = λ getenv. case_option (getenv "CONFIG_DEMO_ADDRESS") none (λ v. some (some v));
  of_option = address_option;
  at_first = refl;
  keeps = λ path cfg. refl;
  line_law =
      line_law_of (λ cfg. cfg.address) "address" some
        (λ key v cfg.
          key_cases
            (λ (k : Text).
              (apply_setting k v cfg).address
              ≡ or_else (if text_eq k (codes "address") then some (some v) else none) cfg.address)
            refl refl refl refl (λ k no_a no_p no_l no_d. rw (no_a, no_p, no_l, no_d)) key);
  env_law = λ getenv cfg. (env_laws getenv cfg).0;
  option_law = λ opt cfg changed e. (option_laws opt cfg changed e).0;
}

unfoldable pub port_setting : Setting ℕ
unfolding apply_defaults apply_setting text_eq set_port set_log_level
port_setting = record {
  get = λ cfg. cfg.port;
  default = 8080;
  of_line = value_of "port" (λ v. to_uint16 (atoi v));
  of_env = λ getenv. case_option (getenv "CONFIG_DEMO_PORT") none (λ v. some (to_uint16 (atoi v)));
  of_option = port_option;
  at_first = refl;
  keeps = λ path cfg. refl;
  line_law =
      line_law_of (λ cfg. cfg.port) "port" (λ v. to_uint16 (atoi v))
        (λ key v cfg.
          key_cases
            (λ (k : Text).
              (apply_setting k v cfg).port
              ≡ or_else (if text_eq k (codes "port") then some (to_uint16 (atoi v)) else none)
                  cfg.port)
            refl refl refl refl (λ k no_a no_p no_l no_d. rw (no_a, no_p, no_l, no_d)) key);
  env_law = λ getenv cfg. (env_laws getenv cfg).1;
  option_law = λ opt cfg changed e. (option_laws opt cfg changed e).1;
}

unfoldable pub log_level_setting : Setting ℤ
unfolding apply_defaults apply_setting text_eq set_port set_log_level
log_level_setting = record {
  get = λ cfg. cfg.log_level;
  default = pos 3;
  of_line = value_of "log_level" (λ v. to_int (atoi v));
  of_env =
      λ getenv. case_option (getenv "CONFIG_DEMO_LOG_LEVEL") none (λ v. some (to_int (atoi v)));
  of_option = log_level_option;
  at_first = refl;
  keeps = λ path cfg. refl;
  line_law =
      line_law_of (λ cfg. cfg.log_level) "log_level" (λ v. to_int (atoi v))
        (λ key v cfg.
          key_cases
            (λ (k : Text).
              (apply_setting k v cfg).log_level
              ≡ or_else (if text_eq k (codes "log_level") then some (to_int (atoi v)) else none)
                  cfg.log_level)
            refl refl refl refl (λ k no_a no_p no_l no_d. rw (no_a, no_p, no_l, no_d)) key);
  env_law = λ getenv cfg. (env_laws getenv cfg).2;
  option_law = λ opt cfg changed e. (option_laws opt cfg changed e).2;
}

unfoldable pub debug_setting : Setting Bool
unfolding apply_defaults apply_setting text_eq set_port set_log_level
debug_setting = record {
  get = λ cfg. cfg.debug;
  default = false;
  of_line = value_of "debug" is_true;
  of_env = λ getenv. case_option (getenv "CONFIG_DEMO_DEBUG") none (λ v. some (is_true v));
  of_option = debug_option;
  at_first = refl;
  keeps = λ path cfg. refl;
  line_law =
      line_law_of (λ cfg. cfg.debug) "debug" is_true
        (λ key v cfg.
          key_cases
            (λ (k : Text).
              (apply_setting k v cfg).debug
              ≡ or_else (if text_eq k (codes "debug") then some (is_true v) else none) cfg.debug)
            refl refl refl refl (λ k no_a no_p no_l no_d. rw (no_a, no_p, no_l, no_d)) key);
  env_law = λ getenv cfg. (env_laws getenv cfg).3;
  option_law = λ opt cfg changed e. (option_laws opt cfg changed e).3;
}

-- When the program does not exit over its options, each of the four settings is what the last
-- option of the command line says of it; if none does, what its environment variable says; if there
-- is none, what the last line of the configuration file says that is about it; and else its default.
pub config_load-priority :
    (s : Surroundings) (line : CommandLine) (cfg : AppConfig)
    → config_load s line ≡ some cfg
    → (cfg.address ≡ layered address_setting s line)
      × (cfg.port ≡ layered port_setting s line)
      × (cfg.log_level ≡ layered log_level_setting s line)
      × (cfg.debug ≡ layered debug_setting s line)
unfolding address_setting port_setting log_level_setting debug_setting
config_load-priority s line cfg e = (
  config_load-layered address_setting s line cfg e,
  config_load-layered port_setting s line cfg e,
  config_load-layered log_level_setting s line cfg e,
  config_load-layered debug_setting s line cfg e,
)
