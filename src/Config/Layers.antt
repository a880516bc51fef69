-- ===== src/Config/Layers.antt =====
-- linux-c/config-demo: what one source does to one setting, as an interface, and what the sources
-- in a row do to it.
use Prim.Native.String.{String}
use mathlib.Core.Option.{some-injective}
use snippet.Base.{◌≡◌, refl, sym, ap, ◌∙◌, Option, none, some, List, [], ◌∷◌, case_option}
use snippet.Config.Text.{Text}
use snippet.Config.Sources.{
  AppConfig, CliOption, config_init, apply_defaults, apply_env_config, set_config_file, cli_step,
  apply_cli_args,
}
use snippet.Config.FileSource.{apply_line, apply_lines}

-- What a source says, if it says something, and else what there was.
abbrev pub or_else {ℓ} : {A : Type ℓ} → Option A → A → A
or_else o a = case_option o a (λ b. b)

-- What the last of a list says that says something.
abbrev pub last_of {ℓ κ} : {X : Type ℓ} {A : Type κ} → (X → Option A) → List X → Option A
last_of says [] = none
last_of says (x ∷ xs) = case_option (last_of says xs) (says x) some

-- A setting: where it stands in the configuration, what each source says of it, and that each
-- source changes it to what it says.
pub record Setting (A : Type 0) : Type 0 where
  pub get : AppConfig → A
  pub default : A
  pub of_line : Text → Option A
  pub of_env : (String → Option Text) → Option A
  pub of_option : CliOption → Option A
  pub at_first : get (apply_defaults config_init) ≡ default
  pub keeps : (path : Option Text) (cfg : AppConfig) → get (set_config_file path cfg) ≡ get cfg
  pub line_law :
      (line : Text) (cfg : AppConfig) → get (apply_line line cfg) ≡ or_else (of_line line) (get cfg)
  pub env_law :
      (getenv : String → Option Text) (cfg : AppConfig)
      → get (apply_env_config getenv cfg) ≡ or_else (of_env getenv) (get cfg)
  pub option_law :
      (opt : CliOption) (cfg changed : AppConfig)
      → cli_step opt cfg ≡ some changed
      → get changed ≡ or_else (of_option opt) (get cfg)

or_else-last {ℓ} :
    {A : Type ℓ} (last first : Option A) (a : A)
    → or_else last (or_else first a) ≡ or_else (case_option last first some) a
or_else-last none first a = refl
or_else-last (some b) first a = refl

module _ {A : Type 0} (setting : Setting A) where
  pub apply_lines-last :
      (lines : List Text) (cfg : AppConfig)
      → setting.get (apply_lines lines cfg)
        ≡ or_else (last_of setting.of_line lines) (setting.get cfg)
  unfolding apply_lines
  apply_lines-last [] cfg = refl
  apply_lines-last (line ∷ rest) cfg =
      apply_lines-last rest (apply_line line cfg)
      ∙ ap (or_else (last_of setting.of_line rest)) (setting.line_law line cfg)
      ∙ or_else-last (last_of setting.of_line rest) (setting.of_line line) (setting.get cfg)

module _ {A : Type 0} (get : AppConfig → A) (of_option : CliOption → Option A)
    (law : (opt : CliOption) (cfg changed : AppConfig)
      → cli_step opt cfg ≡ some changed
      → get changed ≡ or_else (of_option opt) (get cfg)) where
  apply_step :
      (opt : CliOption) (rest : List CliOption) (cfg changed : AppConfig) (o : Option AppConfig)
      → cli_step opt cfg ≡ o
      → ((next : AppConfig)
          → apply_cli_args rest next ≡ some changed
          → get changed ≡ or_else (last_of of_option rest) (get next))
      → case_option o none (λ next. apply_cli_args rest next) ≡ some changed
      → get changed ≡ or_else (last_of of_option (opt ∷ rest)) (get cfg)
  apply_step opt rest cfg changed none stops later e = cc
  apply_step opt rest cfg changed (some next) steps later e =
      later next e
      ∙ ap (or_else (last_of of_option rest)) (law opt cfg next steps)
      ∙ or_else-last (last_of of_option rest) (of_option opt) (get cfg)

  pub apply_cli_args-last :
      (options : List CliOption) (cfg changed : AppConfig)
      → apply_cli_args options cfg ≡ some changed
      → get changed ≡ or_else (last_of of_option options) (get cfg)
  unfolding apply_cli_args
  apply_cli_args-last [] cfg changed e = ap get (sym (some-injective _ _ e))
  apply_cli_args-last (opt ∷ rest) cfg changed e =
      apply_step opt rest cfg changed (cli_step opt cfg) refl
        (λ next e'. apply_cli_args-last rest next changed e') e
