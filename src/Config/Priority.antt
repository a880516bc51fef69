-- ===== src/Config/Priority.antt =====
-- linux-c/config-demo: the command line overrides the environment, the environment the file, and
-- the file the defaults.
use mathlib.Core.Option.{some-injective}
use snippet.Base.{
  Option-cases, inl, inr, ◌≡◌, refl, sym, ap, ◌∙◌, Option, none, some, List, [], ◌∷◌, case_option,
  case_option-rule, if-rule, take, ◌++◌,
}
use snippet.Posix.{codes}
use snippet.Config.Text.{Text, text_eq}
use snippet.Config.Sources.{
  AppConfig, config_init, apply_defaults, apply_env_config, set_config_file,
  apply_cli_args_for_config_file, when_set, is_config_option,
}
use snippet.Config.FileSource.{Surroundings, find_config_file, lines_of, apply_file_config}
use snippet.Config.Load.{CommandLine, config_load}
use snippet.Config.Layers.{or_else, last_of, Setting, apply_lines-last, apply_cli_args-last}

-- The lines that `apply_file_config` reads.
pub lines_read : Surroundings → AppConfig → List Text
lines_read s cfg = case_option (find_config_file s cfg) [] λ found. lines_of s found.config_file

-- The lines of the configuration file that is read.
pub config_lines : Surroundings → CommandLine → List Text
config_lines s line =
    lines_read s (apply_cli_args_for_config_file line.beyond line.args (apply_defaults config_init))

-- What the sources say of a setting, the one of highest priority first.
abbrev pub layered : {A : Type 0} → Setting A → Surroundings → CommandLine → A
layered setting s line = or_else (last_of setting.of_option line.options) (
    or_else (setting.of_env s.getenv)
      (or_else (last_of setting.of_line (config_lines s line)) setting.default))

module _ {A : Type 0} (setting : Setting A) where
  prescan-keeps :
      (beyond : Text) (args : List Text) (cfg : AppConfig)
      → setting.get (apply_cli_args_for_config_file beyond args cfg) ≡ setting.get cfg
  unfolding apply_cli_args_for_config_file
  prescan-keeps beyond [] cfg = refl
  prescan-keeps beyond (arg ∷ []) cfg =
      if-rule (λ (c : AppConfig). setting.get c ≡ setting.get cfg) (is_config_option arg)
        (λ option. setting.keeps _ cfg) (λ other. refl)
  prescan-keeps beyond (arg ∷ next ∷ rest) cfg =
      prescan-keeps beyond (next ∷ rest) _
      ∙ if-rule (λ (c : AppConfig). setting.get c ≡ setting.get cfg) (text_eq arg (codes "-c"))
          (λ short. setting.keeps _ cfg)
          (λ other.
            if-rule (λ (c : AppConfig). setting.get c ≡ setting.get cfg) (is_config_option arg)
              (λ option. setting.keeps _ cfg) (λ other'. refl))

  -- What holds of a file that was chosen.
  abbrev Chosen : AppConfig → Option AppConfig → Type 0
  Chosen cfg o = (found : AppConfig) → o ≡ some found → setting.get found ≡ setting.get cfg

  with_path : (path : Text) (cfg : AppConfig) → Chosen cfg (some (set_config_file (some path) cfg))
  with_path path cfg found e =
      ap setting.get (sym (some-injective _ _ e)) ∙ setting.keeps (some path) cfg

  find-keeps : (s : Surroundings) (cfg : AppConfig) → Chosen cfg (find_config_file s cfg)
  unfolding find_config_file
  find-keeps s cfg =
      case_option-rule (Chosen cfg) cfg.config_file
        (λ not_given.
          if-rule (Chosen cfg) (s.exists (codes "/etc/config-demo.conf"))
            (λ system. with_path (codes "/etc/config-demo.conf") cfg)
            (λ no_system.
              case_option-rule (Chosen cfg) (s.getenv "HOME") (λ homeless found e. cc)
                (λ home known.
                  let user_config = take 511 (home ++ codes "/.config/config-demo.conf") in
                  if-rule (Chosen cfg) (s.exists user_config) (λ user. with_path user_config cfg)
                    (λ no_user found e. cc))))
        (λ path given found e. ap setting.get (sym (some-injective _ _ e)))

  apply_file_config-last :
      (s : Surroundings) (cfg : AppConfig)
      → setting.get (apply_file_config s cfg)
        ≡ or_else (last_of setting.of_line (lines_read s cfg)) (setting.get cfg)
  unfolding apply_file_config lines_read
  apply_file_config-last s cfg = elim (Option-cases (find_config_file s cfg)) [
    | inl missing ↦ rw (missing)
    | inr (found, e) ↦
        let kept = find-keeps s cfg found e in
        rw (e) (
          apply_lines-last setting (lines_of s found.config_file) found
          ∙ ap (or_else (last_of setting.of_line (lines_of s found.config_file))) kept)
  ]

  pub config_load-layered :
      (s : Surroundings) (line : CommandLine) (cfg : AppConfig)
      → config_load s line ≡ some cfg
      → setting.get cfg ≡ layered setting s line
  unfolding config_load config_lines
  config_load-layered s line cfg e =
      let cfg₁ = apply_defaults config_init in
      let cfg₂ = apply_cli_args_for_config_file line.beyond line.args cfg₁ in
      let cfg₃ = apply_file_config s cfg₂ in
      let first = prescan-keeps line.beyond line.args cfg₁ ∙ setting.at_first in
      let file =
        apply_file_config-last s cfg₂
        ∙ ap (or_else (last_of setting.of_line (lines_read s cfg₂))) first in
      apply_cli_args-last setting.get setting.of_option setting.option_law line.options
        (apply_env_config s.getenv cfg₃) cfg e
      ∙ ap (or_else (last_of setting.of_option line.options))
          (setting.env_law s.getenv cfg₃ ∙ ap (or_else (setting.of_env s.getenv)) file)

-- A source that may say something of one field.
module _ {A : Type 0} (get : AppConfig → A) (says : Text → A) where
  pub when_set-here :
      (o : Option Text) (f : Text → AppConfig → AppConfig) (cfg : AppConfig)
      → ((v : Text) → get (f v cfg) ≡ says v)
      → get (when_set o f cfg) ≡ or_else (case_option o none (λ v. some (says v))) (get cfg)
  when_set-here none f cfg h = refl
  when_set-here (some v) f cfg h = h v

module _ {A : Type 0} (get : AppConfig → A) where
  pub when_set-elsewhere :
      (o : Option Text) (f : Text → AppConfig → AppConfig) (cfg : AppConfig)
      → ((v : Text) → get (f v cfg) ≡ get cfg)
      → get (when_set o f cfg) ≡ get cfg
  when_set-elsewhere none f cfg h = refl
  when_set-elsewhere (some v) f cfg h = h v
