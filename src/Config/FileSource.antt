-- ===== src/Config/FileSource.antt =====
-- linux-c/config-demo/file_source.c: `find_config_file` and `apply_file_config`.
use Prim.Native.String.{String}
use snippet.Base.{
  ℕ, zero, suc, ◌-◌, Bool, false, ◌||◌, Option, none, some, List, [], ◌∷◌, ◌++◌, take, length, ◌==◌,
  if◌then◌else◌, case_option,
}
use snippet.Posix.{codes}
use snippet.Config.Text.{Text, text_eq, skip_space, trim_end, is_true}
use snippet.Config.Sources.{
  AppConfig, set_address, set_config_file, set_port, set_log_level, set_debug,
}

abbrev pub max_line_length : ℕ
max_line_length = 512

-- The bytes of a line that a buffer has room for.
unfoldable pub line_room : ℕ
line_room = max_line_length - 1

-- What the program is told by the system: the environment, and the bytes of a file that can be
-- read. `access(path, F_OK)` is `exists`.
pub record Surroundings : Type 0 where
  pub getenv : String → Option Text
  pub exists : Text → Bool
  pub contents : Text → Option (List ℕ)

-- A file is chosen, or the result is -1 and the configuration as it was. `snprintf` cuts the path
-- to 511 bytes.
unfoldable pub find_config_file : Surroundings → AppConfig → Option AppConfig
find_config_file s cfg =
    case_option cfg.config_file
      (if s.exists (codes "/etc/config-demo.conf")
        then some (set_config_file (some (codes "/etc/config-demo.conf")) cfg)
        else case_option (s.getenv "HOME") none λ home.
          let user_config = take 511 (home ++ codes "/.config/config-demo.conf") in
          if s.exists user_config then some (set_config_file (some user_config) cfg) else none)
      (λ given. some cfg)

-- `fgets` of at most `n` bytes: the line, its newline included, and what is left of the file.
unfoldable pub fgets : ℕ → List ℕ → List ℕ × List ℕ
fgets zero bytes = ([], bytes)
fgets (suc n) [] = ([], [])
fgets (suc n) (b ∷ bytes) =
    let (line, rest) = fgets n bytes in if b == 10 then (b ∷ [], bytes) else (b ∷ line, rest)

-- The C string at the front of a buffer.
abbrev pub c_prefix : List ℕ → Text
c_prefix [] = []
c_prefix (b ∷ bytes) = let rest = c_prefix bytes in if b == 0 then [] else b ∷ rest

-- The lines that the loop sees. One that `fgets` returns is not empty, so there are at most as many
-- as bytes.
unfoldable pub file_lines : ℕ → List ℕ → List Text
unfolding fgets
file_lines zero bytes = []
file_lines (suc fuel) [] = []
file_lines (suc fuel) (b ∷ bytes) =
    let (line, rest) = fgets line_room (b ∷ bytes) in c_prefix line ∷ file_lines fuel rest

-- `strchr(s, '=')`: what stands before and behind the first `=`.
unfoldable pub split_at_eq : Text → Option (Text × Text)
split_at_eq [] = none
split_at_eq (c ∷ s) =
    let rest = split_at_eq s in
    if c == 61 then some ([], s) else case_option rest none λ halves. some (c ∷ halves.0, halves.1)

-- '#' or ';'
abbrev pub starts_comment : Text → Bool
starts_comment [] = false
starts_comment (c ∷ s) = (c == 35) || (c == 59)

-- The key and the value of a line, or none where the loop continues: from the first byte that is no
-- white space on, and of the whole line.
unfoldable pub parse_trimmed : Text → Option (Text × Text)
unfolding skip_space trim_end split_at_eq
parse_trimmed trimmed =
    if starts_comment trimmed
    then none
    else case_option (split_at_eq trimmed) none
        λ halves. some (trim_end halves.0, trim_end (take line_room (skip_space halves.1)))

unfoldable pub parse_line : Text → Option (Text × Text)
unfolding parse_trimmed
parse_line line = parse_trimmed (skip_space line)

unfoldable pub apply_setting : Text → Text → AppConfig → AppConfig
unfolding text_eq set_port set_log_level is_true
apply_setting key value cfg =
    if text_eq key (codes "address")
    then set_address (some value) cfg
    else if text_eq key (codes "port")
    then set_port value cfg
    else if text_eq key (codes "log_level")
    then set_log_level value cfg
    else if text_eq key (codes "debug")
    then set_debug (is_true value) cfg
    else cfg

unfoldable pub apply_line : Text → AppConfig → AppConfig
unfolding parse_line apply_setting
apply_line line cfg =
    case_option (parse_line line) cfg λ setting. apply_setting setting.0 setting.1 cfg

unfoldable pub apply_lines : List Text → AppConfig → AppConfig
unfolding apply_line
apply_lines [] cfg = cfg
apply_lines (line ∷ rest) cfg = apply_lines rest (apply_line line cfg)

-- The lines of the file that is read, none when there is no file or it cannot be opened.
unfoldable pub lines_of : Surroundings → Option Text → List Text
unfolding file_lines
lines_of s path =
    case_option path []
      λ name. case_option (s.contents name) [] λ bytes. file_lines (length bytes) bytes

-- The result of -1 is not used.
unfoldable pub apply_file_config : Surroundings → AppConfig → AppConfig
unfolding find_config_file apply_lines lines_of
apply_file_config s cfg =
    case_option (find_config_file s cfg) cfg
      λ found. apply_lines (lines_of s found.config_file) found
