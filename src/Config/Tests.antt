-- ===== src/Config/Tests.antt =====
-- Runs of linux-c/config-demo, and the theorems at concrete inputs.
use Prim.{tt}
use snippet.Base.{
  if◌then◌else◌, ℕ, ◌==◌, ◌≡◌, ◌≢◌, refl, true, false, List, [], ◌∷◌, ◌++◌, none, some, pos, neg,
  arith,
}
use snippet.Posix.{codes}
use snippet.Config.Text.{Text, text_eq, atoi, to_int, to_uint16, is_true}
use snippet.Config.Sources.{AppConfig, CliOption}
use snippet.Config.FileSource.{Surroundings, fgets, file_lines, parse_line, line_room}
use snippet.Config.Load.{CommandLine, config_load}
use snippet.Config.Priority.{layered}
use snippet.Config.Settings.{
  address_setting, port_setting, log_level_setting, debug_setting, config_load-priority,
}
use snippet.Config.Lines.{NoEquals, parse_line-print}
use snippet.Config.Reading.{AreLines, written, ended, joined, joined-file_lines, file_lines-written}

numbers_read :
    (to_int (atoi (codes " -12x")) ≡ neg 12)
    × (to_uint16 (atoi (codes "70000")) ≡ 4464)
    × (to_int (atoi (codes "4294967297")) ≡ pos 1)
unfolding atoi
numbers_read = (refl, refl, refl)

-- A file that sets the port and the level, and a port in the environment.
abbrev file_bytes : List ℕ
file_bytes =
    codes "port = 7000" ++ 10 ∷ (codes "# debug=1" ++ 10 ∷ (codes "log_level=2" ++ 10 ∷ []))

abbrev environment : Surroundings
unfolding text_eq
environment = record {
  getenv =
      λ name. if text_eq (codes name) (codes "CONFIG_DEMO_PORT") then some (codes "9000") else none;
  exists = λ path. false;
  contents = λ path. some file_bytes;
}

abbrev command_line : CommandLine
command_line = record {
  beyond = [];
  args = codes "-d" ∷ codes "-c" ∷ codes "demo.conf" ∷ [];
  options = CliOption.option_d ∷ CliOption.option_c none ∷ [];
}

-- The address is the default, the port that of the environment, the level that of the file; and
-- the name of the file is lost.
abbrev loaded : AppConfig
loaded = record {
  address = some (codes "localhost");
  port = 9000;
  log_level = pos 2;
  debug = true;
  config_file = none;
}

config_load-loaded : config_load environment command_line ≡ some loaded
unfolding config_load atoi text_eq is_true line_room fgets
config_load-loaded = refl

config_load-priority_example :
    (loaded.address ≡ layered address_setting environment command_line)
    × (loaded.port ≡ layered port_setting environment command_line)
    × (loaded.log_level ≡ layered log_level_setting environment command_line)
    × (loaded.debug ≡ layered debug_setting environment command_line)
config_load-priority_example =
    config_load-priority environment command_line loaded config_load-loaded

differ : (a b : ℕ) → (a == b) ≡ false → a ≢ b
differ a b e same = ground arith

port-NoEquals : NoEquals (codes "port")
port-NoEquals =
    (differ 112 61 refl, (differ 111 61 refl, (differ 114 61 refl, (differ 116 61 refl, tt))))

-- "  port = 7000\n"
parse_line-print_example :
    parse_line (
      32 ∷ 32 ∷ []
      ++ (((112 ∷ codes "ort") ++ 32 ∷ []) ++ 61 ∷ (32 ∷ [] ++ (codes "7000" ++ 10 ∷ []))))
    ≡ some (112 ∷ codes "ort", codes "7000")
parse_line-print_example =
    parse_line-print (32 ∷ 32 ∷ []) (32 ∷ []) (32 ∷ []) (10 ∷ []) 112 (codes "ort") (codes "7000")
      (refl, (refl, tt)) (refl, tt) (refl, tt) (refl, tt) refl refl port-NoEquals
      (λ e. absurd (omega (arith, e))) (λ e. absurd (omega (arith, e))) refl refl (omega arith)

joined-file_lines_example : joined (file_lines 40 file_bytes) ≡ file_bytes
joined-file_lines_example = joined-file_lines 40 file_bytes (ground arith) (omega arith)

abbrev two_lines : List Text
two_lines = codes "a=1" ∷ [] ∷ []

two_lines-AreLines : AreLines two_lines
two_lines-AreLines = (
  (
    differ 97 10 refl,
    differ 97 0 refl,
    (differ 61 10 refl, differ 61 0 refl, (differ 49 10 refl, differ 49 0 refl, tt)),
  ),
  omega arith,
  (tt, omega arith, tt),
)

file_lines-written_example : file_lines 5 (written two_lines) ≡ ended two_lines
file_lines-written_example = file_lines-written two_lines 5 two_lines-AreLines (omega arith)
