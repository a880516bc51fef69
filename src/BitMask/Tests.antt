-- ===== src/BitMask/Tests.antt =====
-- Runs of linux-c/sysfs-parser.c on concrete texts.
use snippet.Base.{ℕ, ◌≡◌, refl, List, Option, some, [], ◌∷◌, false, arith}
use snippet.Posix.{codes}
use snippet.Netlink.{digits}
use snippet.BitMask.Parser.{Parsed, parse_array_to_bitmask}
use snippet.BitMask.Rounds.{EndsIn, parse_array_to_bitmask_ends}
use snippet.BitMask.Sysfs.{Sysfs}
use snippet.BitMask.Ranges.{print_ranges, covered, parse_array_to_bitmask-print_ranges}

-- The line of `main`.
abbrev line_of_main : List (ℕ × ℕ)
line_of_main = (3, 3) ∷ (5, 8) ∷ (10, 10) ∷ []

line_is_printed : print_ranges (0, 1) line_of_main [] ≡ codes "0-1,3,5-8,10\n"
unfolding print_ranges digits
line_is_printed = refl

parse_array_to_bitmask-print_ranges_example :
    parse_array_to_bitmask (print_ranges (0, 1) line_of_main [])
    ≡ Parsed.parsed (covered (λ i. false) ((0, 1) ∷ line_of_main))
parse_array_to_bitmask-print_ranges_example =
    parse_array_to_bitmask-print_ranges (0, 1) line_of_main [] (omega arith)

parse_array_to_bitmask_ends_example :
    EndsIn
      (codes "0-18446744073709551615\n")
      (parse_array_to_bitmask (codes "0-18446744073709551615\n"))
parse_array_to_bitmask_ends_example = parse_array_to_bitmask_ends (codes "0-18446744073709551615\n")

no_newline_fails : parse_array_to_bitmask (codes "0-1") ≡ Parsed.failed
unfolding parse_array_to_bitmask
no_newline_fails = refl

too_large_undefined : parse_array_to_bitmask (codes "64\n") ≡ Parsed.undefined
unfolding parse_array_to_bitmask
too_large_undefined = refl

to_the_end_endless : parse_array_to_bitmask (codes "0-18446744073709551615\n") ≡ Parsed.endless
unfolding parse_array_to_bitmask
to_the_end_endless = refl

-- A system on which one file can be opened.
abbrev with_file : Option (List ℕ) → Sysfs
with_file bytes = record { open_path = λ t. some 3; file = λ t. bytes; errno = λ t. 5 }

abbrev old_bytes : List ℕ
old_bytes = 7 ∷ 7 ∷ 7 ∷ 7 ∷ 7 ∷ 7 ∷ []

abbrev one_line : Sysfs
one_line = with_file (some (print_ranges (0, 1) [] []))
