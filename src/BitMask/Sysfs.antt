-- ===== src/BitMask/Sysfs.antt =====
-- linux-c/sysfs-parser.c: `read_sysfs_str` and `main`. The second text that `main` parses is a
-- constant. What is only printed is left out.
use snippet.Base.{
  ℕ, Option, none, some, List, ◌∷◌, take, not, ◌==◌, if◌then◌else◌, case_option, ℤ, pos, neg,
}
use snippet.Posix.{Event, Trace, codes, overlay}
use snippet.BitMask.Parser.{Parsed, parse_array_to_bitmask}

-- The system's answers. `file` is what the file holds, if it can be read.
pub record Sysfs : Type 0 where
  pub open_path : Trace → Option ℕ
  pub file : Trace → Option (List ℕ)
  pub errno : Trace → ℕ

abbrev pub buffer_size : ℕ
buffer_size = 64

-- The trace, the buffer and the value returned; `str` is what the buffer holds before, and has `len`
-- bytes. A read gives so many bytes at most.
unfoldable pub read_sysfs_str : Sysfs → (str : List ℕ) → (len : ℕ) → Trace → Trace × List ℕ × ℕ
read_sysfs_str os str len t =
    case_option (os.open_path t) (t, str, os.errno t)
      λ fd.
        let t₁ = Event.opened fd ∷ t in
        case_option (os.file t₁) (t₁, str, os.errno t₁)
          λ content.
            let bytes = take len content in
            (Event.closed fd ∷ Event.received fd bytes ∷ t₁, overlay bytes str, 0)

-- The value of a call of the parser, and what follows one that is 0. There is no value behind a
-- call that does not return, or that C does not define.
unfoldable pub if_parsed : Parsed → Option ℤ → Option ℤ
if_parsed (Parsed.parsed mask) next = next
if_parsed Parsed.failed next = some (neg 1)
if_parsed Parsed.undefined next = none
if_parsed Parsed.endless next = none
if_parsed Parsed.running next = none

unfoldable pub sysfs_main : Sysfs → (str : List ℕ) → Trace → Trace × Option ℤ
unfolding read_sysfs_str if_parsed
sysfs_main os str t =
    let (t₁, str₁, ret) = read_sysfs_str os str buffer_size t in
    if not (ret == 0) then (t₁, some (pos ret)) else (
      t₁,
      if_parsed (parse_array_to_bitmask str₁)
          (if_parsed (parse_array_to_bitmask (codes "0-1,3,5-8,10\n")) (some (pos 0))),
    )
