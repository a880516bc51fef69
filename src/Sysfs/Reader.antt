-- ===== src/Sysfs/Reader.antt =====
-- kernel-module/sysfs/demo_reader.c: the program that reads the entity back from sysfs.
use snippet.Base.{
  ℕ, ◌+◌, ◌-◌, ◌*◌, ◌^◌, Bool, true, false, not, ◌&&◌, ◌||◌, Option, none, some, List, [], ◌∷◌,
  ◌++◌, length, ltb, leb, ◌==◌, if◌then◌else◌, case_option, ℤ, pos, neg, is_zero,
}
use snippet.Posix.{Event, Trace, codes, overlay}
use snippet.Config.{skip_space, is_space}
use snippet.InetIo.{le_bytes}
use snippet.Sysfs.Entity.{Entity, entity_template, zeros, demo_version_str_len, demo_data_size}

-- The digits of base 16.
abbrev pub is_hex : ℕ → Bool
is_hex c = (leb 48 c && leb c 57) || (leb 97 c && leb c 102) || (leb 65 c && leb c 70)

abbrev pub hex_value : ℕ → ℕ
hex_value c = if leb c 57 then c - 48 else if leb 97 c then c - 87 else c - 55

unfoldable pub starts_hex : List ℕ → Bool
starts_hex [] = false
starts_hex (c ∷ s) = is_hex c

-- The number at the front, read behind `n`.
unfoldable pub span_hex : ℕ → List ℕ → ℕ
span_hex n [] = n
span_hex n (c ∷ s) = let more = span_hex (n * 16 + hex_value c) s in if is_hex c then more else n

-- A number out of range is `ULONG_MAX`, one behind a minus is negated.
unfoldable pub scan_digits : (minus : Bool) → List ℕ → Option ℕ
unfolding starts_hex span_hex
scan_digits minus s =
    if starts_hex s
    then some (
        let n = span_hex 0 s in
        if leb (2 ^ 64) n then 2 ^ 64 - 1 else if minus && not (n == 0) then 2 ^ 64 - n else n)
    else none

-- The digits behind "0x", or behind nothing.
unfoldable pub scan_prefixed : (minus : Bool) → List ℕ → Option ℕ
unfolding scan_digits
scan_prefixed minus (c ∷ x ∷ s) =
    if (c == 48) && ((x == 120) || (x == 88))
    then scan_digits minus s
    else scan_digits minus (c ∷ x ∷ s)
scan_prefixed minus s = scan_digits minus s

unfoldable pub scan_signed : List ℕ → Option ℕ
unfolding scan_prefixed
scan_signed [] = none
scan_signed (c ∷ s) =
    if c == 45
    then scan_prefixed true s
    else if c == 43
    then scan_prefixed false s
    else scan_prefixed false (c ∷ s)

-- `fscanf` with "%lx", and with "%s": the bytes up to white space, of which there is one at least.
unfoldable pub scan_magic : List ℕ → Option ℕ
unfolding scan_signed skip_space
scan_magic s = scan_signed (skip_space s)

unfoldable pub word : List ℕ → List ℕ
word [] = []
word (c ∷ s) = let rest = word s in if is_space c then [] else c ∷ rest

unfoldable pub scan_version : List ℕ → Option (List ℕ)
unfolding word skip_space
scan_version s = let w = word (skip_space s) in if length w == 0 then none else some w

abbrev pub magic_path : List ℕ
magic_path = codes "/sys/devices/demo-root/demo-sysfs/magic"

abbrev pub version_path : List ℕ
version_path = codes "/sys/devices/demo-root/demo-sysfs/version"

abbrev pub data_path : List ℕ
data_path = codes "/sys/devices/demo-root/demo-sysfs/data"

-- The system's answers: descriptors, also those behind `fopen`; the bytes of a stream; a `read`.
pub record Files : Type 0 where
  pub open_path : Trace → (path : List ℕ) → Option ℕ
  pub stream : Trace → (fd : ℕ) → List ℕ
  pub read : Trace → (fd : ℕ) → Option (List ℕ)

-- What a function leaves: the trace, and the entity with the value returned. There is neither when
-- "%s" writes past the end of `version`.
abbrev pub Read : Type 0
Read = Trace × Option (Entity × ℤ)

-- The version is stored with a terminator.
unfoldable pub store_version : List ℕ → Entity → Option (Entity × ℤ)
store_version w e =
    if ltb (length w) demo_version_str_len
    then some (record e { version = overlay (w ++ 0 ∷ []) e.version }, pos 0)
    else none

module _ (os : Files) where
  unfoldable pub read_version : Entity → Trace → Read
  unfolding scan_version store_version
  read_version e t =
      case_option (os.open_path t version_path) (t, some (e, neg 1))
        λ fd.
          let t₁ = Event.opened fd ∷ t in
          case_option (scan_version (os.stream t₁ fd)) (Event.closed fd ∷ t₁, some (e, neg 1))
            λ w. (Event.closed fd ∷ t₁, store_version w e)

  unfoldable pub read_entity_ascii : Entity → Trace → Read
  unfolding scan_magic read_version
  read_entity_ascii e t =
      case_option (os.open_path t magic_path) (t, some (e, neg 1))
        λ fd.
          let t₁ = Event.opened fd ∷ t in
          let t₂ = Event.closed fd ∷ t₁ in
          case_option (scan_magic (os.stream t₁ fd)) (t₂, some (e, neg 1))
            λ n. read_version (record e { magic = n }) t₂

  -- The descriptor is not closed behind a read that is complete.
  unfoldable pub read_entity_binary : Entity → Trace → Trace × Entity × ℤ
  read_entity_binary e t =
      case_option (os.open_path t data_path) (t, e, neg 1)
        λ fd.
          let t₁ = Event.opened fd ∷ t in
          case_option (os.read t₁ fd) (Event.closed fd ∷ t₁, e, neg 1)
            λ bytes.
              let t₂ = Event.received fd bytes ∷ t₁ in
              let filled = record e { data_bytes = overlay bytes e.data_bytes } in
              if length bytes == demo_data_size
              then (t₂, filled, pos 0)
              else (Event.closed fd ∷ t₂, filled, neg 1)

  -- What follows the texts: the value of `read_entity_binary` is not returned.
  unfoldable pub read_rest : Trace → Option (Entity × ℤ) → Read
  unfolding read_entity_binary
  read_rest t none = (t, none)
  read_rest t (some (e, ret)) =
      if not (is_zero ret)
      then (t, some (e, ret))
      else let (t₁, filled, binary_ret) = read_entity_binary e t in (t₁, some (filled, pos 0))

  unfoldable pub read_entity : Entity → Trace → Read
  unfolding read_entity_ascii read_rest
  read_entity e t = let ascii = read_entity_ascii e t in read_rest ascii.0 ascii.1

-- `memcmp` of two arrays of one length.
unfoldable pub memcmp : List ℕ → List ℕ → ℤ
memcmp [] b = pos 0
memcmp (x ∷ a) [] = pos 0
memcmp (x ∷ a) (y ∷ b) =
    let rest = memcmp a b in if x == y then rest else if ltb x y then neg 1 else pos 1

abbrev pub entity_bytes : Entity → List ℕ
entity_bytes e = le_bytes 8 e.magic ++ e.version ++ e.data_bytes

abbrev pub cleared : Entity
cleared = record {
  magic = 0;
  version = zeros demo_version_str_len;
  data_bytes = zeros demo_data_size;
}

-- The end of `main`, for what `read_entity` gave.
unfoldable pub compare_entity : Option (Entity × ℤ) → Option ℤ
unfolding memcmp
compare_entity none = none
compare_entity (some (e, ret)) =
    if not (is_zero ret)
    then some ret
    else some (memcmp (entity_bytes e) (entity_bytes entity_template))

unfoldable pub sysfs_reader_main : Files → Trace → Trace × Option ℤ
unfolding read_entity compare_entity
sysfs_reader_main os t = let (t₁, answer) = read_entity os cleared t in (t₁, compare_entity answer)
