-- ===== src/BitMask/Parser.antt =====
-- linux-c/sysfs-parser.c: `parse_array_to_bitmask`. A text is its bytes without the terminator.
use snippet.Base.{
  ℕ, zero, suc, ◌+◌, ◌-◌, ◌*◌, ◌^◌, Bool, true, false, not, ◌&&◌, ◌||◌, Option, none, some, List,
  [], ◌∷◌, length, ltb, leb, ◌==◌, if◌then◌else◌, case_option,
}
use snippet.Config.{skip_space}

-- `demo_mask_t`, 64 bits: whether the bit `i` is set.
abbrev pub DemoMask : Type 0
DemoMask = ℕ → Bool

-- `(demo_mask_t)1 << start`, `bit <<= 1` and `*demo_mask |= bit`
abbrev pub one_at : ℕ → DemoMask
one_at start i = ltb i 64 && (i == start)

abbrev pub shifted : DemoMask → DemoMask
shifted bit zero = false
shifted bit (suc i) = ltb (suc i) 64 && bit i

abbrev pub with_bit : DemoMask → DemoMask → DemoMask
with_bit mask bit i = mask i || bit i

-- The loop over a range, which has `count` values.
unfoldable pub set_bits : (count : ℕ) → (bit mask : DemoMask) → DemoMask
set_bits zero bit mask = mask
set_bits (suc count) bit mask = set_bits count (shifted bit) (with_bit mask bit)

abbrev pub is_digit : ℕ → Bool
is_digit c = leb 48 c && leb c 57

unfoldable pub starts_digit : List ℕ → Bool
starts_digit [] = false
starts_digit (c ∷ s) = is_digit c

-- The digits at the front, read behind `n`, and what stands behind them.
unfoldable pub span_digits : ℕ → List ℕ → ℕ × List ℕ
span_digits n [] = (n, [])
span_digits n (c ∷ s) =
    let more = span_digits (n * 10 + (c - 48)) s in if is_digit c then more else (n, c ∷ s)

abbrev pub ulong_max : ℕ
ulong_max = 2 ^ 64 - 1

-- A number out of range is `ULONG_MAX`, one behind a minus is negated.
abbrev pub to_ulong : (minus : Bool) → ℕ → ℕ
to_ulong minus n =
    if ltb ulong_max n then ulong_max else if minus && not (n == 0) then 2 ^ 64 - n else n

unfoldable pub magnitude : (minus : Bool) → List ℕ → Option (ℕ × List ℕ)
unfolding starts_digit span_digits
magnitude minus s =
    if starts_digit s then some (to_ulong minus (span_digits 0 s).0, (span_digits 0 s).1) else none

unfoldable pub signed : List ℕ → Option (ℕ × List ℕ)
unfolding magnitude
signed [] = none
signed (c ∷ s) =
    if c == 45
    then magnitude true s
    else if c == 43
    then magnitude false s
    else magnitude false (c ∷ s)

-- `strtoul(cursor, &end, 10)`: the value, and the text at `end`; nothing when `end == cursor`.
unfoldable pub strtoul : List ℕ → Option (ℕ × List ℕ)
unfolding signed skip_space
strtoul cursor = signed (skip_space cursor)

-- The second value, if there is one, with what stands behind it.
unfoldable pub read_end : ℕ → List ℕ → Option (ℕ × List ℕ)
unfolding strtoul
read_end start [] = some (start, [])
read_end start (c ∷ s) =
    if c == 45
    then case_option (strtoul s) none (λ last. if leb last.0 start then none else some last)
    else some (start, c ∷ s)

-- What a call comes to: the value -1, a shift by more than the mask has bits, which C does not
-- define, a loop up to `ULONG_MAX`, which does not end, the rounds used up, or 0 with the mask.
pub data Parsed : Type 0 where
  failed undefined endless running : Parsed
  parsed : DemoMask → Parsed

-- The range is recorded in the mask.
unfoldable pub record_range : DemoMask → (start last : ℕ) → (DemoMask → Parsed) → Parsed
unfolding set_bits
record_range mask start last next =
    if not (ltb start 64)
    then Parsed.undefined
    else if last == ulong_max
    then Parsed.endless
    else next (set_bits (suc last - start) (one_at start) mask)

-- The end of a round: the next value, or the end of the line.
unfoldable pub next_value : DemoMask → List ℕ → (List ℕ → Parsed) → Parsed
next_value mask [] again = Parsed.failed
next_value mask (c ∷ s) again =
    if c == 44 then again s else if c == 10 then Parsed.parsed mask else Parsed.failed

-- The loop, for `rounds` rounds at most.
unfoldable pub parse_values : (rounds : ℕ) → DemoMask → List ℕ → Parsed
unfolding strtoul read_end record_range next_value
parse_values zero mask cursor = Parsed.running
parse_values (suc rounds) mask cursor = case_option (strtoul cursor) Parsed.failed λ first.
    case_option (read_end first.0 first.1) Parsed.failed λ last.
      record_range mask first.0 last.0 λ mask'. next_value mask' last.1 (parse_values rounds mask')

unfoldable pub parse_array_to_bitmask : List ℕ → Parsed
unfolding parse_values
parse_array_to_bitmask str = parse_values (suc (length str)) (λ i. false) str
