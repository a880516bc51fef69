-- ===== src/BitMask/Ranges.antt =====
-- linux-c/sysfs-parser.c: `parse_array_to_bitmask` on lists of ranges as sysfs prints them.
use snippet.Base.{
  ℕ, zero, suc, ◌+◌, ◌-◌, ◌/◌, ◌%◌, ◌^◌, ◌<◌, ◌≤◌, ◌≡◌, refl, ap, ◌∙◌, inl, inr, List, [], ◌∷◌,
  length, ◌==◌, Bool-cases, ltb, leb, ◌&&◌, ◌||◌, true, false, some, if◌then◌else◌, arith,
}
use snippet.Netlink.{digits}
use snippet.BitMask.Parser.{
  DemoMask, one_at, starts_digit, ulong_max, strtoul, read_end, Parsed, set_bits, record_range,
  next_value, parse_values, parse_array_to_bitmask,
}
use snippet.BitMask.Bits.{same_bits, set_bits-range}
use snippet.BitMask.Printed.{printed, strtoul-printed}

-- The values from the first to the second, the first of which is a bit of the mask.
abbrev pub IsRange : ℕ × ℕ → Type 0
IsRange r = (r.0 < 64) × (r.0 ≤ r.1) × (r.1 < 2 ^ 32)

abbrev pub AreRanges : List (ℕ × ℕ) → Type 0
AreRanges [] = Unit {0}
AreRanges (r ∷ rs) = IsRange r × AreRanges rs

-- A range as sysfs prints it, before the rest of a text: one number when it has one value.
unfoldable pub print_range : ℕ × ℕ → List ℕ → List ℕ
unfolding printed
print_range r rest = if r.0 == r.1 then printed r.0 rest else printed r.0 (45 ∷ printed r.1 rest)

-- A line of ranges, before the rest of a text.
unfoldable pub print_ranges : ℕ × ℕ → List (ℕ × ℕ) → List ℕ → List ℕ
unfolding print_range
print_ranges r [] rest = print_range r (10 ∷ rest)
print_ranges r (next ∷ rs) rest = print_range r (44 ∷ print_ranges next rs rest)

-- The bits of a mask, and those in a range.
abbrev pub covered : DemoMask → List (ℕ × ℕ) → DemoMask
covered mask [] i = mask i
covered mask (r ∷ rs) i = covered mask rs i || (ltb i 64 && (leb r.0 i && leb i r.1))

-- What stands behind a range: neither a digit nor a dash.
EndsRange : List ℕ → Type 0
EndsRange [] = Unit {0}
EndsRange (c ∷ s) = (starts_digit (c ∷ s) ≡ false) × ((c == 45) ≡ false)

-- The numbers of a range are read from what is printed for it.
ReadsRange : ℕ × ℕ → List ℕ → List ℕ → Type 0
ReadsRange r s rest =
    (between : List ℕ) × (strtoul s ≡ some (r.0, between))
    × (read_end r.0 between ≡ some (r.1, rest))

print_range-ReadsRange :
    (r : ℕ × ℕ) (c : ℕ) (rest : List ℕ)
    → IsRange r
    → EndsRange (c ∷ rest)
    → ReadsRange r (print_range r (c ∷ rest)) (c ∷ rest)
unfolding print_range read_end ReadsRange EndsRange starts_digit
print_range-ReadsRange r c rest ok ends = elim (Bool-cases (r.0 == r.1)) [
  | inl one ↦
      let same : r.0 ≡ r.1 = ground arith in
      rw one (c ∷ rest, strtoul-printed r.0 (c ∷ rest) (omega arith) ends.0, rw (ends.1, same) refl)
  | inr two ↦
      let up : leb r.1 r.0 ≡ false = ground arith in
      rw two (
        45 ∷ printed r.1 (c ∷ rest),
        strtoul-printed r.0 (45 ∷ printed r.1 (c ∷ rest)) (omega arith) (ground arith),
        rw (strtoul-printed r.1 (c ∷ rest) (omega arith) ends.0, up) refl,
      )
]

-- A round of the loop, on a range that can be read.
parse_values-range :
    (rounds : ℕ) (mask : DemoMask) (r : ℕ × ℕ) (s rest : List ℕ)
    → IsRange r
    → ReadsRange r s rest
    → parse_values (suc rounds) mask s
      ≡ next_value
          (set_bits (suc r.1 - r.0) (one_at r.0) mask)
          rest
          (parse_values rounds (set_bits (suc r.1 - r.0) (one_at r.0) mask))
unfolding parse_values record_range ReadsRange
parse_values-range rounds mask r s rest ok (between, first, last) =
    let fits : ltb r.0 64 ≡ true = ground arith in
    let ends : (r.1 == ulong_max) ≡ false = ground arith in rw (first, last, fits, ends) refl

set_bits-covered :
    (mask : DemoMask) (r : ℕ × ℕ) (i : ℕ)
    → IsRange r
    → set_bits (suc r.1 - r.0) (one_at r.0) mask i
      ≡ (mask i || (ltb i 64 && (leb r.0 i && leb i r.1)))
set_bits-covered mask r i ok =
    let total : r.0 + (suc r.1 - r.0) ≡ suc r.1 = omega arith in
    let last : ltb i (suc r.1) ≡ leb i r.1 = ground arith in
    set_bits-range (suc r.1 - r.0) r.0 mask i ∙ rw (total, last) refl

covered-step :
    (mask : DemoMask) (r : ℕ × ℕ) (rs : List (ℕ × ℕ)) (i : ℕ)
    → IsRange r
    → covered (set_bits (suc r.1 - r.0) (one_at r.0) mask) rs i ≡ covered mask (r ∷ rs) i
covered-step mask r [] i ok = set_bits-covered mask r i ok
covered-step mask r (next ∷ rs) i ok = let ih = covered-step mask r rs i ok in ground arith

length-digits : (room n : ℕ) (out : List ℕ) → length out ≤ length (digits room n out)
unfolding digits
length-digits zero n out = omega arith
length-digits (suc room) n out =
    let more = length-digits room (n / 10) ((48 + n % 10) ∷ out) in ground arith

length-print_range : (r : ℕ × ℕ) (rest : List ℕ) → length rest ≤ length (print_range r rest)
unfolding print_range printed
length-print_range r rest =
    let one = length-digits 10 r.0 rest in
    let last = length-digits 10 r.1 rest in
    let first = length-digits 10 r.0 (45 ∷ printed r.1 rest) in ground arith

length-print_ranges :
    (r : ℕ × ℕ) (rs : List (ℕ × ℕ)) (rest : List ℕ) → length rs ≤ length (print_ranges r rs rest)
unfolding print_ranges
length-print_ranges r [] rest = omega arith
length-print_ranges r (next ∷ rs) rest =
    omega (
      arith,
      length-print_ranges next rs rest,
      length-print_range r (44 ∷ print_ranges next rs rest),
    )

parse_values-print :
    (rounds : ℕ) (mask : DemoMask) (r : ℕ × ℕ) (rs : List (ℕ × ℕ)) (rest : List ℕ)
    → length rs < rounds
    → AreRanges (r ∷ rs)
    → parse_values rounds mask (print_ranges r rs rest) ≡ Parsed.parsed (covered mask (r ∷ rs))
unfolding print_ranges next_value EndsRange starts_digit
parse_values-print zero mask r rs rest h ok = absurd (omega arith)
parse_values-print (suc rounds) mask r [] rest h ok =
    parse_values-range rounds mask r (print_ranges r [] rest) (10 ∷ rest) ok.0
      (print_range-ReadsRange r 10 rest ok.0 (ground arith))
    ∙ ap Parsed.parsed (same_bits (λ i. covered-step mask r [] i ok.0))
parse_values-print (suc rounds) mask r (next ∷ rs) rest h ok =
    parse_values-range rounds mask r (print_ranges r (next ∷ rs) rest)
      (44 ∷ print_ranges next rs rest) ok.0
      (print_range-ReadsRange r 44 (print_ranges next rs rest) ok.0 (ground arith))
    ∙ parse_values-print rounds (set_bits (suc r.1 - r.0) (one_at r.0) mask) next rs rest
        (omega arith) ok.1
    ∙ ap Parsed.parsed (same_bits (λ i. covered-step mask r (next ∷ rs) i ok.0))

-- A line of ranges as sysfs prints them, each of which begins in the mask, is read as the mask of
-- the values that are in one of the ranges and below 64, whatever their order and whatever stands
-- behind the line.
pub parse_array_to_bitmask-print_ranges :
    (r : ℕ × ℕ) (rs : List (ℕ × ℕ)) (rest : List ℕ)
    → AreRanges (r ∷ rs)
    → parse_array_to_bitmask (print_ranges r rs rest)
      ≡ Parsed.parsed (covered (λ i. false) (r ∷ rs))
unfolding parse_array_to_bitmask
parse_array_to_bitmask-print_ranges r rs rest ok =
    parse_values-print (suc (length (print_ranges r rs rest))) (λ i. false) r rs rest
      (omega (arith, length-print_ranges r rs rest)) ok
