-- ===== src/Config/Text.antt =====
-- What the sources of linux-c/config-demo use of the C library on texts: `isspace`, `strcmp`,
-- `strcasecmp`, `atoi`, and the trimming that file_source.c writes out. A text is its bytes without
-- the terminator.
use snippet.Base.{
  ℕ, ◌+◌, ◌-◌, ◌*◌, ◌%◌, ◌^◌, Bool, true, false, ◌&&◌, ◌||◌, List, [], ◌∷◌, ltb, leb, ◌==◌,
  if◌then◌else◌, ℤ, pos, neg,
}
use snippet.Posix.{codes}

abbrev pub Text : Type 0
Text = List ℕ

-- `isspace` in the C locale
abbrev pub is_space : ℕ → Bool
is_space c = (c == 32) || (leb 9 c && leb c 13)

-- `strcmp(a, b) == 0`
unfoldable pub text_eq : Text → Text → Bool
text_eq [] [] = true
text_eq [] (y ∷ b) = false
text_eq (x ∷ a) [] = false
text_eq (x ∷ a) (y ∷ b) = let rest = text_eq a b in if x == y then rest else false

abbrev pub to_lower : ℕ → ℕ
to_lower c = if leb 65 c && leb c 90 then c + 32 else c

abbrev pub lower : Text → Text
lower [] = []
lower (c ∷ s) = to_lower c ∷ lower s

-- `strcasecmp(a, b) == 0`
unfoldable pub text_eq_ignoring_case : Text → Text → Bool
unfolding text_eq
text_eq_ignoring_case a b = text_eq (lower a) (lower b)

-- The text behind its leading white space.
unfoldable pub skip_space : Text → Text
skip_space [] = []
skip_space (c ∷ s) = let rest = skip_space s in if is_space c then rest else c ∷ s

-- A byte before a text that is trimmed.
abbrev pub trim_step : ℕ → Text → Text
trim_step c [] = if is_space c then [] else c ∷ []
trim_step c (d ∷ s) = c ∷ d ∷ s

-- The text before its trailing white space.
unfoldable pub trim_end : Text → Text
trim_end [] = []
trim_end (c ∷ s) = trim_step c (trim_end s)

-- The digits at the front, read behind `n`.
unfoldable pub read_digits : ℕ → Text → ℕ
read_digits n [] = n
read_digits n (c ∷ s) =
    let more = read_digits (n * 10 + (c - 48)) s in if leb 48 c && leb c 57 then more else n

-- A number is kept in the range of `long`, and its low 32 bits are returned.
abbrev pub low_bits : Bool → ℕ → ℕ
low_bits true n = (2 ^ 64 - (if leb n (2 ^ 63) then n else 2 ^ 63)) % 2 ^ 32
low_bits false n = (if ltb n (2 ^ 63) then n else 2 ^ 63 - 1) % 2 ^ 32

unfoldable pub read_sign : Text → ℕ
unfolding read_digits
read_sign [] = 0
read_sign (c ∷ s) =
    if c == 45
    then low_bits true (read_digits 0 s)
    else if c == 43
    then low_bits false (read_digits 0 s)
    else low_bits false (read_digits 0 (c ∷ s))

-- The 32 bits of `atoi(s)`.
unfoldable pub atoi : Text → ℕ
unfolding read_sign skip_space
atoi s = read_sign (skip_space s)

-- 32 bits as an `int`, and cut to `uint16_t`.
abbrev pub to_int : ℕ → ℤ
to_int w = if ltb w (2 ^ 31) then pos w else neg (2 ^ 32 - w)

abbrev pub to_uint16 : ℕ → ℕ
to_uint16 w = w % 2 ^ 16

-- `strcmp(v, "1") == 0 || strcasecmp(v, "true") == 0`
unfoldable pub is_true : Text → Bool
unfolding text_eq text_eq_ignoring_case
is_true v = text_eq v (codes "1") || text_eq_ignoring_case v (codes "true")
