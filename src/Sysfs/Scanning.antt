-- ===== src/Sysfs/Scanning.antt =====
-- kernel-module/sysfs: the scans of demo_reader.c on the texts of the attributes of demo_sysfs.c.
use snippet.Base.{
  ℕ, zero, suc, ◌+◌, ◌*◌, ◌/◌, ◌%◌, ◌^◌, ◌<◌, ◌≡◌, refl, ap, ◌∙◌, inl, inr, List, [], ◌∷◌, ◌++◌,
  length, leb, ◌==◌, Bool-cases, true, false, some, arith,
}
use snippet.Config.{skip_space, is_space, c_prefix}
use snippet.Sysfs.Entity.{Entity, zeros}
use snippet.Sysfs.DemoSysfs.{hex_char, hex_digits, magic_show, version_show}
use snippet.Sysfs.Reader.{
  is_hex, hex_value, starts_hex, span_hex, scan_digits, scan_prefixed, scan_signed, scan_magic,
  word, scan_version,
}

is_hex-hex_char : (n : ℕ) → is_hex (hex_char (n % 16)) ≡ true
is_hex-hex_char n = ground arith

hex_value-hex_char : (n : ℕ) → hex_value (hex_char (n % 16)) ≡ n % 16
hex_value-hex_char n = ground arith

span_hex-digit :
    (k n : ℕ) (out : List ℕ)
    → k * 16 + n % 16 ≡ n
    → span_hex k (hex_char (n % 16) ∷ out) ≡ span_hex n out
unfolding span_hex
span_hex-digit k n out e = rw (is_hex-hex_char n, hex_value-hex_char n, e) refl

power16 : ℕ → ℕ
power16 zero = 1
power16 (suc k) = 16 * power16 k

span_hex-hex_digits :
    (room n : ℕ) (out : List ℕ)
    → n < power16 room
    → span_hex 0 (hex_digits room n out) ≡ span_hex n out
unfolding span_hex hex_digits power16
span_hex-hex_digits zero n out h = let e : n ≡ 0 = omega arith in rw e refl
span_hex-hex_digits (suc room) n out h =
    let longer = hex_char (n % 16) ∷ out in
    let step = λ (k : ℕ) (e : k * 16 + n % 16 ≡ n). span_hex-digit k n out e in
    elim (Bool-cases (n / 16 == 0)) [
      | inl last ↦ rw last (step 0 (ground arith))
      | inr more ↦
          rw more
            (span_hex-hex_digits room (n / 16) longer (omega arith) ∙ step (n / 16) (omega arith))
    ]

starts_hex-hex_digits :
    (room n : ℕ) (out : List ℕ) → starts_hex out ≡ true → starts_hex (hex_digits room n out) ≡ true
unfolding hex_digits starts_hex
starts_hex-hex_digits zero n out h = h
starts_hex-hex_digits (suc room) n out h = elim (Bool-cases (n / 16 == 0)) [
  | inl last ↦ rw last (is_hex-hex_char n)
  | inr more ↦
      rw more (starts_hex-hex_digits room (n / 16) (hex_char (n % 16) ∷ out) (is_hex-hex_char n))
]

starts_hex-number : (room n : ℕ) (out : List ℕ) → starts_hex (hex_digits (suc room) n out) ≡ true
unfolding hex_digits starts_hex
starts_hex-number room n out = elim (Bool-cases (n / 16 == 0)) [
  | inl last ↦ rw last (is_hex-hex_char n)
  | inr more ↦
      rw more (starts_hex-hex_digits room (n / 16) (hex_char (n % 16) ∷ out) (is_hex-hex_char n))
]

-- The digits of a number in 64 bits.
scan_digits-hex_digits : (n : ℕ) → n < 2 ^ 64 → scan_digits false (hex_digits 16 n []) ≡ some n
unfolding scan_digits power16
scan_digits-hex_digits n h =
    let starts : starts_hex (hex_digits 16 n []) ≡ true = starts_hex-number 15 n [] in
    let value : span_hex 0 (hex_digits 16 n []) ≡ n =
      span_hex-hex_digits 16 n [] (omega arith) ∙ refl in
    let fits : leb (2 ^ 64) n ≡ false = ground arith in rw (starts, value, fits) refl

-- The number that is shown is read back.
pub scan_magic-magic_show :
    (e : Entity) → e.magic < 2 ^ 64 → scan_magic (magic_show e) ≡ some e.magic
unfolding scan_magic scan_signed scan_prefixed scan_digits starts_hex span_hex skip_space magic_show
scan_magic-magic_show e h = elim (Bool-cases (e.magic == 0)) [
  | inl none_set ↦ let zero_magic : e.magic ≡ 0 = ground arith in rw (none_set, zero_magic) refl
  | inr other ↦ rw other (scan_digits-hex_digits e.magic h)
]

-- A text of letters that are neither zero nor white space.
abbrev pub IsWord : List ℕ → Type 0
IsWord [] = Unit {0}
IsWord (c ∷ s) = ((c == 0) ≡ false) × (is_space c ≡ false) × IsWord s

word-IsWord : (s : List ℕ) → IsWord s → word s ≡ s
unfolding word
word-IsWord [] h = refl
word-IsWord (c ∷ s) h = rw h.1 (ap (◌∷◌ c) (word-IsWord s h.2))

c_prefix-IsWord : (s : List ℕ) (k : ℕ) → IsWord s → c_prefix (s ++ zeros (suc k)) ≡ s
c_prefix-IsWord [] k h = refl
c_prefix-IsWord (c ∷ s) k h = rw h.0 (ap (◌∷◌ c) (c_prefix-IsWord s k h.2))

scan_version-IsWord : (s : List ℕ) → IsWord s → 0 < length s → scan_version s ≡ some s
unfolding scan_version skip_space
scan_version-IsWord [] h long = absurd (omega arith)
scan_version-IsWord (c ∷ s) h long =
    let not_empty : (suc (length s) == 0) ≡ false = ground arith in
    rw (h.1, word-IsWord (c ∷ s) h, not_empty) refl

-- The version that is shown is read back.
pub scan_version-version_show :
    (e : Entity) (text : List ℕ) (k : ℕ)
    → e.version ≡ text ++ zeros (suc k)
    → IsWord text
    → 0 < length text
    → scan_version (version_show e) ≡ some text
unfolding version_show
scan_version-version_show e text k is_text h long =
    rw (is_text, c_prefix-IsWord text k h) (scan_version-IsWord text h long)
