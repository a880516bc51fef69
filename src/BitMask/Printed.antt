-- ===== src/BitMask/Printed.antt =====
-- linux-c/sysfs-parser.c: lists of ranges as sysfs prints them, and what the parser makes of them.
use snippet.Base.{
  ℕ, zero, suc, ◌+◌, ◌*◌, ◌-◌, ◌/◌, ◌%◌, ◌^◌, ◌<◌, ◌≡◌, refl, ◌∙◌, inl, inr, List, [], ◌∷◌, ◌==◌,
  Bool-cases, true, false, some, arith,
}
use snippet.Config.{skip_space, is_space}
use snippet.Netlink.{digits}
use snippet.BitMask.Parser.{
  is_digit, starts_digit, span_digits, to_ulong, magnitude, signed, strtoul,
}

-- Text that `span_digits` does not go on in.
abbrev pub StopsAt : List ℕ → Type 0
StopsAt s = starts_digit s ≡ false

span_digits-digit :
    (k n : ℕ) (out : List ℕ)
    → k * 10 + n % 10 ≡ n
    → span_digits k ((48 + n % 10) ∷ out) ≡ span_digits n out
unfolding span_digits
span_digits-digit k n out e =
    let digit : k * 10 + (48 + n % 10 - 48) ≡ n = omega arith in
    let digit_here : is_digit (48 + n % 10) ≡ true = ground arith in rw (digit_here, digit) refl

-- Numbers of ten digits.
power10 : ℕ → ℕ
power10 zero = 1
power10 (suc k) = 10 * power10 k

span_digits-digits :
    (room n : ℕ) (out : List ℕ)
    → n < power10 room
    → span_digits 0 (digits room n out) ≡ span_digits n out
unfolding span_digits digits power10
span_digits-digits zero n out h = let e : n ≡ 0 = omega arith in rw e refl
span_digits-digits (suc room) n out h =
    let longer = (48 + n % 10) ∷ out in
    let step = λ (k : ℕ) (e : k * 10 + n % 10 ≡ n). span_digits-digit k n out e in
    elim (Bool-cases (n / 10 == 0)) [
      | inl last ↦ rw last (step 0 (ground arith))
      | inr more ↦
          rw more
            (span_digits-digits room (n / 10) longer (omega arith) ∙ step (n / 10) (omega arith))
    ]

starts_digit-digits :
    (room n : ℕ) (out : List ℕ) → starts_digit out ≡ true → starts_digit (digits room n out) ≡ true
unfolding digits starts_digit
starts_digit-digits zero n out h = h
starts_digit-digits (suc room) n out h =
    let digit_here : is_digit (48 + n % 10) ≡ true = ground arith in
    elim (Bool-cases (n / 10 == 0)) [
      | inl last ↦ rw last digit_here
      | inr more ↦ rw more (starts_digit-digits room (n / 10) ((48 + n % 10) ∷ out) digit_here)
    ]

-- A number in decimal, before the rest of a text.
unfoldable pub printed : ℕ → List ℕ → List ℕ
printed n rest = digits 10 n rest

starts_digit-printed : (n : ℕ) (rest : List ℕ) → starts_digit (printed n rest) ≡ true
unfolding printed digits starts_digit
starts_digit-printed n rest =
    let digit_here : is_digit (48 + n % 10) ≡ true = ground arith in
    elim (Bool-cases (n / 10 == 0)) [
      | inl last ↦ rw last digit_here
      | inr more ↦ rw more (starts_digit-digits 9 (n / 10) ((48 + n % 10) ∷ rest) digit_here)
    ]

strtoul-starts_digit :
    (s : List ℕ)
    → starts_digit s ≡ true
    → strtoul s ≡ some (to_ulong false (span_digits 0 s).0, (span_digits 0 s).1)
unfolding strtoul signed magnitude skip_space starts_digit
strtoul-starts_digit [] h = absurd (ground arith)
strtoul-starts_digit (c ∷ s) h =
    let no_space : is_space c ≡ false = ground arith in
    let no_minus : (c == 45) ≡ false = ground arith in
    let no_plus : (c == 43) ≡ false = ground arith in rw (no_space, no_minus, no_plus, h) refl

span_digits-StopsAt : (n : ℕ) (s : List ℕ) → StopsAt s → span_digits n s ≡ (n, s)
unfolding span_digits starts_digit
span_digits-StopsAt n [] h = refl
span_digits-StopsAt n (c ∷ s) h = rw h refl

pub strtoul-printed :
    (n : ℕ) (rest : List ℕ) → n < 2 ^ 32 → StopsAt rest → strtoul (printed n rest) ≡ some (n, rest)
unfolding printed power10
strtoul-printed n rest h stops =
    let spanned : span_digits 0 (printed n rest) ≡ (n, rest) =
      span_digits-digits 10 n rest (omega arith) ∙ span_digits-StopsAt n rest stops in
    let small : to_ulong false n ≡ n = ground arith in
    strtoul-starts_digit (printed n rest) (starts_digit-printed n rest) ∙ rw (spanned, small) refl
