-- ===== src/BitMask/Rounds.antt =====
-- linux-c/sysfs-parser.c: the rounds of the loop of `parse_array_to_bitmask`.
use snippet.Base.{
  ℕ, zero, suc, ◌+◌, ◌*◌, ◌-◌, ◌≡◌, ◌<◌, ◌≤◌, refl, ap, Bool, Option, none, some, Bool-cases, inl,
  inr, subst, List, [], ◌∷◌, length, leb, ◌==◌, true, false, arith, Option-cases, if-rule,
  case_option-rule, not, ltb, ◌⊎◌,
}
use snippet.Config.{skip_space}
use snippet.BitMask.Suffixes.{
  Behind, Behind-refl, Behind-cons, Behind-trans, Leaves, strtoul-Leaves, Reads, Reads-Behind,
  EndsAt, read_end-EndsAt,
}
use snippet.BitMask.Parser.{
  ulong_max, DemoMask, is_digit, starts_digit, span_digits, magnitude, signed, strtoul, read_end,
  Parsed, record_range, next_value, parse_values, parse_array_to_bitmask,
}

length-skip_space : (s : List ℕ) → length (skip_space s) ≤ length s
unfolding skip_space
length-skip_space [] = omega arith
length-skip_space (c ∷ s) = ground (arith, length-skip_space s)

length-span_digits : (n : ℕ) (s : List ℕ) → length (span_digits n s).1 ≤ length s
unfolding span_digits
length-span_digits n [] = omega arith
length-span_digits n (c ∷ s) = ground (arith, length-span_digits (n * 10 + (c - 48)) s)

-- The number was taken from a longer text.
abbrev IsShorter : ℕ → Option (ℕ × List ℕ) → Type 0
IsShorter n none = Unit {0}
IsShorter n (some (value, rest)) = length rest < n

magnitude-IsShorter : (minus : Bool) (s : List ℕ) → IsShorter (length s) (magnitude minus s)
unfolding magnitude starts_digit span_digits
magnitude-IsShorter minus [] = tt
magnitude-IsShorter minus (c ∷ s) = elim (Bool-cases (is_digit c)) [
  | inl digit ↦ rw digit (omega (arith, length-span_digits (0 * 10 + (c - 48)) s))
  | inr other ↦ rw other tt
]

IsShorter-weaken : (n m : ℕ) (o : Option (ℕ × List ℕ)) → n ≤ m → IsShorter n o → IsShorter m o
IsShorter-weaken n m none h k = tt
IsShorter-weaken n m (some (value, rest)) h k = omega arith

signed-IsShorter : (s : List ℕ) → IsShorter (length s) (signed s)
unfolding signed
signed-IsShorter [] = tt
signed-IsShorter (c ∷ s) =
    let less =
      λ (o : Option (ℕ × List ℕ)). IsShorter-weaken (length s) (suc (length s)) o (omega arith) in
    elim (Bool-cases (c == 45)) [
      | inl minus ↦ rw minus (less (magnitude true s) (magnitude-IsShorter true s))
      | inr other ↦ elim (Bool-cases (c == 43)) [
        | inl plus ↦ rw (other, plus) (less (magnitude false s) (magnitude-IsShorter false s))
        | inr digit ↦ rw (other, digit) (magnitude-IsShorter false (c ∷ s))
      ]
    ]

strtoul-IsShorter : (s : List ℕ) → IsShorter (length s) (strtoul s)
unfolding strtoul
strtoul-IsShorter s =
    IsShorter-weaken (length (skip_space s)) (length s) (signed (skip_space s))
      (length-skip_space s) (signed-IsShorter (skip_space s))

read_end-IsShorter : (start : ℕ) (s : List ℕ) → IsShorter (suc (length s)) (read_end start s)
unfolding read_end
read_end-IsShorter start [] = omega arith
read_end-IsShorter start (c ∷ s) = elim (Bool-cases (c == 45)) [
  | inl dash ↦
      let shorter = strtoul-IsShorter s in
      rw dash (elim (Option-cases (strtoul s)) [
        | inl nothing ↦ rw nothing tt
        | inr (last, read) ↦ rw read (elim (Bool-cases (leb last.0 start)) [
          | inl small ↦ rw small tt
          | inr large ↦
              let less = subst (IsShorter (length s)) read shorter in rw large (omega arith)
        ])
      ])
  | inr other ↦ rw other (omega arith)
]

-- Where a call ends: a start above the mask, and the largest number, were read in the text.
abbrev pub EndsIn : List ℕ → Parsed → Type 0
EndsIn s Parsed.failed = Unit {0}
EndsIn s Parsed.undefined = (value : ℕ) × Reads s value × (64 ≤ value)
EndsIn s Parsed.endless = Reads s ulong_max
EndsIn s Parsed.running = ⊥
EndsIn s (Parsed.parsed mask) = Unit {0}

EndsIn-Behind : (s t : List ℕ) (p : Parsed) → Behind s t → EndsIn t p → EndsIn s p
EndsIn-Behind s t Parsed.failed b h = tt
EndsIn-Behind s t Parsed.undefined b (value, reads, large) =
    (value, Reads-Behind s t value b reads, large)
EndsIn-Behind s t Parsed.endless b h = Reads-Behind s t ulong_max b h
EndsIn-Behind s t Parsed.running b h = h
EndsIn-Behind s t (Parsed.parsed mask) b h = tt

next_value-EndsIn :
    (mask : DemoMask) (s : List ℕ) (again : List ℕ → Parsed)
    → ((c : ℕ) (rest : List ℕ) → s ≡ c ∷ rest → EndsIn rest (again rest))
    → EndsIn s (next_value mask s again)
unfolding next_value
next_value-EndsIn mask [] again h = tt
next_value-EndsIn mask (c ∷ s) again h =
    if-rule (EndsIn (c ∷ s)) (c == 44)
      (λ comma. EndsIn-Behind (c ∷ s) s (again s) (Behind-cons c s s (Behind-refl s)) (h c s refl))
      (λ other. if-rule (EndsIn (c ∷ s)) (c == 10) (λ line. tt) (λ no_line. tt))

record_range-EndsIn :
    (s : List ℕ) (mask : DemoMask) (start last : ℕ) (next : DemoMask → Parsed)
    → Reads s start
    → (last ≡ start) ⊎ Reads s last
    → ((mask' : DemoMask) → EndsIn s (next mask'))
    → EndsIn s (record_range mask start last next)
unfolding record_range
record_range-EndsIn s mask start last next from to h =
    if-rule (EndsIn s) (not (ltb start 64)) (λ large. (start, from, ground arith))
      (λ small.
        if-rule (EndsIn s) (last == ulong_max)
          (λ largest. elim to [
            | inl same ↦ absurd (ground arith)
            | inr reads ↦
                let last_is : last ≡ ulong_max = ground arith in subst (Reads s) last_is reads
          ])
          (λ other. h _))

-- Enough rounds: as many as the text has bytes, and one.
parse_values-EndsIn :
    (rounds : ℕ) (mask : DemoMask) (s : List ℕ)
    → length s < rounds
    → EndsIn s (parse_values rounds mask s)
unfolding parse_values
parse_values-EndsIn zero mask s h = absurd (omega arith)
parse_values-EndsIn (suc rounds) mask s h =
    case_option-rule (EndsIn s) (strtoul s) (λ nothing. tt)
      λ first read.
        case_option-rule (EndsIn s) (read_end first.0 first.1) (λ nothing. tt)
          λ last ended.
            let less = subst (IsShorter (length s)) read (strtoul-IsShorter s) in
            let end_less =
              subst (IsShorter (suc (length first.1))) ended (read_end-IsShorter first.0 first.1) in
            let behind = subst (Leaves s) read (strtoul-Leaves s) in
            let there = subst (EndsAt first.0 first.1) ended (read_end-EndsAt first.0 first.1) in
            let from : Reads s first.0 = (s, first.1, Behind-refl s, read) in
            let to : (last.0 ≡ first.0) ⊎ Reads s last.0 = elim (there.1) [
              | inl same ↦ inl same
              | inr reads ↦ inr (Reads-Behind s first.1 last.0 behind reads)
            ] in
            record_range-EndsIn s mask first.0 last.0
              (λ mask'. next_value mask' last.1 (parse_values rounds mask')) from to
              (λ mask'. EndsIn-Behind s last.1 _ (Behind-trans s first.1 last.1 behind there.0) (
                next_value-EndsIn mask' last.1 (parse_values rounds mask') (λ c rest e.
                  let left : length last.1 ≡ suc (length rest) = ap length e in
                  parse_values-EndsIn rounds mask' rest (omega arith))))

-- On each text the rounds of the loop are never used up. The call returns, or it shifts by a number
-- of 64 or more that is read in the text, or a range goes up to ULONG_MAX, read in the text, so that
-- the loop over it does not end.
pub parse_array_to_bitmask_ends : (str : List ℕ) → EndsIn str (parse_array_to_bitmask str)
unfolding parse_array_to_bitmask
parse_array_to_bitmask_ends str =
    parse_values-EndsIn (suc (length str)) (λ i. false) str (omega arith)
