-- ===== src/BitMask/Bits.antt =====
-- linux-c/sysfs-parser.c: the bits that the loop over a range sets.
use snippet.Base.{ℕ, zero, suc, ◌+◌, ◌≡◌, ◌∙◌, ap, ◌&&◌, ◌||◌, ltb, leb, arith}
use snippet.BitMask.Parser.{DemoMask, one_at, shifted, with_bit, set_bits}

-- Masks with the same bits.
pub same_bits : {a b : DemoMask} → ((i : ℕ) → a i ≡ b i) → a ≡ b
same_bits h = λ k i. h i k

shifted-one_at : (start i : ℕ) → shifted (one_at start) i ≡ one_at (suc start) i
shifted-one_at start zero = ground arith
shifted-one_at start (suc i) = ground arith

-- Behind the loop a bit is set that was set, or that is in the range and in the mask.
pub set_bits-range :
    (count start : ℕ) (mask : DemoMask) (i : ℕ)
    → set_bits count (one_at start) mask i
      ≡ (mask i || (ltb i 64 && (leb start i && ltb i (start + count))))
unfolding set_bits
set_bits-range zero start mask i = ground arith
set_bits-range (suc count) start mask i =
    ap (λ bit. set_bits count bit (with_bit mask (one_at start)) i)
      (same_bits {a = shifted (one_at start)} {b = one_at (suc start)} (shifted-one_at start))
    ∙ set_bits-range count (suc start) (with_bit mask (one_at start)) i
    ∙ ground arith
