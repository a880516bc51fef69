-- ===== src/Kunit/Arithmetic.antt =====
-- kernel-module/kunit: what the functions under test compute.
use snippet.Base.{
  ℕ, zero, suc, ◌+◌, ◌*◌, ◌/◌, ◌%◌, ◌^◌, ◌<◌, ◌≡◌, ◌≢◌, sym, ap, ◌∙◌, ◌==◌, false, arith,
}
use native.Mathlib.Nat.{
  add-mul, add-mul-mod_self_left, mod-add-div, mod-eq_of_lt, mul_assoc, mul-one, one-mul, pow-succ',
  pow-zero,
}
use snippet.Kunit.Functions.{
  int_range, int_mul, multiply_up, demo_exported_power, demo_public_increment,
  demo_public_decrement,
}

-- A factor may be cut to the range before it is multiplied.
int_mul-cut : (a b : ℕ) → int_mul (a % int_range) b ≡ int_mul a b
int_mul-cut a b =
    let rest = a % int_range in
    let turns = a / int_range in
    let split : (rest + int_range * turns) * b ≡ rest * b + int_range * (turns * b) =
      add-mul rest (int_range * turns) b ∙ ap (λ n. rest * b + n) (mul_assoc int_range turns b) in
    sym (add-mul-mod_self_left (rest * b) int_range (turns * b))
    ∙ ap (λ n. n % int_range) (sym split)
    ∙ ap (λ n. int_mul n b) (mod-add-div a int_range)

multiply_up-power :
    (base power value : ℕ)
    → value < int_range
    → multiply_up base power value ≡ int_mul value (base ^ power)
unfolding multiply_up
multiply_up-power base zero value h =
    sym (mod-eq_of_lt h)
    ∙ ap (λ n. n % int_range) (sym (ap (λ n. value * n) (pow-zero base) ∙ mul-one value))
multiply_up-power base (suc power) value h =
    multiply_up-power base power (int_mul value base) (omega arith)
    ∙ int_mul-cut (value * base) (base ^ power)
    ∙ ap (λ n. n % int_range)
        (mul_assoc value base (base ^ power) ∙ ap (λ n. value * n) (sym (pow-succ' base power)))

-- For a base that is not 0 the function computes the power, cut to 32 bits.
pub demo_exported_power_lem :
    (base power : ℕ) → base ≢ 0 → demo_exported_power base power ≡ base ^ power % int_range
unfolding demo_exported_power
demo_exported_power_lem base power h =
    let nonzero : (base == 0) ≡ false = ground arith in
    rw nonzero (
      multiply_up-power base power 1 (omega arith)
      ∙ ap (λ n. n % int_range) (one-mul (base ^ power)))

-- A decrement takes back an increment, also over the end of the range.
pub demo_public_increment-decrement :
    (element value : ℕ)
    → element < int_range
    → value < int_range
    → demo_public_decrement (demo_public_increment element value) value ≡ element
unfolding demo_public_increment demo_public_decrement
demo_public_increment-decrement element value h k = omega arith
