-- ===== src/Kunit/Functions.antt =====
-- kernel-module/kunit: the functions of static_demo.c, dynamic_demo.c and internal_demo.c. An `int` is
-- its 32 bits; the kernel is built so that it wraps.
use snippet.Base.{
  ℕ, zero, suc, ◌+◌, ◌-◌, ◌*◌, ◌/◌, ◌%◌, ◌^◌, ◌==◌, if◌then◌else◌, ℤ, pos, neg, is_negative,
}

abbrev pub int_range : ℕ
int_range = 2 ^ 32

-- The bits of a sum, a difference and a product.
abbrev pub int_add : ℕ → ℕ → ℕ
int_add a b = (a + b) % int_range

abbrev pub int_sub : ℕ → ℕ → ℕ
int_sub a b = (a + (int_range - b)) % int_range

abbrev pub int_mul : ℕ → ℕ → ℕ
int_mul a b = a * b % int_range

unfoldable pub demo_static_multiply : ℕ → ℕ → ℕ
demo_static_multiply a b = int_mul a b

-- `while (power--) value *= base`
unfoldable pub multiply_up : (base power value : ℕ) → ℕ
multiply_up base zero value = value
multiply_up base (suc power) value = multiply_up base power (int_mul value base)

unfoldable pub demo_exported_power : (base power : ℕ) → ℕ
unfolding multiply_up
demo_exported_power base power = if base == 0 then 0 else multiply_up base power 1

-- Shifts by less than the width.
unfoldable pub demo_static_shift_left : (value shift : ℕ) → ℕ
demo_static_shift_left value shift = value * 2 ^ shift % int_range

unfoldable pub demo_exported_shift_right : (value shift : ℕ) → ℕ
demo_exported_shift_right value shift = value / 2 ^ shift

-- Without a stub, which a test puts in its place.
unfoldable pub demo_inner_function : ℤ → ℤ
demo_inner_function param = neg 38

unfoldable pub demo_outer_function : (inner : ℤ → ℤ) → ℤ → ℤ
demo_outer_function inner param = let ret = inner param in if is_negative ret then ret else pos 0

-- The new value of the element, which is also returned.
unfoldable pub demo_public_increment : (element inc_value : ℕ) → ℕ
demo_public_increment element inc_value = int_add element inc_value

unfoldable pub demo_public_decrement : (element dec_value : ℕ) → ℕ
demo_public_decrement element dec_value = int_sub element dec_value

unfoldable pub demo_static_add : ℕ → ℕ → ℕ
demo_static_add a b = int_add a b
