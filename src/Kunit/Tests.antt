-- ===== src/Kunit/Tests.antt =====
-- The checks of the unit test demos, kernel-module/kunit.
use snippet.Base.{◌-◌, ◌%◌, ◌^◌, ◌≡◌, refl, pos, neg, arith}
use snippet.Kunit.Functions.{
  int_range, demo_static_multiply, demo_exported_power, demo_static_shift_left,
  demo_exported_shift_right, demo_inner_function, demo_outer_function,
}
use snippet.Kunit.Arithmetic.{demo_exported_power_lem}

multiply_two : demo_static_multiply 2 (int_range - 3) ≡ int_range - 6
unfolding demo_static_multiply
multiply_two = refl

power_checks :
    (demo_exported_power 0 1 ≡ 0) × (demo_exported_power 3 0 ≡ 1) × (demo_exported_power 3 2 ≡ 9)
unfolding demo_exported_power
power_checks = (refl, refl, refl)

shift_checks : (demo_static_shift_left 1 3 ≡ 8) × (demo_exported_shift_right 3 1 ≡ 1)
unfolding demo_static_shift_left demo_exported_shift_right
shift_checks = (refl, refl)

outer_without_stub : demo_outer_function demo_inner_function (pos 10) ≡ neg 38
unfolding demo_outer_function demo_inner_function
outer_without_stub = refl

outer_with_identity : demo_outer_function (λ param. param) (neg 10) ≡ neg 10
unfolding demo_outer_function
outer_with_identity = refl

demo_exported_power_lem_example : demo_exported_power 3 40 ≡ 3 ^ 40 % int_range
demo_exported_power_lem_example = demo_exported_power_lem 3 40 (omega arith)
