-- ===== src/Memdev/Unwinding.antt =====
-- memdev.c: `memdev_init` registers everything or nothing, and `memdev_exit` takes it back.
use Prim.Native.String.{String}
use snippet.Base.{
  ℕ, ◌≡◌, refl, true, ◌⊎◌, inl, inr, some, Option-cases, ℤ, pos, is_negative, arith, ◌<◌,
}
use snippet.Memdev.State.{Driver}
use snippet.Memdev.Setup.{
  Registered, nothing, InitAnswers, prot_of_attr, register_device, memdev_init,
}

abbrev pub everything : Registered
everything = record { chrdev = true; cdev = true; class = true; device = true }

-- Error pointers hold error numbers, which are not 0.
pub record AreErrors (w : InitAnswers) : Type 0 where
  pub class_err : (e : ℕ) → w.class_err ≡ some e → 0 < e
  pub device_err : (e : ℕ) → w.device_err ≡ some e → 0 < e

-- How a call that registers may end.
abbrev Ends : Registered × ℤ → Type 0
Ends (g, ret) = ((ret ≡ pos 0) × (g ≡ everything)) ⊎ ((is_negative ret ≡ true) × (g ≡ nothing))

register_device-Ends : (w : InitAnswers) → AreErrors w → Ends (register_device w nothing)
unfolding register_device
register_device-Ends w h = elim (Option-cases w.class_err) [
  | inl made ↦ elim (Option-cases w.device_err) [
    | inl made' ↦ ground arith
    | inr (e, failed) ↦ ground (arith, h.device_err e failed)
  ]
  | inr (e, failed) ↦ ground (arith, h.class_err e failed)
]

-- `memdev_init` on a system where nothing is registered: either it returns 0, all four things are
-- registered and the attribute was one of the three, or it returns a negative error and none is.
pub memdev_init-all_or_nothing :
    (d : Driver) (attr : String) (w : InitAnswers)
    → AreErrors w
    → (((memdev_init d nothing attr w).2 ≡ pos 0)
        × ((memdev_init d nothing attr w).1 ≡ everything)
        × (prot_of_attr attr ≡ some (memdev_init d nothing attr w).0.g_prot))
      ⊎ ((is_negative (memdev_init d nothing attr w).2 ≡ true)
          × ((memdev_init d nothing attr w).1 ≡ nothing))
unfolding memdev_init
memdev_init-all_or_nothing d attr w h = elim (Option-cases (prot_of_attr attr)) [
  | inl unknown ↦ rw (memdev_init, unknown) (inr (refl, refl))
  | inr (prot, known) ↦
      rw (memdev_init, known)
        (elim (register_device-Ends w h) [
          | inl (zero_ret, all) ↦ inl (zero_ret, all, refl)
          | inr (error, none_left) ↦ inr (error, none_left)
        ])
]
