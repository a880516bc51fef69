-- ===== src/Memdev/Setup.antt =====
-- kernel-module/memdev/memdev.c: `memdev_init` and `memdev_exit`.
use Prim.Native.String.{String}
use text.Mathlib.Text.{◌==◌ as str_eq}
use snippet.Base.{
  ℕ, ◌+◌, ◌^◌, Bool, true, false, ◌&&◌, List, [], ◌∷◌, Option, none, some, ltb, if◌then◌else◌, ℤ,
  pos, neg, is_negative,
}
use snippet.Memdev.State.{
  ProtType, prot_cacheable, prot_writecombine, prot_uncached, FileState, Driver, free_regions,
}
use snippet.Memdev.Ops.{einval, with_kernel}

-- What the module has registered: the device number, the cdev, the class, the device node.
pub record Registered : Type 0 where
  pub chrdev : Bool
  pub cdev : Bool
  pub class : Bool
  pub device : Bool

abbrev pub nothing : Registered
nothing = record { chrdev = false; cdev = false; class = false; device = false }

-- The answers of the kernel. An `IS_ERR` pointer is given by its error number.
pub record InitAnswers : Type 0 where
  pub possible_nodes : ℕ
  pub alloc_ret : ℤ
  pub cdev_ret : ℤ
  pub class_err : Option ℕ
  pub device_err : Option ℕ

-- The parsing of the parameter `attr`.
unfoldable pub prot_of_attr : String → Option ProtType
prot_of_attr attr =
    if str_eq attr "normal_cacheable"
    then some prot_cacheable
    else if str_eq attr "normal_noncacheable"
    then some prot_writecombine
    else if str_eq attr "device_noncacheable"
    then some prot_uncached
    else none

-- The calls that register, with the unwinding of `err_device_create` and the labels below it.
unfoldable pub register_device : InitAnswers → Registered → Registered × ℤ
register_device w g =
    if is_negative w.alloc_ret
    then (g, w.alloc_ret)
    else let g₁ = record g { chrdev = true } in
      if is_negative w.cdev_ret
      then (record g₁ { chrdev = false }, w.cdev_ret)
      else let g₂ = record g₁ { cdev = true } in
        elim w.class_err [
          | some e ↦ (record g₂ { cdev = false; chrdev = false }, neg e)
          | none ↦
              let g₃ = record g₂ { class = true } in
              elim w.device_err [
                | some e ↦ (record g₃ { class = false; cdev = false; chrdev = false }, neg e)
                | none ↦ (record g₃ { device = true }, pos 0)
              ]
        ]

unfoldable pub memdev_init : Driver → Registered → String → InitAnswers → Driver × Registered × ℤ
unfolding register_device
memdev_init d g attr w =
    let d₁ = record d { numa_enabled = ltb 1 w.possible_nodes } in
    elim (prot_of_attr attr) [
      | none ↦ (d₁, g, einval)
      | some prot ↦ let (g', ret) = register_device w g in (record d₁ { g_prot = prot }, g', ret)
    ]

-- The loop of `memdev_exit` over the open files.
unfoldable pub free_files : List FileState → Driver → Driver
free_files [] d = d
free_files (f ∷ fs) d =
    let d' = free_regions f.regions d in
    free_files fs (with_kernel d' (record d'.kernel { objects_in = d'.kernel.objects_in + 1 }))

-- `atomic_read(&mapped_count) > 0`, on the bit pattern
abbrev pub is_mapped : ℕ → Bool
is_mapped c = ltb 0 c && ltb c (2 ^ 31)

unfoldable pub memdev_exit : Driver → Registered → Driver × Registered
memdev_exit d g = if is_mapped d.mapped_count then (d, g) else (
  free_files d.file_list (record d { file_list = [] }),
  record g { device = false; class = false; cdev = false; chrdev = false },
)
