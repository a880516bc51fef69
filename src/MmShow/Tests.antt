-- ===== src/MmShow/Tests.antt =====
-- Sizes that kernel-module/mm/mm_show prints.
use snippet.Base.{◌+◌, ◌*◌, ◌^◌, ◌≡◌, refl, [], ◌∷◌, neg}
use snippet.Posix.{codes}
use snippet.Netlink.{digits}
use snippet.MmShow.Sizes.{
  size_parts, sum_parts, AreProper, size_parts-AreProper, pr_cont_size, mm_show_init, Display,
}

printed : pr_cont_size (3 * 2 ^ 30 + 5) ≡ codes "3G.5B."
unfolding pr_cont_size digits
printed = refl

numa_only : mm_show_init (codes "numa") ≡ (Display.numa_show ∷ [], neg 1)
unfolding mm_show_init
numa_only = refl

size_parts-AreProper_example :
    (sum_parts (size_parts 1048577) ≡ 1048577) × AreProper (size_parts 1048577)
size_parts-AreProper_example = size_parts-AreProper 1048577
