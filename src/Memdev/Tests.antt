-- ===== src/Memdev/Tests.antt =====
-- Runs of memdev.c, and the theorems at concrete inputs.
use snippet.Base.{◌≡◌, refl, true, false, [], ◌∷◌, none, some, inl, pos, ◌⊎◌, is_negative, arith}
use snippet.Memdev.State.{prot_cacheable, Driver, free_pages, free_mapped_region, free_regions}
use snippet.Memdev.Regions.{take_region, take_mapping, take_file, add_region}
use snippet.Memdev.Ops.{
  MempolicyMode, MmapAnswers, VmArea, memdev_open, memdev_release, memdev_mmap, memdev_vma_close,
  get_allocation_node,
}
use snippet.Memdev.Setup.{nothing, InitAnswers, memdev_init, prot_of_attr}
use snippet.Memdev.Ledger.{IsBalanced, regions_of}
use snippet.Memdev.Lifetime.{
  opened, released, mapped, closed, fresh, Reach, start, later, Reach-IsBalanced,
}
use snippet.Memdev.Balance.{IsBulk, npages_of}
use snippet.Memdev.Mapping.{area, memdev_mmap_close}
use snippet.Memdev.Unwinding.{everything, AreErrors, memdev_init-all_or_nothing}

-- Two pages, pid 42.
abbrev good : MmapAnswers
good = record {
  cpu_node = 0;
  array_ok = true;
  array = 0 ∷ 0 ∷ [];
  bulk = record { filled = 101 ∷ 102 ∷ []; nr_allocated = 2; taken = 101 ∷ 102 ∷ [] };
  insert_ret = pos 0;
  region_ok = true;
  current_pid = 42;
}

abbrev two_pages : VmArea
two_pages = area 0x7000 2 none

abbrev with_file : Driver
with_file = (memdev_open (fresh prot_cacheable true) true (some 7)).0

abbrev with_region : Driver
with_region = (memdev_mmap with_file two_pages good 7).driver

abbrev after_close : Driver
after_close = memdev_vma_close with_region two_pages 42

abbrev after_release : Driver
after_release = (memdev_release after_close (some 7)).0

with_region_runs :
    ((memdev_mmap with_file two_pages good 7).ret ≡ pos 0)
    × (with_region.mapped_count ≡ 1)
    × (after_close.mapped_count ≡ 0)
    × (after_close.kernel.pages_in ≡ 102 ∷ 101 ∷ [])
unfolding memdev_mmap memdev_open memdev_vma_close free_mapped_region free_pages take_mapping
    take_region add_region
with_region_runs = (refl, refl, refl, refl)

abbrev reach_file : Reach prot_cacheable true with_file
reach_file = later start (opened true (some 7))

good-IsBulk : IsBulk good (npages_of two_pages)
good-IsBulk = record {
  array_size = refl;
  filled_size = refl;
  at_most = omega arith;
  entries = λ p. omega arith;
}

reach_region : Reach prot_cacheable true with_region
unfolding memdev_open
reach_region = later reach_file (mapped two_pages good 7 good-IsBulk (inl refl))

reach_release : Reach prot_cacheable true after_release
unfolding memdev_open memdev_mmap memdev_vma_close free_mapped_region free_pages take_mapping
    take_region add_region get_allocation_node
reach_release = later (later reach_region (closed two_pages 42)) (released 7 (inl refl))

released_all : after_release.file_list ≡ []
unfolding memdev_open memdev_mmap memdev_vma_close memdev_release free_mapped_region free_regions
    free_pages take_mapping take_region take_file add_region get_allocation_node
released_all = refl

Reach-IsBalanced_example : IsBalanced with_region
Reach-IsBalanced_example = Reach-IsBalanced reach_region

one_region : regions_of with_region.file_list ≡ 1
unfolding memdev_open memdev_mmap add_region
one_region = refl

abbrev bound_area : VmArea
bound_area = area 0x7000 2 (some MempolicyMode.mpol_bind)

no_region_yet : take_mapping 42 two_pages.vm_start with_file.file_list ≡ none
unfolding memdev_open take_mapping take_region
no_region_yet = refl

memdev_mmap_close_example :
    (memdev_vma_close with_region (memdev_mmap with_file two_pages good 7).vma 42).file_list
    ≡ with_file.file_list
memdev_mmap_close_example =
    memdev_mmap_close with_file two_pages good 7 no_region_yet with_region_runs.0

-- The device node cannot be made: -12.
abbrev no_device : InitAnswers
no_device = record {
  possible_nodes = 2;
  alloc_ret = pos 0;
  cdev_ret = pos 0;
  class_err = none;
  device_err = some 12;
}

no_device-AreErrors : AreErrors no_device
no_device-AreErrors = record { class_err = λ e h. cc; device_err = λ e h. ground arith }

memdev_init-all_or_nothing_example :
    (((memdev_init (fresh prot_cacheable false) nothing "device_noncacheable" no_device).2 ≡ pos 0)
      × ((memdev_init (fresh prot_cacheable false) nothing "device_noncacheable" no_device).1
          ≡ everything)
      × (prot_of_attr "device_noncacheable"
          ≡ some
              (memdev_init
                (fresh prot_cacheable false)
                nothing
                "device_noncacheable"
                no_device).0.g_prot))
    ⊎ ((is_negative
            (memdev_init (fresh prot_cacheable false) nothing "device_noncacheable" no_device).2
          ≡ true)
        × ((memdev_init (fresh prot_cacheable false) nothing "device_noncacheable" no_device).1
            ≡ nothing))
memdev_init-all_or_nothing_example =
    memdev_init-all_or_nothing (fresh prot_cacheable false) "device_noncacheable" no_device
      no_device-AreErrors
