-- ===== src/Memdev/Lifetime.antt =====
-- memdev.c over its lifetime: every sequence of file and VMA operations, and the module's end.
use snippet.Base.{
  ℕ, suc, ◌+◌, ◌^◌, ◌<◌, ◌≡◌, refl, Bool, true, false, List, [], ◌∷◌, Option, some, length, count,
  ◌∙◌, ap, subst, add-zero, arith,
}
use snippet.Memdev.State.{ProtType, MappedRegion, FileState, Kernel, Driver, free_regions}
use snippet.Memdev.Ops.{
  VmArea, MmapAnswers, memdev_mmap, memdev_open, memdev_release, memdev_vma_close, with_kernel,
}
use snippet.Memdev.Setup.{Registered, nothing, free_files, is_mapped, memdev_exit}
use snippet.Memdev.Ledger.{held, held_by_files, regions_of, Ledger, IsBalanced}
use snippet.Memdev.Lookup.{IsOpen}
use snippet.Memdev.Balance.{
  IsBulk, npages_of, memdev_open-IsBalanced, memdev_release-IsBalanced, memdev_mmap-IsBalanced,
  memdev_vma_close-IsBalanced,
}

-- One call into the driver. The VFS calls `mmap` and `release` on open files only.
pub data Step (d : Driver) : Driver → Type 0 where
  opened : (got : Bool) (state : Option ℕ) → Step d (memdev_open d got state).0
  released : (a : ℕ) → IsOpen a d.file_list → Step d (memdev_release d (some a)).0
  mapped :
      (vma : VmArea) (w : MmapAnswers) (a : ℕ)
      → IsBulk w (npages_of vma)
      → IsOpen a d.file_list
      → Step d (memdev_mmap d vma w a).driver
  closed : (vma : VmArea) (pid : ℕ) → Step d (memdev_vma_close d vma pid)

abbrev pub fresh_kernel : Kernel
fresh_kernel = record {
  pages_out = [];
  pages_in = [];
  adopted = [];
  arrays_out = 0;
  arrays_in = 0;
  objects_out = 0;
  objects_in = 0;
  module_gets = 0;
  module_puts = 0;
  cpu_gets = 0;
  faulted = false;
}

-- The driver after `memdev_init`.
abbrev pub fresh : ProtType → Bool → Driver
fresh prot numa = record {
  kernel = fresh_kernel;
  file_list = [];
  mapped_count = 0;
  numa_enabled = numa;
  g_prot = prot;
}

pub data Reach (prot : ProtType) (numa : Bool) : Driver → Type 0 where
  start : Reach prot numa (fresh prot numa)
  later : {d e : Driver} → Reach prot numa d → Step d e → Reach prot numa e

Step-IsBalanced : {d e : Driver} → Step d e → IsBalanced d → IsBalanced e
Step-IsBalanced {d} (opened got state) b = memdev_open-IsBalanced d got state b
Step-IsBalanced {d} (released a here) b = memdev_release-IsBalanced d a b here
Step-IsBalanced {d} (mapped vma w a bulk here) b = memdev_mmap-IsBalanced d vma w a bulk b here
Step-IsBalanced {d} (closed vma pid) b = memdev_vma_close-IsBalanced d vma pid b

-- Whatever calls were made, in whatever order and with whatever failures, the books balance: each
-- array, object and module reference that is not held by an open file or a region has been given
-- back; the pages given back and those in regions are together the pages taken from the kernel and
-- the entries that stood in an array which was not cleared and were taken for pages;
-- `mapped_count` counts the regions, and nothing was accessed out of bounds.
pub Reach-IsBalanced :
    {prot : ProtType} {numa : Bool} {d : Driver} → Reach prot numa d → IsBalanced d
Reach-IsBalanced start = record {
  ledger = record {
    page_books = λ p. refl;
    array_books = refl;
    object_books = refl;
    module_books = refl;
    counter = refl;
    no_fault = refl;
  };
  sized = tt;
}
Reach-IsBalanced (later r s) = Step-IsBalanced s (Reach-IsBalanced r)

-- In every state that the calls can lead to, once every file is closed, each page, array, object
-- and module reference that the driver ever took has been given back, and no region is counted.
pub Reach-no_leak :
    {prot : ProtType} {numa : Bool} {d : Driver}
    → Reach prot numa d
    → d.file_list ≡ []
    → ((p : ℕ) → count p d.kernel.pages_out + count p d.kernel.adopted ≡ count p d.kernel.pages_in)
      × (d.kernel.arrays_out ≡ d.kernel.arrays_in)
      × (d.kernel.objects_out ≡ d.kernel.objects_in)
      × (d.kernel.module_gets ≡ d.kernel.module_puts)
      × (d.mapped_count ≡ 0)
Reach-no_leak {d} r e =
    let b = Reach-IsBalanced r in
    let l : Ledger d (λ p. 0) 0 0 =
      subst (λ fs. Ledger d (λ p. held_by_files p fs) (regions_of fs) (length fs)) e b.ledger in
    ((λ p. omega (arith, l.page_books p)), omega arith, omega arith, omega arith, omega arith)

no_regions :
    (rs : List MappedRegion) (d : Driver)
    → length rs ≡ 0
    → (free_regions rs d ≡ d) × ((p : ℕ) → held p rs ≡ 0)
unfolding free_regions
no_regions [] d e = (refl, λ p. refl)
no_regions (r ∷ rs) d e = absurd (omega arith)

held_by_files-eq-zero :
    (fs : List FileState) (d : Driver) (p : ℕ) → regions_of fs ≡ 0 → held_by_files p fs ≡ 0
held_by_files-eq-zero [] d p e = refl
held_by_files-eq-zero (f ∷ fs) d p e =
    omega (
      arith,
      (no_regions f.regions d (omega arith)).1 p,
      held_by_files-eq-zero fs d p (omega arith),
    )

-- Without regions the loop of `memdev_exit` frees one object for each file, and no more.
free_files_lem :
    (fs : List FileState) (d : Driver)
    → regions_of fs ≡ 0
    → free_files fs d
      ≡ with_kernel d (record d.kernel { objects_in = d.kernel.objects_in + length fs })
unfolding free_files
free_files_lem [] d e = rw add-zero
free_files_lem (f ∷ fs) d e =
    let d' = with_kernel d (record d.kernel { objects_in = d.kernel.objects_in + 1 }) in
    let n : d.kernel.objects_in + 1 + length fs ≡ d.kernel.objects_in + suc (length fs) =
      omega arith in
    rw ((no_regions f.regions d (omega arith)).0) (
      free_files_lem fs d' (omega arith)
      ∙ ap (λ m. with_kernel d (record d.kernel { objects_in = m })) n)

-- `memdev_exit` on balanced books. With a region left it changes nothing, so the device stays
-- registered. With none it unregisters all, and every page, array and object has been given back.
pub memdev_exit_lem :
    (d : Driver) (g : Registered)
    → IsBalanced d
    → regions_of d.file_list < 2 ^ 31
    → (0 < regions_of d.file_list → memdev_exit d g ≡ (d, g))
      × (regions_of d.file_list ≡ 0
          → ((memdev_exit d g).1 ≡ nothing)
            × ((p : ℕ)
                → count p (memdev_exit d g).0.kernel.pages_out
                    + count p (memdev_exit d g).0.kernel.adopted
                  ≡ count p (memdev_exit d g).0.kernel.pages_in)
            × ((memdev_exit d g).0.kernel.arrays_out ≡ (memdev_exit d g).0.kernel.arrays_in)
            × ((memdev_exit d g).0.kernel.objects_out ≡ (memdev_exit d g).0.kernel.objects_in))
unfolding memdev_exit
memdev_exit_lem d g b small =
    let l = b.ledger in
    (
      λ some_left.
          let busy : is_mapped d.mapped_count ≡ true = ground (arith, l.counter) in rw busy,
      λ none_left.
          let idle : is_mapped d.mapped_count ≡ false = ground (arith, l.counter) in
          rw idle (
            rw (free_files_lem d.file_list (record d { file_list = [] }) none_left) (
              refl,
              (λ p. omega (arith, l.page_books p, held_by_files-eq-zero d.file_list d p none_left)),
              omega (arith, l.array_books),
              omega (arith, l.object_books),
            )),
    )
