-- ===== src/Memdev/State.antt =====
-- kernel-module/memdev/memdev.c: the structs, the globals, and a ledger of what the driver takes
-- from the kernel and gives back.
use snippet.Base.{
  ℕ, zero, suc, ◌+◌, ◌-◌, ◌%◌, ◌^◌, Bool, true, List, [], ◌∷◌, none, some, get_elem?,
}

pub data ProtType : Type 0 where
  prot_cacheable prot_writecombine prot_uncached : ProtType

pub record MappedRegion : Type 0 where
  pub pid : ℕ
  pub user_va : ℕ
  pub size : ℕ
  pub pages : List ℕ
  pub npages : ℕ

-- `address` is the pointer that `filp->private_data` holds.
pub record FileState : Type 0 where
  pub address : ℕ
  pub regions : List MappedRegion

-- What the kernel has handed out and got back: pages, page arrays (`kvmalloc`), objects
-- (`kzalloc`), references of the module, and calls of `get_cpu` (nothing calls `put_cpu`).
-- `adopted` are entries that stood in an array when `kvmalloc_array` gave it, which does not clear
-- it, and that the driver takes for pages of its own.
-- `faulted` is set by an access that the C code must not make.
pub record Kernel : Type 0 where
  pub pages_out : List ℕ
  pub pages_in : List ℕ
  pub adopted : List ℕ
  pub arrays_out : ℕ
  pub arrays_in : ℕ
  pub objects_out : ℕ
  pub objects_in : ℕ
  pub module_gets : ℕ
  pub module_puts : ℕ
  pub cpu_gets : ℕ
  pub faulted : Bool

-- The globals. `mapped_count` is the bit pattern of an `atomic_t`.
pub record Driver : Type 0 where
  pub kernel : Kernel
  pub file_list : List FileState
  pub mapped_count : ℕ
  pub numa_enabled : Bool
  pub g_prot : ProtType

abbrev pub fault : Kernel → Kernel
fault k = record k { faulted = true }

-- `__free_page`
abbrev pub free_page : ℕ → Kernel → Kernel
free_page p k = record k { pages_in = p ∷ k.pages_in }

abbrev pub atomic_inc : ℕ → ℕ
atomic_inc c = (c + 1) % 2 ^ 32

abbrev pub atomic_dec : ℕ → ℕ
atomic_dec c = (c + (2 ^ 32 - 1)) % 2 ^ 32

-- `for (i = 0; i < npages; i++) __free_page(pages[i])`, over the rounds left and the array's rest
unfoldable pub free_pages : ℕ → List ℕ → Kernel → Kernel
free_pages zero pages k = k
free_pages (suc n) [] k = fault k
free_pages (suc n) (p ∷ pages) k = free_pages n pages (free_page p k)

-- `while (nr_allocated-- > 0) __free_page(pages[nr_allocated])`
unfoldable pub free_pages_down : ℕ → List ℕ → Kernel → Kernel
free_pages_down zero pages k = k
free_pages_down (suc n) pages k = elim (get_elem? pages n) [
  | none ↦ fault k
  | some p ↦ free_pages_down n pages (free_page p k)
]

unfoldable pub free_mapped_region : MappedRegion → Driver → Driver
free_mapped_region r d =
    let k = free_pages r.npages r.pages d.kernel in
    record d {
      kernel = record k { arrays_in = k.arrays_in + 1; objects_in = k.objects_in + 1 };
      mapped_count = atomic_dec d.mapped_count;
    }

-- `list_for_each_entry_safe(region, ...) { list_del(...); free_mapped_region(region); }`
unfoldable pub free_regions : List MappedRegion → Driver → Driver
free_regions [] d = d
free_regions (r ∷ rs) d = free_regions rs (free_mapped_region r d)
