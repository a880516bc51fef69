-- ===== src/Memdev/Ops.antt =====
-- kernel-module/memdev/memdev.c: `memdev_open`, `memdev_release`, `memdev_mmap`,
-- `memdev_vma_close` and `memdev_ioctl`. Messages to the log are left out, and the lock is held
-- over each whole change of the lists, so an operation is one step.
use snippet.Base.{
  ℕ, ◌+◌, ◌-◌, ◌/◌, ◌%◌, ◌^◌, Bool, true, false, not, ◌||◌, List, [], ◌∷◌, ◌++◌, Option, none, some,
  take, ◌==◌, if◌then◌else◌, ℤ, pos, neg, is_zero, is_negative,
}
use snippet.Memdev.State.{
  ProtType, prot_cacheable, prot_writecombine, prot_uncached, MappedRegion, FileState, Kernel,
  Driver, fault, atomic_inc, free_pages_down, free_mapped_region, free_regions,
}
use snippet.Memdev.Regions.{take_mapping, take_file, add_region}

abbrev pub page_size : ℕ
page_size = 4096

abbrev pub ebusy : ℤ
ebusy = neg 16

abbrev pub enomem : ℤ
enomem = neg 12

abbrev pub einval : ℤ
einval = neg 22

abbrev pub enotty : ℤ
enotty = neg 25

abbrev pub eopnotsupp : ℤ
eopnotsupp = neg 95

-- `policy->mode`
pub data MempolicyMode : Type 0 where
  mpol_default mpol_preferred mpol_bind mpol_interleave mpol_local : MempolicyMode
  mpol_preferred_many mpol_weighted_interleave : MempolicyMode

-- The result of `vm_get_page_prot(VM_READ | VM_WRITE)` and what `pgprot_...` makes of it.
pub data PgProt : Type 0 where
  page_prot page_prot_writecombine page_prot_noncached : PgProt

pub record VmArea : Type 0 where
  pub vm_start : ℕ
  pub vm_end : ℕ
  pub vm_policy : Option MempolicyMode
  pub vm_page_prot : PgProt
  pub has_vm_ops : Bool

-- What `alloc_pages_bulk_array_node` does to an array: what it then holds, the value returned, and the
-- pages that were taken from the kernel.
pub record Bulk : Type 0 where
  pub filled : List ℕ
  pub nr_allocated : ℕ
  pub taken : List ℕ

-- The entries that are not null.
abbrev pub non_null : List ℕ → List ℕ
non_null [] = []
non_null (p ∷ ps) = if p == 0 then non_null ps else p ∷ non_null ps

-- What the kernel answers during one `mmap`: the node of this CPU, the calls that can fail, what
-- stands in the page array, the bulk allocation into it, the caller's pid.
pub record MmapAnswers : Type 0 where
  pub cpu_node : ℕ
  pub array_ok : Bool
  pub array : List ℕ
  pub bulk : Bulk
  pub insert_ret : ℤ
  pub region_ok : Bool
  pub current_pid : ℕ

abbrev pub with_kernel : Driver → Kernel → Driver
with_kernel d k = record d { kernel = k }

-- `cpu_to_node(get_cpu())`
abbrev pub get_cpu : Driver → Driver
get_cpu d = with_kernel d (record d.kernel { cpu_gets = d.kernel.cpu_gets + 1 })

abbrev pub mode_of : Option MempolicyMode → MempolicyMode
mode_of none = MempolicyMode.mpol_default
mode_of (some mode) = mode

unfoldable pub node_of_mode : MempolicyMode → ℕ → Driver → Driver × ℤ
node_of_mode MempolicyMode.mpol_default node d = (get_cpu d, pos node)
node_of_mode MempolicyMode.mpol_local node d = (get_cpu d, pos node)
node_of_mode MempolicyMode.mpol_preferred node d = (get_cpu d, pos node)
node_of_mode _ node d = (d, einval)

unfoldable pub get_allocation_node : Option MempolicyMode → ℕ → Driver → Driver × ℤ
unfolding node_of_mode
get_allocation_node policy = node_of_mode (mode_of policy)

unfoldable pub get_pgprot : ProtType → PgProt
get_pgprot prot_writecombine = PgProt.page_prot_writecombine
get_pgprot prot_uncached = PgProt.page_prot_noncached
get_pgprot prot_cacheable = PgProt.page_prot

-- `vma->vm_page_prot = prot`, and the answer of `vm_insert_pages`
unfoldable pub map_pages_to_vma : VmArea → PgProt → ℤ → VmArea × ℤ
map_pages_to_vma vma prot ret = (record vma { vm_page_prot = prot }, ret)

pub record MmapResult : Type 0 where
  pub driver : Driver
  pub vma : VmArea
  pub ret : ℤ

-- `err_free_pages`
unfoldable pub mmap_free_pages : Driver → VmArea → Bulk → ℤ → MmapResult
mmap_free_pages d vma bulk ret =
    let k = free_pages_down bulk.nr_allocated bulk.filled d.kernel in
    record {
      driver = with_kernel d (record k { arrays_in = k.arrays_in + 1 });
      vma = vma;
      ret = ret;
    }

-- `list_add(&region->list, &state->regions)` and what follows; `none` if there is no such state.
unfoldable pub mmap_link : Driver → VmArea → Option (List FileState) → MmapResult
mmap_link d vma none = record { driver = with_kernel d (fault d.kernel); vma = vma; ret = pos 0 }
mmap_link d vma (some files) = record {
  driver = record d { file_list = files; mapped_count = atomic_inc d.mapped_count };
  vma = record vma { has_vm_ops = true };
  ret = pos 0;
}

-- The new region.
abbrev pub new_region : VmArea → MmapAnswers → ℕ → ℕ → MappedRegion
new_region vma w size npages = record {
  pid = w.current_pid;
  user_va = vma.vm_start;
  size = size;
  pages = w.bulk.filled;
  npages = npages;
}

-- From the assignments to the new region on.
unfoldable pub mmap_record : Driver → VmArea → MmapAnswers → ℕ → ℕ → ℕ → MmapResult
unfolding mmap_link
mmap_record d vma w state size npages =
    mmap_link d vma (add_region state (new_region vma w size npages) d.file_list)

-- From `map_pages_to_vma` on.
unfoldable pub mmap_insert : Driver → VmArea → MmapAnswers → ℕ → ℕ → ℕ → MmapResult
unfolding mmap_record mmap_free_pages map_pages_to_vma
mmap_insert d vma w state size npages =
    let (vma', ret) = map_pages_to_vma vma (get_pgprot d.g_prot) w.insert_ret in
    if not (is_zero ret)
    then mmap_free_pages d vma' w.bulk ret
    else if not w.region_ok
    then mmap_free_pages d vma' w.bulk enomem
    else mmap_record (with_kernel d (record d.kernel { objects_out = d.kernel.objects_out + 1 }))
        vma' w state size npages

-- The driver once the array and the pages are taken. The allocation skips the entries that are not
-- null, and counts them.
abbrev pub took : Driver → MmapAnswers → Driver
took d w = with_kernel d (record d.kernel {
  arrays_out = d.kernel.arrays_out + 1;
  pages_out = w.bulk.taken ++ d.kernel.pages_out;
  adopted = non_null (take w.bulk.nr_allocated w.array) ++ d.kernel.adopted;
})

-- From `kvmalloc_array` on.
unfoldable pub mmap_allocate : Driver → VmArea → MmapAnswers → ℕ → ℕ → ℕ → MmapResult
unfolding mmap_insert mmap_free_pages
mmap_allocate d vma w state size npages =
    if not w.array_ok
    then record { driver = d; vma = vma; ret = enomem }
    else let d' = took d w in
      if not (w.bulk.nr_allocated == npages)
      then mmap_free_pages d' vma w.bulk enomem
      else mmap_insert d' vma w state size npages

unfoldable pub memdev_mmap : Driver → VmArea → MmapAnswers → ℕ → MmapResult
unfolding get_allocation_node mmap_allocate
memdev_mmap d vma w state =
    let size = (vma.vm_end + 2 ^ 64 - vma.vm_start) % 2 ^ 64 in
    if size == 0 || not (size % page_size == 0)
    then record { driver = d; vma = vma; ret = einval }
    else let npages = size / page_size in
      let d₁ = get_cpu d in
      if not d₁.numa_enabled
      then mmap_allocate d₁ vma w state size npages
      else let (d₂, node) = get_allocation_node vma.vm_policy w.cpu_node d₁ in
        if is_negative node
        then record { driver = d₂; vma = vma; ret = eopnotsupp }
        else mmap_allocate d₂ vma w state size npages

-- The answers are those of `try_module_get` and of `kzalloc` (the address, if there is one).
unfoldable pub memdev_open : Driver → Bool → Option ℕ → Driver × ℤ
memdev_open d false state = (d, ebusy)
memdev_open d true none = (
  with_kernel d (record d.kernel {
    module_gets = d.kernel.module_gets + 1;
    module_puts = d.kernel.module_puts + 1;
  }),
  enomem,
)
memdev_open d true (some state) = (
  record d {
    kernel = record d.kernel {
      module_gets = d.kernel.module_gets + 1;
      objects_out = d.kernel.objects_out + 1;
    };
    file_list = record { address = state; regions = [] } ∷ d.file_list;
  },
  pos 0,
)

-- `kfree(state)` and `module_put(THIS_MODULE)`
abbrev pub drop_file : Driver → Driver
drop_file d = with_kernel d (record d.kernel {
  objects_in = d.kernel.objects_in + 1;
  module_puts = d.kernel.module_puts + 1;
})

-- With the file that `list_del(&state->list)` takes out, if it is there.
unfoldable pub release_file : Driver → Option (FileState × List FileState) → Driver
release_file d none = with_kernel d (fault d.kernel)
release_file d (some (f, rest)) = drop_file (free_regions f.regions (record d { file_list = rest }))

-- `filp->private_data` is null for `none`.
unfoldable pub memdev_release : Driver → Option ℕ → Driver × ℤ
unfolding release_file
memdev_release d none =
    (with_kernel d (record d.kernel { module_puts = d.kernel.module_puts + 1 }), pos 0)
memdev_release d (some state) = (release_file d (take_file state d.file_list), pos 0)

-- With the region that the two loops find, if they find one.
unfoldable pub close_region : Driver → Option (MappedRegion × List FileState) → Driver
close_region d none = d
close_region d (some (r, files)) = free_mapped_region r (record d { file_list = files })

unfoldable pub memdev_vma_close : Driver → VmArea → ℕ → Driver
unfolding close_region
memdev_vma_close d vma pid = close_region d (take_mapping pid vma.vm_start d.file_list)

unfoldable pub memdev_ioctl : ℕ → ℕ → ℤ
memdev_ioctl cmd arg = enotty
