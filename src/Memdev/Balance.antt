-- ===== src/Memdev/Balance.antt =====
-- Every operation of memdev.c keeps the books.
use snippet.Base.{
  ℕ, suc, ◌+◌, ◌%◌, ◌^◌, ◌≡◌, refl, Bool, true, false, not, ◌||◌, List, Option, none, some, length,
  take, take_all, count, ap, sym, ◌∙◌, ◌≤◌, count-append, if-rule, ◌-◌, ◌/◌, ◌==◌, ℤ, is_zero,
  is_negative, arith,
}
use snippet.Memdev.State.{MappedRegion, FileState, Driver, free_mapped_region, free_regions}
use snippet.Memdev.Ops.{
  MempolicyMode, VmArea, MmapAnswers, non_null, get_cpu, node_of_mode, get_allocation_node,
  mmap_free_pages, mmap_record, mmap_insert, mmap_allocate, memdev_mmap, memdev_open,
  memdev_release, close_region, release_file, mmap_link, new_region, memdev_vma_close, with_kernel,
  took, get_pgprot, mode_of, enomem, MmapResult, map_pages_to_vma, page_size,
}
use snippet.Memdev.Freeing.{free_pages_down-take}
use snippet.Memdev.Ledger.{
  held_by_files, regions_of, Ledger, IsBalanced, free_mapped_region-Ledger, free_regions-Ledger,
  free_regions-file_list,
}
use snippet.Memdev.Lookup.{
  TakenMapping, take_mapping-TakenMapping, IsOpen, TakenFile, AddedRegion, take_file-TakenFile,
  add_region-AddedRegion,
}

closed :
    (d : Driver) (pid va : ℕ) (o : Option (MappedRegion × List FileState))
    → IsBalanced d
    → TakenMapping pid va d.file_list o
    → IsBalanced (close_region d o)
unfolding close_region free_mapped_region
closed d pid va none b t = b
closed d pid va (some (r, files)) b t = record {
  ledger =
      free_mapped_region-Ledger r (record d { file_list = files }) (λ p. held_by_files p files)
        (regions_of files) (length files) (t.sizes b.sized).0
        (record {
          page_books = λ p. omega (arith, b.ledger.page_books p, t.pages p);
          array_books = omega (arith, t.regions);
          object_books = omega (arith, t.regions, t.files);
          module_books = omega (arith, t.files);
          counter = omega (arith, t.regions);
          no_fault = b.ledger.no_fault;
        });
  sized = (t.sizes b.sized).1;
}

-- `memdev_vma_close` keeps the books, whether or not it finds the region.
pub memdev_vma_close-IsBalanced :
    (d : Driver) (vma : VmArea) (pid : ℕ) → IsBalanced d → IsBalanced (memdev_vma_close d vma pid)
unfolding memdev_vma_close
memdev_vma_close-IsBalanced d vma pid b =
    closed d pid vma.vm_start _ b (take_mapping-TakenMapping pid vma.vm_start d.file_list)

-- `memdev_open` keeps the books on each of its three ways out.
pub memdev_open-IsBalanced :
    (d : Driver) (got : Bool) (state : Option ℕ)
    → IsBalanced d
    → IsBalanced (memdev_open d got state).0
unfolding memdev_open
memdev_open-IsBalanced d false state b = b
memdev_open-IsBalanced d true none b = record {
  ledger = record {
    page_books = b.ledger.page_books;
    array_books = b.ledger.array_books;
    object_books = b.ledger.object_books;
    module_books = omega arith;
    counter = b.ledger.counter;
    no_fault = b.ledger.no_fault;
  };
  sized = b.sized;
}
memdev_open-IsBalanced d true (some state) b = record {
  ledger = record {
    page_books = λ p. omega (arith, b.ledger.page_books p);
    array_books = omega arith;
    object_books = omega arith;
    module_books = omega arith;
    counter = omega arith;
    no_fault = b.ledger.no_fault;
  };
  sized = (tt, b.sized);
}

released :
    (d : Driver) (a : ℕ) (o : Option (FileState × List FileState))
    → IsBalanced d
    → IsOpen a d.file_list
    → TakenFile a d.file_list o
    → IsBalanced (release_file d o)
unfolding release_file
released d a none b here t = absurd (t here)
released d a (some (f, rest)) b here t =
    let start = record d { file_list = rest } in
    let freed : Ledger (free_regions f.regions start) (λ p. held_by_files p rest) (regions_of rest)
        (suc (length rest)) =
      free_regions-Ledger f.regions start (λ p. held_by_files p rest) (regions_of rest)
        (suc (length rest)) (t.sizes b.sized).0
        (record {
          page_books = λ p. omega (arith, b.ledger.page_books p, t.pages p);
          array_books = omega (arith, t.regions);
          object_books = omega (arith, t.regions, t.files);
          module_books = omega (arith, t.files);
          counter = omega (arith, t.regions);
          no_fault = b.ledger.no_fault;
        }) in
    rw (free_regions-file_list f.regions start) (record {
      ledger = record {
        page_books = freed.page_books;
        array_books = freed.array_books;
        object_books = omega (arith, freed.object_books);
        module_books = omega (arith, freed.module_books);
        counter = freed.counter;
        no_fault = freed.no_fault;
      };
      sized = (t.sizes b.sized).1;
    })

-- `memdev_release` of an open file frees its regions and keeps the books.
pub memdev_release-IsBalanced :
    (d : Driver) (a : ℕ)
    → IsBalanced d
    → IsOpen a d.file_list
    → IsBalanced (memdev_release d (some a)).0
unfolding memdev_release
memdev_release-IsBalanced d a b here = released d a _ b here (take_file-TakenFile a d.file_list)

-- What is documented of `kvmalloc_array`, which gives an array of the size asked for, and of
-- `alloc_pages_bulk_array_node`, which leaves the size, counts the entries at the front that hold a
-- page, and of these took from the kernel all but those that stood there before.
pub record IsBulk (w : MmapAnswers) (npages : ℕ) : Type 0 where
  pub array_size : length w.array ≡ npages
  pub filled_size : length w.bulk.filled ≡ length w.array
  pub at_most : w.bulk.nr_allocated ≤ length w.array
  pub entries :
      (p : ℕ)
      → count p (take w.bulk.nr_allocated w.bulk.filled)
        ≡ count p w.bulk.taken + count p (non_null (take w.bulk.nr_allocated w.array))

-- The error path gives back all that it took.
mmap_free_pages-IsBalanced :
    (d : Driver) (vma : VmArea) (w : MmapAnswers) (npages : ℕ) (ret : ℤ)
    → IsBulk w npages
    → IsBalanced d
    → IsBalanced (mmap_free_pages (took d w) vma w.bulk ret).driver
unfolding mmap_free_pages
mmap_free_pages-IsBalanced d vma w npages ret bulk b =
    rw
      (free_pages_down-take w.bulk.nr_allocated w.bulk.filled (took d w).kernel
        (omega (arith, bulk.filled_size, bulk.at_most)))
      (record {
        ledger = record {
          page_books = λ p. omega (
            arith,
            b.ledger.page_books p,
            bulk.entries p,
            count-append p w.bulk.taken d.kernel.pages_out,
            count-append p (non_null (take w.bulk.nr_allocated w.array)) d.kernel.adopted,
            count-append p (take w.bulk.nr_allocated w.bulk.filled) d.kernel.pages_in,
          );
          array_books = omega arith;
          object_books = omega arith;
          module_books = omega arith;
          counter = omega arith;
          no_fault = b.ledger.no_fault;
        };
        sized = b.sized;
      })

abbrev with_object : Driver → Driver
with_object d = with_kernel d (record d.kernel { objects_out = d.kernel.objects_out + 1 })

linked :
    (d : Driver) (vma : VmArea) (w : MmapAnswers) (a : ℕ) (r : MappedRegion)
    (o : Option (List FileState))
    → ((p : ℕ)
        → count p r.pages
          ≡ count p w.bulk.taken + count p (non_null (take w.bulk.nr_allocated w.array)))
    → IsBalanced d
    → IsOpen a d.file_list
    → r.npages ≡ length r.pages
    → AddedRegion a d.file_list r o
    → IsBalanced (mmap_link (with_object (took d w)) vma o).driver
unfolding mmap_link
linked d vma w a r none entries b here e t = absurd (t here)
linked d vma w a r (some files) entries b here e t = record {
  ledger = record {
    page_books = λ p. omega (
      arith,
      b.ledger.page_books p,
      t.pages p,
      entries p,
      count-append p w.bulk.taken d.kernel.pages_out,
      count-append p (non_null (take w.bulk.nr_allocated w.array)) d.kernel.adopted,
    );
    array_books = omega (arith, t.regions);
    object_books = omega (arith, t.regions, t.files);
    module_books = omega (arith, t.files);
    counter = omega (arith, t.regions);
    no_fault = b.ledger.no_fault;
  };
  sized = t.sizes b.sized e;
}

mmap_insert-IsBalanced :
    (d : Driver) (vma : VmArea) (w : MmapAnswers) (a size npages : ℕ)
    → IsBulk w npages
    → IsBalanced d
    → IsOpen a d.file_list
    → w.bulk.nr_allocated ≡ npages
    → IsBalanced (mmap_insert (took d w) vma w a size npages).driver
unfolding mmap_insert map_pages_to_vma mmap_record
mmap_insert-IsBalanced d vma w a size npages bulk b here e =
    let whole : length w.bulk.filled ≡ w.bulk.nr_allocated =
      omega (arith, bulk.filled_size, bulk.array_size) in
    let entries = λ (p : ℕ).
      ap (count p) (sym (take_all w.bulk.filled w.bulk.nr_allocated whole)) ∙ bulk.entries p in
    let vma' = record vma { vm_page_prot = get_pgprot d.g_prot } in
    if-rule (λ (m : MmapResult). IsBalanced m.driver) (not (is_zero w.insert_ret))
      (λ failed. mmap_free_pages-IsBalanced d vma' w npages w.insert_ret bulk b)
      (λ inserted.
        if-rule (λ (m : MmapResult). IsBalanced m.driver) (not w.region_ok)
          (λ failed. mmap_free_pages-IsBalanced d vma' w npages enomem bulk b)
          (λ allocated.
            linked d vma' w a (new_region vma' w size npages) _ entries b here
              (omega (arith, e, whole))
              (add_region-AddedRegion a d.file_list (new_region vma' w size npages))))

mmap_allocate-IsBalanced :
    (d : Driver) (vma : VmArea) (w : MmapAnswers) (a size npages : ℕ)
    → IsBulk w npages
    → IsBalanced d
    → IsOpen a d.file_list
    → IsBalanced (mmap_allocate d vma w a size npages).driver
unfolding mmap_allocate
mmap_allocate-IsBalanced d vma w a size npages bulk b here =
    if-rule (λ (m : MmapResult). IsBalanced m.driver) (not w.array_ok) (λ failed. b)
      (λ allocated.
        if-rule (λ (m : MmapResult). IsBalanced m.driver) (not (w.bulk.nr_allocated == npages))
          (λ short. mmap_free_pages-IsBalanced d vma w npages enomem bulk b)
          (λ full. mmap_insert-IsBalanced d vma w a size npages bulk b here (ground arith)))

-- `get_cpu` is on no book.
get_cpu-IsBalanced : (d : Driver) → IsBalanced d → IsBalanced (get_cpu d)
get_cpu-IsBalanced d b = record {
  ledger = record {
    page_books = b.ledger.page_books;
    array_books = b.ledger.array_books;
    object_books = b.ledger.object_books;
    module_books = b.ledger.module_books;
    counter = b.ledger.counter;
    no_fault = b.ledger.no_fault;
  };
  sized = b.sized;
}

-- The choice of a node changes neither the books nor the files.
node_of_mode-IsBalanced :
    (mode : MempolicyMode) (node : ℕ) (d : Driver)
    → IsBalanced d
    → IsBalanced (node_of_mode mode node d).0
      × ((node_of_mode mode node d).0.file_list ≡ d.file_list)
unfolding node_of_mode
node_of_mode-IsBalanced MempolicyMode.mpol_default node d b = (get_cpu-IsBalanced d b, refl)
node_of_mode-IsBalanced MempolicyMode.mpol_local node d b = (get_cpu-IsBalanced d b, refl)
node_of_mode-IsBalanced MempolicyMode.mpol_preferred node d b = (get_cpu-IsBalanced d b, refl)
node_of_mode-IsBalanced _ node d b = (b, refl)

-- The pages of an area.
abbrev pub npages_of : VmArea → ℕ
npages_of vma = (vma.vm_end + 2 ^ 64 - vma.vm_start) % 2 ^ 64 / page_size

-- `memdev_mmap` on an open file keeps the books on every path: the success, and each failure, of
-- the size check, of the memory policy, of the page array, of the bulk allocation, of the mapping
-- and of the region.
pub memdev_mmap-IsBalanced :
    (d : Driver) (vma : VmArea) (w : MmapAnswers) (a : ℕ)
    → IsBulk w (npages_of vma)
    → IsBalanced d
    → IsOpen a d.file_list
    → IsBalanced (memdev_mmap d vma w a).driver
unfolding memdev_mmap get_allocation_node
memdev_mmap-IsBalanced d vma w a bulk b here =
    let size = (vma.vm_end + 2 ^ 64 - vma.vm_start) % 2 ^ 64 in
    let d₁ = get_cpu d in
    let b₁ = get_cpu-IsBalanced d b in
    let (b₂, same) = node_of_mode-IsBalanced (mode_of vma.vm_policy) w.cpu_node d₁ b₁ in
    let d₂ = (node_of_mode (mode_of vma.vm_policy) w.cpu_node d₁).0 in
    if-rule (λ (m : MmapResult). IsBalanced m.driver) (size == 0 || not (size % page_size == 0))
      (λ refused. b)
      (λ accepted.
        if-rule (λ (m : MmapResult). IsBalanced m.driver) (not d₁.numa_enabled)
          (λ uniform. mmap_allocate-IsBalanced d₁ vma w a size (size / page_size) bulk b₁ here)
          (λ numa.
            if-rule (λ (m : MmapResult). IsBalanced m.driver)
              (is_negative (node_of_mode (mode_of vma.vm_policy) w.cpu_node d₁).1) (λ refused. b₂)
              (λ accepted.
                mmap_allocate-IsBalanced d₂ vma w a size (size / page_size) bulk b₂
                  (rw same here))))
