-- ===== src/Memdev/Mapping.antt =====
-- memdev.c: what one `mmap` does on its paths, and that closing the area undoes it.
use snippet.Base.{
  ℕ, ◌+◌, ◌-◌, ◌/◌, ◌%◌, ◌^◌, ◌*◌, ◌<◌, ◌≤◌, ◌≡◌, ◌≢◌, refl, Bool, true, false, not, ◌||◌, List, [],
  ◌∷◌, Option, none, some, arith, if-rule, Bool-cases, ◌==◌, inl, inr, ℤ, pos, is_zero, is_negative,
  ◌∙◌,
}
use snippet.Memdev.State.{MappedRegion, FileState, Driver, free_mapped_region}
use snippet.Memdev.Regions.{region_at, take_region, take_mapping, add_region}
use snippet.Memdev.Ops.{
  MempolicyMode, PgProt, VmArea, Bulk, MmapAnswers, MmapResult, get_cpu, node_of_mode,
  get_allocation_node, mmap_free_pages, mmap_link, new_region, mmap_record, mmap_insert,
  mmap_allocate, memdev_mmap, memdev_vma_close, with_kernel, took, get_pgprot, mode_of,
  map_pages_to_vma, page_size, eopnotsupp, einval, enomem,
}
use snippet.Memdev.Freeing.{free_pages_down-cpu_gets}

-- An area of `n` pages.
abbrev pub area : ℕ → ℕ → Option MempolicyMode → VmArea
area start n policy = record {
  vm_start = start;
  vm_end = start + n * page_size;
  vm_policy = policy;
  vm_page_prot = PgProt.page_prot;
  has_vm_ops = false;
}

-- The policies with which the pages are allocated on this CPU's node.
abbrev pub is_supported : MempolicyMode → Bool
is_supported MempolicyMode.mpol_default = true
is_supported MempolicyMode.mpol_local = true
is_supported MempolicyMode.mpol_preferred = true
is_supported _ = false

module _ (pid va a : ℕ) (r : MappedRegion) (fits : region_at pid va r ≡ true) where
  abbrev TakenBack : List FileState → Option (List FileState) → Type 0
  TakenBack fs none = Unit
  TakenBack fs (some more) = take_mapping pid va more ≡ some (r, fs)

  pass_back :
      (f : FileState) (fs : List FileState) (o : Option (List FileState))
      → take_region pid va f.regions ≡ none
      → TakenBack fs o
      → TakenBack (f ∷ fs) (elim o [ none ↦ none | some rest ↦ some (f ∷ rest) ])
  unfolding take_mapping
  pass_back f fs none absent t = tt
  pass_back f fs (some more) absent t = rw (take_mapping, absent, t)

  not_here :
      (f : FileState) (fs : List FileState)
      → take_mapping pid va (f ∷ fs) ≡ none
      → (take_region pid va f.regions ≡ none) × (take_mapping pid va fs ≡ none)
  unfolding take_mapping
  not_here f fs e = ground arith

  -- A new region is the first that fits, if none fitted before.
  add_region-TakenBack :
      (fs : List FileState) → take_mapping pid va fs ≡ none → TakenBack fs (add_region a r fs)
  unfolding add_region
  add_region-TakenBack [] absent = tt
  add_region-TakenBack (f ∷ fs) absent = elim (Bool-cases (f.address == a)) [
    | inl here ↦
        rw (add_region, here)
          (unfold take_mapping take_region in rw (take_mapping, take_region, fits) refl)
    | inr elsewhere ↦
        rw (add_region, elsewhere)
          (pass_back f fs _ (not_here f fs absent).0
            (add_region-TakenBack fs (not_here f fs absent).1))
  ]

mmap_free_pages-cpu_gets :
    (d : Driver) (vma : VmArea) (bulk : Bulk) (ret : ℤ)
    → (mmap_free_pages d vma bulk ret).driver.kernel.cpu_gets ≡ d.kernel.cpu_gets
unfolding mmap_free_pages
mmap_free_pages-cpu_gets d vma bulk ret =
    free_pages_down-cpu_gets bulk.nr_allocated bulk.filled d.kernel

mmap_link-cpu_gets :
    (d : Driver) (vma : VmArea) (o : Option (List FileState))
    → (mmap_link d vma o).driver.kernel.cpu_gets ≡ d.kernel.cpu_gets
unfolding mmap_link
mmap_link-cpu_gets d vma none = refl
mmap_link-cpu_gets d vma (some files) = refl

mmap_insert-cpu_gets :
    (d : Driver) (vma : VmArea) (w : MmapAnswers) (a size npages : ℕ)
    → (mmap_insert d vma w a size npages).driver.kernel.cpu_gets ≡ d.kernel.cpu_gets
unfolding mmap_insert map_pages_to_vma mmap_record
mmap_insert-cpu_gets d vma w a size npages =
    let vma' = record vma { vm_page_prot = get_pgprot d.g_prot } in
    if-rule (λ (m : MmapResult). m.driver.kernel.cpu_gets ≡ d.kernel.cpu_gets)
      (not (is_zero w.insert_ret)) (λ failed. mmap_free_pages-cpu_gets d vma' w.bulk w.insert_ret)
      (λ inserted.
        if-rule (λ (m : MmapResult). m.driver.kernel.cpu_gets ≡ d.kernel.cpu_gets) (not w.region_ok)
          (λ failed. mmap_free_pages-cpu_gets d vma' w.bulk enomem)
          (λ allocated.
            mmap_link-cpu_gets
              (with_kernel d (record d.kernel { objects_out = d.kernel.objects_out + 1 })) vma'
              (add_region a (new_region vma' w size npages) d.file_list)))

mmap_allocate-cpu_gets :
    (d : Driver) (vma : VmArea) (w : MmapAnswers) (a size npages : ℕ)
    → (mmap_allocate d vma w a size npages).driver.kernel.cpu_gets ≡ d.kernel.cpu_gets
unfolding mmap_allocate
mmap_allocate-cpu_gets d vma w a size npages =
    if-rule (λ (m : MmapResult). m.driver.kernel.cpu_gets ≡ d.kernel.cpu_gets) (not w.array_ok)
      (λ failed. refl)
      (λ allocated.
        if-rule (λ (m : MmapResult). m.driver.kernel.cpu_gets ≡ d.kernel.cpu_gets)
          (not (w.bulk.nr_allocated == npages))
          (λ short. mmap_free_pages-cpu_gets (took d w) vma w.bulk enomem)
          (λ full. mmap_insert-cpu_gets (took d w) vma w a size npages))

node_of_mode-cpu_gets :
    (mode : MempolicyMode) (node : ℕ) (d : Driver)
    → d.kernel.cpu_gets ≤ (node_of_mode mode node d).0.kernel.cpu_gets
unfolding node_of_mode
node_of_mode-cpu_gets MempolicyMode.mpol_default node d = omega arith
node_of_mode-cpu_gets MempolicyMode.mpol_local node d = omega arith
node_of_mode-cpu_gets MempolicyMode.mpol_preferred node d = omega arith
node_of_mode-cpu_gets _ node d = omega arith

-- Each `mmap` of a whole number of pages calls `get_cpu` at least once, on every path; no path
-- calls `put_cpu`, so it returns with preemption off.
pub memdev_mmap-cpu_gets :
    (d : Driver) (vma : VmArea) (w : MmapAnswers) (a : ℕ)
    → (vma.vm_end + 2 ^ 64 - vma.vm_start) % 2 ^ 64 ≢ 0
    → (vma.vm_end + 2 ^ 64 - vma.vm_start) % 2 ^ 64 % page_size ≡ 0
    → d.kernel.cpu_gets < (memdev_mmap d vma w a).driver.kernel.cpu_gets
unfolding memdev_mmap get_allocation_node
memdev_mmap-cpu_gets d vma w a ne whole =
    let size = (vma.vm_end + 2 ^ 64 - vma.vm_start) % 2 ^ 64 in
    let More = λ (m : MmapResult). d.kernel.cpu_gets < m.driver.kernel.cpu_gets in
    let d₁ = get_cpu d in
    let (d₂, node) = node_of_mode (mode_of vma.vm_policy) w.cpu_node d₁ in
    let more : d.kernel.cpu_gets < d₂.kernel.cpu_gets =
      omega (arith, node_of_mode-cpu_gets (mode_of vma.vm_policy) w.cpu_node d₁) in
    if-rule More (size == 0 || not (size % page_size == 0)) (λ refused. absurd (ground arith))
      (λ accepted.
        if-rule More (not d₁.numa_enabled)
          (λ uniform. omega (arith, mmap_allocate-cpu_gets d₁ vma w a size (size / page_size)))
          (λ numa.
            if-rule More (is_negative node) (λ refused. more)
              (λ supported.
                omega (arith, more, mmap_allocate-cpu_gets d₂ vma w a size (size / page_size)))))

node_of_mode_refused :
    (mode : MempolicyMode) (node : ℕ) (d : Driver)
    → is_supported mode ≡ false
    → node_of_mode mode node d ≡ (d, einval)
unfolding node_of_mode
node_of_mode_refused MempolicyMode.mpol_default node d e = cc
node_of_mode_refused MempolicyMode.mpol_local node d e = cc
node_of_mode_refused MempolicyMode.mpol_preferred node d e = cc
node_of_mode_refused _ node d e = refl

-- With NUMA enabled, a policy other than default, local and preferred is refused: no page, array
-- or object is taken, and no list changes.
pub memdev_mmap_refused :
    (d : Driver) (vma : VmArea) (w : MmapAnswers) (a : ℕ)
    → (vma.vm_end + 2 ^ 64 - vma.vm_start) % 2 ^ 64 ≢ 0
    → (vma.vm_end + 2 ^ 64 - vma.vm_start) % 2 ^ 64 % page_size ≡ 0
    → d.numa_enabled ≡ true
    → is_supported (mode_of vma.vm_policy) ≡ false
    → memdev_mmap d vma w a ≡ record { driver = get_cpu d; vma = vma; ret = eopnotsupp }
unfolding memdev_mmap get_allocation_node
memdev_mmap_refused d vma w a ne whole numa unsupported =
    let size = (vma.vm_end + 2 ^ 64 - vma.vm_start) % 2 ^ 64 in
    let Refused =
      λ (m : MmapResult). m ≡ record { driver = get_cpu d; vma = vma; ret = eopnotsupp } in
    rw (node_of_mode_refused (mode_of vma.vm_policy) w.cpu_node (get_cpu d) unsupported) (
      if-rule Refused (size == 0 || not (size % page_size == 0)) (λ refused. absurd (ground arith))
        (λ accepted.
          if-rule Refused (not d.numa_enabled) (λ uniform. absurd (ground arith)) (λ on. refl)))

module _ (w : MmapAnswers) (a : ℕ) where
  -- After a success: closing the area takes out the region, and the area has its operations.
  abbrev Restores : Driver → MmapResult → Type 0
  Restores d m =
      m.ret ≡ pos 0 → (memdev_vma_close m.driver m.vma w.current_pid).file_list ≡ d.file_list

  link-Restores :
      (vma : VmArea) (d : Driver) (r : MappedRegion)
      (fits : region_at w.current_pid vma.vm_start r ≡ true) (o : Option (List FileState))
      → take_mapping w.current_pid vma.vm_start d.file_list ≡ none
      → TakenBack w.current_pid vma.vm_start a r fits d.file_list o
      → Restores d (mmap_link d vma o)
  unfolding mmap_link memdev_vma_close free_mapped_region
  link-Restores vma d r fits none absent t e = rw absent
  link-Restores vma d r fits (some more) absent t e = rw t

  insert-Restores :
      (vma : VmArea) (d : Driver) (size npages : ℕ)
      → take_mapping w.current_pid vma.vm_start d.file_list ≡ none
      → Restores d (mmap_insert d vma w a size npages)
  unfolding mmap_insert map_pages_to_vma mmap_record mmap_free_pages
  insert-Restores vma d size npages absent =
      let vma' = record vma { vm_page_prot = get_pgprot d.g_prot } in
      let r = new_region vma' w size npages in
      let fits : region_at w.current_pid vma.vm_start r ≡ true = ground arith in
      if-rule (Restores d) (not (is_zero w.insert_ret)) (λ failed e. absurd (ground arith))
        (λ inserted.
          if-rule (Restores d) (not w.region_ok) (λ failed e. cc)
            (λ allocated.
              link-Restores vma'
                (with_kernel d (record d.kernel { objects_out = d.kernel.objects_out + 1 })) r fits
                (add_region a r d.file_list) absent
                (add_region-TakenBack w.current_pid vma.vm_start a r fits d.file_list absent)))

  allocate-Restores :
      (vma : VmArea) (d : Driver) (size npages : ℕ)
      → take_mapping w.current_pid vma.vm_start d.file_list ≡ none
      → Restores d (mmap_allocate d vma w a size npages)
  unfolding mmap_allocate mmap_free_pages
  allocate-Restores vma d size npages absent =
      if-rule (Restores d) (not w.array_ok) (λ failed e. cc)
        (λ allocated.
          if-rule (Restores d) (not (w.bulk.nr_allocated == npages)) (λ short e. cc)
            (λ full. insert-Restores vma (took d w) size npages absent))

node_of_mode-file_list :
    (mode : MempolicyMode) (node : ℕ) (d : Driver)
    → (node_of_mode mode node d).0.file_list ≡ d.file_list
unfolding node_of_mode
node_of_mode-file_list MempolicyMode.mpol_default node d = refl
node_of_mode-file_list _ node d = refl

-- Round trip: if no region stands at this address for this process, then after a successful `mmap`
-- the close of the area leaves the lists of files and regions as they were before the `mmap`.
pub memdev_mmap_close :
    (d : Driver) (vma : VmArea) (w : MmapAnswers) (a : ℕ)
    → take_mapping w.current_pid vma.vm_start d.file_list ≡ none
    → (memdev_mmap d vma w a).ret ≡ pos 0
    → (memdev_vma_close
        (memdev_mmap d vma w a).driver
        (memdev_mmap d vma w a).vma
        w.current_pid).file_list
      ≡ d.file_list
unfolding memdev_mmap get_allocation_node
memdev_mmap_close d vma w a absent =
    let size = (vma.vm_end + 2 ^ 64 - vma.vm_start) % 2 ^ 64 in
    let d₁ = get_cpu d in
    let mode = mode_of vma.vm_policy in
    let same = node_of_mode-file_list mode w.cpu_node d₁ in
    let d₂ = (node_of_mode mode w.cpu_node d₁).0 in
    if-rule (Restores w a d) (size == 0 || not (size % page_size == 0)) (λ refused e. cc)
      (λ accepted.
        if-rule (Restores w a d) (not d₁.numa_enabled)
          (λ uniform. allocate-Restores w a vma d₁ size (size / page_size) absent)
          (λ numa.
            if-rule (Restores w a d) (is_negative (node_of_mode mode w.cpu_node d₁).1)
              (λ refused e. cc)
              (λ supported e.
                allocate-Restores w a vma d₂ size (size / page_size) (rw same absent) e ∙ same)))
