-- ===== src/PageTable/Walker.antt =====
-- kernel-module/mm/page_table/page_table_walker.c and page_table_query.h: the walk over the five
-- levels of a page table. The shifts are those of x86-64 and
-- of arm64 with pages of 4 KB: a PTE maps 2^12 bytes, a PMD 2^21, a PUD 2^30.
use snippet.Base.{ℕ, ◌+◌, ◌*◌, ◌%◌, ◌^◌, Bool, Option, if◌then◌else◌}

-- `struct page_table_query`
pub record PageTableQuery : Type 0 where
  pub pid : ℕ
  pub va : ℕ
  pub num_levels : ℕ
  pub pgd_table_kla : ℕ
  pub pgd_entry_kla : ℕ
  pub p4d_entry_kla : ℕ
  pub pud_entry_kla : ℕ
  pub pmd_entry_kla : ℕ
  pub pte_entry_kla : ℕ
  pub pgd_entry : ℕ
  pub p4d_entry : ℕ
  pub pud_entry : ℕ
  pub pmd_entry : ℕ
  pub pte_entry : ℕ
  pub pa : ℕ
  pub kla_start : ℕ

-- What the kernel knows: the processes, the address of the top table of a memory map (`none` for a
-- process without one), the entries at their addresses and what the architecture says of them.
pub record Machine : Type 0 where
  pub has_pid : ℕ → Bool
  pub has_task : ℕ → Bool
  pub mm_of : ℕ → Option ℕ
  pub current : ℕ
  pub read_once : ℕ → ℕ
  pub pgd_offset : ℕ → ℕ → ℕ
  pub p4d_offset : ℕ → ℕ → ℕ
  pub pud_offset : ℕ → ℕ → ℕ
  pub pmd_offset : ℕ → ℕ → ℕ
  pub pte_offset : ℕ → ℕ → ℕ
  pub pgd_absent : ℕ → Bool
  pub p4d_absent : ℕ → Bool
  pub pud_absent : ℕ → Bool
  pub pmd_absent : ℕ → Bool
  pub pte_none : ℕ → Bool
  pub pud_leaf : ℕ → Bool
  pub pmd_leaf : ℕ → Bool
  pub pud_pfn : ℕ → ℕ
  pub pmd_pfn : ℕ → ℕ
  pub pte_pfn : ℕ → ℕ
  pub page_offset : ℕ

-- `(pfn << PAGE_SHIFT) + (vaddr & ~mask)`, for a mask over `size` bytes
abbrev pub physical : ℕ → ℕ → ℕ → ℕ
physical pfn size vaddr = (pfn * 2 ^ 12 + vaddr % size) % 2 ^ 64

-- The local variables of the walk.
pub record Walk : Type 0 where
  pub levels : ℕ
  pub pgdp : ℕ
  pub pgd : ℕ
  pub p4dp : ℕ
  pub p4d : ℕ
  pub pudp : ℕ
  pub pud : ℕ
  pub pmdp : ℕ
  pub pmd : ℕ
  pub ptep : ℕ
  pub pte : ℕ
  pub paddr : ℕ

abbrev pub no_walk : Walk
no_walk = record {
  levels = 0;
  pgdp = 0;
  pgd = 0;
  p4dp = 0;
  p4d = 0;
  pudp = 0;
  pud = 0;
  pmdp = 0;
  pmd = 0;
  ptep = 0;
  pte = 0;
  paddr = 0;
}

module _ (m : Machine) (vaddr : ℕ) where
  -- The levels, each from its count on; an early end is the jump to `out`. A level of `pgd_absent`
  -- and the like is one that is none or bad.
  unfoldable pub walk_pte : Walk → Walk
  walk_pte w =
      let ptep = m.pte_offset w.pmdp vaddr in
      let pte = m.read_once ptep in
      let w' : Walk = record w { levels = w.levels + 1; ptep = ptep; pte = pte } in
      if m.pte_none pte then w' else record w' { paddr = physical (m.pte_pfn pte) (2 ^ 12) vaddr }

  unfoldable pub walk_pmd : Walk → Walk
  unfolding walk_pte
  walk_pmd w =
      let pmdp = m.pmd_offset w.pudp vaddr in
      let pmd = m.read_once pmdp in
      let w' : Walk = record w { levels = w.levels + 1; pmdp = pmdp; pmd = pmd } in
      if m.pmd_absent pmd
      then w'
      else if m.pmd_leaf pmd
      then record w' { paddr = physical (m.pmd_pfn pmd) (2 ^ 21) vaddr }
      else walk_pte w'

  unfoldable pub walk_pud : Walk → Walk
  unfolding walk_pmd
  walk_pud w =
      let pudp = m.pud_offset w.p4dp vaddr in
      let pud = m.read_once pudp in
      let w' : Walk = record w { levels = w.levels + 1; pudp = pudp; pud = pud } in
      if m.pud_absent pud
      then w'
      else if m.pud_leaf pud
      then record w' { paddr = physical (m.pud_pfn pud) (2 ^ 30) vaddr }
      else walk_pmd w'

  unfoldable pub walk_p4d : Walk → Walk
  unfolding walk_pud
  walk_p4d w =
      let p4dp = m.p4d_offset w.pgdp vaddr in
      let p4d = m.read_once p4dp in
      let w' : Walk = record w { levels = w.levels + 1; p4dp = p4dp; p4d = p4d } in
      if m.p4d_absent p4d then w' else walk_pud w'

  unfoldable pub walk_pgd : ℕ → Walk
  unfolding walk_p4d
  walk_pgd mm =
      let pgdp = m.pgd_offset mm vaddr in
      let pgd = m.read_once pgdp in
      let w' : Walk = record no_walk { levels = 1; pgdp = pgdp; pgd = pgd } in
      if m.pgd_absent pgd then w' else walk_p4d w'
