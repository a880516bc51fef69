-- ===== src/PageTable/Request.antt =====
-- kernel-module/mm/page_table/page_table_walker.c: the device that answers queries, and the
-- references and the lock that a query takes.
use snippet.Base.{
  ℕ, ◌+◌, ◌-◌, Bool, true, false, not, Option, none, some, ◌==◌, if◌then◌else◌, case_option, ℤ, pos,
  neg, is_zero,
}
use snippet.PageTable.Walker.{PageTableQuery, Machine, Walk, walk_pgd}

-- The references and locks that are held.
pub record Held : Type 0 where
  pub pids : ℕ
  pub tasks : ℕ
  pub mms : ℕ
  pub mmap_read_locks : ℕ

-- `get_task_mm`, which takes a reference
abbrev pub get_task_mm : Machine → ℕ → Held → Held × Option ℕ
get_task_mm m task held =
    case_option (m.mm_of task) (held, none) λ mm. (record held { mms = held.mms + 1 }, some mm)

-- `put_task_struct`
abbrev pub put_task : Held × Option ℕ → Held × Option ℕ
put_task (held, mm) = (record held { tasks = held.tasks - 1 }, mm)

-- The task of a process is numbered like it.
unfoldable pub get_mm_by_pid : Machine → ℕ → Held → Held × Option ℕ
get_mm_by_pid m pid held =
    if not (m.has_pid pid)
    then (held, none)
    else let held₁ : Held = record held { pids = held.pids + 1 } in
      if not (m.has_task pid)
      then (record held₁ { pids = held₁.pids - 1 }, none)
      else let held₂ : Held = record held₁ { tasks = held₁.tasks + 1 } in
        put_task (get_task_mm m pid (record held₂ { pids = held₂.pids - 1 }))

-- The stores behind `out`.
abbrev pub fill_query : Machine → ℕ → Walk → PageTableQuery → PageTableQuery
fill_query m mm w query = record query {
  num_levels = w.levels;
  pgd_table_kla = mm;
  pgd_entry_kla = w.pgdp;
  p4d_entry_kla = w.p4dp;
  pud_entry_kla = w.pudp;
  pmd_entry_kla = w.pmdp;
  pte_entry_kla = w.ptep;
  pgd_entry = w.pgd;
  p4d_entry = w.p4d;
  pud_entry = w.pud;
  pmd_entry = w.pmd;
  pte_entry = w.pte;
  pa = w.paddr;
  kla_start = m.page_offset;
}

-- `mmap_read_lock`, the walk, `mmap_read_unlock` and `mmput`
unfoldable pub walk_locked : Machine → ℕ → PageTableQuery → Held → Held × PageTableQuery
unfolding walk_pgd
walk_locked m mm query held =
    let held₁ : Held = record held { mmap_read_locks = held.mmap_read_locks + 1 } in
    let w = walk_pgd m query.va mm in
    let held₂ : Held = record held₁ { mmap_read_locks = held₁.mmap_read_locks - 1 } in
    (record held₂ { mms = held₂.mms - 1 }, fill_query m mm w query)

abbrev pub esrch : ℕ
esrch = 3

abbrev pub efault : ℕ
efault = 14

abbrev pub enotty : ℕ
enotty = 25

-- The memory map of the process asked for, or of the current one for a `pid` of 0.
unfoldable pub get_query_mm : Machine → PageTableQuery → Held → Held × Option ℕ
unfolding get_mm_by_pid
get_query_mm m query held =
    if not (query.pid == 0) then get_mm_by_pid m query.pid held else get_task_mm m m.current held

-- What is held, and the query with the value returned.
unfoldable pub query_page_table : Machine → PageTableQuery → Held → Held × (PageTableQuery × ℤ)
unfolding get_query_mm walk_locked
query_page_table m query held =
    let (held₁, mm) = get_query_mm m query held in
    case_option mm (held₁, (query, neg esrch))
      λ top. let (held₂, filled) = walk_locked m top query held₁ in (held₂, (filled, pos 0))

-- The query in user space, and whether all of it can be copied from and to it. `torn` is what stands
-- there behind a copy to it that has failed, which may have copied a part.
pub record UserSpace : Type 0 where
  pub query : PageTableQuery
  pub readable : Bool
  pub writable : Bool
  pub torn : PageTableQuery → PageTableQuery

-- `page_table_query` is the number of the command `PAGE_TABLE_QUERY`.
unfoldable pub walker_ioctl_unlocked :
    Machine → (page_table_query cmd : ℕ) → UserSpace → Held → Held × (UserSpace × ℤ)
unfolding query_page_table
walker_ioctl_unlocked m page_table_query cmd user held =
    if not (cmd == page_table_query)
    then (held, (user, neg enotty))
    else if not user.readable
    then (held, (user, neg efault))
    else let (held₁, answer) = query_page_table m user.query held in
      let (query, ret) = answer in
      if not (is_zero ret)
      then (held₁, (user, ret))
      else if not user.writable
      then (held₁, (record user { query = user.torn query }, neg efault))
      else (held₁, (record user { query = query }, pos 0))

-- Whether the device is registered, after `walker_init` with the answer of `misc_register`, and
-- after `walker_exit`.
unfoldable pub walker_init : ℤ → Bool → Bool × ℤ
walker_init answer registered = if not (is_zero answer) then (registered, answer) else (true, pos 0)

unfoldable pub walker_exit : Bool → Bool
walker_exit registered = false
