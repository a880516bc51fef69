-- ===== src/Perf/Counters.antt =====
-- linux-c/perf-count.c. The multiplications and the accesses that are measured are left out, as are
-- the `ioctl`s that start and stop a counter. `allocated` and `freed` events are `mmap` and `munmap`.
use snippet.Base.{
  ℕ, zero, suc, ◌+◌, ◌*◌, ◌&&◌, Option, none, some, ◌∷◌, ◌==◌, if◌then◌else◌, case_option, ℤ, pos,
  neg, is_zero,
}
use snippet.Posix.{Event, Trace}

-- `struct perf_group_read_format`, a value and an id twice.
pub record PerfGroup : Type 0 where
  pub nr : ℕ
  pub value₀ : ℕ
  pub id₀ : ℕ
  pub value₁ : ℕ
  pub id₁ : ℕ

-- The system's answers. `read_group` is a read of the whole structure, or nothing.
pub record PerfSystem : Type 0 where
  pub perf_event_open : Trace → (group_fd : ℤ) → Option ℕ
  pub errno : Trace → ℕ
  pub read_counter : Trace → (fd : ℕ) → Option ℕ
  pub mmap : Trace → (size : ℕ) → Option ℕ
  pub event_id : Trace → (fd : ℕ) → ℕ
  pub read_group : Trace → (fd : ℕ) → Option PerfGroup

-- The counts of the accesses and of the misses, which the group has in either order.
unfoldable pub group_counts : PerfGroup → (access_event_id miss_event_id : ℕ) → Option (ℕ × ℕ)
group_counts g access_event_id miss_event_id =
    if (g.id₀ == access_event_id) && (g.id₁ == miss_event_id)
    then some (g.value₀, g.value₁)
    else if (g.id₁ == access_event_id) && (g.id₀ == miss_event_id)
    then some (g.value₁, g.value₀)
    else none

module _ (os : PerfSystem) where
  -- The descriptor is closed on each path; the `close(-1)` of a descriptor that was not opened fails.
  unfoldable pub count_instructions : (num_rounds : ℕ) → Trace → Trace × ℤ
  count_instructions num_rounds t =
      case_option (os.perf_event_open t (neg 1)) (t, neg (os.errno t))
        λ fd.
          let t₁ = Event.opened fd ∷ t in
          let closed = Event.closed fd ∷ t₁ in
          case_option (os.read_counter t₁ fd) (closed, neg (os.errno t₁))
            (λ num_instr. (closed, pos 0))

  -- From the read of the group on: the result is what is printed. An id that does not match leaves
  -- `ret` at 0.
  unfoldable pub read_counts : (access_fd miss_fd : ℕ) → Trace → Trace × Option (ℕ × ℕ) × ℤ
  unfolding group_counts
  read_counts access_fd miss_fd t =
      let closed = Event.closed access_fd ∷ Event.closed miss_fd ∷ t in
      case_option (os.read_group t access_fd) (closed, none, neg (os.errno t))
        λ perf_result. (
          closed,
          group_counts perf_result (os.event_id t access_fd) (os.event_id t miss_fd),
          pos 0,
        )

  -- The second descriptor is asked for also when the first was refused.
  unfoldable pub open_counters : Trace → Trace × Option ℕ × Option ℕ
  open_counters t =
      case_option (os.perf_event_open t (neg 1))
        (case_option (os.perf_event_open t (neg 1)) (t, none, none)
          λ miss_fd. (Event.opened miss_fd ∷ t, none, some miss_fd))
        λ access_fd.
          let t₁ = Event.opened access_fd ∷ t in
          case_option (os.perf_event_open t₁ (pos access_fd)) (t₁, some access_fd, none)
            λ miss_fd. (Event.opened miss_fd ∷ t₁, some access_fd, some miss_fd)

  unfoldable pub with_counters : Trace × Option ℕ × Option ℕ → Trace × Option (ℕ × ℕ) × ℤ
  unfolding read_counts
  with_counters (t, some access_fd, some miss_fd) = read_counts access_fd miss_fd t
  with_counters (t, some access_fd, none) = (t, none, neg 1)
  with_counters (t, none, miss_fd) = (t, none, neg 1)

  unfoldable pub count_tlb_misses : (page_size num_pages : ℕ) → Trace → Trace × Option (ℕ × ℕ) × ℤ
  unfolding open_counters with_counters
  count_tlb_misses page_size num_pages t =
      case_option (os.mmap t (num_pages * page_size)) (t, none, neg 12)
        λ pages.
          let (t₁, counts, ret) = with_counters (open_counters (Event.allocated pages ∷ t)) in
          (Event.freed pages ∷ t₁, counts, ret)

  -- The loops of `main`: `left` rounds are left, and `ret` is 0 or the loop ends.
  unfoldable pub count_all_instructions : (left i : ℕ) → Trace × ℤ → Trace × ℤ
  unfolding count_instructions
  count_all_instructions zero i state = state
  count_all_instructions (suc left) i (t, ret) =
      let next = count_all_instructions left (i + 1) (count_instructions (i * 8388608) t) in
      if is_zero ret then next else (t, ret)

  unfoldable pub count_all_misses : (page_size left i : ℕ) → Trace × ℤ → Trace × ℤ
  unfolding count_tlb_misses
  count_all_misses page_size zero i state = state
  count_all_misses page_size (suc left) i (t, ret) =
      let (t₁, counts, ret₁) = count_tlb_misses page_size (i * 2097152) t in
      let next = count_all_misses page_size left (i + 1) (t₁, ret₁) in
      if is_zero ret then next else (t, ret)

  unfoldable pub perf_main : (page_size : ℕ) → Trace → Trace × ℤ
  unfolding count_all_instructions count_all_misses
  perf_main page_size t = count_all_misses page_size 4 1 (count_all_instructions 4 1 (t, pos 0))
