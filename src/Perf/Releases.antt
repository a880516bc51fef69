-- ===== src/Perf/Releases.antt =====
-- linux-c/perf-count.c: the descriptors and mappings that a run gives back.
use snippet.Base.{
  ℕ, zero, suc, ◌+◌, ◌*◌, ◌≡◌, refl, ◌∙◌, ap, inl, inr, Bool-cases, Option-cases, some, none, ◌∷◌,
  ℤ, pos, neg, is_zero,
}
use snippet.Posix.{Event, Trace, open_fds, live, remove, remove_head}
use snippet.Perf.Counters.{
  PerfSystem, count_instructions, read_counts, open_counters, with_counters, count_tlb_misses,
  count_all_instructions, count_all_misses, perf_main,
}

-- What was open and mapped before still is, and nothing else.
abbrev pub Keeps : Trace → Trace → Type 0
Keeps t t' = (open_fds t' ≡ open_fds t) × (live t' ≡ live t)

Keeps-trans : (a b c : Trace) → Keeps a b → Keeps b c → Keeps a c
Keeps-trans a b c h k = (k.0 ∙ h.0, k.1 ∙ h.1)

closed-Keeps : (fd : ℕ) (t : Trace) → Keeps t (Event.closed fd ∷ Event.opened fd ∷ t)
unfolding open_fds live
closed-Keeps fd t = (remove_head fd (open_fds t), refl)

module _ (os : PerfSystem) where
  count_instructions-Keeps :
      (num_rounds : ℕ) (t : Trace) → Keeps t (count_instructions os num_rounds t).0
  unfolding count_instructions
  count_instructions-Keeps num_rounds t = elim (Option-cases (os.perf_event_open t (neg 1))) [
    | inl refused ↦ rw refused (refl, refl)
    | inr (fd, opened) ↦
        let t₁ = Event.opened fd ∷ t in
        rw opened (elim (Option-cases (os.read_counter t₁ fd)) [
          | inl short ↦ rw short (closed-Keeps fd t)
          | inr (count, got) ↦ rw got (closed-Keeps fd t)
        ])
  ]

  read_counts-Keeps :
      (access_fd miss_fd : ℕ) (t : Trace)
      → Keeps t
          (read_counts os access_fd miss_fd (Event.opened miss_fd ∷ Event.opened access_fd ∷ t)).0
  unfolding read_counts open_fds live
  read_counts-Keeps access_fd miss_fd t =
      let both = Event.opened miss_fd ∷ Event.opened access_fd ∷ t in
      let closes =
        ap (remove access_fd) (remove_head miss_fd (access_fd ∷ open_fds t))
        ∙ remove_head access_fd (open_fds t) in
      elim (Option-cases (os.read_group both access_fd)) [
        | inl short ↦ rw short (closes, refl)
        | inr (group, got) ↦ rw got (closes, refl)
      ]

  module _
      (opens : (t : Trace) (group_fd : ℤ)
        → (fd : ℕ) × (os.perf_event_open t group_fd ≡ some fd)) where
    with_counters-Keeps : (t : Trace) → Keeps t (with_counters os (open_counters os t)).0
    unfolding with_counters open_counters
    with_counters-Keeps t =
        let (access_fd, access_opens) = opens t (neg 1) in
        let (miss_fd, miss_opens) = opens (Event.opened access_fd ∷ t) (pos access_fd) in
        rw (access_opens, miss_opens) (read_counts-Keeps access_fd miss_fd t)

    count_tlb_misses-Keeps :
        (page_size num_pages : ℕ) (t : Trace)
        → Keeps t (count_tlb_misses os page_size num_pages t).0
    unfolding count_tlb_misses open_fds live
    count_tlb_misses-Keeps page_size num_pages t =
        elim (Option-cases (os.mmap t (num_pages * page_size))) [
          | inl refused ↦ rw refused (refl, refl)
          | inr (pages, mapped) ↦
              let k = with_counters-Keeps (Event.allocated pages ∷ t) in
              rw mapped (k.0, ap (remove pages) k.1 ∙ remove_head pages (live t))
        ]

    count_all_instructions-Keeps :
        (left i : ℕ) (state : Trace × ℤ) → Keeps state.0 (count_all_instructions os left i state).0
    unfolding count_all_instructions
    count_all_instructions-Keeps zero i state = (refl, refl)
    count_all_instructions-Keeps (suc left) i (t, ret) = elim (Bool-cases (is_zero ret)) [
      | inl fine ↦
          let next = count_instructions os (i * 8388608) t in
          rw fine (
            Keeps-trans t next.0 (count_all_instructions os left (i + 1) next).0
              (count_instructions-Keeps (i * 8388608) t)
              (count_all_instructions-Keeps left (i + 1) next))
      | inr failed ↦ rw failed (refl, refl)
    ]

    count_all_misses-Keeps :
        (page_size left i : ℕ) (state : Trace × ℤ)
        → Keeps state.0 (count_all_misses os page_size left i state).0
    unfolding count_all_misses
    count_all_misses-Keeps page_size zero i state = (refl, refl)
    count_all_misses-Keeps page_size (suc left) i (t, ret) = elim (Bool-cases (is_zero ret)) [
      | inl fine ↦
          let one = count_tlb_misses os page_size (i * 2097152) t in
          let next : Trace × ℤ = (one.0, one.2) in
          rw fine (
            Keeps-trans t one.0 (count_all_misses os page_size left (i + 1) next).0
              (count_tlb_misses-Keeps page_size (i * 2097152) t)
              (count_all_misses-Keeps page_size left (i + 1) next))
      | inr failed ↦ rw failed (refl, refl)
    ]

    -- When each counter can be opened, a run of the program leaves the descriptors and mappings as
    -- they were, whatever else fails and wherever it stops.
    pub perf_main-Keeps : (page_size : ℕ) (t : Trace) → Keeps t (perf_main os page_size t).0
    unfolding perf_main
    perf_main-Keeps page_size t =
        let counted = count_all_instructions os 4 1 (t, pos 0) in
        Keeps-trans t counted.0 (count_all_misses os page_size 4 1 counted).0
          (count_all_instructions-Keeps 4 1 (t, pos 0))
          (count_all_misses-Keeps page_size 4 1 counted)

  open_counters-half :
      (access_fd : ℕ) (t : Trace)
      → os.perf_event_open t (neg 1) ≡ some access_fd
      → os.perf_event_open (Event.opened access_fd ∷ t) (pos access_fd) ≡ none
      → open_counters os t ≡ (Event.opened access_fd ∷ t, some access_fd, none)
  unfolding open_counters
  open_counters-half access_fd t first second = rw (first, second) refl

  -- When the counter of the accesses can be opened and that of the misses cannot, the first stays
  -- open, though the mapping is given back.
  pub count_tlb_misses-leak :
      (page_size num_pages pages access_fd : ℕ) (t : Trace)
      → os.mmap t (num_pages * page_size) ≡ some pages
      → os.perf_event_open (Event.allocated pages ∷ t) (neg 1) ≡ some access_fd
      → os.perf_event_open (Event.opened access_fd ∷ Event.allocated pages ∷ t) (pos access_fd)
        ≡ none
      → (open_fds (count_tlb_misses os page_size num_pages t).0 ≡ access_fd ∷ open_fds t)
        × (live (count_tlb_misses os page_size num_pages t).0 ≡ live t)
  unfolding count_tlb_misses with_counters open_fds live
  count_tlb_misses-leak page_size num_pages pages access_fd t mapped first second =
      let half = open_counters-half access_fd (Event.allocated pages ∷ t) first second in
      rw (mapped, half, half) (refl, remove_head pages (live t))
