-- ===== src/PageTable/Serving.antt =====
-- page_table_walker.c: what a request leaves held, and what it does to the query in user space.
use snippet.Base.{
  ℕ, zero, suc, negsuc, ◌+◌, ◌-◌, not, Bool, true, false, ◌⊎◌, inl, inr, ◌≡◌, ◌≢◌, refl, Option,
  none, some, ◌==◌, if-rule, case_option, case_option-rule, ℤ, pos, neg, is_zero, arith,
}
use snippet.PageTable.Walker.{Machine, PageTableQuery}
use snippet.PageTable.Request.{
  Held, UserSpace, get_task_mm, put_task, get_mm_by_pid, get_query_mm, walk_locked,
  query_page_table, walker_ioctl_unlocked, esrch, efault,
}

-- The same references and locks, with so many references to memory maps more.
abbrev pub Holds : Held → ℕ → Held → Type 0
Holds before n after =
    (after.pids ≡ before.pids)
    × (after.tasks ≡ before.tasks)
    × (after.mms ≡ before.mms + n)
    × (after.mmap_read_locks ≡ before.mmap_read_locks)

-- A lookup of a memory map takes one reference, if it finds one.
abbrev pub Looks : Held → Held × Option ℕ → Type 0
Looks before (after, none) = Holds before 0 after
Looks before (after, some mm) = Holds before 1 after

get_task_mm-Looks : (m : Machine) (task : ℕ) (held : Held) → Looks held (get_task_mm m task held)
get_task_mm-Looks m task held =
    case_option-rule (Looks held) (m.mm_of task) (λ nothing. (refl, refl, omega arith, refl))
      (λ mm found. (refl, refl, refl, refl))

get_mm_by_pid-Looks : (m : Machine) (pid : ℕ) (held : Held) → Looks held (get_mm_by_pid m pid held)
unfolding get_mm_by_pid
get_mm_by_pid-Looks m pid held =
    if-rule (Looks held) (not (m.has_pid pid)) (λ unknown. (refl, refl, omega arith, refl))
      (λ known.
        let held₁ : Held = record held { tasks = held.tasks + 1; pids = held.pids + 1 - 1 } in
        if-rule (Looks held) (not (m.has_task pid))
          (λ ended. (omega arith, refl, omega arith, refl))
          (λ running.
            case_option-rule (λ (o : Held × Option ℕ). Looks held (put_task o)) (m.mm_of pid)
              (λ nothing. (omega arith, omega arith, omega arith, refl))
              (λ mm found. (omega arith, omega arith, refl, refl))))

get_query_mm-Looks :
    (m : Machine) (query : PageTableQuery) (held : Held) → Looks held (get_query_mm m query held)
unfolding get_query_mm
get_query_mm-Looks m query held =
    if-rule (Looks held) (not (query.pid == 0)) (λ other. get_mm_by_pid-Looks m query.pid held)
      (λ own. get_task_mm-Looks m m.current held)

finished :
    (m : Machine) (query : PageTableQuery) (before : Held) (r : Held × Option ℕ)
    → Looks before r
    → Holds before 0
        (case_option {B = Held × (PageTableQuery × ℤ)} r.1
          (r.0, (query, neg esrch))
          (λ top. ((walk_locked m top query r.0).0, ((walk_locked m top query r.0).1, pos 0)))).0
unfolding walk_locked
finished m query before (held, none) h = h
finished m query before (held, some mm) h = (h.0, h.1, omega (arith, h.2), omega (arith, h.3))

-- A query, whatever it finds, gives back every reference and lock that it takes.
pub query_page_table-Holds :
    (m : Machine) (query : PageTableQuery) (held : Held)
    → Holds held 0 (query_page_table m query held).0
unfolding query_page_table
query_page_table-Holds m query held =
    finished m query held (get_query_mm m query held) (get_query_mm-Looks m query held)

-- What a request ends in: 0 and the query filled; an error before the copy, and the query as it was;
-- or -EFAULT, and what a copy that has failed leaves.
abbrev pub Serves : Machine → UserSpace → Held → Held × (UserSpace × ℤ) → Type 0
Serves m user held (after, (user', ret)) =
    ((ret ≡ pos 0)
      × (user' ≡ record user { query = (query_page_table m user.query held).1.0 })
      × (user.readable ≡ true)
      × (user.writable ≡ true))
    ⊎ ((ret ≢ pos 0) × (user' ≡ user))
    ⊎ ((ret ≡ neg efault)
        × (user.writable ≡ false)
        × (user' ≡ record user { query = user.torn (query_page_table m user.query held).1.0 }))

unnegated : (b : Bool) → not b ≡ false → b ≡ true
unnegated true e = refl
unnegated false e = cc

negated : (b : Bool) → not b ≡ true → b ≡ false
negated true e = cc
negated false e = refl

nonzero : (ret : ℤ) → not (is_zero ret) ≡ true → ret ≢ pos 0
nonzero (pos zero) e z = cc
nonzero (pos (suc n)) e z = cc
nonzero (negsuc n) e z = cc

-- An `ioctl` either returns 0, with the query in user space replaced by the one that the walk has
-- filled; or an error, with the query as it was; or -EFAULT when the filled query could not be
-- copied, of which a part may then stand there. It gives back every reference and lock.
pub walker_ioctl_unlocked-Serves :
    (m : Machine) (page_table_query cmd : ℕ) (user : UserSpace) (held : Held)
    → (Serves m user held (walker_ioctl_unlocked m page_table_query cmd user held))
      × (Holds held 0 (walker_ioctl_unlocked m page_table_query cmd user held).0)
unfolding walker_ioctl_unlocked
walker_ioctl_unlocked-Serves m page_table_query cmd user held =
    let kept = query_page_table-Holds m user.query held in
    let same : Holds held 0 held = (refl, refl, omega arith, refl) in
    if-rule (λ (r : Held × (UserSpace × ℤ)). Serves m user held r × Holds held 0 r.0)
      (not (cmd == page_table_query)) (λ other. (inr (inl ((λ e. cc), refl)), same))
      (λ asked.
        if-rule (λ (r : Held × (UserSpace × ℤ)). Serves m user held r × Holds held 0 r.0)
          (not user.readable) (λ unreadable. (inr (inl ((λ e. cc), refl)), same))
          (λ readable.
            if-rule (λ (r : Held × (UserSpace × ℤ)). Serves m user held r × Holds held 0 r.0)
              (not (is_zero (query_page_table m user.query held).1.1))
              (λ failed. (inr (inl (nonzero _ failed, refl)), kept))
              (λ done.
                if-rule (λ (r : Held × (UserSpace × ℤ)). Serves m user held r × Holds held 0 r.0)
                  (not user.writable)
                  (λ unwritable. (inr (inr (refl, negated _ unwritable, refl)), kept))
                  (λ writable.
                    (inl (refl, refl, unnegated _ readable, unnegated _ writable), kept)))))
