-- ===== src/PageTable/Walk.antt =====
-- page_table_walker.c: the walk finds the translation that the tables hold.
use snippet.Base.{ℕ, ◌%◌, ◌^◌, ◌≤◌, true, false, ◌⊎◌, inl, inr, ◌≡◌, refl, if-rule, arith}
use snippet.PageTable.Walker.{
  Machine, Walk, physical, walk_pte, walk_pmd, walk_pud, walk_p4d, walk_pgd,
}

module _ (m : Machine) (mm vaddr : ℕ) where
  -- The entries that a walk passes, each at the place that the one above gives.
  abbrev pub pgd_at : ℕ
  pgd_at = m.pgd_offset mm vaddr

  abbrev pub p4d_at : ℕ
  p4d_at = m.p4d_offset pgd_at vaddr

  abbrev pub pud_at : ℕ
  pud_at = m.pud_offset p4d_at vaddr

  abbrev pub pmd_at : ℕ
  pmd_at = m.pmd_offset pud_at vaddr

  abbrev pub pte_at : ℕ
  pte_at = m.pte_offset pmd_at vaddr

  -- The tables lead to a PUD.
  abbrev pub ReachesPud : Type 0
  ReachesPud =
      (m.pgd_absent (m.read_once pgd_at) ≡ false)
      × (m.p4d_absent (m.read_once p4d_at) ≡ false)
      × (m.pud_absent (m.read_once pud_at) ≡ false)

  -- The tables lead to a PMD.
  abbrev pub ReachesPmd : Type 0
  ReachesPmd =
      ReachesPud
      × (m.pud_leaf (m.read_once pud_at) ≡ false)
      × (m.pmd_absent (m.read_once pmd_at) ≡ false)

  -- The tables map the address to a physical one, over so many levels.
  pub data Translates : ℕ → ℕ → Type 0 where
    by_pud :
        ReachesPud
        → m.pud_leaf (m.read_once pud_at) ≡ true
        → Translates (physical (m.pud_pfn (m.read_once pud_at)) (2 ^ 30) vaddr) 3
    by_pmd :
        ReachesPmd
        → m.pmd_leaf (m.read_once pmd_at) ≡ true
        → Translates (physical (m.pmd_pfn (m.read_once pmd_at)) (2 ^ 21) vaddr) 4
    by_pte :
        ReachesPmd
        → m.pmd_leaf (m.read_once pmd_at) ≡ false
        → m.pte_none (m.read_once pte_at) ≡ false
        → Translates (physical (m.pte_pfn (m.read_once pte_at)) (2 ^ 12) vaddr) 5

  -- What a walk returns: an address that the tables map to, or 0 behind at most five levels.
  abbrev pub Answers : Walk → Type 0
  Answers w = (Translates w.paddr w.levels) ⊎ ((w.paddr ≡ 0) × (1 ≤ w.levels) × (w.levels ≤ 5))

  -- The walk, for every address and table, returns an address that the tables map to, or 0, and
  -- goes over at least one level and at most five.
  pub walk_pgd-Answers : Answers (walk_pgd m vaddr mm)
  unfolding walk_pgd walk_p4d walk_pud walk_pmd walk_pte
  walk_pgd-Answers =
      if-rule Answers (m.pgd_absent (m.read_once pgd_at))
        (λ no_pgd. inr (refl, omega arith, omega arith))
        (λ a.
          if-rule Answers (m.p4d_absent (m.read_once p4d_at))
            (λ no_p4d. inr (refl, omega arith, omega arith))
            (λ b.
              if-rule Answers (m.pud_absent (m.read_once pud_at))
                (λ no_pud. inr (refl, omega arith, omega arith))
                (λ c.
                  if-rule Answers (m.pud_leaf (m.read_once pud_at))
                    (λ leaf. inl (by_pud (a, b, c) leaf))
                    (λ d.
                      if-rule Answers (m.pmd_absent (m.read_once pmd_at))
                        (λ no_pmd. inr (refl, omega arith, omega arith))
                        (λ e.
                          if-rule Answers (m.pmd_leaf (m.read_once pmd_at))
                            (λ leaf. inl (by_pmd ((a, b, c), d, e) leaf))
                            (λ f.
                              if-rule Answers (m.pte_none (m.read_once pte_at))
                                (λ no_pte. inr (refl, omega arith, omega arith))
                                (λ g. inl (by_pte ((a, b, c), d, e) f g))))))))

  -- A translation keeps the offset of the address in its page of 4 KB, at whichever level it stands.
  pub Translates-offset : (pa levels : ℕ) → Translates pa levels → pa % 2 ^ 12 ≡ vaddr % 2 ^ 12
  Translates-offset _ _ (by_pud r leaf) = omega arith
  Translates-offset _ _ (by_pmd r leaf) = omega arith
  Translates-offset _ _ (by_pte r no_leaf present) = omega arith
