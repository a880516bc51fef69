-- ===== src/Memdev/Freeing.antt =====
-- What the freeing loops of memdev.c do, in closed form.
use mathlib.Core.List.{append_assoc}
use snippet.Base.{
  ℕ, zero, suc, ◌+◌, ◌≤◌, ◌<◌, ◌≡◌, refl, ap, List, [], ◌∷◌, ◌++◌, some, Option-cases, inl, inr,
  length, get_elem?, take, count, arith,
}
use snippet.Memdev.State.{Kernel, free_page, free_pages, free_pages_down}

-- `ps` reversed onto `qs`
abbrev pub reverse_onto : List ℕ → List ℕ → List ℕ
reverse_onto [] qs = qs
reverse_onto (p ∷ ps) qs = reverse_onto ps (p ∷ qs)

pub count-reverse_onto :
    (a : ℕ) (ps qs : List ℕ) → count a (reverse_onto ps qs) ≡ count a ps + count a qs
count-reverse_onto a [] qs = omega arith
count-reverse_onto a (p ∷ ps) qs = omega (arith, count-reverse_onto a ps (p ∷ qs))

-- The loop over all of the array frees each page once, and faults nowhere.
pub free_pages_lem :
    (n : ℕ) (ps : List ℕ) (k : Kernel)
    → n ≡ length ps
    → free_pages n ps k ≡ record k { pages_in = reverse_onto ps k.pages_in }
unfolding free_pages
free_pages_lem zero [] k h = refl
free_pages_lem zero (p ∷ ps) k h = absurd (omega arith)
free_pages_lem (suc n) [] k h = absurd (omega arith)
free_pages_lem (suc n) (p ∷ ps) k h = free_pages_lem n ps (free_page p k) (omega arith)

get_elem?-take :
    (n : ℕ) (ps : List ℕ)
    → n < length ps
    → (p : ℕ) × (get_elem? ps n ≡ some p) × (take (suc n) ps ≡ take n ps ++ p ∷ [])
get_elem?-take n [] h = absurd (omega arith)
get_elem?-take zero (p ∷ ps) h = (p, refl, refl)
get_elem?-take (suc n) (p ∷ ps) h =
    let (q, found, split) = get_elem?-take n ps (omega arith) in (q, found, ap (◌∷◌ p) split)

-- The loop of the error path frees the first `n` entries, from the last of them.
pub free_pages_down-take :
    (n : ℕ) (ps : List ℕ) (k : Kernel)
    → n ≤ length ps
    → free_pages_down n ps k ≡ record k { pages_in = take n ps ++ k.pages_in }
unfolding free_pages_down
free_pages_down-take zero ps k h = refl
free_pages_down-take (suc n) ps k h =
    let (p, found, split) = get_elem?-take n ps (omega arith) in
    rw (free_pages_down, found, split, append_assoc)
      (free_pages_down-take n ps (free_page p k) (omega arith))

-- The loop calls no `get_cpu`, also where it faults.
pub free_pages_down-cpu_gets :
    (n : ℕ) (ps : List ℕ) (k : Kernel) → (free_pages_down n ps k).cpu_gets ≡ k.cpu_gets
unfolding free_pages_down
free_pages_down-cpu_gets zero ps k = refl
free_pages_down-cpu_gets (suc n) ps k = elim (Option-cases (get_elem? ps n)) [
  | inl none_left ↦ rw (free_pages_down, none_left) refl
  | inr (p, found) ↦ rw (free_pages_down, found) (free_pages_down-cpu_gets n ps (free_page p k))
]
