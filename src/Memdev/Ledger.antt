-- ===== src/Memdev/Ledger.antt =====
-- The books of memdev.c: what the driver holds is what it took from the kernel less what it gave
-- back, and `mapped_count` counts the regions.
use snippet.Base.{ℕ, suc, ◌+◌, ◌%◌, ◌^◌, ◌≡◌, refl, false, List, [], ◌∷◌, length, count, arith}
use snippet.Memdev.State.{MappedRegion, FileState, Driver, free_mapped_region, free_regions}
use snippet.Memdev.Freeing.{count-reverse_onto, free_pages_lem}

-- How often page `p` stands in the regions.
abbrev pub held : ℕ → List MappedRegion → ℕ
held p [] = 0
held p (r ∷ rs) = count p r.pages + held p rs

abbrev pub held_by_files : ℕ → List FileState → ℕ
held_by_files p [] = 0
held_by_files p (f ∷ fs) = held p f.regions + held_by_files p fs

abbrev pub regions_of : List FileState → ℕ
regions_of [] = 0
regions_of (f ∷ fs) = length f.regions + regions_of fs

-- `npages` is the length of the array.
abbrev pub Sized : List MappedRegion → Type 0
Sized [] = Unit
Sized (r ∷ rs) = (r.npages ≡ length r.pages) × Sized rs

abbrev pub FilesSized : List FileState → Type 0
FilesSized [] = Unit
FilesSized (f ∷ fs) = Sized f.regions × FilesSized fs

-- The books, of pages taken and of entries adopted, with `pages p` copies of page `p`, `regions` regions and `files` files held.
pub record Ledger (d : Driver) (pages : ℕ → ℕ) (regions files : ℕ) : Type 0 where
  pub page_books :
      (p : ℕ)
      → count p d.kernel.pages_out + count p d.kernel.adopted ≡ count p d.kernel.pages_in + pages p
  pub array_books : d.kernel.arrays_out ≡ d.kernel.arrays_in + regions
  pub object_books : d.kernel.objects_out ≡ d.kernel.objects_in + (regions + files)
  pub module_books : d.kernel.module_gets ≡ d.kernel.module_puts + files
  pub counter : d.mapped_count ≡ regions % 2 ^ 32
  pub no_fault : d.kernel.faulted ≡ false

-- The invariant of the driver.
pub record IsBalanced (d : Driver) : Type 0 where
  pub ledger :
      Ledger d (λ p. held_by_files p d.file_list) (regions_of d.file_list) (length d.file_list)
  pub sized : FilesSized d.file_list

-- Freeing a region takes it, and nothing else, off the books.
pub free_mapped_region-Ledger :
    (r : MappedRegion) (d : Driver) (pages : ℕ → ℕ) (regions files : ℕ)
    → r.npages ≡ length r.pages
    → Ledger d (λ p. count p r.pages + pages p) (suc regions) files
    → Ledger (free_mapped_region r d) pages regions files
unfolding free_mapped_region
free_mapped_region-Ledger r d pages regions files e l =
    rw (free_pages_lem r.npages r.pages d.kernel e) (record {
      page_books =
          λ p. omega (arith, l.page_books p, count-reverse_onto p r.pages d.kernel.pages_in);
      array_books = omega arith;
      object_books = omega arith;
      module_books = omega arith;
      counter = omega arith;
      no_fault = l.no_fault;
    })

pub free_regions-Ledger :
    (rs : List MappedRegion) (d : Driver) (pages : ℕ → ℕ) (regions files : ℕ)
    → Sized rs
    → Ledger d (λ p. held p rs + pages p) (length rs + regions) files
    → Ledger (free_regions rs d) pages regions files
unfolding free_regions
free_regions-Ledger [] d pages regions files s l = record {
  page_books = λ p. omega (arith, l.page_books p);
  array_books = omega arith;
  object_books = omega arith;
  module_books = omega arith;
  counter = omega arith;
  no_fault = l.no_fault;
}
free_regions-Ledger (r ∷ rs) d pages regions files s l =
    free_regions-Ledger rs (free_mapped_region r d) pages regions files s.1 (
      free_mapped_region-Ledger r d (λ p. held p rs + pages p) (length rs + regions) files s.0
        (record {
          page_books = λ p. omega (arith, l.page_books p);
          array_books = omega arith;
          object_books = omega arith;
          module_books = omega arith;
          counter = omega arith;
          no_fault = l.no_fault;
        }))

-- The loop touches no list of files.
pub free_regions-file_list :
    (rs : List MappedRegion) (d : Driver) → (free_regions rs d).file_list ≡ d.file_list
unfolding free_regions free_mapped_region
free_regions-file_list [] d = refl
free_regions-file_list (r ∷ rs) d = free_regions-file_list rs (free_mapped_region r d)
