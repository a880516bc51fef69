-- ===== src/Memdev/Regions.antt =====
-- kernel-module/memdev/memdev.c: the global list of open files and their lists of regions.
use snippet.Base.{ℕ, Bool, ◌&&◌, List, [], ◌∷◌, Option, none, some, ◌==◌, if◌then◌else◌}
use snippet.Memdev.State.{MappedRegion, FileState}

-- The test of `memdev_vma_close`.
abbrev pub region_at : ℕ → ℕ → MappedRegion → Bool
region_at pid va r = r.pid == pid && r.user_va == va

-- The inner loop of `memdev_vma_close`: the first region that fits, and the list without it.
unfoldable pub take_region : ℕ → ℕ → List MappedRegion → Option (MappedRegion × List MappedRegion)
take_region pid va [] = none
take_region pid va (r ∷ rs) =
    if region_at pid va r
    then some (r, rs)
    else elim (take_region pid va rs) [ none ↦ none | some (x, rest) ↦ some (x, r ∷ rest) ]

-- Both loops of `memdev_vma_close`.
unfoldable pub take_mapping : ℕ → ℕ → List FileState → Option (MappedRegion × List FileState)
take_mapping pid va [] = none
take_mapping pid va (f ∷ fs) = elim (take_region pid va f.regions) [
  | some (r, rest) ↦ some (r, record f { regions = rest } ∷ fs)
  | none ↦ elim (take_mapping pid va fs) [ none ↦ none | some (r, rest) ↦ some (r, f ∷ rest) ]
]

-- `list_del(&state->list)`, with the file that is taken out.
unfoldable pub take_file : ℕ → List FileState → Option (FileState × List FileState)
take_file a [] = none
take_file a (f ∷ fs) =
    if f.address == a
    then some (f, fs)
    else elim (take_file a fs) [ none ↦ none | some (x, rest) ↦ some (x, f ∷ rest) ]

-- `list_add(&region->list, &state->regions)`
unfoldable pub add_region : ℕ → MappedRegion → List FileState → Option (List FileState)
add_region a r [] = none
add_region a r (f ∷ fs) =
    if f.address == a
    then some (record f { regions = r ∷ f.regions } ∷ fs)
    else elim (add_region a r fs) [ none ↦ none | some rest ↦ some (f ∷ rest) ]
