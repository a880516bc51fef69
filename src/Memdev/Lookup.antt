-- ===== src/Memdev/Lookup.antt =====
-- What the list operations of memdev.c take out of the lists, and what they leave.
use snippet.Base.{
  ℕ, suc, ◌+◌, ◌≡◌, refl, true, List, [], ◌∷◌, Option, none, some, length, count, ==_iff, ◌≢◌,
  Bool-cases, Option-cases, ◌==◌, ◌⊎◌, inl, inr, arith,
}
use snippet.Memdev.State.{MappedRegion, FileState}
use snippet.Memdev.Regions.{region_at, take_region, take_mapping, take_file, add_region}
use snippet.Memdev.Ledger.{held, held_by_files, regions_of, Sized, FilesSized}

-- `r` stands in `rs`, and `rest` is `rs` without it.
pub record TakesRegion (pid va : ℕ) (rs : List MappedRegion) (r : MappedRegion)
    (rest : List MappedRegion) : Type 0 where
  pub fits : region_at pid va r ≡ true
  pub pages : (p : ℕ) → held p rs ≡ count p r.pages + held p rest
  pub regions : length rs ≡ suc (length rest)
  pub sizes : Sized rs → (r.npages ≡ length r.pages) × Sized rest

module _ (pid va : ℕ) where
  abbrev TakenRegion : List MappedRegion → Option (MappedRegion × List MappedRegion) → Type 0
  TakenRegion rs none = Unit
  TakenRegion rs (some (r, rest)) = TakesRegion pid va rs r rest

  skip_region :
      (x : MappedRegion) (rs : List MappedRegion) (o : Option (MappedRegion × List MappedRegion))
      → TakenRegion rs o
      → TakenRegion (x ∷ rs) (elim o [ none ↦ none | some (r, rest) ↦ some (r, x ∷ rest) ])
  skip_region x rs none t = tt
  skip_region x rs (some (r, rest)) t = record {
    fits = t.fits;
    pages = λ p. omega (arith, t.pages p);
    regions = omega (arith, t.regions);
    sizes = λ s. ((t.sizes s.1).0, (s.0, (t.sizes s.1).1));
  }

  take_region-TakenRegion : (rs : List MappedRegion) → TakenRegion rs (take_region pid va rs)
  unfolding take_region
  take_region-TakenRegion [] = tt
  take_region-TakenRegion (x ∷ rs) = elim (Bool-cases (region_at pid va x)) [
    | inl here ↦ rw here (record { fits = here; pages = λ p. refl; regions = refl; sizes = λ s. s })
    | inr elsewhere ↦ rw elsewhere (skip_region x rs _ (take_region-TakenRegion rs))
  ]

-- The same of the list of files.
pub record TakesMapping (pid va : ℕ) (fs : List FileState) (r : MappedRegion)
    (rest : List FileState) : Type 0 where
  pub fits : region_at pid va r ≡ true
  pub pages : (p : ℕ) → held_by_files p fs ≡ count p r.pages + held_by_files p rest
  pub regions : regions_of fs ≡ suc (regions_of rest)
  pub files : length fs ≡ length rest
  pub sizes : FilesSized fs → (r.npages ≡ length r.pages) × FilesSized rest

module _ (pid va : ℕ) where
  abbrev pub TakenMapping : List FileState → Option (MappedRegion × List FileState) → Type 0
  TakenMapping fs none = Unit
  TakenMapping fs (some (r, rest)) = TakesMapping pid va fs r rest

  skip_file :
      (f : FileState) (fs : List FileState) (o : Option (MappedRegion × List FileState))
      → TakenMapping fs o
      → TakenMapping (f ∷ fs) (elim o [ none ↦ none | some (r, rest) ↦ some (r, f ∷ rest) ])
  skip_file f fs none t = tt
  skip_file f fs (some (r, rest)) t = record {
    fits = t.fits;
    pages = λ p. omega (arith, t.pages p);
    regions = omega (arith, t.regions);
    files = omega (arith, t.files);
    sizes = λ s. ((t.sizes s.1).0, (s.0, (t.sizes s.1).1));
  }

  take_from_file :
      (f : FileState) (fs : List FileState) (r : MappedRegion) (rest : List MappedRegion)
      → TakesRegion pid va f.regions r rest
      → TakesMapping pid va (f ∷ fs) r (record f { regions = rest } ∷ fs)
  take_from_file f fs r rest t = record {
    fits = t.fits;
    pages = λ p. omega (arith, t.pages p);
    regions = omega (arith, t.regions);
    files = refl;
    sizes = λ s. ((t.sizes s.0).0, ((t.sizes s.0).1, s.1));
  }

  pub take_mapping-TakenMapping : (fs : List FileState) → TakenMapping fs (take_mapping pid va fs)
  unfolding take_mapping
  take_mapping-TakenMapping [] = tt
  take_mapping-TakenMapping (f ∷ fs) = elim (Option-cases (take_region pid va f.regions)) [
    | inl missing ↦ rw (take_mapping, missing) (skip_file f fs _ (take_mapping-TakenMapping fs))
    | inr (t, found) ↦
        rw (take_mapping, found)
          (take_from_file f fs t.0 t.1 (rw found at (take_region-TakenRegion pid va f.regions)))
  ]

-- `f` stands in `fs`, and `rest` is `fs` without it.
pub record TakesFile (a : ℕ) (fs : List FileState) (f : FileState) (rest : List FileState)
    : Type 0 where
  pub fits : f.address ≡ a
  pub pages : (p : ℕ) → held_by_files p fs ≡ held p f.regions + held_by_files p rest
  pub regions : regions_of fs ≡ length f.regions + regions_of rest
  pub files : length fs ≡ suc (length rest)
  pub sizes : FilesSized fs → Sized f.regions × FilesSized rest

-- A file has one region more, `r`.
pub record AddsRegion (fs : List FileState) (r : MappedRegion) (more : List FileState)
    : Type 0 where
  pub pages : (p : ℕ) → held_by_files p more ≡ count p r.pages + held_by_files p fs
  pub regions : regions_of more ≡ suc (regions_of fs)
  pub files : length more ≡ length fs
  pub sizes : FilesSized fs → r.npages ≡ length r.pages → FilesSized more

module _ (a : ℕ) where
  abbrev pub IsOpen : List FileState → Type 0
  IsOpen [] = ⊥
  IsOpen (f ∷ fs) = (f.address ≡ a) ⊎ IsOpen fs

  abbrev pub TakenFile : List FileState → Option (FileState × List FileState) → Type 0
  TakenFile fs none = ¬ IsOpen fs
  TakenFile fs (some (f, rest)) = TakesFile a fs f rest

  abbrev pub AddedRegion : List FileState → MappedRegion → Option (List FileState) → Type 0
  AddedRegion fs r none = ¬ IsOpen fs
  AddedRegion fs r (some more) = AddsRegion fs r more

  pass_file :
      (x : FileState) (fs : List FileState) (o : Option (FileState × List FileState))
      → x.address ≢ a
      → TakenFile fs o
      → TakenFile (x ∷ fs) (elim o [ none ↦ none | some (f, rest) ↦ some (f, x ∷ rest) ])
  pass_file x fs none ne t = λ h. elim h [ inl e ↦ ne e | inr later ↦ t later ]
  pass_file x fs (some (f, rest)) ne t = record {
    fits = t.fits;
    pages = λ p. omega (arith, t.pages p);
    regions = omega (arith, t.regions);
    files = omega (arith, t.files);
    sizes = λ s. ((t.sizes s.1).0, (s.0, (t.sizes s.1).1));
  }

  pub take_file-TakenFile : (fs : List FileState) → TakenFile fs (take_file a fs)
  unfolding take_file
  take_file-TakenFile [] = λ h. h
  take_file-TakenFile (x ∷ fs) = elim (Bool-cases (x.address == a)) [
    | inl here ↦ rw here (record {
      fits = (==_iff x.address a).0 here;
      pages = λ p. refl;
      regions = refl;
      files = refl;
      sizes = λ s. s;
    })
    | inr elsewhere ↦ rw elsewhere (pass_file x fs _ (λ e. ground arith) (take_file-TakenFile fs))
  ]

  pass_region :
      (x : FileState) (fs : List FileState) (r : MappedRegion) (o : Option (List FileState))
      → x.address ≢ a
      → AddedRegion fs r o
      → AddedRegion (x ∷ fs) r (elim o [ none ↦ none | some rest ↦ some (x ∷ rest) ])
  pass_region x fs r none ne t = λ h. elim h [ inl e ↦ ne e | inr later ↦ t later ]
  pass_region x fs r (some more) ne t = record {
    pages = λ p. omega (arith, t.pages p);
    regions = omega (arith, t.regions);
    files = omega (arith, t.files);
    sizes = λ s e. (s.0, t.sizes s.1 e);
  }

  pub add_region-AddedRegion :
      (fs : List FileState) (r : MappedRegion) → AddedRegion fs r (add_region a r fs)
  unfolding add_region
  add_region-AddedRegion [] r = λ h. h
  add_region-AddedRegion (x ∷ fs) r = elim (Bool-cases (x.address == a)) [
    | inl here ↦ rw here (record {
      pages = λ p. omega arith;
      regions = omega arith;
      files = refl;
      sizes = λ s e. ((e, s.0), s.1);
    })
    | inr elsewhere ↦
        rw elsewhere (pass_region x fs r _ (λ e. ground arith) (add_region-AddedRegion fs r))
  ]
