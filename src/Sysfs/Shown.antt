-- ===== src/Sysfs/Shown.antt =====
-- kernel-module/sysfs: demo_reader.c on files with what demo_sysfs.c shows.
use snippet.Base.{
  ℕ, zero, suc, ◌+◌, ◌-◌, ◌^◌, ◌<◌, ◌≡◌, refl, ap, ◌∙◌, List, [], ◌∷◌, ◌++◌, length, drop, ltb,
  ◌==◌, true, some, pos, arith,
}
use snippet.Posix.{Event, Trace, overlay, open_fds, remove, remove_head}
use snippet.Sysfs.Entity.{Entity, entity_template, zeros, demo_version_str_len, demo_data_size}
use snippet.Sysfs.DemoSysfs.{magic_show, version_show, data_read}
use snippet.Sysfs.Reader.{
  Files, magic_path, version_path, data_path, store_version, read_version, read_entity_ascii,
  read_entity_binary, read_rest, read_entity, memcmp, entity_bytes, cleared, compare_entity,
  sysfs_reader_main,
}
use snippet.Sysfs.Scanning.{IsWord, scan_magic-magic_show, scan_version-version_show}

-- An entity with a number of 64 bits and a version of one word, of `31 - room` letters.
pub record IsShowable (e : Entity) : Type 0 where
  pub magic_fits : e.magic < 2 ^ 64
  pub text : List ℕ
  pub one_word : IsWord text
  pub not_empty : 0 < length text
  pub fits : length text < demo_version_str_len
  pub padded : e.version ≡ text ++ zeros (suc (31 - length text))
  pub data_size : length e.data_bytes ≡ demo_data_size

-- The three files can be opened, and hold what the module shows of the entity.
pub record Serves (os : Files) (e : Entity) : Type 0 where
  pub magic_fd : ℕ
  pub version_fd : ℕ
  pub data_fd : ℕ
  pub opens_magic : (t : Trace) → os.open_path t magic_path ≡ some magic_fd
  pub opens_version : (t : Trace) → os.open_path t version_path ≡ some version_fd
  pub opens_data : (t : Trace) → os.open_path t data_path ≡ some data_fd
  pub shows_magic : (t : Trace) → os.stream t magic_fd ≡ magic_show e
  pub shows_version : (t : Trace) → os.stream t version_fd ≡ version_show e
  pub reads_data : (t : Trace) → os.read t data_fd ≡ some (data_read e)

drop-zeros : (n k m : ℕ) → k ≡ n + m → drop n (zeros k) ≡ zeros m
drop-zeros zero k m e = ap zeros (omega arith)
drop-zeros (suc n) zero m e = absurd (omega arith)
drop-zeros (suc n) (suc k) m e = drop-zeros n k m (omega arith)

append-terminator : (s rest : List ℕ) → (s ++ 0 ∷ []) ++ rest ≡ s ++ 0 ∷ rest
append-terminator [] rest = refl
append-terminator (c ∷ s) rest = ap (◌∷◌ c) (append-terminator s rest)

append-nil : (s : List ℕ) → s ++ [] ≡ s
append-nil [] = refl
append-nil (c ∷ s) = ap (◌∷◌ c) (append-nil s)

length-terminator : (s : List ℕ) → length (s ++ 0 ∷ []) ≡ suc (length s)
length-terminator [] = refl
length-terminator (c ∷ s) = ap suc (length-terminator s)

-- The text in a cleared array.
overlay-version :
    (s : List ℕ)
    → length s < demo_version_str_len
    → overlay (s ++ 0 ∷ []) (zeros demo_version_str_len) ≡ s ++ zeros (suc (31 - length s))
overlay-version s h =
    let left : 32 ≡ length (s ++ 0 ∷ []) + (31 - length s) = omega (arith, length-terminator s) in
    append-terminator s (drop (length (s ++ 0 ∷ [])) (zeros demo_version_str_len))
    ∙ ap (λ rest. s ++ 0 ∷ rest)
        (drop-zeros (length (s ++ 0 ∷ [])) demo_version_str_len (31 - length s) left)

overlay-data : (s : List ℕ) → length s ≡ demo_data_size → overlay s (zeros demo_data_size) ≡ s
overlay-data s h =
    ap (λ rest. s ++ rest) (drop-zeros (length s) demo_data_size 0 (omega arith)) ∙ append-nil s

memcmp_refl : (xs : List ℕ) → memcmp xs xs ≡ pos 0
unfolding memcmp
memcmp_refl [] = refl
memcmp_refl (x ∷ xs) = let same : (x == x) ≡ true = ground arith in rw same (memcmp_refl xs)

module _ (os : Files) (e : Entity) (showable : IsShowable e) (serves : Serves os e) where
  read_version-shown :
      (n : ℕ) (t : Trace)
      → read_version os (record cleared { magic = n }) t ≡ (
        Event.closed serves.version_fd ∷ Event.opened serves.version_fd ∷ t,
        some (record cleared { magic = n; version = e.version }, pos 0),
      )
  unfolding read_version store_version
  read_version-shown n t =
      let short : ltb (length showable.text) demo_version_str_len ≡ true =
        let fits = showable.fits in ground arith in
      let scanned =
        scan_version-version_show e showable.text (31 - length showable.text) showable.padded
          showable.one_word showable.not_empty in
      rw
        (
          serves.opens_version t,
          serves.shows_version (Event.opened serves.version_fd ∷ t),
          scanned,
          short,
          overlay-version showable.text showable.fits,
          showable.padded,
        )
        refl

  -- The trace of the two texts.
  texts : Trace → Trace
  texts t =
      Event.closed serves.version_fd
      ∷ Event.opened serves.version_fd
      ∷ Event.closed serves.magic_fd
      ∷ Event.opened serves.magic_fd
      ∷ t

  half_read : Entity
  half_read = record cleared { magic = e.magic; version = e.version }

  read_entity_ascii-shown :
      (t : Trace) → read_entity_ascii os cleared t ≡ (texts t, some (half_read, pos 0))
  unfolding read_entity_ascii texts half_read
  read_entity_ascii-shown t =
      rw
        (
          serves.opens_magic t,
          serves.shows_magic (Event.opened serves.magic_fd ∷ t),
          scan_magic-magic_show e showable.magic_fits,
        )
        (read_version-shown e.magic
          (Event.closed serves.magic_fd ∷ Event.opened serves.magic_fd ∷ t))

  read_entity_binary-shown :
      (t : Trace)
      → read_entity_binary os half_read t
        ≡ (Event.received serves.data_fd e.data_bytes ∷ Event.opened serves.data_fd ∷ t, e, pos 0)
  unfolding read_entity_binary data_read half_read
  read_entity_binary-shown t =
      let whole : (length e.data_bytes == demo_data_size) ≡ true =
        let size = showable.data_size in ground arith in
      rw
        (
          serves.opens_data t,
          serves.reads_data (Event.opened serves.data_fd ∷ t),
          whole,
          overlay-data e.data_bytes showable.data_size,
        )
        refl

  -- When the three files hold what demo_sysfs.c shows of an entity whose number has 64 bits, whose
  -- version is one word of 1 to 31 letters with zeros behind it, and which has eight bytes of data,
  -- the program reads that entity, returns 0 from `read_entity`, and leaves the descriptor of the
  -- binary file open.
  pub read_entity-shown :
      (t : Trace)
      → ((read_entity os cleared t).1 ≡ some (e, pos 0))
        × (open_fds (read_entity os cleared t).0 ≡ serves.data_fd ∷ open_fds t)
  unfolding read_entity read_rest open_fds texts
  read_entity-shown t =
      rw (read_entity_ascii-shown t, read_entity_binary-shown (texts t))
        (
          refl,
          ap (◌∷◌ serves.data_fd) (
              ap (λ fds. remove serves.version_fd (serves.version_fd ∷ fds))
                (remove_head serves.magic_fd (open_fds t))
              ∙ remove_head serves.version_fd (open_fds t)),
        )

  -- When the files hold what is shown of an entity, `main` returns 0 if its bytes are those of the
  -- template.
  pub sysfs_reader_main-shown :
      entity_bytes e ≡ entity_bytes entity_template
      → (t : Trace) → (sysfs_reader_main os t).1 ≡ some (pos 0)
  unfolding sysfs_reader_main compare_entity
  sysfs_reader_main-shown same t =
      ap compare_entity (read_entity-shown t).0
      ∙ ap (λ bytes. some (memcmp bytes (entity_bytes entity_template))) same
      ∙ ap some (memcmp_refl (entity_bytes entity_template))
