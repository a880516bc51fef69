-- ===== src/BitMask/Whole.antt =====
-- linux-c/sysfs-parser.c: the whole program, on a file that sysfs has written.
use snippet.Base.{ℕ, ◌≡◌, List, ◌∷◌, some, none, arith}
use snippet.Posix.{Event, Trace, open_fds}
use snippet.BitMask.Sysfs.{Sysfs, read_sysfs_str, sysfs_main}

module _ (os : Sysfs) (str : List ℕ) (t : Trace) (fd : ℕ) where
  -- When the file can be opened and not read, it stays open.
  pub sysfs_main-leak :
      os.open_path t ≡ some fd
      → os.file (Event.opened fd ∷ t) ≡ none
      → open_fds (sysfs_main os str t).0 ≡ fd ∷ open_fds t
  unfolding sysfs_main read_sysfs_str open_fds
  sysfs_main-leak opened got = ground arith
