-- ===== src/Sysfs/Entity.antt =====
-- kernel-module/sysfs/demo.h: the entity that the module shows and the program reads.
use snippet.Base.{ℕ, zero, suc, List, [], ◌∷◌, ◌++◌}
use snippet.Posix.{codes}

abbrev pub demo_version_str_len : ℕ
demo_version_str_len = 32

abbrev pub demo_data_size : ℕ
demo_data_size = 8

abbrev pub zeros : ℕ → List ℕ
zeros zero = []
zeros (suc n) = 0 ∷ zeros n

-- `struct entity`. The two arrays are their bytes.
pub record Entity : Type 0 where
  pub magic : ℕ
  pub version : List ℕ
  pub data_bytes : List ℕ

abbrev pub entity_template : Entity
entity_template = record {
  magic = 826366246;
  version = codes "2025.02.26" ++ zeros 22;
  data_bytes = 1 ∷ 35 ∷ 69 ∷ 103 ∷ 137 ∷ 171 ∷ 205 ∷ 239 ∷ [];
}
