-- ===== src/MmShow/Sizes.antt =====
-- kernel-module/mm/mm_show: `pr_cont_size` of va_map_show.c and `mm_show_init` of core.c.
use snippet.Base.{
  ℕ, ◌+◌, ◌*◌, ◌/◌, ◌%◌, ◌^◌, ◌<◌, ◌≡◌, ◌||◌, List, [], ◌∷◌, ◌++◌, ◌==◌, Bool-cases, inl, inr,
  if◌then◌else◌, ℤ, neg, arith,
}
use snippet.Posix.{codes}
use snippet.Config.{text_eq}
use snippet.Netlink.{digits}

-- The unit of a part of a size.
pub data SizeUnit : Type 0 where
  tera giga mega kilo bytes : SizeUnit

abbrev pub unit_size : SizeUnit → ℕ
unit_size SizeUnit.tera = 2 ^ 40
unit_size SizeUnit.giga = 2 ^ 30
unit_size SizeUnit.mega = 2 ^ 20
unit_size SizeUnit.kilo = 2 ^ 10
unit_size SizeUnit.bytes = 1

abbrev pub unit_letter : SizeUnit → ℕ
unit_letter SizeUnit.tera = 84
unit_letter SizeUnit.giga = 71
unit_letter SizeUnit.mega = 77
unit_letter SizeUnit.kilo = 75
unit_letter SizeUnit.bytes = 66

-- A part is left out when it is zero.
abbrev pub if_any : ℕ → SizeUnit → List (ℕ × SizeUnit) → List (ℕ × SizeUnit)
if_any n unit rest = if n == 0 then rest else (n, unit) ∷ rest

unfoldable pub size_parts : ℕ → List (ℕ × SizeUnit)
size_parts size =
    let t = size / 2 ^ 40 in
    let g = size % 2 ^ 40 / 2 ^ 30 in
    let m = size % 2 ^ 30 / 2 ^ 20 in
    let k = size % 2 ^ 20 / 2 ^ 10 in
    let b = size % 2 ^ 10 in
    if_any t SizeUnit.tera (
      if_any g SizeUnit.giga
        (if_any m SizeUnit.mega (if_any k SizeUnit.kilo (if_any b SizeUnit.bytes []))))

-- "%luT.": a number of 64 bits has twenty digits at most.
abbrev pub print_parts : List (ℕ × SizeUnit) → List ℕ
print_parts [] = []
print_parts ((n, unit) ∷ parts) = digits 20 n [] ++ unit_letter unit ∷ 46 ∷ print_parts parts

unfoldable pub pr_cont_size : ℕ → List ℕ
unfolding size_parts
pr_cont_size size = print_parts (size_parts size)

-- The displays that the module makes: of the NUMA nodes, and of the address ranges.
pub data Display : Type 0 where
  numa_show va_map_show : Display

-- It never stays loaded.
unfoldable pub mm_show_init : (show_target : List ℕ) → List Display × ℤ
unfolding text_eq
mm_show_init show_target =
    let show_all = text_eq show_target (codes "all") in
    let numa =
      if show_all || text_eq show_target (codes "numa") then Display.numa_show ∷ [] else [] in
    let va =
      if show_all || text_eq show_target (codes "va") then Display.va_map_show ∷ [] else [] in
    (numa ++ va, neg 1)

-- What the parts of a size come to.
abbrev pub sum_parts : List (ℕ × SizeUnit) → ℕ
sum_parts [] = 0
sum_parts ((n, unit) ∷ parts) = n * unit_size unit + sum_parts parts

-- The parts are not zero, and each but the first unit is below 1024.
abbrev pub FitsUnit : ℕ → SizeUnit → Type 0
FitsUnit n SizeUnit.tera = Unit {0}
FitsUnit n SizeUnit.giga = n < 1024
FitsUnit n SizeUnit.mega = n < 1024
FitsUnit n SizeUnit.kilo = n < 1024
FitsUnit n SizeUnit.bytes = n < 1024

abbrev pub AreProper : List (ℕ × SizeUnit) → Type 0
AreProper [] = Unit {0}
AreProper ((n, unit) ∷ parts) = (0 < n) × FitsUnit n unit × AreProper parts

AreProper-if_any :
    (n : ℕ) (unit : SizeUnit) (parts : List (ℕ × SizeUnit))
    → FitsUnit n unit
    → AreProper parts
    → AreProper (if_any n unit parts)
AreProper-if_any n unit parts fits h = elim (Bool-cases (n == 0)) [
  | inl none_left ↦ rw none_left h
  | inr some_left ↦ rw some_left (ground arith, fits, h)
]

AreProper-size_parts : (size : ℕ) → AreProper (size_parts size)
unfolding size_parts
AreProper-size_parts size =
    let b = size % 2 ^ 10 in
    let bytes = if_any b SizeUnit.bytes [] in
    let k = size % 2 ^ 20 / 2 ^ 10 in
    let kilo = if_any k SizeUnit.kilo bytes in
    let m = size % 2 ^ 30 / 2 ^ 20 in
    let mega = if_any m SizeUnit.mega kilo in
    let g = size % 2 ^ 40 / 2 ^ 30 in
    let giga = if_any g SizeUnit.giga mega in
    AreProper-if_any (size / 2 ^ 40) SizeUnit.tera giga tt (
      AreProper-if_any g SizeUnit.giga mega (omega arith) (
        AreProper-if_any m SizeUnit.mega kilo (omega arith) (
          AreProper-if_any k SizeUnit.kilo bytes (omega arith)
            (AreProper-if_any b SizeUnit.bytes [] (omega arith) tt))))

sum_parts-if_any :
    (n : ℕ) (unit : SizeUnit) (parts : List (ℕ × SizeUnit))
    → sum_parts (if_any n unit parts) ≡ n * unit_size unit + sum_parts parts
sum_parts-if_any n unit parts = ground arith

sum_parts-size_parts : (size : ℕ) → sum_parts (size_parts size) ≡ size
unfolding size_parts
sum_parts-size_parts size =
    let b = size % 2 ^ 10 in
    let bytes = if_any b SizeUnit.bytes [] in
    let k = size % 2 ^ 20 / 2 ^ 10 in
    let kilo = if_any k SizeUnit.kilo bytes in
    let m = size % 2 ^ 30 / 2 ^ 20 in
    let mega = if_any m SizeUnit.mega kilo in
    let g = size % 2 ^ 40 / 2 ^ 30 in
    let giga = if_any g SizeUnit.giga mega in
    omega (
      arith,
      sum_parts-if_any b SizeUnit.bytes [],
      sum_parts-if_any k SizeUnit.kilo bytes,
      sum_parts-if_any m SizeUnit.mega kilo,
      sum_parts-if_any g SizeUnit.giga mega,
      sum_parts-if_any (size / 2 ^ 40) SizeUnit.tera giga,
    )

-- The parts that `pr_cont_size` prints come to the size; none of them is zero, and each but that of
-- the terabytes is below 1024.
pub size_parts-AreProper :
    (size : ℕ) → (sum_parts (size_parts size) ≡ size) × AreProper (size_parts size)
size_parts-AreProper size = (sum_parts-size_parts size, AreProper-size_parts size)
