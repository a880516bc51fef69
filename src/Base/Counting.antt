-- ===== src/Base/Counting.antt =====
-- How often a number occurs in a list: the multiset view of pages and descriptors.
use Prim.Native.Nat.{ℕ, ◌+◌}
use mathlib.Core.Path.{◌≡◌}
use mathlib.Core.List.{List, [], ◌∷◌, ◌++◌}
use native.Mathlib.Omega.{arith}
use snippet.Base.Tests.{◌==◌, if◌then◌else◌}

-- How often a number stands in a list.
abbrev pub count : (wanted : ℕ) → List ℕ → ℕ
count wanted [] = 0
count wanted (n ∷ rest) = (if n == wanted then 1 else 0) + count wanted rest

pub count-append :
    (wanted : ℕ) (first second : List ℕ)
    → count wanted (first ++ second) ≡ count wanted first + count wanted second
count-append wanted [] second = omega arith
count-append wanted (n ∷ rest) second = omega (arith, count-append wanted rest second)
