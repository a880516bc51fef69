-- ===== src/Posix/Strings.antt =====
-- C strings and buffers of bytes.
use Prim.Native.Char.{code}
use Prim.Native.String.{String}
use snippet.Base.{
  ℕ, ◌≢◌, zero, suc, Bool, true, false, List, [], ◌∷◌, ◌++◌, length, drop, ◌==◌, if◌then◌else◌,
}

-- The code points of a text, which are its bytes: every text of the program is ASCII.
abbrev pub codes : (text : String) → List ℕ
codes String.[] = []
codes (String.◌∷◌ letter rest) = code letter ∷ codes rest

-- A string literal with its terminator.
abbrev pub c_string : String → List ℕ
c_string s = codes s ++ 0 ∷ []

-- The bytes of a C string, without its terminator.
abbrev pub NoZero : List ℕ → Type 0
NoZero [] = Unit {0}
NoZero (c ∷ s) = (c ≢ 0) × NoZero s

-- A buffer that held `old`, after `bytes` have been read into it.
abbrev pub overlay : List ℕ → List ℕ → List ℕ
overlay bytes old = bytes ++ drop (length bytes) old

-- `strncmp(a, b, n) == 0`. Past the end of an array, where C has no answer, it is false.
unfoldable pub strncmp_eq : ℕ → List ℕ → List ℕ → Bool
strncmp_eq zero a b = true
strncmp_eq (suc n) [] b = false
strncmp_eq (suc n) (x ∷ a) [] = false
strncmp_eq (suc n) (x ∷ a) (y ∷ b) =
    let rest = strncmp_eq n a b in if x == y then (if x == 0 then true else rest) else false
