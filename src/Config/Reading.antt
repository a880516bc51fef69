-- ===== src/Config/Reading.antt =====
-- linux-c/config-demo/file_source.c: the lines that `fgets` takes a file into.
use Prim.{Unit}
use snippet.Base.{
  ℕ, zero, suc, ◌+◌, ◌<◌, ◌≤◌, false, Bool-cases, inl, inr, ◌≡◌, ◌≢◌, refl, ap, sym, subst, ◌∙◌,
  List, [], ◌∷◌, ◌++◌, length, length-append, ◌==◌, arith,
}
use snippet.Posix.{NoZero}
use snippet.Config.Text.{Text}
use snippet.Config.FileSource.{fgets, c_prefix, file_lines, line_room}

fgets-length :
    (n : ℕ) (bytes : List ℕ) → length (fgets n bytes).0 + length (fgets n bytes).1 ≡ length bytes
unfolding fgets
fgets-length zero bytes = omega arith
fgets-length (suc n) [] = refl
fgets-length (suc n) (b ∷ bytes) = elim (Bool-cases (b == 10)) [
  | inl newline ↦ rw (newline) (omega arith)
  | inr other ↦ rw (other) (omega (arith, fgets-length n bytes))
]

fgets-takes : (n b : ℕ) (bytes : List ℕ) → 0 < n → length (fgets n (b ∷ bytes)).1 ≤ length bytes
unfolding fgets
fgets-takes zero b bytes h = absurd (omega arith)
fgets-takes (suc n) b bytes h = elim (Bool-cases (b == 10)) [
  | inl newline ↦ rw (newline) (omega arith)
  | inr other ↦ rw (other) (omega (arith, fgets-length n bytes))
]

room_positive : 510 < line_room
unfolding line_room
room_positive = omega arith

fgets-append : (n : ℕ) (bytes : List ℕ) → (fgets n bytes).0 ++ (fgets n bytes).1 ≡ bytes
unfolding fgets
fgets-append zero bytes = refl
fgets-append (suc n) [] = refl
fgets-append (suc n) (b ∷ bytes) = elim (Bool-cases (b == 10)) [
  | inl newline ↦ rw newline refl
  | inr other ↦ rw other (ap (◌∷◌ b) (fgets-append n bytes))
]

c_prefix-NoZero : (s : List ℕ) → NoZero s → c_prefix s ≡ s
c_prefix-NoZero [] h = refl
c_prefix-NoZero (c ∷ s) h =
    let other : (c == 0) ≡ false = ground (arith, h.0) in
    rw other (ap (◌∷◌ c) (c_prefix-NoZero s h.1))

NoZero-parts : (s rest : List ℕ) → NoZero (s ++ rest) → NoZero s × NoZero rest
NoZero-parts [] rest h = (tt, h)
NoZero-parts (c ∷ s) rest h = let (front, back) = NoZero-parts s rest h.1 in ((h.0, front), back)

-- Lines put together.
abbrev pub joined : List Text → List ℕ
joined [] = []
joined (line ∷ rest) = line ++ joined rest

-- The loop reads the whole file, and then ends: with as many rounds as the file has bytes, none of
-- which is zero, the lines that it sees make up the file.
pub joined-file_lines :
    (fuel : ℕ) (bytes : List ℕ)
    → NoZero bytes
    → length bytes ≤ fuel
    → joined (file_lines fuel bytes) ≡ bytes
unfolding file_lines
joined-file_lines zero [] plain h = refl
joined-file_lines (suc fuel) [] plain h = refl
joined-file_lines zero (b ∷ bytes) plain h = absurd (omega arith)
joined-file_lines (suc fuel) (b ∷ bytes) plain h =
    let read = fgets line_room (b ∷ bytes) in
    let whole = fgets-append line_room (b ∷ bytes) in
    let (front, back) = NoZero-parts read.0 read.1 (subst NoZero (sym whole) plain) in
    let taken = fgets-takes line_room b bytes (omega (arith, room_positive)) in
    ap (λ line. line ++ joined (file_lines fuel read.1)) (c_prefix-NoZero read.0 front)
    ∙ ap (λ rest. read.0 ++ rest) (joined-file_lines fuel read.1 back (omega (arith, taken)))
    ∙ whole

-- A byte of a line: neither a newline nor a zero.
abbrev pub IsLine : Text → Type 0
IsLine [] = Unit
IsLine (c ∷ s) = (c ≢ 10) × (c ≢ 0) × IsLine s

abbrev pub AreLines : List Text → Type 0
AreLines [] = Unit
AreLines (s ∷ rest) = IsLine s × (length s ≤ 510) × AreLines rest

abbrev pub end_line : Text → Text
end_line s = s ++ 10 ∷ []

-- Lines as they stand in a file, and as they are read.
abbrev pub written : List Text → List ℕ
written [] = []
written (s ∷ rest) = s ++ 10 ∷ written rest

abbrev pub ended : List Text → List Text
ended [] = []
ended (s ∷ rest) = end_line s ∷ ended rest

fgets-line :
    (n : ℕ) (s : Text) (rest : List ℕ)
    → IsLine s
    → length s < n
    → fgets n (s ++ 10 ∷ rest) ≡ (end_line s, rest)
unfolding fgets
fgets-line zero s rest h k = absurd (omega arith)
fgets-line (suc n) [] rest h k = refl
fgets-line (suc n) (c ∷ s) rest h k =
    let other : (c == 10) ≡ false = ground (arith, h.0) in
    rw (other, fgets-line n s rest h.2 (omega arith))

c_prefix-line : (s : Text) → IsLine s → c_prefix (end_line s) ≡ end_line s
c_prefix-line [] h = refl
c_prefix-line (c ∷ s) h =
    let other : (c == 0) ≡ false = ground (arith, h.1) in
    rw (other) (ap (◌∷◌ c) (c_prefix-line s h.2))

first_line :
    (fuel b : ℕ) (bytes rest : List ℕ) (line : Text)
    → fgets line_room (b ∷ bytes) ≡ (line, rest)
    → file_lines (suc fuel) (b ∷ bytes) ≡ c_prefix line ∷ file_lines fuel rest
unfolding file_lines
first_line fuel b bytes rest line e = ap (λ r. c_prefix r.0 ∷ file_lines fuel r.1) e

line_step :
    (s : Text) (behind : List ℕ) (fuel : ℕ)
    → IsLine s
    → length s ≤ 510
    → file_lines (suc fuel) (s ++ 10 ∷ behind) ≡ end_line s ∷ file_lines fuel behind
line_step [] behind fuel h short =
    first_line fuel 10 behind behind (10 ∷ [])
      (fgets-line line_room [] behind h (omega (arith, room_positive)))
line_step (c ∷ s) behind fuel h short =
    first_line fuel c (s ++ 10 ∷ behind) behind (end_line (c ∷ s))
      (fgets-line line_room (c ∷ s) behind h (omega (arith, room_positive)))
    ∙ ap (λ line. line ∷ file_lines fuel behind) (c_prefix-line (c ∷ s) h)

-- Round trip: lines of at most 510 bytes, none of them a newline or a zero, that are written to a
-- file with a newline behind each are the lines that the loop sees.
pub file_lines-written :
    (lines : List Text) (fuel : ℕ)
    → AreLines lines
    → length (written lines) ≤ fuel
    → file_lines fuel (written lines) ≡ ended lines
unfolding file_lines
file_lines-written [] zero h k = refl
file_lines-written [] (suc fuel) h k = refl
file_lines-written (s ∷ rest) zero h k = absurd (omega (arith, length-append s (10 ∷ written rest)))
file_lines-written (s ∷ rest) (suc fuel) h k =
    line_step s (written rest) fuel h.0 h.1
    ∙ ap (◌∷◌ (end_line s))
        (file_lines-written rest fuel h.2 (omega (arith, length-append s (10 ∷ written rest))))
