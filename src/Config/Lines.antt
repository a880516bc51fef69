-- ===== src/Config/Lines.antt =====
-- linux-c/config-demo/file_source.c: a setting that is written to a file reads back.
use Prim.{Unit}
use snippet.Base.{
  ℕ, zero, suc, ◌≤◌, true, false, ◌≡◌, ◌≢◌, refl, ap, ◌∙◌, some, [], ◌∷◌, ◌++◌, length, take, ◌==◌,
  arith,
}
use snippet.Config.Text.{Text, is_space, skip_space, trim_step, trim_end}
use snippet.Config.FileSource.{split_at_eq, parse_trimmed, parse_line, line_room}

abbrev pub AllSpace : Text → Type 0
AllSpace [] = Unit
AllSpace (c ∷ s) = (is_space c ≡ true) × AllSpace s

-- No `=` in a text.
abbrev pub NoEquals : Text → Type 0
NoEquals [] = Unit
NoEquals (c ∷ s) = (c ≢ 61) × NoEquals s

-- The first byte, if there is one, is no white space.
abbrev pub StartsWell : Text → Type 0
StartsWell [] = Unit
StartsWell (c ∷ s) = is_space c ≡ false

-- The last byte, if there is one, is no white space.
abbrev pub EndsWell : Text → Type 0
EndsWell [] = Unit
EndsWell (c ∷ []) = is_space c ≡ false
EndsWell (c ∷ d ∷ s) = EndsWell (d ∷ s)

take-short : (s : Text) (n : ℕ) → length s ≤ n → take n s ≡ s
take-short [] zero h = refl
take-short [] (suc n) h = refl
take-short (c ∷ s) zero h = absurd (omega arith)
take-short (c ∷ s) (suc n) h = ap (◌∷◌ c) (take-short s n (omega arith))

skip_space-append : (space s : Text) → AllSpace space → StartsWell s → skip_space (space ++ s) ≡ s
unfolding skip_space
skip_space-append [] [] h w = refl
skip_space-append [] (c ∷ s) h w = rw (w)
skip_space-append (c ∷ space) s h w = rw (h.0) (skip_space-append space s h.1 w)

trim_end-space : (space : Text) → AllSpace space → trim_end space ≡ []
unfolding trim_end
trim_end-space [] h = refl
trim_end-space (c ∷ space) h = rw (trim_end-space space h.1, h.0)

trim_end-append : (s space : Text) → EndsWell s → AllSpace space → trim_end (s ++ space) ≡ s
unfolding trim_end
trim_end-append [] space e h = trim_end-space space h
trim_end-append (c ∷ []) space e h = rw (trim_end-space space h, e)
trim_end-append (c ∷ d ∷ s) space e h = ap (trim_step c) (trim_end-append (d ∷ s) space e h)

space-NoEquals : (space : Text) → AllSpace space → NoEquals space
space-NoEquals [] h = h
space-NoEquals (c ∷ space) h = (ground arith, space-NoEquals space h.1)

split_at_eq-append :
    (before behind : Text)
    → NoEquals before
    → split_at_eq (before ++ 61 ∷ behind) ≡ some (before, behind)
unfolding split_at_eq
split_at_eq-append [] behind h = refl
split_at_eq-append (c ∷ before) behind h =
    let other : (c == 61) ≡ false = ground (arith, h.0) in
    rw (other, split_at_eq-append before behind h.1)

NoEquals-append : (s t : Text) → NoEquals s → NoEquals t → NoEquals (s ++ t)
NoEquals-append [] t h k = k
NoEquals-append (c ∷ s) t h k = (h.0, NoEquals-append s t h.1 k)

-- Round trip: a line that has white space, a key, white space, `=`, white space, a value and white
-- space is read as that key and value, where the key is not empty, starts with no `#` or `;` and
-- has no `=`, neither key nor value starts or ends with white space, and the value and what stands
-- behind it have at most 511 bytes.
pub parse_line-print :
    (indent before after behind : Text) (k : ℕ) (key value : Text)
    → AllSpace indent
    → AllSpace before
    → AllSpace after
    → AllSpace behind
    → StartsWell (k ∷ key)
    → EndsWell (k ∷ key)
    → NoEquals (k ∷ key)
    → k ≢ 35
    → k ≢ 59
    → StartsWell (value ++ behind)
    → EndsWell value
    → length (value ++ behind) ≤ 511
    → parse_line (indent ++ (((k ∷ key) ++ before) ++ 61 ∷ (after ++ (value ++ behind))))
      ≡ some (k ∷ key, value)
unfolding parse_line parse_trimmed line_room
parse_line-print indent before after behind k key value i b a e sk ek nk hash semi sv ev short =
    let line = ((k ∷ key) ++ before) ++ 61 ∷ (after ++ (value ++ behind)) in
    let start : skip_space (indent ++ line) ≡ line = skip_space-append indent line i sk in
    let no_hash : (k == 35) ≡ false = ground arith in
    let no_semi : (k == 59) ≡ false = ground arith in
    let halves =
      split_at_eq-append ((k ∷ key) ++ before) (after ++ (value ++ behind))
        (NoEquals-append (k ∷ key) before nk (space-NoEquals before b)) in
    let rest = skip_space-append after (value ++ behind) a sv in
    ap parse_trimmed start
    ∙ rw (no_hash, no_semi, halves, rest)
        (ap (λ (s : Text). some (trim_end ((k ∷ key) ++ before), trim_end s))
            (take-short (value ++ behind) 511 short)
          ∙ rw (trim_end-append (k ∷ key) before ek b, trim_end-append value behind ev e))
