-- ===== src/BitMask/Suffixes.antt =====
-- linux-c/sysfs-parser.c: `strtoul` leaves `end` behind the cursor, in the same text.
use snippet.Base.{
  ℕ, ◌+◌, ◌*◌, ◌-◌, ◌≡◌, refl, sym, ap, ◌∙◌, Bool, true, false, Option, none, some, List, [], ◌∷◌,
  ◌++◌, ◌==◌, ◌⊎◌, inl, inr, if-rule, leb, case_option-rule, subst,
}
use mathlib.Core.List.{append_assoc}
use snippet.Config.{skip_space, is_space}
use snippet.BitMask.Parser.{
  is_digit, starts_digit, span_digits, magnitude, signed, strtoul, read_end,
}

-- A text and what stands at its end.
abbrev pub Behind : List ℕ → List ℕ → Type 0
Behind s rest = (before : List ℕ) × (s ≡ before ++ rest)

pub Behind-refl : (s : List ℕ) → Behind s s
Behind-refl s = ([], refl)

pub Behind-cons : (c : ℕ) (s rest : List ℕ) → Behind s rest → Behind (c ∷ s) rest
Behind-cons c s rest (before, e) = (c ∷ before, ap {B = List ℕ} (λ t. c ∷ t) e)

pub Behind-trans : (s t u : List ℕ) → Behind s t → Behind t u → Behind s u
Behind-trans s t u (before, e) (more, e') =
    (before ++ more, e ∙ ap {B = List ℕ} (λ x. before ++ x) e' ∙ sym (append_assoc before more u))

skip_space-Behind : (s : List ℕ) → Behind s (skip_space s)
unfolding skip_space
skip_space-Behind [] = Behind-refl []
skip_space-Behind (c ∷ s) =
    if-rule (Behind (c ∷ s)) (is_space c) (λ space. Behind-cons c s _ (skip_space-Behind s))
      (λ other. Behind-refl (c ∷ s))

span_digits-Behind : (n : ℕ) (s : List ℕ) → Behind s (span_digits n s).1
unfolding span_digits
span_digits-Behind n [] = Behind-refl []
span_digits-Behind n (c ∷ s) =
    if-rule (λ (r : ℕ × List ℕ). Behind (c ∷ s) r.1) (is_digit c)
      (λ digit. Behind-cons c s _ (span_digits-Behind (n * 10 + (c - 48)) s))
      (λ other. Behind-refl (c ∷ s))

-- What a number leaves.
abbrev pub Leaves : List ℕ → Option (ℕ × List ℕ) → Type 0
Leaves s none = Unit {0}
Leaves s (some (value, rest)) = Behind s rest

Leaves-Behind : (s t : List ℕ) (o : Option (ℕ × List ℕ)) → Behind s t → Leaves t o → Leaves s o
Leaves-Behind s t none b l = tt
Leaves-Behind s t (some (value, rest)) b l = Behind-trans s t rest b l

magnitude-Leaves : (minus : Bool) (s : List ℕ) → Leaves s (magnitude minus s)
unfolding magnitude
magnitude-Leaves minus s =
    if-rule (Leaves s) (starts_digit s) (λ digit. span_digits-Behind 0 s) (λ other. tt)

signed-Leaves : (s : List ℕ) → Leaves s (signed s)
unfolding signed
signed-Leaves [] = tt
signed-Leaves (c ∷ s) =
    let tail = Behind-cons c s s (Behind-refl s) in
    if-rule (Leaves (c ∷ s)) (c == 45)
      (λ minus. Leaves-Behind (c ∷ s) s (magnitude true s) tail (magnitude-Leaves true s))
      (λ other.
        if-rule (Leaves (c ∷ s)) (c == 43)
          (λ plus. Leaves-Behind (c ∷ s) s (magnitude false s) tail (magnitude-Leaves false s))
          (λ digit. magnitude-Leaves false (c ∷ s)))

pub strtoul-Leaves : (s : List ℕ) → Leaves s (strtoul s)
unfolding strtoul
strtoul-Leaves s =
    Leaves-Behind s (skip_space s) (signed (skip_space s)) (skip_space-Behind s)
      (signed-Leaves (skip_space s))

-- A number that is read somewhere in a text.
abbrev pub Reads : List ℕ → ℕ → Type 0
Reads s value = (at after : List ℕ) × Behind s at × (strtoul at ≡ some (value, after))

pub Reads-Behind : (s t : List ℕ) (value : ℕ) → Behind s t → Reads t value → Reads s value
Reads-Behind s t value b (at, after, b', read) = (at, after, Behind-trans s t at b b', read)

-- A second value is read in the text, unless it is the first.
abbrev pub EndsAt : ℕ → List ℕ → Option (ℕ × List ℕ) → Type 0
EndsAt start s none = Unit {0}
EndsAt start s (some (value, rest)) = Behind s rest × ((value ≡ start) ⊎ Reads s value)

pub read_end-EndsAt : (start : ℕ) (s : List ℕ) → EndsAt start s (read_end start s)
unfolding read_end
read_end-EndsAt start [] = (Behind-refl [], inl refl)
read_end-EndsAt start (c ∷ s) =
    let tail = Behind-cons c s s (Behind-refl s) in
    if-rule (EndsAt start (c ∷ s)) (c == 45)
      (λ dash.
        case_option-rule (EndsAt start (c ∷ s)) (strtoul s) (λ nothing. tt)
          λ last read.
            if-rule (EndsAt start (c ∷ s)) (leb last.0 start) (λ small. tt)
              (λ large.
                let behind = subst (Leaves s) read (strtoul-Leaves s) in
                (Behind-trans (c ∷ s) s last.1 tail behind, inr (s, last.1, tail, read))))
      (λ other. (Behind-refl (c ∷ s), inl refl))
