-- ===== src/Klog/Steps.antt =====
-- linux-c/klog-demo.c: what a step has printed to the log and cleared, and a list of steps.
use Prim.Native.String.{String}
use snippet.Base.{
  ◌≡◌, ◌≢◌, refl, sym, ap, ◌∙◌, true, Option, none, some, List, [], ◌∷◌, ◌++◌, if◌then◌else◌, ℤ,
  pos, negsuc, is_zero, if-rule, zero, suc,
}
use mathlib.Core.List.{append_assoc}
use snippet.Klog.Demos.{KlogCall, Demo, Step, any_fails}

-- The messages that were printed, whether they reached the log or not, and the clears, the latest
-- first; `none` is a clear.
unfoldable pub changes : List KlogCall → List (Option String)
changes [] = []
changes (KlogCall.printed text reached ∷ calls) = some text ∷ changes calls
changes (KlogCall.cleared ∷ calls) = none ∷ changes calls
changes (KlogCall.read_cleared bytes ∷ calls) = none ∷ changes calls
changes (_ ∷ calls) = changes calls

-- A step that made these changes, if its result is 0.
abbrev pub Changes : List (Option String) → Demo → Demo × ℤ → Type 0
Changes new d r = r.1 ≡ pos 0 → changes r.0.calls ≡ new ++ changes d.calls

-- A step that does so wherever it starts.
unfoldable pub Does : List (Option String) → Step → Type 0
Does new step = (d : Demo) → Changes new d (step d)

Does-nil : Does [] (any_fails [])
unfolding Does any_fails
Does-nil d e = refl

-- Changes made from a place to which other changes led.
pub Changes-behind :
    (first rest : List (Option String)) (d d' : Demo) (r : Demo × ℤ)
    → changes d'.calls ≡ first ++ changes d.calls
    → Changes rest d' r
    → Changes (rest ++ first) d r
Changes-behind first rest d d' r e h worked =
    h worked ∙ ap (λ s. rest ++ s) e ∙ sym (append_assoc rest first (changes d.calls))

pub is_zero→eq : (ret : ℤ) → is_zero ret ≡ true → ret ≡ pos 0
is_zero→eq (pos zero) e = refl
is_zero→eq (pos (suc n)) e = cc
is_zero→eq (negsuc n) e = cc

-- One step, and one behind it that is only made if the first result is 0.
pub then-Changes :
    (first rest : List (Option String)) (bad : ℤ) (next : Step) (d : Demo) (r : Demo × ℤ)
    → bad ≢ pos 0
    → Changes first d r
    → ((d' : Demo) → Changes rest d' (next d'))
    → Changes (rest ++ first) d (if is_zero r.1 then next r.0 else (r.0, bad))
then-Changes first rest bad next d r wrong h more =
    if-rule (Changes (rest ++ first) d) (is_zero r.1)
      (λ worked. Changes-behind first rest d r.0 (next r.0) (h (is_zero→eq r.1 worked)) (more r.0))
      (λ failed e. absurd (wrong e))

Does-cons :
    (first rest : List (Option String)) (step : Step) (steps : List Step)
    → Does first step
    → Does rest (any_fails steps)
    → Does (rest ++ first) (any_fails (step ∷ steps))
unfolding Does any_fails
Does-cons first rest step steps does more d =
    then-Changes first rest (pos 1) (any_fails steps) d (step d) (λ e. cc) (does d) more

-- Each step of a list makes its changes, all of them together these.
pub data AllDo : List Step → List (Option String) → Type 0 where
  none_left : AllDo [] []
  first_does :
      {step : Step} {steps : List Step} (first rest : List (Option String))
      → Does first step
      → AllDo steps rest
      → AllDo (step ∷ steps) (rest ++ first)

pub any_fails-Does :
    {steps : List Step} {all : List (Option String)} → AllDo steps all → Does all (any_fails steps)
any_fails-Does none_left = Does-nil
any_fails-Does (first_does first rest does more) =
    Does-cons first rest _ _ does (any_fails-Does more)
