-- ===== src/Klog/Tests.antt =====
-- Runs of the kernel log demonstrations on a small log.
use snippet.Base.{ℕ, zero, suc, ◌≡◌, refl, true, some, List, [], ◌∷◌, ◌++◌, length, pos, arith}
use snippet.Posix.{codes, strncmp_eq, NoZero}
use snippet.Klog.ReadNew.{Reader, matches, last_text, klog_read_new}
use snippet.Klog.Demos.{KlogCall, Demo, KlogSystem, klog_main}
use snippet.Klog.LastLine.{lines, klog_read_new-grows, klog_read_new_repeats}
use snippet.Klog.Steps.{changes}
use snippet.Klog.Written.{all_changes, klog_main-changes}

-- What was written since the last clear.
abbrev content : List KlogCall → List ℕ
content [] = []
content (KlogCall.printed text reached ∷ calls) = content calls ++ (codes text ++ 10 ∷ [])
content (KlogCall.cleared ∷ calls) = []
content (KlogCall.read_cleared bytes ∷ calls) = []
content (_ ∷ calls) = content calls

abbrev kernel_log : KlogSystem
kernel_log = record {
  fopen = λ d. true;
  written_out = λ d. true;
  klogctl_read_all = λ d. some (content d.calls);
  klogctl_read_clear = λ d. some (content d.calls);
  klogctl_clear = λ d. true;
  klogctl_unread = λ d. some (length (content d.calls));
}

abbrev zeros : ℕ → List ℕ
zeros zero = []
zeros (suc n) = 0 ∷ zeros n

abbrev start : Demo
start = record {
  calls = [];
  reader = record {
    next_buf = zeros 512;
    other_buf = zeros 512;
    last_line = 0;
    last_line_length = 0;
    round = 0;
  };
  output = [];
}

abbrev end : Demo
end = (klog_main kernel_log start).0

ends_well : klog_main kernel_log start ≡ (end, pos 0)
unfolding klog_main klog_read_new strncmp_eq
ends_well = refl

klog_main-changes_example : changes end.calls ≡ all_changes ++ changes start.calls
klog_main-changes_example = klog_main-changes kernel_log start end ends_well

-- A reader that has seen "a" and "b", each on a line.
abbrev seen_b : Reader
seen_b = record {
  next_buf = zeros 12;
  other_buf = codes "a" ++ 10 ∷ (codes "b" ++ 10 ∷ zeros 8);
  last_line = 2;
  last_line_length = 2;
  round = 1;
}

klog_read_new-grows_example :
    (r' : Reader) × (klog_read_new
        (some (
          (codes "a" ++ 10 ∷ [])
          ++ ((codes "b" ++ 10 ∷ []) ++ lines (codes "c" ++ 10 ∷ []) (codes "d"))))
        seen_b
      ≡ (r', lines (codes "c" ++ 10 ∷ []) (codes "d"), pos 0))
    × (last_text r' ≡ codes "d" ++ 10 ∷ [])
    × (r'.last_line_length ≡ length (codes "d" ++ 10 ∷ []))
    × (r'.next_buf ≡ seen_b.other_buf)
unfolding matches
klog_read_new-grows_example =
    klog_read_new-grows seen_b (codes "a" ++ 10 ∷ []) (codes "b" ++ 10 ∷ []) (codes "c" ++ 10 ∷ [])
      (codes "d") (zeros 3) refl refl (omega arith) (omega arith) (omega arith) (omega arith) refl
      (refl, (refl, tt))

abbrev seen_ab : List ℕ
seen_ab = codes "a" ++ 10 ∷ (codes "b" ++ 10 ∷ [])

abbrev seen_abc : List ℕ
seen_abc = codes "a" ++ 10 ∷ (codes "b" ++ 10 ∷ (codes "c" ++ 10 ∷ []))

seen_abc-NoZero : NoZero seen_abc
seen_abc-NoZero = (
  λ e. omega arith,
  (
    λ e. omega arith,
    (λ e. omega arith, (λ e. omega arith, (λ e. omega arith, (λ e. omega arith, tt)))),
  ),
)

klog_read_new_repeats_example :
    (r' : Reader) × (klog_read_new (some seen_ab) seen_b ≡ (r', [], pos 0))
    × ((klog_read_new (some seen_abc) r').1 ≡ seen_abc)
unfolding matches
klog_read_new_repeats_example =
    klog_read_new_repeats seen_b (codes "a" ++ 10 ∷ []) (codes "b" ++ 10 ∷ []) (zeros 7) seen_abc
      (zeros 5) refl refl (omega arith) refl (refl, (refl, tt)) seen_abc-NoZero refl
