-- ===== src/Klog/Written.antt =====
-- linux-c/klog-demo.c: the messages of a run, and the clears of the log.
use Prim.Native.String.{String}
use snippet.Base.{
  ℕ, ◌≡◌, refl, sym, ap, ◌∙◌, inl, inr, not, ◌||◌, Option, Option-cases, none, some, List, [], ◌∷◌,
  ◌++◌, length, ◌==◌, ℤ, pos, neg, is_zero, if-rule, case_option-rule,
}
use snippet.Posix.{strncmp_eq}
use snippet.Klog.Demos.{
  KlogCall, Demo, KlogSystem, Step, note, any_fails, write_kmesg, klog_clear, read_new, unread,
  klog_unread_demo, compare_reads, read_twice, klog_read_all_repeated, klog_read_new_demo,
  check_cleared, klog_read_clear_demo, klog_main,
}
use snippet.Klog.Steps.{
  changes, Changes, Does, none_left, first_does, any_fails-Does, Changes-behind, then-Changes,
  is_zero→eq,
}

-- The messages of a run that works, and the clears, the latest first.
abbrev pub all_changes : List (Option String)
all_changes =
    some "klog-demo: test klog_read_all_repeated"
    ∷ none
    ∷ none
    ∷ some "klog-demo: test klog_read_clear log2"
    ∷ some "klog-demo: test klog_read_clear log1"
    ∷ none
    ∷ some "klog-demo: test klog_read_new log6"
    ∷ some "klog-demo: test klog_read_new log5"
    ∷ some "klog-demo: test klog_read_new log4"
    ∷ some "klog-demo: test klog_read_new log3"
    ∷ some "klog-demo: test klog_read_new log2"
    ∷ some "klog-demo: test klog_read_new log1"
    ∷ none
    ∷ some "klog-demo: test klog_unread."
    ∷ []

module _ (os : KlogSystem) where
  write_kmesg-Does : (text : String) → Does (some text ∷ []) (write_kmesg os text)
  unfolding Does write_kmesg changes
  write_kmesg-Does text d =
      if-rule (Changes (some text ∷ []) d) (os.fopen d) (λ opened e. refl) (λ failed e. cc)

  klog_clear-Does : Does (none ∷ []) (klog_clear os)
  unfolding Does klog_clear changes
  klog_clear-Does d =
      if-rule (Changes (none ∷ []) d) (os.klogctl_clear d) (λ done e. refl) (λ failed e. cc)

  read_new-Does : Does [] (read_new os)
  unfolding Does read_new
  read_new-Does d e = refl

  klog_clear-Changes : (d : Demo) → Changes (none ∷ []) d (klog_clear os d)
  unfolding Does
  klog_clear-Changes d = klog_clear-Does d

  -- The call between the message and the clear changes nothing.
  unread-Changes :
      (first : List (Option String)) (d : Demo) (r : Demo × ℤ)
      → Changes first d r
      → Changes (none ∷ first) d (unread os r.1 r.0)
  unfolding unread changes
  unread-Changes first d r h =
      let P = Changes (none ∷ first) d in
      case_option-rule P (os.klogctl_unread r.0) (λ failed e. cc)
        (λ count asked.
          let d' = note (KlogCall.asked_unread count) r.0 in
          if-rule P (is_zero r.1)
            (λ worked.
              Changes-behind first (none ∷ []) d d' (klog_clear os d') (h (is_zero→eq r.1 worked))
                (klog_clear-Changes d'))
            (λ failed e. cc))

  klog_unread_demo-Does :
      Does (none ∷ some "klog-demo: test klog_unread." ∷ []) (klog_unread_demo os)
  unfolding Does klog_unread_demo
  klog_unread_demo-Does d =
      let text : String = "klog-demo: test klog_unread." in
      unread-Changes (some text ∷ []) d (write_kmesg os text d) (write_kmesg-Does text d)

  -- A read that makes the changes `c`, a read that makes none, and a step that needs both.
  read_twice-Does :
      (klogctl : Demo → Option (List ℕ)) (first : List ℕ → KlogCall) (next : List ℕ → List ℕ → Step)
      (c rest : List (Option String))
      → ((bytes : List ℕ) (calls : List KlogCall)
          → changes (first bytes ∷ calls) ≡ c ++ changes calls)
      → ((bytes bytes' : List ℕ) → Does rest (next bytes bytes'))
      → Does (rest ++ c) (read_twice os klogctl first next)
  unfolding Does read_twice changes
  read_twice-Does klogctl first next c rest reads does d = elim (Option-cases (klogctl d)) [
    | inl e ↦ rw e (λ bad. cc)
    | inr (bytes, e) ↦
        let d₁ = note (first bytes) d in
        elim (Option-cases (os.klogctl_read_all d₁)) [
          | inl e' ↦ rw (e, e') (λ bad. cc)
          | inr (bytes', e') ↦
              let d₂ = note (KlogCall.read_all bytes') d₁ in
              rw (e, e')
                (Changes-behind c rest d d₂ (next bytes bytes' d₂) (reads bytes d.calls)
                  (does bytes bytes' d₂))
        ]
  ]

  compare_reads-Does : (bytes bytes' : List ℕ) → Does [] (compare_reads os bytes bytes')
  unfolding Does compare_reads
  compare_reads-Does bytes bytes' d =
      if-rule (Changes [] d)
        (not (length bytes == length bytes') || not (strncmp_eq (length bytes) bytes bytes'))
        (λ differ e. cc) (λ same e. refl)

  check_cleared-Does : (bytes bytes' : List ℕ) → Does (none ∷ []) (check_cleared os bytes bytes')
  unfolding Does check_cleared
  check_cleared-Does bytes bytes' d =
      if-rule (Changes (none ∷ []) d) ((length bytes == 0) || not (length bytes' == 0))
        (λ bad e. cc) (λ good. klog_clear-Changes d)

  klog_read_new_demo-Does :
      Does
        (none
          ∷ some "klog-demo: test klog_read_new log6"
          ∷ some "klog-demo: test klog_read_new log5"
          ∷ some "klog-demo: test klog_read_new log4"
          ∷ some "klog-demo: test klog_read_new log3"
          ∷ some "klog-demo: test klog_read_new log2"
          ∷ some "klog-demo: test klog_read_new log1"
          ∷ [])
        (klog_read_new_demo os)
  unfolding klog_read_new_demo
  klog_read_new_demo-Does =
      let message = λ (text : String). write_kmesg-Does text in
      any_fails-Does (
        first_does _ _ (message _) (
          first_does _ _ read_new-Does (
            first_does _ _ (message _) (
              first_does _ _ read_new-Does (
                first_does _ _ (message _) (
                  first_does _ _ (message _) (
                    first_does _ _ (message _) (
                      first_does _ _ (message _) (
                        first_does _ _ read_new-Does
                          (first_does _ _ klog_clear-Does none_left))))))))))

  abbrev log1 : String
  log1 = "klog-demo: test klog_read_clear log1"

  abbrev log2 : String
  log2 = "klog-demo: test klog_read_clear log2"

  abbrev messages : List Step
  messages = write_kmesg os log1 ∷ write_kmesg os log2 ∷ []

  messages-Does : Does (some log2 ∷ some log1 ∷ []) (any_fails messages)
  messages-Does =
      any_fails-Does
        (first_does _ _ (write_kmesg-Does log1) (first_does _ _ (write_kmesg-Does log2) none_left))

  klog_read_clear_demo-Does :
      Does
        (none
          ∷ none
          ∷ some "klog-demo: test klog_read_clear log2"
          ∷ some "klog-demo: test klog_read_clear log1"
          ∷ [])
        (klog_read_clear_demo os)
  unfolding Does klog_read_clear_demo changes
  klog_read_clear_demo-Does d =
      then-Changes (some log2 ∷ some log1 ∷ []) (none ∷ none ∷ []) (neg 1)
        (read_twice os os.klogctl_read_clear (λ bytes. KlogCall.read_cleared bytes)
          (check_cleared os))
        d (any_fails messages d) (λ e. cc) (messages-Does d)
        (read_twice-Does os.klogctl_read_clear (λ bytes. KlogCall.read_cleared bytes)
          (check_cleared os) (none ∷ []) (none ∷ []) (λ bytes calls. refl) check_cleared-Does)

  klog_read_all_repeated-Does :
      Does (some "klog-demo: test klog_read_all_repeated" ∷ []) (klog_read_all_repeated os)
  unfolding Does klog_read_all_repeated changes
  klog_read_all_repeated-Does d =
      let text : String = "klog-demo: test klog_read_all_repeated" in
      then-Changes (some text ∷ []) [] (neg 1)
        (read_twice os os.klogctl_read_all (λ bytes. KlogCall.read_all bytes) (compare_reads os)) d
        (write_kmesg os text d) (λ e. cc) (write_kmesg-Does text d)
        (read_twice-Does os.klogctl_read_all (λ bytes. KlogCall.read_all bytes) (compare_reads os)
          [] [] (λ bytes calls. refl) compare_reads-Does)

  main-Does : Does all_changes (klog_main os)
  unfolding klog_main
  main-Does = any_fails-Does (
      first_does _ _ klog_unread_demo-Does (
        first_does _ _ klog_read_new_demo-Does (
          first_does _ _ klog_read_clear_demo-Does
            (first_does _ _ klog_read_all_repeated-Does none_left))))

  -- A run of the program that returns 0 has opened /dev/kmsg and printed each of its messages to
  -- it in this order, each once, and has cleared the log at these places; it printed and cleared
  -- nothing else. Whether a message reached the log is not said: the code does not look.
  pub klog_main-changes :
      (d d' : Demo)
      → klog_main os d ≡ (d', pos 0)
      → changes d'.calls ≡ all_changes ++ changes d.calls
  unfolding Does
  klog_main-changes d d' e =
      ap (λ (r : Demo × ℤ). changes r.0.calls) (sym e) ∙ main-Does d (ap (λ (r : Demo × ℤ). r.1) e)
