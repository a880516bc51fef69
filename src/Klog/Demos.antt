-- ===== src/Klog/Demos.antt =====
-- linux-c/klog-demo.c, except for `klog_read_new`: the demonstrations, as functions of what was done so
-- far. The answers of `fopen` and `klogctl` are a parameter; messages to the terminal are left out.
use Prim.Native.String.{String}
use snippet.Base.{
  ℕ, Bool, not, ◌||◌, Option, List, [], ◌∷◌, ◌++◌, length, ◌==◌, if◌then◌else◌, case_option, ℤ, pos,
  neg, is_zero,
}
use snippet.Posix.{strncmp_eq}
use snippet.Klog.ReadNew.{Reader, klog_read_new}

-- What was done to the log. Of a message that was printed to /dev/kmsg, whether it reached the log:
-- the program does not look at the results of `fprintf` and `fclose`.
pub data KlogCall : Type 0 where
  printed : (text : String) (reached : Bool) → KlogCall
  cleared : KlogCall
  read_all read_cleared : (bytes : List ℕ) → KlogCall
  asked_unread : (count : ℕ) → KlogCall

-- The calls, the latest first; the static variables of `klog_read_new`; and the bytes that were
-- written to descriptor 1.
pub record Demo : Type 0 where
  pub calls : List KlogCall
  pub reader : Reader
  pub output : List ℕ

-- `none` and `false` stand for a result of -1 or a null pointer.
pub record KlogSystem : Type 0 where
  pub fopen : Demo → Bool
  pub written_out : Demo → Bool
  pub klogctl_read_all : Demo → Option (List ℕ)
  pub klogctl_read_clear : Demo → Option (List ℕ)
  pub klogctl_clear : Demo → Bool
  pub klogctl_unread : Demo → Option ℕ

abbrev pub Step : Type 0
Step = Demo → Demo × ℤ

abbrev pub note : KlogCall → Demo → Demo
note call d = record d { calls = call ∷ d.calls }

-- `a || b || …`: 1 at the first that is not zero.
unfoldable pub any_fails : List Step → Step
any_fails [] d = (d, pos 0)
any_fails (step ∷ rest) d =
    let (d', ret) = step d in
    let more = any_fails rest d' in if is_zero ret then more else (d', pos 1)

module _ (os : KlogSystem) where
  unfoldable pub write_kmesg : String → Step
  write_kmesg str d =
      if os.fopen d then (note (KlogCall.printed str (os.written_out d)) d, pos 0) else (d, neg 1)

  unfoldable pub klog_clear : Step
  klog_clear d = if os.klogctl_clear d then (note KlogCall.cleared d, pos 0) else (d, neg 1)

  unfoldable pub read_new : Step
  read_new d =
      let (reader, output, ret) = klog_read_new (os.klogctl_read_all d) d.reader in
      (record d { reader = reader; output = d.output ++ output }, ret)

  -- Behind the message, whose result is kept: -1 with any bits is -1.
  unfoldable pub unread : ℤ → Step
  unfolding klog_clear
  unread ret d =
      case_option (os.klogctl_unread d) (d, neg 1)
        λ count.
          let d' = note (KlogCall.asked_unread count) d in
          if is_zero ret then klog_clear d' else (d', neg 1)

  unfoldable pub klog_unread_demo : Step
  unfolding write_kmesg unread
  klog_unread_demo d = let (d', ret) = write_kmesg "klog-demo: test klog_unread." d in unread ret d'

  -- Two answers that were both got, compared as strings of the first one's length.
  unfoldable pub compare_reads : List ℕ → List ℕ → Step
  compare_reads bytes₁ bytes₂ d =
      if not (length bytes₁ == length bytes₂) || not (strncmp_eq (length bytes₁) bytes₁ bytes₂)
      then (d, neg 1)
      else (record d { output = d.output ++ bytes₁ }, pos 0)

  -- The second call is made whatever the first one says.
  unfoldable pub read_twice :
      (Demo → Option (List ℕ)) → (List ℕ → KlogCall) → (List ℕ → List ℕ → Step) → Step
  read_twice klogctl first next d =
      let answer₁ = klogctl d in
      let d₁ = case_option answer₁ d (λ bytes. note (first bytes) d) in
      let answer₂ = os.klogctl_read_all d₁ in
      let d₂ = case_option answer₂ d₁ (λ bytes. note (KlogCall.read_all bytes) d₁) in
      case_option answer₁ (d₂, neg 1)
        λ bytes₁. case_option answer₂ (d₂, neg 1) λ bytes₂. next bytes₁ bytes₂ d₂

  unfoldable pub klog_read_all_repeated : Step
  unfolding write_kmesg read_twice compare_reads
  klog_read_all_repeated d =
      let (d', ret) = write_kmesg "klog-demo: test klog_read_all_repeated" d in
      if is_zero ret
      then read_twice os.klogctl_read_all (λ bytes. KlogCall.read_all bytes) compare_reads d'
      else (d', neg 1)

  unfoldable pub klog_read_new_demo : Step
  unfolding any_fails write_kmesg read_new klog_clear
  klog_read_new_demo = any_fails (
      write_kmesg "klog-demo: test klog_read_new log1"
      ∷ read_new
      ∷ write_kmesg "klog-demo: test klog_read_new log2"
      ∷ read_new
      ∷ write_kmesg "klog-demo: test klog_read_new log3"
      ∷ write_kmesg "klog-demo: test klog_read_new log4"
      ∷ write_kmesg "klog-demo: test klog_read_new log5"
      ∷ write_kmesg "klog-demo: test klog_read_new log6"
      ∷ read_new
      ∷ klog_clear
      ∷ [])

  -- The first read has something, and the second nothing.
  unfoldable pub check_cleared : List ℕ → List ℕ → Step
  unfolding klog_clear
  check_cleared bytes₁ bytes₂ d =
      if (length bytes₁ == 0) || not (length bytes₂ == 0) then (d, neg 1) else klog_clear d

  unfoldable pub klog_read_clear_demo : Step
  unfolding any_fails write_kmesg read_twice check_cleared
  klog_read_clear_demo d =
      let (d', ret) =
        any_fails
          (write_kmesg "klog-demo: test klog_read_clear log1"
            ∷ write_kmesg "klog-demo: test klog_read_clear log2"
            ∷ [])
          d in
      if is_zero ret
      then read_twice os.klogctl_read_clear (λ bytes. KlogCall.read_cleared bytes) check_cleared d'
      else (d', neg 1)

  unfoldable pub klog_main : Step
  unfolding any_fails klog_unread_demo klog_read_new_demo klog_read_clear_demo
      klog_read_all_repeated
  klog_main =
      any_fails
        (klog_unread_demo ∷ klog_read_new_demo ∷ klog_read_clear_demo ∷ klog_read_all_repeated ∷ [])
