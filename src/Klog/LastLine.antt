-- ===== src/Klog/LastLine.antt =====
-- linux-c/klog-demo.c: the line that `klog_read_new` keeps for the next round, and what it forgets.
use snippet.Base.{
  ℕ, zero, suc, ◌+◌, ◌-◌, ◌≤◌, ◌<◌, ◌≡◌, ◌≢◌, refl, sym, ap, subst, ◌∙◌, ◌⊎◌, inl, inr, Bool-cases,
  true, false, some, List, [], ◌∷◌, ◌++◌, length, get_elem?, ◌==◌, ℤ, pos, length-append,
  take-append, drop-append, arith,
}
use mathlib.Core.List.{append_assoc, append-nil}
use snippet.Posix.{NoZero, overlay}
use snippet.Klog.ReadNew.{
  Reader, last_text, start_line, is_newline, last_line_from, keep_last_line, keep_nothing,
  klog_read_new,
}
use snippet.Klog.Boundary.{NotBefore, klog_read_new_lem, strlen-terminated, take_new}

-- Bytes without the end of a line.
abbrev pub NoNewline : List ℕ → Type 0
NoNewline [] = Unit {0}
NoNewline (c ∷ s) = (c ≢ 10) × NoNewline s

-- Nothing, or whole lines.
abbrev pub EndsLine : List ℕ → Type 0
EndsLine [] = Unit {0}
EndsLine (c ∷ []) = c ≡ 10
EndsLine (c ∷ d ∷ s) = EndsLine (d ∷ s)

newline_at :
    (s : List ℕ) (k : ℕ) (rest : List ℕ)
    → EndsLine s
    → length s ≡ suc k
    → is_newline (get_elem? (s ++ rest) k) ≡ true
newline_at [] k rest h e = absurd (omega arith)
newline_at (c ∷ []) zero rest h e = ground arith
newline_at (c ∷ []) (suc k) rest h e = absurd (omega arith)
newline_at (c ∷ d ∷ s) zero rest h e = absurd (omega arith)
newline_at (c ∷ d ∷ s) (suc k) rest h e = newline_at (d ∷ s) k rest h (omega arith)

NoNewline-at :
    (before body rest : List ℕ) (j k : ℕ)
    → NoNewline body
    → j < length body
    → k ≡ length before + j
    → is_newline (get_elem? (before ++ (body ++ rest)) k) ≡ false
NoNewline-at [] [] rest j k h l e = absurd (omega arith)
NoNewline-at [] (c ∷ body) rest zero zero h l e = ground arith
NoNewline-at [] (c ∷ body) rest zero (suc k) h l e = absurd (omega arith)
NoNewline-at [] (c ∷ body) rest (suc j) zero h l e = absurd (omega arith)
NoNewline-at [] (c ∷ body) rest (suc j) (suc k) h l e =
    NoNewline-at [] body rest j k h.1 (omega arith) (omega arith)
NoNewline-at (b ∷ before) body rest j zero h l e = absurd (omega arith)
NoNewline-at (b ∷ before) body rest j (suc k) h l e =
    NoNewline-at before body rest j k h l (omega arith)

-- From a place in the last line the search goes down to its begin.
last_line_from-begin :
    (before body rest : List ℕ) (start j offset : ℕ)
    → NoNewline body
    → start ≤ length before
    → (start ≡ length before) ⊎ EndsLine before
    → j ≤ length body
    → offset ≡ length before + j
    → last_line_from (before ++ (body ++ rest)) start offset ≡ length before
unfolding last_line_from
last_line_from-begin before body rest start j zero h le ends l e = omega arith
last_line_from-begin before body rest start zero (suc k) h le ends l e = elim ends [
  | inl same ↦ let at_start : (suc k == start) ≡ true = ground arith in rw at_start (omega arith)
  | inr whole ↦
      let ended = newline_at before k (body ++ rest) whole (omega arith) in
      elim (Bool-cases (suc k == start)) [
        | inl at_start ↦ rw at_start (omega arith)
        | inr above ↦ rw (above, ended) (omega arith)
      ]
]
last_line_from-begin before body rest start (suc j) (suc k) h le ends l e =
    let inside : is_newline (get_elem? (before ++ (body ++ rest)) k) ≡ false =
      NoNewline-at before body rest j k h (omega arith) (omega arith) in
    let not_start : (suc k == start) ≡ false = ground arith in
    rw (not_start, inside)
      (last_line_from-begin before body rest start j k h le ends (omega arith) (omega arith))

EndsLine-append : (xs : List ℕ) (y : ℕ) (ys : List ℕ) → EndsLine (y ∷ ys) → EndsLine (xs ++ y ∷ ys)
EndsLine-append [] y ys h = h
EndsLine-append (x ∷ []) y ys h = h
EndsLine-append (x ∷ x' ∷ xs) y ys h = EndsLine-append (x' ∷ xs) y ys h

-- The line that is kept.
module _ (r : Reader) (before body rest : List ℕ) (start next_length : ℕ) (plain : NoNewline body)
    (le : start ≤ length before) (ends : (start ≡ length before) ⊎ EndsLine before)
    (all : next_length ≡ length before + (length body + 1)) where
  last : last_line_from (before ++ (body ++ 10 ∷ rest)) start (next_length - 1) ≡ length before
  last =
      last_line_from-begin before body (10 ∷ rest) start (length body) (next_length - 1) plain le
        ends (omega arith) (omega arith)

  keep_last_line-length :
      (keep_last_line r (before ++ (body ++ 10 ∷ rest)) start next_length).last_line_length
      ≡ length (body ++ 10 ∷ [])
  unfolding keep_last_line
  keep_last_line-length = rw last (omega (arith, length-append body (10 ∷ [])))

  keep_last_line-text :
      last_text (keep_last_line r (before ++ (body ++ 10 ∷ rest)) start next_length)
      ≡ body ++ 10 ∷ []
  unfolding keep_last_line
  keep_last_line-text =
      let size : next_length - length before ≡ length (body ++ 10 ∷ []) =
        omega (arith, length-append body (10 ∷ [])) in
      rw (last, size, drop-append before (body ++ 10 ∷ rest) (length before) refl)
        (rw (← append_assoc body (10 ∷ []) rest)
          (take-append (body ++ 10 ∷ []) rest (length (body ++ 10 ∷ [])) refl))

-- Lines of which `body` is the last.
abbrev pub lines : (earlier body : List ℕ) → List ℕ
lines earlier body = earlier ++ (body ++ 10 ∷ [])

regroup :
    (front line earlier body pad : List ℕ)
    → front ++ (line ++ (lines earlier body ++ 0 ∷ pad))
      ≡ (front ++ (line ++ earlier)) ++ (body ++ 10 ∷ (0 ∷ pad))
regroup front line earlier body pad = simp append_assoc

boundary :
    (front line earlier : List ℕ)
    → EndsLine earlier
    → (length front + length line ≡ length (front ++ (line ++ earlier)))
      ⊎ EndsLine (front ++ (line ++ earlier))
boundary front line [] h = inl (rw (append-nil line) (omega (arith, length-append front line)))
boundary front line (c ∷ earlier) h =
    inr (rw (← append_assoc front line (c ∷ earlier)) (EndsLine-append (front ++ line) c earlier h))

module _ (r : Reader) (front line earlier body pad : List ℕ) where
  -- The log has grown by lines of which the last is `body` and a line break. If it still begins with
  -- what the reader saw, has the reader's last line at no earlier place, and fits in the buffer
  -- with a zero behind it, then exactly the new lines are output, 0 is returned, and the last of
  -- them is the line that the reader keeps for the next round.
  pub klog_read_new-grows :
      last_text r ≡ line
      → r.last_line_length ≡ length line
      → 0 < length line
      → NoZero (lines earlier body)
      → NoNewline body
      → EndsLine earlier
      → overlay (front ++ (line ++ lines earlier body)) r.next_buf
        ≡ front ++ (line ++ (lines earlier body ++ 0 ∷ pad))
      → NotBefore line (front ++ (line ++ (lines earlier body ++ 0 ∷ pad))) (length front) 0
      → (r' : Reader) × (klog_read_new (some (front ++ (line ++ lines earlier body))) r
          ≡ (r', lines earlier body, pos 0))
        × (last_text r' ≡ body ++ 10 ∷ [])
        × (r'.last_line_length ≡ length (body ++ 10 ∷ []))
        × (r'.next_buf ≡ r.other_buf)
  unfolding keep_last_line
  klog_read_new-grows seen long some_line text plain whole room first =
      let new = lines earlier body in
      let before = front ++ (line ++ earlier) in
      let start = length front + length line in
      let total = length (front ++ (line ++ new)) in
      let some_new : (length new == 0) ≡ false =
        ground (arith, length-append earlier (body ++ 10 ∷ []), length-append body (10 ∷ [])) in
      let all : total ≡ length before + (length body + 1) = omega (
        arith,
        length-append front (line ++ new),
        length-append line new,
        length-append earlier (body ++ 10 ∷ []),
        length-append body (10 ∷ []),
        length-append front (line ++ earlier),
        length-append line earlier,
      ) in
      let le : start ≤ length before =
        omega (arith, length-append front (line ++ earlier), length-append line earlier) in
      let ends = boundary front line earlier whole in
      let kept = λ (b : List ℕ). keep_last_line r b start total in
      let same = regroup front line earlier body pad in
      (
        kept (front ++ (line ++ (new ++ 0 ∷ pad))),
        klog_read_new_lem r front line new pad seen long some_line text room first
            ∙ rw some_new refl,
        subst (λ b. last_text (kept b) ≡ body ++ 10 ∷ []) (sym same)
            (keep_last_line-text r before body (0 ∷ pad) start total plain le ends all),
        subst (λ b. (kept b).last_line_length ≡ length (body ++ 10 ∷ [])) (sym same)
            (keep_last_line-length r before body (0 ∷ pad) start total plain le ends all),
        refl,
      )

-- A reader with no last line outputs all that it reads.
whole_log :
    (r : Reader) (later pad : List ℕ)
    → r.last_line_length ≡ 0
    → NoZero later
    → overlay later r.next_buf ≡ later ++ 0 ∷ pad
    → (klog_read_new (some later) r).1 ≡ later
unfolding klog_read_new start_line
whole_log r later pad none_kept text room =
    rw (room, none_kept, strlen-terminated later pad text)
      (ap (λ (result : Reader × List ℕ × ℤ). result.1) (take_new later pad _ _))

-- When nothing is new, the reader forgets its last line. The log ends with that line, which is not
-- empty and stands at no earlier place, and fits in the buffer with a zero behind it: the round
-- outputs nothing and returns 0. The next round, whose log has no zeros and fits in the other buffer
-- with a zero behind it, outputs the whole log, also what was output before.
pub klog_read_new_repeats :
    (r : Reader) (front line pad later pad' : List ℕ)
    → last_text r ≡ line
    → r.last_line_length ≡ length line
    → 0 < length line
    → overlay (front ++ line) r.next_buf ≡ front ++ (line ++ 0 ∷ pad)
    → NotBefore line (front ++ (line ++ 0 ∷ pad)) (length front) 0
    → NoZero later
    → overlay later r.other_buf ≡ later ++ 0 ∷ pad'
    → (r' : Reader) × (klog_read_new (some (front ++ line)) r ≡ (r', [], pos 0))
      × ((klog_read_new (some later) r').1 ≡ later)
unfolding keep_nothing
klog_read_new_repeats r front line pad later pad' seen long some_line room first text room' =
    let same : front ++ (line ++ []) ≡ front ++ line = rw (append-nil line) refl in
    let buf = front ++ (line ++ 0 ∷ pad) in
    (
      keep_nothing r buf,
      subst (λ z. klog_read_new (some z) r ≡ (keep_nothing r buf, [], pos 0)) same
          (klog_read_new_lem r front line [] pad seen long some_line tt
            (subst (λ z. overlay z r.next_buf ≡ buf) (sym same) room) first),
      whole_log (keep_nothing r buf) later pad' refl text room',
    )
