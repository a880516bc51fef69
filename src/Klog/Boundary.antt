-- ===== src/Klog/Boundary.antt =====
-- linux-c/klog-demo.c: what `klog_read_new` outputs of a log that has grown.
use snippet.Base.{
  ℕ, zero, suc, ◌+◌, ◌<◌, ◌≡◌, refl, ap, subst, ◌∙◌, true, false, some, List, [], ◌∷◌, ◌++◌, length,
  take, drop, ◌==◌, if◌then◌else◌, ℤ, pos, length-append, take-append, drop-append, drop-drop,
  arith,
}
use snippet.Posix.{overlay, NoZero}
use snippet.Klog.ReadNew.{
  Reader, last_text, matches, find_line, start_line, strlen, keep_last_line, keep_nothing,
  klog_read_new,
}

pub strlen-terminated : (s rest : List ℕ) → NoZero s → strlen (s ++ 0 ∷ rest) ≡ length s
unfolding strlen
strlen-terminated [] rest h = refl
strlen-terminated (c ∷ s) rest h = ground (arith, strlen-terminated s rest h.1)

matches_self : (line rest : List ℕ) → matches line (line ++ rest) ≡ true
unfolding matches
matches_self [] rest = refl
matches_self (x ∷ line) rest = ground (arith, matches_self line rest)

-- The line stands at no place from `i` on that comes before `i + n`.
abbrev pub NotBefore : (line buf : List ℕ) (n i : ℕ) → Type 0
NotBefore line buf zero i = Unit {0}
NotBefore line buf (suc n) i = (matches line (drop i buf) ≡ false) × NotBefore line buf n (i + 1)

find_line-first :
    (line buf : List ℕ) (n left i p : ℕ)
    → NotBefore line buf n i
    → n < left
    → p ≡ i + n
    → matches line (drop p buf) ≡ true
    → find_line line buf left i ≡ some p
unfolding find_line
find_line-first line buf n zero i p earlier enough e there = absurd (omega arith)
find_line-first line buf zero (suc left) i p earlier enough e there =
    let same : p ≡ i = omega arith in
    let here = subst (λ q. matches line (drop q buf) ≡ true) same there in rw (here, same) refl
find_line-first line buf (suc n) (suc left) i p earlier enough e there =
    rw (earlier.0)
      (find_line-first line buf n left (i + 1) p earlier.1 (omega arith) (omega arith) there)

drop-append_more : (xs ys : List ℕ) (n k : ℕ) → n ≡ length xs + k → drop n (xs ++ ys) ≡ drop k ys
drop-append_more xs ys n k e =
    rw e (drop-drop k (length xs) (xs ++ ys) ∙ ap (drop k) (drop-append xs ys (length xs) refl))

-- Both ends of a round output the bytes before the zero.
pub take_new :
    (new pad : List ℕ) (nothing kept : Reader)
    → ◌≡◌ {A = Reader × List ℕ × ℤ}
        (if length new == 0
          then (nothing, [], pos 0)
          else (kept, take (length new) (new ++ 0 ∷ pad), pos 0))
        (if length new == 0 then nothing else kept, new, pos 0)
take_new [] pad nothing kept = refl
take_new (c ∷ new) pad nothing kept =
    let some_new : (length (c ∷ new) == 0) ≡ false = ground arith in
    rw (some_new, take-append (c ∷ new) (0 ∷ pad) (length (c ∷ new)) refl) refl

-- The log that is read has grown: `front` and `line` were there before, the line is the last that the
-- reader has seen, and `new` is new. It fits in the buffer, which holds zeros behind it, and it
-- has the line at no earlier place.
module _ (r : Reader) (front line new pad : List ℕ) (seen : last_text r ≡ line)
    (long : r.last_line_length ≡ length line) (some_line : 0 < length line) (text : NoZero new)
    (room : overlay (front ++ (line ++ new)) r.next_buf ≡ front ++ (line ++ (new ++ 0 ∷ pad)))
    (first : NotBefore line (front ++ (line ++ (new ++ 0 ∷ pad))) (length front) 0) where
  abbrev buf : List ℕ
  buf = front ++ (line ++ (new ++ 0 ∷ pad))

  abbrev read : List ℕ
  read = front ++ (line ++ new)

  length-read : length read ≡ length front + (length line + length new)
  length-read =
      length-append front (line ++ new) ∙ ap (λ (n : ℕ). length front + n) (length-append line new)

  start_line-boundary : start_line r buf (length read) ≡ length front + length line
  unfolding start_line
  start_line-boundary =
      let some_length : (r.last_line_length == 0) ≡ false = ground arith in
      let found : find_line (last_text r) buf (length read) 0 ≡ some (length front) = rw seen (
        find_line-first line buf (length front) (length read) 0 (length front) first
          (omega (arith, length-read)) (omega arith)
          (rw (drop-append front (line ++ (new ++ 0 ∷ pad)) (length front) refl)
            (matches_self line (new ++ 0 ∷ pad)))) in
      rw (some_length, found, long) refl

  new-buf : drop (length front + length line) buf ≡ new ++ 0 ∷ pad
  new-buf =
      drop-append_more front (line ++ (new ++ 0 ∷ pad)) _ (length line) refl
      ∙ drop-append line (new ++ 0 ∷ pad) (length line) refl

  -- Exactly what is new is output, 0 is returned, and the last line is kept, if there was one.
  pub klog_read_new_lem : klog_read_new (some read) r ≡ (
    if length new == 0
        then keep_nothing r buf
        else keep_last_line r buf (length front + length line) (length read),
    new,
    pos 0,
  )
  unfolding klog_read_new
  klog_read_new_lem =
      rw (room, start_line-boundary, new-buf, strlen-terminated new pad text) (take_new new pad _ _)
