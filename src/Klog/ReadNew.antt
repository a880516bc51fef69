-- ===== src/Klog/ReadNew.antt =====
-- linux-c/klog-demo.c, `klog_read_new`: it keeps the last line that it has seen, looks for it in the
-- buffer that it reads next, and outputs what stands behind it. Where C would read outside of a
-- buffer, the bytes end.
use snippet.Base.{
  ℕ, zero, suc, ◌+◌, ◌-◌, Bool, true, false, Option, none, some, List, [], ◌∷◌, length, take, drop,
  get_elem?, ◌==◌, if◌then◌else◌, case_option, ℤ, pos, neg,
}
use snippet.Posix.{overlay}

-- The static variables. `last_line` is an offset in the buffer that is not `next_buf`: on every path
-- it is set to a place in `next_buf`, and then the buffers change places.
pub record Reader : Type 0 where
  pub next_buf : List ℕ
  pub other_buf : List ℕ
  pub last_line : ℕ
  pub last_line_length : ℕ
  pub round : ℕ

-- The last line.
abbrev pub last_text : Reader → List ℕ
last_text r = take r.last_line_length (drop r.last_line r.other_buf)

-- Whether the bytes at the front are those of the line.
unfoldable pub matches : List ℕ → List ℕ → Bool
matches [] bytes = true
matches (x ∷ line) [] = false
matches (x ∷ line) (y ∷ bytes) = let more = matches line bytes in if y == x then more else false

-- The first place at `i` or behind it, of `left` places, where the line stands.
unfoldable pub find_line : List ℕ → List ℕ → (left i : ℕ) → Option ℕ
unfolding matches
find_line line buf zero i = none
find_line line buf (suc left) i =
    let later = find_line line buf left (i + 1) in
    if matches line (drop i buf) then some i else later

-- Where the new lines begin; all lines count as new when the last one is not found.
unfoldable pub start_line : Reader → List ℕ → ℕ → ℕ
unfolding find_line
start_line r buf next_length =
    if r.last_line_length == 0
    then 0
    else case_option (find_line (last_text r) buf next_length 0) 0 (λ i. i + r.last_line_length)

-- `strlen`
unfoldable pub strlen : List ℕ → ℕ
strlen [] = 0
strlen (c ∷ s) = let rest = strlen s in if c == 0 then 0 else suc rest

-- `*p == '\n'`
abbrev pub is_newline : Option ℕ → Bool
is_newline none = false
is_newline (some c) = c == 10

-- The begin of the last line, searched from an offset down to `start`.
unfoldable pub last_line_from : List ℕ → (start offset : ℕ) → ℕ
last_line_from buf start zero = 0
last_line_from buf start (suc k) =
    let lower = last_line_from buf start k in
    if suc k == start then suc k else if is_newline (get_elem? buf k) then suc k else lower

-- The end of a round that has new lines, and of one that has none.
unfoldable pub keep_last_line : Reader → List ℕ → (start next_length : ℕ) → Reader
unfolding last_line_from
keep_last_line r buf start next_length =
    let last = last_line_from buf start (next_length - 1) in
    record {
      next_buf = r.other_buf;
      other_buf = buf;
      last_line = last;
      last_line_length = next_length - last;
      round = r.round + 1;
    }

unfoldable pub keep_nothing : Reader → List ℕ → Reader
keep_nothing r buf = record {
  next_buf = r.other_buf;
  other_buf = buf;
  last_line = 0;
  last_line_length = 0;
  round = r.round + 1;
}

-- The bytes that are output, and the value returned, for the bytes that `klogctl` reads.
unfoldable pub klog_read_new : Option (List ℕ) → Reader → Reader × List ℕ × ℤ
unfolding start_line strlen keep_last_line keep_nothing
klog_read_new answer r =
    case_option answer (r, [], neg 1)
      λ bytes.
        let buf = overlay bytes r.next_buf in
        let start = start_line r buf (length bytes) in
        let new = drop start buf in
        if strlen new == 0
        then (keep_nothing r buf, [], pos 0)
        else (keep_last_line r buf start (length bytes), take (strlen new) new, pos 0)
