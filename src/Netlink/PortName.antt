-- ===== src/Netlink/PortName.antt =====
-- genl_demo.c, lines 120 and 57: the text of the component, "port-%u", and its length.
use snippet.Base.{
  ℕ, zero, suc, ◌+◌, ◌*◌, ◌-◌, ◌/◌, ◌%◌, ◌^◌, ◌<◌, ◌≤◌, ◌≡◌, refl, ap, ◌∙◌, inl, inr, List, [], ◌∷◌,
  ◌++◌, length, take, drop, ◌==◌, Bool-cases, leb, ◌&&◌, true, arith,
}
use snippet.Posix.{codes, NoZero}
use snippet.Config.{read_digits}
use snippet.Netlink.Messages.{demo_max_str_len}
use snippet.Netlink.GenlDemo.{digits, decimal, port_name, strnlen}

NoZero-append : (s t : List ℕ) → NoZero s → NoZero t → NoZero (s ++ t)
NoZero-append [] t h k = k
NoZero-append (c ∷ s) t h k = (h.0, NoZero-append s t h.1 k)

digits-NoZero : (room n : ℕ) (out : List ℕ) → NoZero out → NoZero (digits room n out)
unfolding digits
digits-NoZero zero n out h = h
digits-NoZero (suc room) n out h =
    let longer = (48 + n % 10) ∷ out in
    let nonzero : NoZero longer = (omega arith, h) in
    elim (Bool-cases (n / 10 == 0)) [
      | inl last ↦ rw last nonzero
      | inr more ↦ rw more (digits-NoZero room (n / 10) longer nonzero)
    ]

length-digits : (room n : ℕ) (out : List ℕ) → length (digits room n out) ≤ room + length out
unfolding digits
length-digits zero n out = omega arith
length-digits (suc room) n out = elim (Bool-cases (n / 10 == 0)) [
  | inl last ↦ rw last (omega arith)
  | inr more ↦ rw more (omega (arith, length-digits room (n / 10) ((48 + n % 10) ∷ out)))
]

-- The name of a port, which has fifteen bytes at most.
unfoldable pub port_text : ℕ → List ℕ
port_text portid = codes "port-" ++ decimal portid

pub port_text-NoZero : (portid : ℕ) → NoZero (port_text portid)
unfolding port_text decimal
port_text-NoZero portid =
    NoZero-append (codes "port-") (digits 10 portid []) (omega arith)
      (digits-NoZero 10 portid [] tt)

pub length-port_text : (portid : ℕ) → length (port_text portid) ≤ demo_max_str_len
unfolding port_text decimal
length-port_text portid = omega (arith, length-digits 10 portid [])

take_short : (xs : List ℕ) (n : ℕ) → length xs ≤ n → take n xs ≡ xs
take_short [] zero h = refl
take_short [] (suc n) h = refl
take_short (x ∷ xs) zero h = absurd (omega arith)
take_short (x ∷ xs) (suc n) h = ap (◌∷◌ x) (take_short xs n (omega arith))

-- `snprintf` never cuts the name of a port short.
pub port_name_lem : (portid : ℕ) → port_name portid ≡ port_text portid ++ 0 ∷ []
unfolding port_name port_text
port_name_lem portid =
    ap (λ (s : List ℕ). s ++ 0 ∷ [])
      (take_short (port_text portid) demo_max_str_len (length-port_text portid))

pub strnlen-terminated :
    (s : List ℕ) (n : ℕ) → NoZero s → length s ≤ n → strnlen (s ++ 0 ∷ []) n ≡ length s
unfolding strnlen
strnlen-terminated [] zero h l = refl
strnlen-terminated [] (suc n) h l = refl
strnlen-terminated (c ∷ s) zero h l = absurd (omega arith)
strnlen-terminated (c ∷ s) (suc n) h l = ground (arith, strnlen-terminated s n h.1 (omega arith))

-- The digit that `digits` wrote is the next that `read_digits` reads.
read_digits-digit :
    (k n : ℕ) (out : List ℕ)
    → k * 10 + n % 10 ≡ n
    → read_digits k ((48 + n % 10) ∷ out) ≡ read_digits n out
unfolding read_digits
read_digits-digit k n out e =
    let digit : k * 10 + (48 + n % 10 - 48) ≡ n = omega arith in
    let is_digit : (leb 48 (48 + n % 10) && leb (48 + n % 10) 57) ≡ true = ground arith in
    rw (is_digit, digit) refl

pub power10 : ℕ → ℕ
power10 zero = 1
power10 (suc k) = 10 * power10 k

read_digits-digits :
    (room n : ℕ) (out : List ℕ)
    → n < power10 room
    → read_digits 0 (digits room n out) ≡ read_digits n out
unfolding read_digits digits power10
read_digits-digits zero n out h = let e : n ≡ 0 = omega arith in rw e refl
read_digits-digits (suc room) n out h =
    let longer = (48 + n % 10) ∷ out in
    let step = λ (k : ℕ) (e : k * 10 + n % 10 ≡ n). read_digits-digit k n out e in
    elim (Bool-cases (n / 10 == 0)) [
      | inl last ↦ rw last (step 0 (ground arith))
      | inr more ↦
          rw more
            (read_digits-digits room (n / 10) longer (omega arith) ∙ step (n / 10) (omega arith))
    ]

-- The number of a port is read back from its name, as `atoi` reads digits.
pub port_text-read_digits :
    (portid : ℕ) → portid < 2 ^ 32 → read_digits 0 (drop 5 (port_text portid)) ≡ portid
unfolding port_text decimal read_digits power10
port_text-read_digits portid h = read_digits-digits 10 portid [] (omega arith)
