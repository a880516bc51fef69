-- ===== src/InetIo/Layout.antt =====
-- inet_io.h: the head of a packet reads back.
use mathlib.Core.List.{append_assoc}
use native.Mathlib.Nat.{pow-suc}
use snippet.Base.{
  ℕ, zero, suc, ◌/◌, ◌^◌, ◌<◌, ◌≡◌, refl, ap, ◌∙◌, sym, List, ◌++◌, take, drop, length,
  length-append, take-append, drop-append, take_all, arith,
}
use snippet.InetIo.Metadata.{
  le_bytes, from_le, metadata_bytes, metadata_type, metadata_length, sizeof_metadata,
}

pub length-le_bytes : (w n : ℕ) → length (le_bytes w n) ≡ w
unfolding le_bytes
length-le_bytes zero n = refl
length-le_bytes (suc w) n = ap suc (length-le_bytes w (n / 256))

from_le-le_bytes : (w n : ℕ) → n < 256 ^ w → from_le (le_bytes w n) ≡ n
unfolding le_bytes from_le
from_le-le_bytes zero n h = omega arith
from_le-le_bytes (suc w) n h =
    let small : n / 256 < 256 ^ w = omega (arith, pow-suc 256 w) in
    omega (arith, from_le-le_bytes w (n / 256) small)

-- The head of a packet has 16 bytes, and its type and length read back, for every type of 32 bits
-- and length of 64 bits, whatever stands in the padding.
pub metadata_lem :
    (padding : List ℕ) (type size : ℕ)
    → length padding ≡ 4
    → type < 2 ^ 32
    → size < 2 ^ 64
    → (length (metadata_bytes padding type size) ≡ sizeof_metadata)
      × (metadata_type (metadata_bytes padding type size) ≡ type)
      × (metadata_length (metadata_bytes padding type size) ≡ size)
unfolding metadata_bytes metadata_type metadata_length
metadata_lem padding type size four small small' =
    let head = le_bytes 4 type in
    let tail = le_bytes 8 size in
    let eight : length (head ++ padding) ≡ 8 =
      omega (arith, length-append {0} head padding, length-le_bytes 4 type) in
    (
      omega (
        arith,
        length-append {0} head (padding ++ tail),
        length-append {0} padding tail,
        length-le_bytes 4 type,
        length-le_bytes 8 size,
      ),
      ap from_le (take-append head (padding ++ tail) 4 (length-le_bytes 4 type))
          ∙ from_le-le_bytes 4 type small,
      ap (λ xs. from_le (take 8 (drop 8 xs))) (sym (append_assoc head padding tail))
          ∙ ap (λ xs. from_le (take 8 xs)) (drop-append (head ++ padding) tail 8 eight)
          ∙ ap from_le (take_all tail 8 (length-le_bytes 8 size))
          ∙ from_le-le_bytes 8 size small',
    )
