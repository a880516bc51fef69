-- ===== src/InetIo/Metadata.antt =====
-- linux-c/socket/inet-socket/inet_io.h: `enum payload_type` and the bytes of `struct demo_metadata`
-- on a little-endian machine with 8-byte `size_t`: the type, four bytes of padding, the length.
use snippet.Base.{ℕ, zero, suc, ◌+◌, ◌*◌, ◌/◌, ◌%◌, List, [], ◌∷◌, ◌++◌, take, drop}

pub data PayloadType : Type 0 where
  demo_string_payload demo_uint64_payload demo_int_array_payload demo_struct_payload : PayloadType

-- The number of the enumerator.
abbrev pub type_code : PayloadType → ℕ
type_code PayloadType.demo_string_payload = 0
type_code PayloadType.demo_uint64_payload = 1
type_code PayloadType.demo_int_array_payload = 2
type_code PayloadType.demo_struct_payload = 3

-- `n` in `w` bytes, the lowest first.
unfoldable pub le_bytes : ℕ → ℕ → List ℕ
le_bytes zero n = []
le_bytes (suc w) n = n % 256 ∷ le_bytes w (n / 256)

unfoldable pub from_le : List ℕ → ℕ
from_le [] = 0
from_le (b ∷ bs) = b + 256 * from_le bs

abbrev pub sizeof_metadata : ℕ
sizeof_metadata = 16

-- The struct as it stands in memory; `padding` are the four bytes between its fields.
unfoldable pub metadata_bytes : List ℕ → ℕ → ℕ → List ℕ
metadata_bytes padding type length = le_bytes 4 type ++ (padding ++ le_bytes 8 length)

-- Its fields, read back from the bytes.
unfoldable pub metadata_type : List ℕ → ℕ
metadata_type bytes = from_le (take 4 bytes)

unfoldable pub metadata_length : List ℕ → ℕ
metadata_length bytes = from_le (take 8 (drop 8 bytes))
