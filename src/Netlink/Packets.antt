-- ===== src/Netlink/Packets.antt =====
-- A concrete form of netlink messages: a list of attributes and the room left. It shows that the
-- laws that `Messages` asks for can hold, and it serves the tests.
use snippet.Base.{
  ℕ, ◌+◌, ◌-◌, ◌*◌, ◌/◌, ◌%◌, ◌^◌, ◌≡◌, refl, Option, none, some, List, [], ◌∷◌, length, leb, ◌==◌,
  if◌then◌else◌, arith,
}
use snippet.Netlink.Messages.{Messages, Laws, Appends, written}

pub data Value : Type 0 where
  u32 u64 : ℕ → Value
  bytes : List ℕ → Value

pub record Packet : Type 0 where
  pub room : ℕ
  pub attrs : List (ℕ × Value)

abbrev find : ℕ → List (ℕ × Value) → Option Value
find type [] = none
find type ((t, v) ∷ rest) = if t == type then some v else find type rest

abbrev total_size : ℕ → ℕ
total_size payload = (payload + 7) / 4 * 4

abbrev append : ℕ → ℕ → Value → Packet → Option Packet
append size type v s =
    if leb size s.room
    then some (record { room = s.room - size; attrs = (type, v) ∷ s.attrs })
    else none

abbrev number32 : Value → ℕ
number32 (Value.u32 n) = n
number32 _ = 0

abbrev number64 : Value → ℕ
number64 (Value.u64 n) = n
number64 _ = 0

abbrev content : Value → List ℕ
content (Value.bytes bs) = bs
content _ = []

abbrev pub packets : Messages
packets = record {
  Msg = Packet;
  Attr = Value;
  room = λ s. s.room;
  attr = λ s type. find type s.attrs;
  headers_size = 20;
  nla_total_size = total_size;
  nla_total_size_64bit = total_size;
  genlmsg_put = λ s cmd. if leb 20 s.room then some (record s { room = s.room - 20 }) else none;
  nla_put_u32 = λ s type value. append 8 type (Value.u32 (value % 2 ^ 32)) s;
  nla_put_u64 = λ s type value. append 12 type (Value.u64 (value % 2 ^ 64)) s;
  nla_put_u64_64bit = λ s type value padding. append 12 type (Value.u64 (value % 2 ^ 64)) s;
  nla_reserve = λ s type size.
      if leb (total_size size) s.room
      then some (λ bs. record {
        room = s.room - total_size size;
        attrs = (type, Value.bytes bs) ∷ s.attrs;
      })
      else none;
  nla_get_u32 = number32;
  nla_get_u64 = number64;
  nla_data = content;
}

append-Appends :
    (size type padding : ℕ) (v : Value) (Reads : Value → Type 0)
    → Reads v
    → Appends packets (append size type v) size type padding Reads
append-Appends size type padding v Reads reads = record {
  full = λ s little. ground arith;
  fits = λ s enough. (
    record { room = s.room - size; attrs = (type, v) ∷ s.attrs },
    ground arith,
    record {
      less_room = omega arith;
      value = v;
      stands = ground arith;
      reads = reads;
      others = λ t differs not_padding. ground arith;
    },
  );
}

written-Appends :
    (type : ℕ) (bs : List ℕ)
    → Appends packets
        (written packets type bs)
        (total_size (length bs))
        type
        type
        (λ a. content a ≡ bs)
written-Appends type bs = record {
  full = λ s little. ground arith;
  fits = λ s enough. (
    record { room = s.room - total_size (length bs); attrs = (type, Value.bytes bs) ∷ s.attrs },
    ground arith,
    record {
      less_room = omega arith;
      value = Value.bytes bs;
      stands = ground arith;
      reads = refl;
      others = λ t differs not_padding. ground arith;
    },
  );
}

pub packets-Laws : Laws packets
packets-Laws = record {
  header_full = λ s cmd little. ground arith;
  header_fits = λ s cmd enough. (record s { room = s.room - 20 }, ground arith, omega arith);
  u32 = λ type value.
      append-Appends 8 type type (Value.u32 (value % 2 ^ 32)) (λ a. number32 a ≡ value % 2 ^ 32)
        refl;
  u64 = λ type value.
      append-Appends 12 type type (Value.u64 (value % 2 ^ 64)) (λ a. number64 a ≡ value % 2 ^ 64)
        refl;
  u64_64bit = λ type value padding.
      append-Appends 12 type padding (Value.u64 (value % 2 ^ 64)) (λ a. number64 a ≡ value % 2 ^ 64)
        refl;
  bytes = λ type bs. written-Appends type bs;
  padded = omega arith;
  not_empty = omega arith;
}
