-- ===== src/Netlink/Messages.antt =====
-- Netlink messages and their attributes, as genl_demo.c calls the kernel's functions for them and
-- reporter.c and listener.c those of libnl: a parameter of the model, with the documented behaviour
-- of the calls as laws. The names are those of genl_demo_uapi.h.
use snippet.Base.{
  ℕ, ◌+◌, ◌%◌, ◌^◌, ◌<◌, ◌≤◌, ◌≡◌, ◌≢◌, Option, none, some, List, length, case_option,
}

-- The parts of a message: `room` is what a message has left for attributes and headers, and `attr`
-- the attribute of a type, or a null pointer. A call that fails is `none`.
pub record Messages : Type 1 where
  pub Msg : Type 0
  pub Attr : Type 0
  pub room : Msg → ℕ
  pub attr : Msg → (type : ℕ) → Option Attr
  pub headers_size : ℕ
  pub nla_total_size : (payload : ℕ) → ℕ
  pub nla_total_size_64bit : (payload : ℕ) → ℕ
  pub genlmsg_put : Msg → (cmd : ℕ) → Option Msg
  pub nla_put_u32 : Msg → (type value : ℕ) → Option Msg
  pub nla_put_u64 : Msg → (type value : ℕ) → Option Msg
  pub nla_put_u64_64bit : Msg → (type value padding : ℕ) → Option Msg
  -- the message, for the bytes that are written to the attribute reserved
  pub nla_reserve : Msg → (type size : ℕ) → Option (List ℕ → Msg)
  pub nla_get_u32 : Attr → ℕ
  pub nla_get_u64 : Attr → ℕ
  pub nla_data : Attr → List ℕ

-- `s'` is `s` and an attribute of the type, which takes `size` bytes. An attribute of the type
-- `padding` may stand before it.
pub record IsAppended (m : Messages) (s s' : m.Msg) (size type padding : ℕ)
    (Reads : m.Attr → Type 0) : Type 0 where
  pub less_room : m.room s' + size ≡ m.room s
  pub value : m.Attr
  pub stands : m.attr s' type ≡ some value
  pub reads : Reads value
  pub others : (t : ℕ) → t ≢ type → t ≢ padding → m.attr s' t ≡ m.attr s t

-- A call that appends an attribute if there is room for it.
pub record Appends (m : Messages) (put : m.Msg → Option m.Msg) (size type padding : ℕ)
    (Reads : m.Attr → Type 0) : Type 0 where
  pub full : (s : m.Msg) → m.room s < size → put s ≡ none
  pub fits :
      (s : m.Msg)
      → size ≤ m.room s
      → (s' : m.Msg) × (put s ≡ some s') × IsAppended m s s' size type padding Reads

-- The bytes are written to an attribute that was reserved for them.
abbrev pub written : (m : Messages) → ℕ → List ℕ → m.Msg → Option m.Msg
written m type bytes s =
    case_option (m.nla_reserve s type (length bytes)) none (λ fill. some (fill bytes))

-- What the callers rely on.
pub record Laws (m : Messages) : Type 0 where
  pub header_full : (s : m.Msg) (cmd : ℕ) → m.room s < m.headers_size → m.genlmsg_put s cmd ≡ none
  pub header_fits :
      (s : m.Msg) (cmd : ℕ)
      → m.headers_size ≤ m.room s
      → (s' : m.Msg) × (m.genlmsg_put s cmd ≡ some s') × (m.room s' + m.headers_size ≡ m.room s)
  pub u32 :
      (type value : ℕ)
      → Appends m
          (λ s. m.nla_put_u32 s type value)
          (m.nla_total_size 4)
          type
          type
          (λ a. m.nla_get_u32 a ≡ value % 2 ^ 32)
  pub u64 :
      (type value : ℕ)
      → Appends m
          (λ s. m.nla_put_u64 s type value)
          (m.nla_total_size 8)
          type
          type
          (λ a. m.nla_get_u64 a ≡ value % 2 ^ 64)
  pub u64_64bit :
      (type value padding : ℕ)
      → Appends m
          (λ s. m.nla_put_u64_64bit s type value padding)
          (m.nla_total_size_64bit 8)
          type
          padding
          (λ a. m.nla_get_u64 a ≡ value % 2 ^ 64)
  pub bytes :
      (type : ℕ) (bytes : List ℕ)
      → Appends m
          (written m type bytes)
          (m.nla_total_size (length bytes))
          type
          type
          (λ a. m.nla_data a ≡ bytes)
  pub padded : m.nla_total_size 8 ≤ m.nla_total_size_64bit 8
  pub not_empty : 0 < m.nla_total_size 4

abbrev pub demo_max_str_len : ℕ
demo_max_str_len = 63

-- Commands and attributes from a user to the kernel.
abbrev pub demo_u_cmd_event_report : ℕ
demo_u_cmd_event_report = 1

abbrev pub demo_u_attr_event_type : ℕ
demo_u_attr_event_type = 1

abbrev pub demo_u_attr_timestamp : ℕ
demo_u_attr_timestamp = 2

-- Commands and attributes from the kernel to users.
abbrev pub demo_k_cmd_event_notify : ℕ
demo_k_cmd_event_notify = 1

abbrev pub demo_k_attr_pad : ℕ
demo_k_attr_pad = 1

abbrev pub demo_k_attr_event_id : ℕ
demo_k_attr_event_id = 2

abbrev pub demo_k_attr_event_type : ℕ
demo_k_attr_event_type = 3

abbrev pub demo_k_attr_timestamp : ℕ
demo_k_attr_timestamp = 4

abbrev pub demo_k_attr_component : ℕ
demo_k_attr_component = 5
