-- ===== src/Netlink/GenlDemo.antt =====
-- kernel-module/netlink-generic/genl_demo.c: the family's request handler, its notifications, the
-- module's init and exit. Messages to the log are left out.
use snippet.Base.{
  ℕ, zero, suc, ◌+◌, ◌/◌, ◌%◌, ◌^◌, Bool, true, false, Option, none, some, List, [], ◌∷◌, ◌++◌,
  take, ◌==◌, if◌then◌else◌, case_option, ℤ, pos, neg, is_negative, is_zero,
}
use snippet.Posix.{codes}
use snippet.Netlink.Messages.{
  Messages, demo_max_str_len, demo_u_attr_event_type, demo_u_attr_timestamp,
  demo_k_cmd_event_notify, demo_k_attr_pad, demo_k_attr_event_id, demo_k_attr_event_type,
  demo_k_attr_timestamp, demo_k_attr_component,
}

-- The decimal digits of a number before the text `out`, at most `room` of them.
unfoldable pub digits : ℕ → ℕ → List ℕ → List ℕ
digits zero n out = out
digits (suc room) n out =
    let longer = (48 + n % 10) ∷ out in
    let more = digits room (n / 10) longer in if n / 10 == 0 then longer else more

-- `%u`: a 32-bit number has ten digits at most.
unfoldable pub decimal : ℕ → List ℕ
unfolding digits
decimal n = digits 10 n []

-- `snprintf(component, sizeof(component), "port-%u", portid)`
unfoldable pub port_name : ℕ → List ℕ
unfolding decimal
port_name portid = take demo_max_str_len (codes "port-" ++ decimal portid) ++ 0 ∷ []

unfoldable pub strnlen : List ℕ → ℕ → ℕ
strnlen s zero = 0
strnlen [] (suc n) = 0
strnlen (c ∷ s) (suc n) = let rest = strnlen s n in if c == 0 then 0 else suc rest

-- `struct genl_info`: the sender's port and the attributes of the request.
pub record GenlInfo (m : Messages) : Type 0 where
  pub snd_portid : ℕ
  pub attrs : (type : ℕ) → Option m.Attr

-- The local variables of a handler that has taken a number for its event.
pub record Event : Type 0 where
  pub event_id : ℕ
  pub event_type : ℕ
  pub timestamp : ℕ
  pub snd_portid : ℕ

-- The module's state: the family and the counter of events; how many socket buffers it got from
-- `genlmsg_new`, and those that it handed to `genlmsg_multicast`, which frees them.
pub record GenlDemo (m : Messages) : Type 0 where
  pub registered : Bool
  pub g_event_id : ℕ
  pub allocated : ℕ
  pub sent : List m.Msg

-- The kernel's answers.
pub record Kernel (m : Messages) : Type 0 where
  pub genl_register_family : ℤ
  pub genl_unregister_family : ℤ
  pub genlmsg_new : GenlDemo m → (payload : ℕ) → Option m.Msg

module _ (m : Messages) where
  unfoldable pub demo_nla_put_str : m.Msg → ℕ → List ℕ → ℕ → Option m.Msg
  demo_nla_put_str skb attrtype str len =
      case_option (m.nla_reserve skb attrtype (len + 1)) none
        λ fill. some (fill (take len str ++ 0 ∷ []))

  -- The attributes of a notification, up to the first that finds no room.
  unfoldable pub put_event : ℕ → ℕ → ℕ → List ℕ → m.Msg → Option m.Msg
  unfolding demo_nla_put_str strnlen
  put_event event_id event_type timestamp component skb =
      case_option (m.nla_put_u32 skb demo_k_attr_event_id event_id) none λ skb₁.
        case_option (m.nla_put_u32 skb₁ demo_k_attr_event_type event_type) none λ skb₂.
          case_option (m.nla_put_u64_64bit skb₂ demo_k_attr_timestamp timestamp demo_k_attr_pad)
            none
            λ skb₃.
              demo_nla_put_str skb₃ demo_k_attr_component component
                (strnlen component demo_max_str_len)

  -- `header_size + attrs_size`
  unfoldable pub notify_size : List ℕ → ℕ
  unfolding strnlen
  notify_size component =
      m.nla_total_size 4
      + m.nla_total_size 8
      + m.nla_total_size (strnlen component demo_max_str_len + 1)

  -- A buffer whose header or attributes find no room is neither sent nor freed.
  unfoldable pub fill_and_send : ℕ → ℕ → ℕ → List ℕ → m.Msg → GenlDemo m → GenlDemo m
  unfolding put_event
  fill_and_send event_id event_type timestamp component skb g =
      case_option (m.genlmsg_put skb demo_k_cmd_event_notify) g λ begun.
        case_option (put_event event_id event_type timestamp component begun) g
          λ filled. record g { sent = filled ∷ g.sent }

  -- A handler up to `atomic_fetch_inc`; it goes on if both attributes are there.
  unfoldable pub begin_report : GenlInfo m → GenlDemo m → Option Event × GenlDemo m
  begin_report info g =
      case_option (info.attrs demo_u_attr_event_type) (none, g)
        λ event_type.
          case_option (info.attrs demo_u_attr_timestamp) (none, g)
            λ timestamp. (
              some (record {
                event_id = g.g_event_id;
                event_type = m.nla_get_u32 event_type;
                timestamp = m.nla_get_u64 timestamp;
                snd_portid = info.snd_portid;
              }),
              record g { g_event_id = (g.g_event_id + 1) % 2 ^ 32 },
            )

  module _ (kernel : Kernel m) where
    unfoldable pub demo_event_notify : ℕ → ℕ → ℕ → List ℕ → GenlDemo m → GenlDemo m
    unfolding fill_and_send notify_size
    demo_event_notify event_id event_type timestamp component g =
        case_option (kernel.genlmsg_new g (notify_size component)) g λ skb.
          fill_and_send event_id event_type timestamp component skb
            (record g { allocated = g.allocated + 1 })

    -- The last call of a handler.
    unfoldable pub notify : Event → GenlDemo m → GenlDemo m
    unfolding demo_event_notify port_name
    notify e g = demo_event_notify e.event_id e.event_type e.timestamp (port_name e.snd_portid) g

    -- A handler that runs alone.
    unfoldable pub demo_event_report : GenlInfo m → GenlDemo m → GenlDemo m × ℤ
    unfolding begin_report notify
    demo_event_report info g =
        let begun = begin_report info g in
        case_option begun.0 (begun.1, neg 22) λ e. (notify e begun.1, pos 0)

    unfoldable pub demo_genl_init : GenlDemo m → GenlDemo m × ℤ
    demo_genl_init g =
        if is_negative kernel.genl_register_family
        then (g, kernel.genl_register_family)
        else (record g { registered = true; g_event_id = 1 }, pos 0)

    -- A failure is only written to the log.
    unfoldable pub demo_genl_exit : GenlDemo m → GenlDemo m
    demo_genl_exit g =
        if is_zero kernel.genl_unregister_family then record g { registered = false } else g
