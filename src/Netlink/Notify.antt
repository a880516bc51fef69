-- ===== src/Netlink/Notify.antt =====
-- genl_demo.c: what `demo_event_report` sends, and when the notification is lost.
use snippet.Base.{
  ℕ, ◌+◌, ◌%◌, ◌^◌, ◌<◌, ◌≤◌, ◌≡◌, refl, ap, ◌∙◌, inl, inr, Option, none, some, List, [], ◌∷◌, ◌++◌,
  length, take-append, length-append, lt_or_le, case_option, pos, arith,
}
use snippet.Posix.{NoZero}
use snippet.Netlink.Messages.{
  Messages, Appends, Laws, written, demo_max_str_len, demo_u_attr_event_type, demo_u_attr_timestamp,
  demo_k_cmd_event_notify, demo_k_attr_pad, demo_k_attr_event_id, demo_k_attr_event_type,
  demo_k_attr_timestamp, demo_k_attr_component,
}
use snippet.Netlink.GenlDemo.{
  strnlen, GenlInfo, GenlDemo, Kernel, demo_nla_put_str, put_event, notify_size, fill_and_send,
  demo_event_notify, begin_report, notify, demo_event_report, port_name,
}
use snippet.Netlink.PortName.{
  strnlen-terminated, port_text, port_text-NoZero, length-port_text, port_name_lem,
}

-- A message with the four attributes of a notification.
pub record IsNotification (m : Messages) (s : m.Msg) (id type time : ℕ) (component : List ℕ)
    : Type 0 where
  pub event_id : m.Attr
  pub has_event_id : m.attr s demo_k_attr_event_id ≡ some event_id
  pub event_id_value : m.nla_get_u32 event_id ≡ id % 2 ^ 32
  pub event_type : m.Attr
  pub has_event_type : m.attr s demo_k_attr_event_type ≡ some event_type
  pub event_type_value : m.nla_get_u32 event_type ≡ type % 2 ^ 32
  pub timestamp : m.Attr
  pub has_timestamp : m.attr s demo_k_attr_timestamp ≡ some timestamp
  pub timestamp_value : m.nla_get_u64 timestamp ≡ time % 2 ^ 64
  pub component_attr : m.Attr
  pub has_component : m.attr s demo_k_attr_component ≡ some component_attr
  pub component_value : m.nla_data component_attr ≡ component ++ 0 ∷ []

-- The room that the attributes take.
unfoldable pub attributes_size : (m : Messages) → List ℕ → ℕ
attributes_size m component =
    m.nla_total_size 4
    + m.nla_total_size 4
    + m.nla_total_size_64bit 8
    + m.nla_total_size (length component + 1)

module _ (m : Messages) (laws : Laws m) (component : List ℕ) (plain : NoZero component)
    (short : length component ≤ demo_max_str_len) where
  put_component :
      (s : m.Msg)
      → demo_nla_put_str m s demo_k_attr_component
          (component ++ 0 ∷ [])
          (strnlen (component ++ 0 ∷ []) demo_max_str_len)
        ≡ written m demo_k_attr_component (component ++ 0 ∷ []) s
  unfolding demo_nla_put_str
  put_component s =
      let size : length (component ++ 0 ∷ []) ≡ length component + 1 = length-append component _ in
      rw
        (
          strnlen-terminated component demo_max_str_len plain short,
          take-append component (0 ∷ []) (length component) refl,
          size,
        )
        refl

  put_event-fits :
      (id type time : ℕ) (s : m.Msg)
      → attributes_size m component ≤ m.room s
      → (s' : m.Msg) × (put_event m id type time (component ++ 0 ∷ []) s ≡ some s')
        × IsNotification m s' id type time component
  unfolding put_event attributes_size
  put_event-fits id type time s enough =
      let text = component ++ 0 ∷ [] in
      let size : length text ≡ length component + 1 = length-append component _ in
      let total : m.nla_total_size (length text) ≡ m.nla_total_size (length component + 1) =
        ap m.nla_total_size size in
      let a = (laws.u32 demo_k_attr_event_id id).fits s (omega arith) in
      let b = (laws.u32 demo_k_attr_event_type type).fits a.0 (omega (arith, a.2.less_room)) in
      let c =
        (laws.u64_64bit demo_k_attr_timestamp time demo_k_attr_pad).fits b.0
          (omega (arith, a.2.less_room, b.2.less_room)) in
      let d =
        (laws.bytes demo_k_attr_component text).fits c.0
          (omega (arith, a.2.less_room, b.2.less_room, c.2.less_room)) in
      (
        d.0,
        rw (a.1, b.1, c.1, put_component c.0) d.1,
        record {
          event_id = a.2.value;
          has_event_id =
              d.2.others 2 (omega arith) (omega arith)
              ∙ c.2.others 2 (omega arith) (omega arith)
              ∙ b.2.others 2 (omega arith) (omega arith)
              ∙ a.2.stands;
          event_id_value = a.2.reads;
          event_type = b.2.value;
          has_event_type =
              d.2.others 3 (omega arith) (omega arith)
              ∙ c.2.others 3 (omega arith) (omega arith)
              ∙ b.2.stands;
          event_type_value = b.2.reads;
          timestamp = c.2.value;
          has_timestamp = d.2.others 4 (omega arith) (omega arith) ∙ c.2.stands;
          timestamp_value = c.2.reads;
          component_attr = d.2.value;
          has_component = d.2.stands;
          component_value = d.2.reads;
        },
      )

  -- A call that appends, and more that find too little room behind it.
  full-then :
      {put next : m.Msg → Option m.Msg} {size type padding : ℕ} {Reads : m.Attr → Type 0} (rest : ℕ)
      → Appends m put size type padding Reads
      → ((s : m.Msg) → m.room s < rest → next s ≡ none)
      → (s : m.Msg) → m.room s < size + rest
      → case_option (put s) none next ≡ none
  full-then {size = size} rest call more s little = elim (lt_or_le (m.room s) size) [
    | inl none_fits ↦ rw (call.full s none_fits) refl
    | inr one_fits ↦
        let (s', done, appended) = call.fits s one_fits in
        rw done (more s' (omega (arith, appended.less_room)))
  ]

  put_event-full :
      (id type time : ℕ) (s : m.Msg)
      → m.room s < attributes_size m component
      → put_event m id type time (component ++ 0 ∷ []) s ≡ none
  unfolding put_event attributes_size
  put_event-full id type time s little =
      let text = component ++ 0 ∷ [] in
      let size : m.nla_total_size (length text) ≡ m.nla_total_size (length component + 1) =
        ap m.nla_total_size (length-append component _) in
      let last = λ (s₃ : m.Msg) (l : m.room s₃ < m.nla_total_size (length text)).
        put_component s₃ ∙ (laws.bytes demo_k_attr_component text).full s₃ l in
      full-then (m.nla_total_size 4 + (m.nla_total_size_64bit 8 + m.nla_total_size (length text)))
        (laws.u32 demo_k_attr_event_id id)
        (full-then (m.nla_total_size_64bit 8 + m.nla_total_size (length text))
          (laws.u32 demo_k_attr_event_type type)
          (full-then (m.nla_total_size (length text))
            (laws.u64_64bit demo_k_attr_timestamp time demo_k_attr_pad) last))
        s (omega arith)

-- The state of the module once it has taken a number for an event.
abbrev pub counted : {m : Messages} → GenlDemo m → GenlDemo m
counted g = record g { g_event_id = (g.g_event_id + 1) % 2 ^ 32 }

abbrev pub one_more : {m : Messages} → GenlDemo m → GenlDemo m
one_more g = record g { allocated = g.allocated + 1 }

module _ (m : Messages) (laws : Laws m) (g : GenlDemo m) (id type time portid : ℕ)
    (skb : m.Msg) where
  pub fill_and_send-fits :
      m.headers_size + attributes_size m (port_text portid) ≤ m.room skb
      → (s : m.Msg) × (fill_and_send m id type time (port_name portid) skb g
          ≡ record g { sent = s ∷ g.sent })
        × IsNotification m s id type time (port_text portid)
  unfolding fill_and_send
  fill_and_send-fits enough =
      let (begun, put, less) = laws.header_fits skb demo_k_cmd_event_notify (omega arith) in
      let (s, filled, right) =
        put_event-fits m laws (port_text portid) (port_text-NoZero _) (length-port_text _) id type
          time begun (omega arith) in
      (s, rw (port_name_lem portid, put, filled) refl, right)

  pub fill_and_send-full :
      m.room skb < m.headers_size + attributes_size m (port_text portid)
      → fill_and_send m id type time (port_name portid) skb g ≡ g
  unfolding fill_and_send
  fill_and_send-full little =
      rw (port_name_lem portid) (elim (lt_or_le (m.room skb) m.headers_size) [
        | inl l ↦ rw (laws.header_full skb demo_k_cmd_event_notify l) refl
        | inr fits ↦
            let (begun, put, less) = laws.header_fits skb demo_k_cmd_event_notify fits in
            rw
              (
                put,
                put_event-full m laws (port_text portid) (port_text-NoZero _) (length-port_text _)
                    id type time begun (omega arith),
              )
              refl
      ])

module _ (m : Messages) (laws : Laws m) (kernel : Kernel m) (g : GenlDemo m) (info : GenlInfo m)
    (event_type timestamp : m.Attr) (typed : info.attrs demo_u_attr_event_type ≡ some event_type)
    (timed : info.attrs demo_u_attr_timestamp ≡ some timestamp) (skb : m.Msg)
    (given : kernel.genlmsg_new (counted g) (notify_size m (port_name info.snd_portid))
      ≡ some skb) where
  begins : demo_event_report m kernel info g ≡ (
    fill_and_send m g.g_event_id
        (m.nla_get_u32 event_type)
        (m.nla_get_u64 timestamp)
        (port_name info.snd_portid)
        skb
        (one_more (counted g)),
    pos 0,
  )
  unfolding demo_event_report begin_report notify demo_event_notify
  begins = rw (typed, timed, given) refl

  -- When a request has both attributes and the socket buffer has room for the headers and the four
  -- attributes, its handler, run alone, sends one notification, with the next number, the
  -- request's type and time and the name of the sender's port; the counter goes up by one, and 0
  -- is returned.
  pub demo_event_report-notifies :
      m.headers_size + attributes_size m (port_text info.snd_portid) ≤ m.room skb
      → (s : m.Msg) × (demo_event_report m kernel info g
          ≡ (record (one_more (counted g)) { sent = s ∷ g.sent }, pos 0))
        × IsNotification m s g.g_event_id
            (m.nla_get_u32 event_type)
            (m.nla_get_u64 timestamp)
            (port_text info.snd_portid)
  demo_event_report-notifies enough =
      let (s, sends, right) =
        fill_and_send-fits m laws (one_more (counted g)) g.g_event_id (m.nla_get_u32 event_type)
          (m.nla_get_u64 timestamp) info.snd_portid skb enough in
      (s, begins ∙ ap (λ (r : GenlDemo m). (r, pos 0)) sends, right)

  -- When the buffer has less room, nothing is sent and the buffer is not freed; a number is used
  -- up, and 0 is returned all the same.
  pub demo_event_report_lost :
      m.room skb < m.headers_size + attributes_size m (port_text info.snd_portid)
      → demo_event_report m kernel info g ≡ (one_more (counted g), pos 0)
  demo_event_report_lost little =
      begins
      ∙ ap (λ (r : GenlDemo m). (r, pos 0))
          (fill_and_send-full m laws (one_more (counted g)) g.g_event_id _ _ info.snd_portid skb
            little)

  -- A handler that runs alone, for a request with both attributes, and that gets a buffer with room
  -- for the headers and the size that it computes, and no more: nothing is sent, the buffer is not
  -- freed, a number is used up, and 0 is returned. The size counts one of the two 32-bit
  -- attributes.
  pub demo_event_report_exact :
      m.room skb ≡ m.headers_size + notify_size m (port_name info.snd_portid)
      → demo_event_report m kernel info g ≡ (one_more (counted g), pos 0)
  unfolding notify_size attributes_size
  demo_event_report_exact exact =
      let name = port_text info.snd_portid in
      let len : strnlen (port_name info.snd_portid) demo_max_str_len ≡ length name =
        rw (port_name_lem info.snd_portid)
          (strnlen-terminated name demo_max_str_len (port_text-NoZero _) (length-port_text _)) in
      let size : m.nla_total_size (strnlen (port_name info.snd_portid) demo_max_str_len + 1)
          ≡ m.nla_total_size (length name + 1) =
        ap (λ (n : ℕ). m.nla_total_size (n + 1)) len in
      demo_event_report_lost (omega (arith, laws.padded, laws.not_empty))
