-- ===== src/Netlink/Delivery.antt =====
-- An event from the command line of reporter.c through genl_demo.c to the callback of listener.c.
use snippet.Base.{
  ℕ, ◌+◌, ◌≤◌, ◌%◌, ◌^◌, ◌≡◌, refl, ap, subst, ◌∙◌, false, none, some, List, [], ◌∷◌, ◌++◌, pos,
  is_negative, arith,
}
use snippet.Config.{atoi}
use snippet.Posix.{NoZero}
use snippet.Netlink.Messages.{Messages, Laws, demo_u_attr_event_type, demo_u_attr_timestamp}
use snippet.Netlink.GenlDemo.{GenlInfo, GenlDemo, Kernel, notify_size, port_name, demo_event_report}
use snippet.Netlink.PortName.{port_text, port_text-NoZero}
use snippet.Netlink.Process.{Ended, Act, Log, Libnl, microseconds, sent_messages, get_time_us}
use snippet.Netlink.Reporter.{Reporter, event_message, reporter_main}
use snippet.Netlink.Reporting.{IsReport, Reports, fresh_reporter, reporter_main-Reports}
use snippet.Netlink.Listener.{Listener, EventInfo, take_component, take_fields, event_callback}
use snippet.Netlink.Notify.{
  IsNotification, attributes_size, counted, one_more, demo_event_report-notifies,
}

-- The room that the headers and attributes of a report take.
abbrev pub request_size : Messages → ℕ
request_size m = m.headers_size + m.nla_total_size 4 + m.nla_total_size 8

module _ (m : Messages) (laws : Laws m) where
  -- A message with the two attributes of a report.
  record IsRequest (s : m.Msg) (type time : ℕ) : Type 0 where
    event_type : m.Attr
    has_event_type : m.attr s demo_u_attr_event_type ≡ some event_type
    event_type_value : m.nla_get_u32 event_type ≡ type % 2 ^ 32
    timestamp : m.Attr
    has_timestamp : m.attr s demo_u_attr_timestamp ≡ some timestamp
    timestamp_value : m.nla_get_u64 timestamp ≡ time % 2 ^ 64

  event_message-IsRequest :
      (type time : ℕ) (empty : m.Msg)
      → request_size m ≤ m.room empty
      → IsRequest (event_message m type time empty) type time
  unfolding event_message
  event_message-IsRequest type time empty enough =
      let (begun, put, less) = laws.header_fits empty 1 (omega arith) in
      let (typed, put', first) = (laws.u32 1 type).fits begun (omega arith) in
      let (timed, put'', second) = (laws.u64 2 time).fits typed (omega (arith, first.less_room)) in
      rw (put, put', put'')
        (record {
          event_type = first.value;
          has_event_type = second.others 1 (omega arith) (omega arith) ∙ first.stands;
          event_type_value = first.reads;
          timestamp = second.value;
          has_timestamp = second.stands;
          timestamp_value = second.reads;
        })

  module _ (os : Libnl m) (s : Listener m) (note : m.Msg) {id type time : ℕ} (name : List ℕ)
      (right : IsNotification m note id type time name) where
    -- The listener's variables when the callback has read a notification.
    taken : ℕ → ℕ → ℕ → List ℕ → EventInfo
    taken event_type event_time receive_time text = record {
      event_id = id % 2 ^ 32;
      event_type = event_type;
      event_time = event_time;
      receive_time = receive_time;
      component = some text;
    }

    event_callback-taken :
        (spec : ℕ × ℕ) (event_type event_time : ℕ)
        → type % 2 ^ 32 ≡ event_type
        → time % 2 ^ 64 ≡ event_time
        → is_negative (os.genlmsg_parse s.log note) ≡ false
        → ((log : Log m) (a : m.Attr)
            → m.nla_data a ≡ name ++ 0 ∷ []
            → os.nla_strdup log a ≡ some name)
        → ((log : Log m) → os.clock_gettime log ≡ some spec)
        → event_callback m os note none s ≡ (
          Ended.returned (pos 0),
          record s {
            log = Act.string_copied ∷ s.log;
            info = taken event_type event_time (microseconds spec) name;
          },
        )
    unfolding event_callback take_fields take_component get_time_us taken
    event_callback-taken spec event_type event_time typed timed parsed copies clock =
        rw
          (
            parsed,
            right.has_event_id,
            right.has_event_type,
            right.has_timestamp,
            right.has_component,
            copies s.log right.component_attr right.component_value,
            clock (Act.string_copied ∷ s.log),
            right.event_id_value,
            right.event_type_value ∙ typed,
            right.timestamp_value ∙ timed,
          )
          refl

wrapped_again : (w value n : ℕ) → value ≡ n % 2 ^ w → value % 2 ^ w ≡ n % 2 ^ w
wrapped_again w value n e = rw e (grind arith)

microseconds_small : (spec : ℕ × ℕ) → microseconds spec % 2 ^ 64 ≡ microseconds spec
microseconds_small (seconds, nanoseconds) = omega arith

module _ (m : Messages) (reporter_os : Libnl m) (text : List ℕ) (ctx : Reporter m)
    (kernel : Kernel m) (g : GenlDemo m) (portid : ℕ) (os : Libnl m) (s : Listener m)
    (now : ℕ × ℕ) where
  -- The reporter sent one message; the kernel's handler takes it, counts up and sends one
  -- notification; and the listener's callback for that returns 0 and has the event's number, the
  -- type given on the command line, the time at which the reporter read the clock, its own time,
  -- and the name of the reporter's port.
  abbrev pub Delivered : Type 0
  Delivered =
      (request note : m.Msg) × (spec : ℕ × ℕ) × (timed : Log m) × (sent_messages ctx.log
        ≡ request ∷ [])
      × (reporter_os.clock_gettime timed ≡ some spec)
      × (demo_event_report m kernel (record { snd_portid = portid; attrs = m.attr request }) g
          ≡ (record (one_more (counted g)) { sent = note ∷ g.sent }, pos 0))
      × (event_callback m os note none s ≡ (
        Ended.returned (pos 0),
        record s {
          log = Act.string_copied ∷ s.log;
          info = record {
            event_id = g.g_event_id % 2 ^ 32;
            event_type = atoi text % 2 ^ 32;
            event_time = microseconds spec;
            receive_time = microseconds now;
            component = some (port_text portid);
          };
        },
      ))

-- A run of the reporter with one argument that returns 0; the kernel, which gives a buffer with
-- room; a listener that parses the notification, finds memory and can read the clock.
module _ (m : Messages) (laws : Laws m) (reporter_os : Libnl m) (text : List ℕ) (ctx : Reporter m)
    (request_fits : (log : Log m) (empty : m.Msg)
      → reporter_os.nlmsg_alloc log ≡ some empty
      → request_size m ≤ m.room empty)
    (kernel : Kernel m) (g : GenlDemo m) (portid : ℕ) (skb : m.Msg)
    (given : kernel.genlmsg_new (counted g) (notify_size m (port_name portid)) ≡ some skb)
    (notification_fits : m.headers_size + attributes_size m (port_text portid) ≤ m.room skb)
    (os : Libnl m) (s : Listener m) (now : ℕ × ℕ)
    (parses : (note : m.Msg) → is_negative (os.genlmsg_parse s.log note) ≡ false)
    (copies : (log : Log m) (a : m.Attr) (name : List ℕ)
      → NoZero name
      → m.nla_data a ≡ name ++ 0 ∷ []
      → os.nla_strdup log a ≡ some name)
    (clock : (log : Log m) → os.clock_gettime log ≡ some now) where
  report-Delivered :
      IsReport m reporter_os text ctx.log
      → Delivered m reporter_os text ctx kernel g portid os s now
  unfolding sent_messages taken
  report-Delivered report =
      let time = microseconds report.spec in
      let request = event_message m (atoi text) time report.empty in
      let asked =
        event_message-IsRequest m laws (atoi text) time report.empty
          (request_fits report.timed report.empty report.nlmsg_alloc_said) in
      let info : GenlInfo m = record { snd_portid = portid; attrs = m.attr request } in
      let (note, sent, right) =
        demo_event_report-notifies m laws kernel g info asked.event_type asked.timestamp
          asked.has_event_type asked.has_timestamp skb given notification_fits in
      let type = wrapped_again 32 _ _ asked.event_type_value in
      let when = wrapped_again 64 _ _ asked.timestamp_value ∙ microseconds_small report.spec in
      let seen =
        event_callback-taken m laws os s note (port_text portid) right now (atoi text % 2 ^ 32) time
          type when (parses note)
          (λ log a. copies log a (port_text portid) (port_text-NoZero portid)) clock in
      (
        request,
        note,
        report.spec,
        report.timed,
        ap sent_messages report.calls,
        report.clock_said,
        sent,
        seen,
      )

  -- A run of the reporter with one argument that returns 0 has its event delivered, where the request
  -- fits in its buffer, the kernel's handler runs alone and its allocation gives a buffer with room
  -- for the notification, and the listener parses it, can copy its string and can read the clock: the
  -- request's type and time, the name of the reporter's port and the module's number are what the
  -- listener's variables hold.
  pub report_reaches_listener :
      reporter_main m reporter_os (text ∷ []) (fresh_reporter m) ≡ (Ended.returned (pos 0), ctx)
      → Delivered m reporter_os text ctx kernel g portid os s now
  report_reaches_listener reported =
      report-Delivered
        (subst (Reports m reporter_os text) reported (reporter_main-Reports m reporter_os text)).1
