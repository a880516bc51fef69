-- ===== src/Netlink/Tests.antt =====
-- Runs of the generic netlink programs at concrete inputs.
use snippet.Base.{
  ℕ, ◌+◌, ◌≡◌, refl, ap, true, false, some, List, [], ◌∷◌, ◌++◌, pos, neg, arith, ◌==◌,
  if◌then◌else◌, ◌≤◌,
}
use snippet.Posix.{NoZero, codes}
use snippet.Config.{read_digits, read_sign, skip_space, atoi}
use snippet.Netlink.GenlDemo.{
  GenlInfo, GenlDemo, Kernel, decimal, port_name, demo_genl_init, demo_event_report, notify_size,
  begin_report, notify,
}
use snippet.Netlink.Packets.{Value, Packet, packets, packets-Laws}
use snippet.Netlink.PortName.{port_text}
use snippet.Netlink.Notify.{
  IsNotification, demo_event_report-notifies, demo_event_report_exact, attributes_size,
}
use snippet.Netlink.Parallel.{Handlers, Turn, pick, turn, run_turns}
use snippet.Netlink.Numbering.{sent_with, under_way_with, AreNumbered, run_turns-AreNumbered}
use snippet.Netlink.Reporter.{Reporter, reporter_main}
use snippet.Netlink.Reporting.{Reports, fresh_reporter, reporter_main-Reports}
use snippet.Netlink.Listener.{Listener, no_event, num_events_of, listener_main}
use snippet.Netlink.Monitor.{copies, frees}
use snippet.Netlink.Closing.{
  Monitors, MonitorsForever, fresh_listener, listener_main-Monitors, listener_main-MonitorsForever,
}
use snippet.Netlink.Delivery.{Delivered, request_size, report_reaches_listener}
use snippet.Netlink.Process.{Ended, Act, Log, Libnl, Received}

name_12 : port_name 12 ≡ codes "port-12" ++ 0 ∷ []
unfolding port_name decimal
name_12 = refl

-- A kernel that gives `slack` bytes more than the size asked for.
abbrev kernel_with : ℕ → Kernel packets
kernel_with slack = record {
  genl_register_family = pos 0;
  genl_unregister_family = pos 0;
  genlmsg_new = λ g size. some (record { room = 20 + size + slack; attrs = [] });
}

abbrev loaded : GenlDemo packets
loaded = record { registered = true; g_event_id = 1; allocated = 0; sent = [] }

abbrev request : Packet
request = record { room = 4000; attrs = (2, Value.u64 5000000) ∷ (1, Value.u32 7) ∷ [] }

abbrev info_12 : GenlInfo packets
info_12 = record { snd_portid = 12; attrs = packets.attr request }

abbrev buffer : ℕ → Packet
buffer slack = record { room = 20 + notify_size packets (port_name 12) + slack; attrs = [] }

loads :
    demo_genl_init packets (kernel_with 0) (record loaded { registered = false; g_event_id = 0 })
    ≡ (loaded, pos 0)
unfolding demo_genl_init
loads = refl

reports_12 : (demo_event_report packets (kernel_with 8) info_12 loaded).0.g_event_id ≡ 2
unfolding demo_event_report port_name decimal
reports_12 = refl

-- `strdup` of an array of bytes.
before_zero : List ℕ → List ℕ
before_zero [] = []
before_zero (c ∷ s) = if c == 0 then [] else c ∷ before_zero s

before_zero-append : (name : List ℕ) → NoZero name → before_zero (name ++ 0 ∷ []) ≡ name
unfolding before_zero
before_zero-append [] plain = refl
before_zero-append (c ∷ name) plain = ground (arith, before_zero-append name plain.1)

abbrev note : Packet
note = record {
  room = 0;
  attrs =
      (5, Value.bytes (codes "port-12" ++ 0 ∷ []))
      ∷ (4, Value.u64 5000000)
      ∷ (3, Value.u32 7)
      ∷ (2, Value.u32 1)
      ∷ [];
}

abbrev libnl : Libnl packets
libnl = record {
  clock_gettime = λ log. some (5, 3000);
  nl_socket_alloc = λ log. some 3;
  nl_connect = λ log sock. pos 0;
  genl_ctrl_resolve = λ log sock. pos 25;
  genl_ctrl_resolve_grp = λ log sock. pos 9;
  nl_socket_add_membership = λ log sock group. pos 0;
  nlmsg_alloc = λ log. some (record { room = 4096; attrs = [] });
  nl_send_auto = λ log msg. pos 40;
  nl_cb_alloc = λ log. true;
  nl_recvmsgs = λ log. Received.messages (note ∷ []);
  genlmsg_parse = λ log msg. pos 0;
  nla_strdup = λ log a. some (before_zero (packets.nla_data a));
}

two : num_events_of (codes "2" ∷ []) ≡ some (pos 2)
unfolding num_events_of atoi read_sign skip_space read_digits
two = refl

endless : num_events_of [] ≡ some (neg 1)
unfolding num_events_of
endless = refl

roomy : 20 + attributes_size packets (port_text 12) ≤ packets.room (buffer 8)
unfolding attributes_size notify_size port_text port_name decimal
roomy = omega arith

demo_event_report-notifies_example :
    (s : Packet) × (demo_event_report packets (kernel_with 8) info_12 loaded
      ≡ (record { registered = true; g_event_id = 2; allocated = 1; sent = s ∷ [] }, pos 0))
    × IsNotification packets s 1 7 5000000 (port_text 12)
demo_event_report-notifies_example =
    demo_event_report-notifies packets packets-Laws (kernel_with 8) loaded info_12 (Value.u32 7)
      (Value.u64 5000000) refl refl (buffer 8) refl roomy

exact_room : packets.room (buffer 0) ≡ 20 + notify_size packets (port_name 12)
unfolding notify_size port_name decimal
exact_room = refl

demo_event_report_exact_example :
    demo_event_report packets (kernel_with 0) info_12 loaded
    ≡ (record { registered = true; g_event_id = 2; allocated = 1; sent = [] }, pos 0)
demo_event_report_exact_example =
    demo_event_report_exact packets packets-Laws (kernel_with 0) loaded info_12 (Value.u32 7)
      (Value.u64 5000000) refl refl (buffer 0) refl exact_room

-- Two handlers that take their numbers before either sends, and send in the other order.
abbrev idle : Handlers packets
idle = record { demo = loaded; under_way = [] }

abbrev crossing : List (Turn packets)
crossing = Turn.arrives info_12 ∷ Turn.arrives info_12 ∷ Turn.ends 1 ∷ Turn.ends 0 ∷ []

crossing_sent :
    sent_with packets 1 (run_turns packets (kernel_with 8) crossing idle).demo.sent
      + sent_with packets 2 (run_turns packets (kernel_with 8) crossing idle).demo.sent
    ≡ 2
unfolding run_turns turn pick begin_report notify port_name decimal sent_with
crossing_sent = refl

none_sent : AreNumbered packets idle
unfolding sent_with under_way_with
none_sent = (tt, λ n. omega arith, λ n le. refl)

run_turns-AreNumbered_example :
    AreNumbered packets (run_turns packets (kernel_with 8) crossing idle)
run_turns-AreNumbered_example =
    run_turns-AreNumbered packets (kernel_with 8) packets-Laws crossing idle (omega arith) none_sent

reporter_main-Reports_example :
    Reports packets libnl
      (codes "7")
      (reporter_main packets libnl (codes "7" ∷ []) (fresh_reporter packets))
reporter_main-Reports_example = reporter_main-Reports packets libnl (codes "7")

listener_main-Monitors_example :
    Monitors 2 (listener_main packets libnl 5 (codes "2" ∷ []) (fresh_listener packets))
listener_main-Monitors_example =
    listener_main-Monitors packets libnl (codes "2" ∷ []) 2 5 two (omega arith)

listener_main-MonitorsForever_example :
    MonitorsForever 5 (listener_main packets libnl 5 [] (fresh_listener packets))
listener_main-MonitorsForever_example = listener_main-MonitorsForever packets libnl [] 5 endless

abbrev holding : Listener packets
holding = record {
  log = Act.string_copied ∷ [];
  g_nl_sock = some 3;
  info = record no_event { component = some (codes "port-12") };
}

holding_balanced : copies holding.log ≡ frees holding.log + 1
unfolding copies frees
holding_balanced = refl

abbrev done : Reporter packets
done = (reporter_main packets libnl (codes "7" ∷ []) (fresh_reporter packets)).1

done_well :
    reporter_main packets libnl (codes "7" ∷ []) (fresh_reporter packets)
    ≡ (Ended.returned (pos 0), done)
unfolding reporter_main
done_well = refl

alloc_roomy :
    (log : Log packets) (empty : Packet)
    → libnl.nlmsg_alloc log ≡ some empty
    → request_size packets ≤ empty.room
alloc_roomy log empty e =
    let same : record { room = 4096; attrs = [] } ≡ empty = cc in rw (← same) (omega arith)

strdup :
    (log : Log packets) (a : Value) (name : List ℕ)
    → NoZero name
    → packets.nla_data a ≡ name ++ 0 ∷ []
    → libnl.nla_strdup log a ≡ some name
strdup log a name plain e = rw e (ap some (before_zero-append name plain))

report_reaches_listener_example :
    Delivered packets libnl
      (codes "7")
      done
      (kernel_with 8)
      loaded
      12
      libnl
      (fresh_listener packets)
      (5, 3000)
report_reaches_listener_example =
    report_reaches_listener packets packets-Laws libnl (codes "7") done alloc_roomy (kernel_with 8)
      loaded 12 (buffer 8) refl roomy libnl (fresh_listener packets) (5, 3000) (λ s. refl) strdup
      (λ log. refl) done_well
