-- ===== src/Netlink/Listener.antt =====
-- kernel-module/netlink-generic/listener.c: a program that waits for events. Messages to the terminal
-- are left out. A pointer to a string is the string, or none for a null pointer.
use snippet.Base.{
  ℕ, zero, suc, ◌+◌, Bool, true, false, Option, none, some, List, [], ◌∷◌, leb, if◌then◌else◌,
  case_option, ℤ, pos, negsuc, neg, is_negative,
}
use snippet.Config.{atoi, to_int}
use snippet.Netlink.Messages.{
  Messages, demo_k_attr_event_id, demo_k_attr_event_type, demo_k_attr_timestamp,
  demo_k_attr_component,
}
use snippet.Netlink.Process.{
  Ended, Action, continue, ◌>>=◌, ◌>>◌, pure, exit, modify, ask, or_exit, exit_if_negative,
  dereference, Act, Log, Libnl, Received, get_time_us,
}

-- `g_event_info`
pub record EventInfo : Type 0 where
  pub event_id : ℕ
  pub event_type : ℕ
  pub event_time : ℕ
  pub receive_time : ℕ
  pub component : Option (List ℕ)

abbrev pub no_event : EventInfo
no_event = record {
  event_id = 0;
  event_type = 0;
  event_time = 0;
  receive_time = 0;
  component = none;
}

-- The program's variables, and what it has done.
pub record Listener (m : Messages) : Type 0 where
  pub log : Log m
  pub g_nl_sock : Option ℕ
  pub info : EventInfo

abbrev does : {m : Messages} → Act m.Msg → Action (Listener m) (Unit {0})
does act = modify (λ s. record s { log = act ∷ s.log })

-- `free` of the component, if there is one. The pointer stays as it was.
unfoldable pub free_component : {m : Messages} → Listener m → Listener m
free_component s =
    case_option s.info.component s (λ component. record s { log = Act.string_freed ∷ s.log })

unfoldable pub clear_event_info : {m : Messages} → Listener m → Listener m
unfolding free_component
clear_event_info s = record (free_component s) { info = no_event }

unfoldable pub put_genl_multicast_socket : {m : Messages} → Option ℕ → Listener m → Listener m
put_genl_multicast_socket nl_sock s =
    case_option nl_sock s
      λ sock. record s { log = Act.socket_freed sock ∷ Act.socket_closed sock ∷ s.log }

unfoldable pub signal_handler : {m : Messages} → Action (Listener m) (Unit {0})
unfolding clear_event_info put_genl_multicast_socket
signal_handler = do
  modify clear_event_info
  modify (λ s. put_genl_multicast_socket s.g_nl_sock s)
  exit (neg 1)

-- `count <= num_events || num_events == -1`
abbrev pub goes_on : ℕ → ℤ → Bool
goes_on count (pos num_events) = leb count num_events
goes_on count (negsuc zero) = true
goes_on count (negsuc (suc n)) = false

-- `args` are the arguments behind the program's name.
unfoldable pub num_events_of : List (List ℕ) → Option ℤ
num_events_of [] = some (neg 1)
num_events_of (num_events ∷ []) = some (to_int (atoi num_events))
num_events_of (num_events ∷ second ∷ rest) = none

module _ (m : Messages) (os : Libnl m) where
  unfoldable pub get_genl_multicast_socket : Action (Listener m) ℕ
  get_genl_multicast_socket = do
    made ← ask (λ s. os.nl_socket_alloc s.log)
    sock ← or_exit (neg 1) made
    does (Act.socket_allocated sock)
    ret ← ask (λ s. os.nl_connect s.log sock)
    ret ← exit_if_negative ret
    does (Act.socket_connected sock)
    ret ← ask (λ s. os.genl_ctrl_resolve_grp s.log sock)
    mcgrp_id ← exit_if_negative ret
    ret ← ask (λ s. os.nl_socket_add_membership s.log sock mcgrp_id)
    ret ← exit_if_negative ret
    does (Act.joined sock mcgrp_id)
    does (Act.auto_ack_disabled sock)
    pure sock

  -- The end of the callback, when the string has been copied.
  unfoldable pub take_component : Option (List ℕ) → Action (Listener m) ℤ
  unfolding get_time_us
  take_component none = do
    modify (λ s. record s { info = record s.info { component = none } })
    pure (neg 12)
  take_component (some component) = do
    does Act.string_copied
    modify (λ s. record s { info = record s.info { component = some component } })
    now ← get_time_us os (λ s. s.log)
    modify (λ s. record s { info = record s.info { receive_time = now } })
    pure (pos 0)

  -- The fields of a message, in the order in which they are read.
  unfoldable pub take_fields : m.Msg → Action (Listener m) ℤ
  unfolding take_component
  take_fields msg = do
    id ← dereference (m.attr msg demo_k_attr_event_id)
    modify (λ s. record s { info = record s.info { event_id = m.nla_get_u32 id } })
    type ← dereference (m.attr msg demo_k_attr_event_type)
    modify (λ s. record s { info = record s.info { event_type = m.nla_get_u32 type } })
    time ← dereference (m.attr msg demo_k_attr_timestamp)
    modify (λ s. record s { info = record s.info { event_time = m.nla_get_u64 time } })
    component ← dereference (m.attr msg demo_k_attr_component)
    copy ← ask (λ s. os.nla_strdup s.log component)
    take_component copy

  -- The argument is null wherever the callback is set up.
  unfoldable pub event_callback : m.Msg → Option ℕ → Action (Listener m) ℤ
  unfolding take_fields
  event_callback msg (some arg) = exit (neg 1)
  event_callback msg none = do
    ret ← ask (λ s. os.genlmsg_parse s.log msg)
    λ s. if is_negative ret then pure ret s else take_fields msg s

  -- `nl_recvmsgs` with the callback: it stops at a message for which that fails.
  unfoldable pub run_callbacks : List m.Msg → Action (Listener m) ℤ
  unfolding event_callback
  run_callbacks [] s = pure (pos 0) s
  run_callbacks (msg ∷ rest) s =
      continue
        (λ ret s'.
          let more = run_callbacks rest s' in if is_negative ret then pure ret s' else more)
        (event_callback msg none s)

  unfoldable pub hand_over : Received m.Msg → Action (Listener m) ℤ
  unfolding run_callbacks
  hand_over (Received.failed error) = pure (negsuc error)
  hand_over (Received.messages msgs) = run_callbacks msgs

  -- The body of the loop.
  unfoldable pub receive_event : Action (Listener m) (Unit {0})
  unfolding hand_over clear_event_info
  receive_event = do
    sock ← ask (λ s. s.g_nl_sock)
    sock ← dereference sock
    does (Act.received sock)
    answer ← ask (λ s. os.nl_recvmsgs s.log)
    ret ← hand_over answer
    ret ← exit_if_negative ret
    modify clear_event_info

  -- The loop, for `rounds` rounds at most; `count` is the number of rounds so far.
  unfoldable pub monitor_loop : (rounds count : ℕ) (num_events : ℤ) → Action (Listener m) (Unit {0})
  unfolding receive_event
  monitor_loop zero count num_events s = (Ended.running, s)
  monitor_loop (suc rounds) count num_events s =
      let again = continue (λ done. monitor_loop rounds (count + 1) num_events) (receive_event s) in
      if goes_on (count + 1) num_events then again else pure tt s

  unfoldable pub monitor_events : (rounds : ℕ) (num_events : ℤ) → Action (Listener m) (Unit {0})
  unfolding monitor_loop
  monitor_events rounds num_events = do
    made ← ask (λ s. os.nl_cb_alloc s.log)
    made ← or_exit (neg 1) (if made then some tt else none)
    does Act.callbacks_allocated
    monitor_loop rounds 0 num_events
    does Act.callbacks_released

  unfoldable pub listener_main : (rounds : ℕ) → List (List ℕ) → Action (Listener m) ℤ
  unfolding num_events_of get_genl_multicast_socket monitor_events put_genl_multicast_socket
  listener_main rounds args = do
    num_events ← or_exit (neg 22) (num_events_of args)
    sock ← get_genl_multicast_socket
    modify (λ s. record s { g_nl_sock = some sock })
    monitor_events rounds num_events
    modify (λ s. put_genl_multicast_socket s.g_nl_sock s)
    pure (pos 0)
