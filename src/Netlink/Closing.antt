-- ===== src/Netlink/Closing.antt =====
-- listener.c: what the program leaves when it ends, and what its signal handler does.
use snippet.Base.{
  ℕ, ◌+◌, ◌<◌, ◌≡◌, sym, ap, subst, ◌∙◌, refl, Option, none, some, List, [], ◌∷◌, ℤ, pos, neg,
  arith,
}
use snippet.Posix.{remove, remove_head}
use snippet.Netlink.Messages.{Messages}
use snippet.Netlink.Process.{
  Ended, Action, continue, Act, Libnl, or_exit-rule, exit_if_negative-rule, ◌>>◌, pure, modify,
  open_sockets, live_sockets,
}
use snippet.Netlink.Listener.{
  no_event, Listener, get_genl_multicast_socket, monitor_loop, monitor_events,
  put_genl_multicast_socket, num_events_of, listener_main, signal_handler, clear_event_info,
  free_component,
}
use snippet.Netlink.Monitor.{copies, frees, waits, kept, overwritten, held, IsBalanced}
use snippet.Netlink.Rounds.{LoopEnds, Forever, monitor_loop-LoopEnds, monitor_loop-Forever}

-- The program before it does anything.
abbrev pub fresh_listener : (m : Messages) → Listener m
fresh_listener m = record { log = []; g_nl_sock = none; info = no_event }

module _ (m : Messages) (os : Libnl m) where
  -- The socket that the program has set up.
  abbrev listening : ℕ → ℕ → Listener m
  listening sock group = record {
    log =
        Act.auto_ack_disabled sock
        ∷ Act.joined sock group
        ∷ Act.socket_connected sock
        ∷ Act.socket_allocated sock
        ∷ [];
    g_nl_sock = none;
    info = no_event;
  }

  abbrev set_up : ℕ → ℕ → Listener m
  set_up sock group = record (listening sock group) { g_nl_sock = some sock }

  -- The state in which the loop begins.
  abbrev armed : ℕ → ℕ → Listener m
  armed sock group = record (set_up sock group) {
    log = Act.callbacks_allocated ∷ (listening sock group).log;
  }

  get_genl_multicast_socket-rule :
      (P : Ended ℤ × Listener m → Type 0) (next : ℕ → Action (Listener m) ℤ)
      → ((code : ℤ) (s : Listener m) → IsBalanced s → P (Ended.exited code, s))
      → ((sock group : ℕ) → P (next sock (listening sock group)))
      → P (continue next (get_genl_multicast_socket m os (fresh_listener m)))
  unfolding get_genl_multicast_socket copies frees kept overwritten
  get_genl_multicast_socket-rule P next left went =
      let Q = λ (r : Ended ℕ × Listener m). P (continue next r) in
      or_exit-rule Q _ _ (neg 1) (os.nl_socket_alloc []) (λ e. left _ _ refl)
        λ sock made.
          exit_if_negative-rule Q _ _ (os.nl_connect _ sock) (λ error. left _ _ refl)
            λ k ok.
              exit_if_negative-rule Q _ _ (os.genl_ctrl_resolve_grp _ sock) (λ error. left _ _ refl)
                λ group found.
                  exit_if_negative-rule Q _ _ (os.nl_socket_add_membership _ sock group)
                    (λ error. left _ _ refl) λ k' joined. went sock group

-- A listener for `n` events returns 0 after `n` waits, with its socket given back and each string
-- freed that was not overwritten; or it exits or fails before, with the books of the strings in order.
abbrev pub Monitors : {m : Messages} → ℕ → Ended ℤ × Listener m → Type 0
Monitors n (Ended.returned ret, s) =
    (ret ≡ pos 0)
    × (copies s.log ≡ frees s.log + overwritten s.log)
    × (waits s.log ≡ n)
    × (open_sockets s.log ≡ [])
    × (live_sockets s.log ≡ [])
Monitors n (Ended.running, s) = ⊥
Monitors n (e, s) = IsBalanced s

-- A listener with no end does not return: it still runs, with a wait in each round, or it exits or
-- fails, with the books of the strings in order.
abbrev pub MonitorsForever : {m : Messages} → ℕ → Ended ℤ × Listener m → Type 0
MonitorsForever n (Ended.returned ret, s) = ⊥
MonitorsForever n (Ended.running, s) = IsBalanced s × (waits s.log ≡ n)
MonitorsForever n (e, s) = IsBalanced s

module _ (m : Messages) (os : Libnl m) where
  abbrev released : Ended (Unit {0}) × Listener m → Ended (Unit {0}) × Listener m
  released r = continue (λ done. modify (λ s. record s { log = Act.callbacks_released ∷ s.log })) r

  monitor_events-rule :
      (P : Ended (Unit {0}) × Listener m → Type 0) (rounds : ℕ) (num_events : ℤ) (s : Listener m)
      → P (Ended.exited (neg 1), s)
      → P (
          released (
            monitor_loop m os rounds 0 num_events
              (record s { log = Act.callbacks_allocated ∷ s.log })))
      → P (monitor_events m os rounds num_events s)
  unfolding monitor_events
  monitor_events-rule P rounds num_events s left went =
      or_exit-rule P
        (λ made.
          modify (λ s. record s { log = Act.callbacks_allocated ∷ s.log })
          >> (monitor_loop m os rounds 0 num_events
              >> modify (λ s. record s { log = Act.callbacks_released ∷ s.log })))
        s (neg 1) _ (λ e. left) (λ t made. went)

  -- The end of the program, behind the loop.
  abbrev finish : Ended (Unit {0}) × Listener m → Ended ℤ × Listener m
  finish r =
      continue (λ done. modify (λ s. put_genl_multicast_socket s.g_nl_sock s) >> pure (pos 0))
        (released r)

  finish-Monitors :
      (sock n : ℕ) (r : Ended (Unit {0}) × Listener m)
      → LoopEnds m os sock n r
      → Monitors n (finish r)
  unfolding put_genl_multicast_socket copies frees waits kept overwritten open_sockets live_sockets
  finish-Monitors sock n (Ended.returned a, s) h =
      let closed =
        λ (fds : List ℕ) (e : fds ≡ sock ∷ []). ap (remove sock) e ∙ remove_head sock [] in
      let P = λ (o : Option ℕ). Monitors n (
        pure (pos 0)
          (put_genl_multicast_socket o (record s { log = Act.callbacks_released ∷ s.log }))) in
      subst P (sym h.4.0) (refl, h.0, h.3, closed _ h.4.1, closed _ h.4.2)
  finish-Monitors sock n (Ended.exited code, s) h = h
  finish-Monitors sock n (Ended.crashed, s) h = h
  finish-Monitors sock n (Ended.running, s) h = absurd h

  finish-MonitorsForever :
      (sock n : ℕ) (r : Ended (Unit {0}) × Listener m)
      → Forever m os sock n r
      → MonitorsForever n (finish r)
  finish-MonitorsForever sock n (Ended.returned a, s) h = absurd h
  finish-MonitorsForever sock n (Ended.exited code, s) h = h
  finish-MonitorsForever sock n (Ended.crashed, s) h = h
  finish-MonitorsForever sock n (Ended.running, s) h = (omega (arith, h.0, h.1), h.3)

  module _ (args : List (List ℕ)) where
    -- Told to wait for `n` events, with a bound on the rounds above `n`: the program comes to an
    -- end. If it returns, the result is 0, it has waited `n` times, has closed and freed its
    -- socket, and has freed each string that it copied, once, but for those that a further message
    -- of the same receive overwrote. If it exits or fails before, the strings that are neither
    -- freed nor overwritten are the one copied last in the current receive, or none.
    pub listener_main-Monitors :
        (n rounds : ℕ)
        → num_events_of args ≡ some (pos n)
        → n < rounds
        → Monitors n (listener_main m os rounds args (fresh_listener m))
    unfolding listener_main monitor_events copies frees waits kept overwritten open_sockets
        live_sockets
    listener_main-Monitors n rounds told enough = rw told (
        get_genl_multicast_socket-rule m os (Monitors n) _ (λ code s balanced. balanced)
          λ sock group.
            monitor_events-rule
              (λ r. Monitors n (
                continue
                  (λ done. modify (λ s. put_genl_multicast_socket s.g_nl_sock s) >> pure (pos 0))
                  r))
              rounds (pos n) (set_up m os sock group) refl
              (finish-Monitors sock n _ (
                monitor_loop-LoopEnds m os sock rounds 0 n (armed m os sock group) (omega arith)
                  (omega arith) (refl, refl, refl, refl, (refl, refl, refl)))))

    -- With no argument: whatever the number of rounds, the program does not return. It still
    -- runs, having waited once in each round, or it has exited or failed; the strings that are
    -- neither freed nor overwritten by a further message of the same receive are the one copied
    -- last in the current receive, or none.
    pub listener_main-MonitorsForever :
        (rounds : ℕ)
        → num_events_of args ≡ some (neg 1)
        → MonitorsForever rounds (listener_main m os rounds args (fresh_listener m))
    unfolding listener_main monitor_events copies frees waits kept overwritten open_sockets
        live_sockets
    listener_main-MonitorsForever rounds told = rw told (
        get_genl_multicast_socket-rule m os (MonitorsForever rounds) _ (λ code s balanced. balanced)
          λ sock group.
            monitor_events-rule
              (λ r. MonitorsForever rounds (
                continue
                  (λ done. modify (λ s. put_genl_multicast_socket s.g_nl_sock s) >> pure (pos 0))
                  r))
              rounds (neg 1) (set_up m os sock group) refl
              (finish-MonitorsForever sock rounds _ (
                monitor_loop-Forever m os sock rounds 0 rounds (armed m os sock group) (omega arith)
                  (refl, refl, refl, refl, (refl, refl, refl)))))

module _ {m : Messages} (s : Listener m)
    (balanced : copies s.log ≡ frees s.log + held s.info.component) where
  -- A signal between two rounds or in a callback: the program exits with every string freed once,
  -- and with its socket closed.
  pub signal_handler-frees :
      (copies (signal_handler s).1.log ≡ frees (signal_handler s).1.log)
      × ((signal_handler s).0 ≡ Ended.exited (neg 1))
  unfolding signal_handler clear_event_info free_component put_genl_multicast_socket copies frees
  signal_handler-frees = ground arith

  -- A signal between the `free` and the `memset` of `clear_event_info` frees the string twice.
  pub signal_handler-frees_twice :
      (component : List ℕ)
      → s.info.component ≡ some component
      → frees (signal_handler (free_component s)).1.log
        ≡ copies (signal_handler (free_component s)).1.log + 1
  unfolding signal_handler clear_event_info free_component put_genl_multicast_socket copies frees
  signal_handler-frees_twice component held = ground arith
