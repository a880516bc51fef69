-- ===== src/Netlink/Monitor.antt =====
-- listener.c: the strings that the program copies and frees, and the rounds of its loop.
use snippet.Base.{
  ℕ, suc, ◌+◌, ◌≡◌, refl, Option, none, some, List, [], ◌∷◌, sym, ap, ◌∙◌, if-rule,
  case_option-rule, if◌then◌else◌, ℤ, pos, negsuc, is_negative, arith,
}
use snippet.Netlink.Messages.{Messages}
use snippet.Netlink.Process.{
  Ended, Action, continue, Act, Libnl, Received, exit_if_negative, modify, pure, ◌>>=◌,
  dereference-rule, get_time_us-rule, open_sockets, live_sockets,
}
use snippet.Netlink.Listener.{
  no_event, Listener, free_component, clear_event_info, take_component, take_fields, event_callback,
  run_callbacks, hand_over, receive_event,
}

-- How often the program copied a string, freed one, and waited for a message.
unfoldable pub copies : {M : Type 0} → List (Act M) → ℕ
copies [] = 0
copies (Act.string_copied ∷ log) = suc (copies log)
copies (_ ∷ log) = copies log

unfoldable pub frees : {M : Type 0} → List (Act M) → ℕ
frees [] = 0
frees (Act.string_freed ∷ log) = suc (frees log)
frees (_ ∷ log) = frees log

unfoldable pub waits : {M : Type 0} → List (Act M) → ℕ
waits [] = 0
waits (Act.received sock ∷ log) = suc (waits log)
waits (_ ∷ log) = waits log

-- Of the strings copied since the program last waited, the one copied last is kept until it is
-- freed.
unfoldable pub kept : {M : Type 0} → List (Act M) → ℕ
kept [] = 0
kept (Act.string_copied ∷ log) = 1
kept (Act.string_freed ∷ log) = 0
kept (Act.received sock ∷ log) = 0
kept (_ ∷ log) = kept log

-- How often the program copied a string while another, copied in the same receive, was not freed:
-- the callback writes over the pointer to that one.
unfoldable pub overwritten : {M : Type 0} → List (Act M) → ℕ
unfolding kept
overwritten [] = 0
overwritten (Act.string_copied ∷ log) = kept log + overwritten log
overwritten (_ ∷ log) = overwritten log

abbrev pub held : Option (List ℕ) → ℕ
held none = 0
held (some component) = 1

module _ {m : Messages} where
  -- Each string that was copied was freed, or overwritten, or is the last one kept.
  abbrev pub IsBalanced : Listener m → Type 0
  IsBalanced s = copies s.log ≡ frees s.log + overwritten s.log + kept s.log

  -- The program has one socket.
  abbrev HasSocket : ℕ → Listener m → Type 0
  HasSocket sock s =
      (s.g_nl_sock ≡ some sock)
      × (open_sockets s.log ≡ sock ∷ [])
      × (live_sockets s.log ≡ sock ∷ [])

  -- Balanced, with the string kept in `g_event_info`, that socket and so many waits so far.
  abbrev pub At : ℕ → ℕ → Listener m → Type 0
  At sock n s =
      IsBalanced s × (kept s.log ≡ held s.info.component) × (waits s.log ≡ n) × HasSocket sock s

  -- However a function that returns an error code ended.
  abbrev Ends : ℕ → ℕ → Ended ℤ × Listener m → Type 0
  Ends sock n (Ended.returned (pos k), s) = At sock n s
  Ends sock n (Ended.running, s) = ⊥
  Ends sock n (e, s) = IsBalanced s

  -- With no string kept.
  abbrev pub Empty : ℕ → ℕ → Listener m → Type 0
  Empty sock n s =
      (copies s.log ≡ frees s.log + overwritten s.log)
      × (kept s.log ≡ 0)
      × (s.info.component ≡ none)
      × (waits s.log ≡ n)
      × HasSocket sock s

  Empty-IsBalanced : (sock n : ℕ) (s : Listener m) → Empty sock n s → IsBalanced s
  Empty-IsBalanced sock n s h = omega (arith, h.0, h.1)

module _ (m : Messages) (os : Libnl m) (sock : ℕ) where
  take_component-Ends :
      (copy : Option (List ℕ)) (n : ℕ) (s : Listener m)
      → At sock n s
      → Ends sock n (take_component m os copy s)
  unfolding take_component copies frees waits kept overwritten open_sockets live_sockets
  take_component-Ends none n s h = h.0
  take_component-Ends (some component) n s h =
      get_time_us-rule os (λ r. r.log) (Ends sock n) _ _ (omega (arith, h.0))
        (λ spec said. (omega (arith, h.0), refl, h.2, h.3))

  take_fields-Ends :
      (msg : m.Msg) (n : ℕ) (s : Listener m) → At sock n s → Ends sock n (take_fields m os msg s)
  unfolding take_fields
  take_fields-Ends msg n s h = dereference-rule (Ends sock n) _ _ (m.attr msg 2) h.0 λ id has_id.
      dereference-rule (Ends sock n) _ _ (m.attr msg 3) h.0 λ type has_type.
        dereference-rule (Ends sock n) _ _ (m.attr msg 4) h.0 λ time has_time.
          dereference-rule (Ends sock n) _ _ (m.attr msg 5) h.0
            λ component has_component. take_component-Ends (os.nla_strdup s.log component) n _ h

  -- A negative result or not, the state is as it was.
  unchanged-Ends : (ret : ℤ) (n : ℕ) (s : Listener m) → At sock n s → Ends sock n (pure ret s)
  unchanged-Ends (pos k) n s h = h
  unchanged-Ends (negsuc k) n s h = h.0

  event_callback-Ends :
      (msg : m.Msg) (n : ℕ) (s : Listener m)
      → At sock n s
      → Ends sock n (event_callback m os msg none s)
  unfolding event_callback
  event_callback-Ends msg n s h =
      if-rule (Ends sock n) (is_negative (os.genlmsg_parse s.log msg))
        (λ failed. unchanged-Ends _ n s h) (λ parsed. take_fields-Ends msg n s h)

  -- What follows a callback that ended at some count, when it keeps that count.
  continue-Ends :
      (n : ℕ) (next : Action (Listener m) ℤ) (r : Ended ℤ × Listener m)
      → Ends sock n r
      → ((s : Listener m) → At sock n s → Ends sock n (next s))
      → Ends sock n
          (continue (λ ret s. let more = next s in if is_negative ret then pure ret s else more) r)
  continue-Ends n next (Ended.returned (pos k), s) h go = go s h
  continue-Ends n next (Ended.returned (negsuc k), s) h go = h
  continue-Ends n next (Ended.exited code, s) h go = h
  continue-Ends n next (Ended.crashed, s) h go = h
  continue-Ends n next (Ended.running, s) h go = absurd h

  run_callbacks-Ends :
      (msgs : List m.Msg) (n : ℕ) (s : Listener m)
      → At sock n s
      → Ends sock n (run_callbacks m os msgs s)
  unfolding run_callbacks
  run_callbacks-Ends [] n s h = h
  run_callbacks-Ends (msg ∷ rest) n s h =
      continue-Ends n (run_callbacks m os rest) (event_callback m os msg none s)
        (event_callback-Ends msg n s h) (λ s' now. run_callbacks-Ends rest n s' now)

  -- A round of the loop that returns has one wait and leaves no component; any other end has one
  -- wait at most.
  abbrev pub RoundEnds : ℕ → Ended (Unit {0}) × Listener m → Type 0
  RoundEnds n (Ended.returned a, s) = Empty sock (suc n) s
  RoundEnds n (Ended.running, s) = ⊥
  RoundEnds n (e, s) = IsBalanced s

  clear_event_info-Empty :
      (n : ℕ) (s : Listener m) → At sock n s → Empty sock n (clear_event_info s)
  unfolding clear_event_info free_component copies frees waits kept overwritten open_sockets
      live_sockets
  clear_event_info-Empty n s h =
      case_option-rule (λ (r : Listener m). Empty sock n (record r { info = no_event }))
        s.info.component
        (λ e.
          (let nothing : kept s.log ≡ 0 = h.1 ∙ ap held e in
            (omega (arith, h.0, nothing), nothing, refl, h.2, h.3)))
        (λ c e.
          (let one : kept s.log ≡ 1 = h.1 ∙ ap held e in
            (omega (arith, h.0, one), refl, refl, h.2, h.3)))

  finish-RoundEnds :
      (n : ℕ) (r : Ended ℤ × Listener m)
      → Ends sock (suc n) r
      → RoundEnds n (continue (λ ret. exit_if_negative ret >>= λ k. modify clear_event_info) r)
  finish-RoundEnds n (Ended.returned (pos k), s) h = clear_event_info-Empty (suc n) s h
  finish-RoundEnds n (Ended.returned (negsuc e), s) h = h
  finish-RoundEnds n (Ended.exited code, s) h = h
  finish-RoundEnds n (Ended.crashed, s) h = h
  finish-RoundEnds n (Ended.running, s) h = absurd h

  hand_over-Ends :
      (n : ℕ) (s : Listener m) (answer : Received m.Msg)
      → At sock n s
      → Ends sock n (hand_over m os answer s)
  unfolding hand_over
  hand_over-Ends n s (Received.failed error) h = h.0
  hand_over-Ends n s (Received.messages msgs) h = run_callbacks-Ends msgs n s h

  pub receive_event-RoundEnds :
      (n : ℕ) (s : Listener m) → Empty sock n s → RoundEnds n (receive_event m os s)
  unfolding receive_event open_sockets live_sockets hand_over copies frees waits kept overwritten
  receive_event-RoundEnds n s h =
      dereference-rule (RoundEnds n) _ s s.g_nl_sock (Empty-IsBalanced sock n s h) λ sock has_sock.
        finish-RoundEnds n _ (
          hand_over-Ends (suc n) _ (os.nl_recvmsgs _)
            (omega (arith, h.0), sym (ap held h.2), omega (arith, h.3), h.4))
