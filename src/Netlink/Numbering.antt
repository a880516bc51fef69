-- ===== src/Netlink/Numbering.antt =====
-- genl_demo.c: the numbers of the events, however the handlers of the requests interleave.
use snippet.Base.{
  ℕ, zero, suc, ◌+◌, ◌%◌, ◌^◌, ◌<◌, ◌≤◌, ◌≡◌, refl, ◌∙◌, ◌⊎◌, inl, inr, Option, none, some,
  lt_or_le, List, [], ◌∷◌, length, ◌==◌, case_option, case_option-rule, if◌then◌else◌, arith, subst,
}
use snippet.Netlink.Messages.{
  Messages, Laws, demo_u_attr_event_type, demo_u_attr_timestamp, demo_k_attr_event_id,
}
use snippet.Netlink.GenlDemo.{
  GenlInfo, GenlDemo, Event, Kernel, notify_size, demo_event_notify, begin_report, notify,
  demo_event_report, port_name,
}
use snippet.Netlink.PortName.{port_text}
use snippet.Netlink.Notify.{
  IsNotification, attributes_size, one_more, fill_and_send-fits, fill_and_send-full,
}
use snippet.Netlink.Parallel.{Handlers, Turn, pick, turn, run_turns}

-- 1 for the same number.
abbrev pub same : ℕ → ℕ → ℕ
same id n = if id == n then 1 else 0

same_le : (id n : ℕ) → same id n ≤ 1
same_le id n = ground arith

same_id : (id : ℕ) → same id id ≡ 1
same_id id = ground arith

same_below : (id n : ℕ) → id < n → same id n ≡ 0
same_below id n l = ground arith

same_new : (id n k : ℕ) → k ≤ 1 → (id ≤ n → k ≡ 0) → same id n + k ≤ 1
same_new id n k one none_yet = ground arith

-- How many of the handlers under way, and of the notifications sent, have a number.
unfoldable pub under_way_with : ℕ → List Event → ℕ
under_way_with n [] = 0
under_way_with n (e ∷ rest) = same e.event_id n + under_way_with n rest

module _ (m : Messages) where
  unfoldable pub sent_with : ℕ → List m.Msg → ℕ
  sent_with n [] = 0
  sent_with n (s ∷ sent) =
      case_option (m.attr s demo_k_attr_event_id) 0 (λ a. same (m.nla_get_u32 a) n)
      + sent_with n sent

  abbrev AllHaveNumbers : List m.Msg → Type 0
  AllHaveNumbers [] = Unit {0}
  AllHaveNumbers (s ∷ sent) =
      ((a : m.Attr) × (m.attr s demo_k_attr_event_id ≡ some a)) × AllHaveNumbers sent

  -- Each notification sent has a number; no number belongs to two of the notifications sent and
  -- the handlers under way, and none from the counter on belongs to one.
  abbrev pub AreNumbered : Handlers m → Type 0
  AreNumbered h =
      AllHaveNumbers h.demo.sent
      × ((n : ℕ) → sent_with n h.demo.sent + under_way_with n h.under_way ≤ 1)
      × ((n : ℕ)
          → h.demo.g_event_id ≤ n
          → sent_with n h.demo.sent + under_way_with n h.under_way ≡ 0)

  -- A notification with this number was sent, or none.
  abbrev Ends : Event → GenlDemo m → GenlDemo m → Type 0
  Ends e g g' =
      (g'.g_event_id ≡ g.g_event_id)
      × ((g'.sent ≡ g.sent)
          ⊎ ((s : m.Msg) × (g'.sent ≡ s ∷ g.sent)
              × IsNotification m s e.event_id e.event_type e.timestamp (port_text e.snd_portid)))

  sent_with-cons :
      (n id type time : ℕ) (name : List ℕ) (s : m.Msg) (sent : List m.Msg)
      → id < 2 ^ 32
      → IsNotification m s id type time name
      → sent_with n (s ∷ sent) ≡ same id n + sent_with n sent
  unfolding sent_with
  sent_with-cons n id type time name s sent low right =
      let value : m.nla_get_u32 right.event_id ≡ id = right.event_id_value ∙ omega arith in
      rw (right.has_event_id, value) refl

-- What is picked is one of the list.
abbrev Picks : List Event → Option (Event × List Event) → Type 0
Picks l none = Unit {0}
Picks l (some (e, others)) =
    (n : ℕ) → under_way_with n l ≡ same e.event_id n + under_way_with n others

pick-Picks : (l : List Event) (at : ℕ) → Picks l (pick l at)
unfolding pick under_way_with
pick-Picks [] at = tt
pick-Picks (e ∷ rest) zero = λ n. refl
pick-Picks (e ∷ rest) (suc at) =
    case_option-rule (Picks (e ∷ rest)) (pick rest at) (λ none_there. tt)
      λ picked there.
        let others = subst (Picks rest) there (pick-Picks rest at) in λ n. omega (arith, others n)

module _ (m : Messages) (kernel : Kernel m) (laws : Laws m) where
  notify-Ends : (e : Event) (g : GenlDemo m) → Ends m e g (notify m kernel e g)
  unfolding notify demo_event_notify
  notify-Ends e g =
      case_option-rule (Ends m e g) (kernel.genlmsg_new g (notify_size m (port_name e.snd_portid)))
        (λ no_memory. (refl, inl refl))
        λ skb given.
          let room = m.headers_size + attributes_size m (port_text e.snd_portid) in
          elim (lt_or_le (m.room skb) room) [
            | inl little ↦
                rw
                  (fill_and_send-full m laws (one_more g) e.event_id e.event_type e.timestamp
                    e.snd_portid skb little)
                  (refl, inl refl)
            | inr enough ↦
                let (s, sends, right) =
                  fill_and_send-fits m laws (one_more g) e.event_id e.event_type e.timestamp
                    e.snd_portid skb enough in
                rw sends (refl, inr (s, refl, right))
          ]

  -- Where one handler of a numbered module ends.
  Ends-AreNumbered :
      (e : Event) (others : List Event) (h : Handlers m) (g' : GenlDemo m)
      → h.demo.g_event_id < 2 ^ 32
      → Picks h.under_way (some (e, others))
      → AreNumbered m h
      → Ends m e h.demo g'
      → AreNumbered m (record { demo = g'; under_way = others })
  Ends-AreNumbered e others h g' low picked numbered (counter, inl unsent) =
      rw (counter, unsent)
        (
          numbered.0,
          λ n. omega (arith, numbered.1 n, picked n),
          λ n le. omega (arith, numbered.2 n le, picked n),
        )
  Ends-AreNumbered e others h g' low picked numbered (counter, inr (s, sent, right)) =
      let below : e.event_id < 2 ^ 32 = elim (lt_or_le e.event_id h.demo.g_event_id) [
        | inl l ↦ omega arith
        | inr le ↦
            absurd (omega (arith, numbered.2 e.event_id le, picked e.event_id, same_id e.event_id))
      ] in
      let grown = λ (n : ℕ). sent_with-cons m n _ _ _ _ s h.demo.sent below right in
      rw (counter, sent)
        (
          ((right.event_id, right.has_event_id), numbered.0),
          λ n. omega (arith, numbered.1 n, picked n, grown n),
          λ n le. omega (arith, numbered.2 n le, picked n, grown n),
        )

  turn-AreNumbered :
      (t : Turn m) (h : Handlers m)
      → h.demo.g_event_id + 1 < 2 ^ 32
      → AreNumbered m h
      → AreNumbered m (turn m kernel t h)
        × ((turn m kernel t h).demo.g_event_id ≤ h.demo.g_event_id + 1)
  unfolding turn begin_report under_way_with
  turn-AreNumbered (Turn.arrives info) h low numbered =
      let Kept = λ (begun : Option Event × GenlDemo m).
        AreNumbered m (record {
          demo = begun.1;
          under_way = case_option begun.0 h.under_way λ e. e ∷ h.under_way;
        })
        × (begun.1.g_event_id ≤ h.demo.g_event_id + 1) in
      let unchanged : Kept (none, h.demo) = (numbered, omega arith) in
      let up : (h.demo.g_event_id + 1) % 2 ^ 32 ≡ h.demo.g_event_id + 1 = omega arith in
      case_option-rule Kept (info.attrs demo_u_attr_event_type) (λ absent. unchanged)
        λ type typed.
          case_option-rule Kept (info.attrs demo_u_attr_timestamp) (λ absent. unchanged)
            λ time timed. (
              (
                numbered.0,
                λ n.
                    let id = h.demo.g_event_id in
                    let others = sent_with m n h.demo.sent + under_way_with n h.under_way in
                    let new : same id n + others ≤ 1 =
                      same_new id n others (numbered.1 n) (numbered.2 n) in
                    omega arith,
                λ n le.
                    let other = same_below h.demo.g_event_id n (omega arith) in
                    omega (arith, other, numbered.2 n (omega arith)),
              ),
              omega arith,
            )
  turn-AreNumbered (Turn.ends at) h low numbered =
      case_option-rule
        (λ (h' : Handlers m). AreNumbered m h' × (h'.demo.g_event_id ≤ h.demo.g_event_id + 1))
        (pick h.under_way at) (λ none_there. (numbered, omega arith))
        λ picked there.
          let one = subst (Picks h.under_way) there (pick-Picks h.under_way at) in
          let ended = notify-Ends picked.0 h.demo in
          (
            Ends-AreNumbered picked.0 picked.1 h (notify m kernel picked.0 h.demo) (omega arith) one
                numbered ended,
            omega (arith, ended.0),
          )

  -- However the handlers of any requests interleave, while the counter stays below 2^32: each
  -- notification sent has a number, no two of them have the same, nor has one of them the number
  -- of a handler that has yet to send, and the counter is above all of these.
  pub run_turns-AreNumbered :
      (turns : List (Turn m)) (h : Handlers m)
      → h.demo.g_event_id + length turns < 2 ^ 32
      → AreNumbered m h
      → AreNumbered m (run_turns m kernel turns h)
  unfolding run_turns
  run_turns-AreNumbered [] h low numbered = numbered
  run_turns-AreNumbered (t ∷ rest) h low numbered =
      let next = turn-AreNumbered t h (omega arith) numbered in
      run_turns-AreNumbered rest (turn m kernel t h) (omega (arith, next.1)) next.0

  -- A handler that runs alone: its two turns, with no other between them.
  pub run_turns_alone :
      (info : GenlInfo m) (h : Handlers m) (type time : m.Attr)
      → info.attrs demo_u_attr_event_type ≡ some type
      → info.attrs demo_u_attr_timestamp ≡ some time
      → run_turns m kernel (Turn.arrives info ∷ Turn.ends 0 ∷ []) h
        ≡ record h { demo = (demo_event_report m kernel info h.demo).0 }
  unfolding run_turns turn pick begin_report notify demo_event_report
  run_turns_alone info h type time typed timed = rw (typed, timed) refl
