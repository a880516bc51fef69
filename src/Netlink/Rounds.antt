-- ===== src/Netlink/Rounds.antt =====
-- listener.c: how often the loop goes round.
use snippet.Base.{ℕ, zero, suc, ◌+◌, ◌≤◌, ◌<◌, ◌≡◌, if-rule, leb, pos, neg, arith}
use snippet.Netlink.Messages.{Messages}
use snippet.Netlink.Process.{Ended, Action, continue, Libnl}
use snippet.Netlink.Listener.{Listener, receive_event, monitor_loop}
use snippet.Netlink.Monitor.{IsBalanced, Empty, RoundEnds, receive_event-RoundEnds}

module _ (m : Messages) (os : Libnl m) (sock : ℕ) where
  -- A loop that is left by its condition had `n` waits in all, and still runs in no case.
  abbrev pub LoopEnds : ℕ → Ended (Unit {0}) × Listener m → Type 0
  LoopEnds n (Ended.returned a, s) = Empty sock n s
  LoopEnds n (Ended.running, s) = ⊥
  LoopEnds n (e, s) = IsBalanced s

  next-LoopEnds :
      (n k : ℕ) (next : Unit {0} → Action (Listener m) (Unit {0}))
      (r : Ended (Unit {0}) × Listener m)
      → RoundEnds m os sock k r
      → ((s : Listener m) → Empty sock (suc k) s → LoopEnds n (next tt s))
      → LoopEnds n (continue next r)
  next-LoopEnds n k next (Ended.returned a, s) h go = go s h
  next-LoopEnds n k next (Ended.exited code, s) h go = h
  next-LoopEnds n k next (Ended.crashed, s) h go = h
  next-LoopEnds n k next (Ended.running, s) h go = absurd h

  pub monitor_loop-LoopEnds :
      (rounds count n : ℕ) (s : Listener m)
      → count ≤ n
      → n < rounds + count
      → Empty sock count s
      → LoopEnds n (monitor_loop m os rounds count (pos n) s)
  unfolding monitor_loop
  monitor_loop-LoopEnds zero count n s le enough h = absurd (omega arith)
  monitor_loop-LoopEnds (suc rounds) count n s le enough h =
      if-rule (LoopEnds n) (leb (count + 1) n)
        (λ more.
          next-LoopEnds n count _ (receive_event m os s)
            (receive_event-RoundEnds m os sock count s h)
            (λ s' h'.
              monitor_loop-LoopEnds rounds (count + 1) n s' (ground arith) (omega arith)
                (h'.0, h'.1, h'.2, omega (arith, h'.3), h'.4)))
        (λ done. let all : count ≡ n = ground arith in (h.0, h.1, h.2, omega (arith, h.3), h.4))

  -- With no end given: the loop is never left by its condition, and still runs after all the
  -- rounds that it is given, with a wait in each.
  abbrev pub Forever : ℕ → Ended (Unit {0}) × Listener m → Type 0
  Forever n (Ended.returned a, s) = ⊥
  Forever n (Ended.running, s) = Empty sock n s
  Forever n (e, s) = IsBalanced s

  next-Forever :
      (n k : ℕ) (next : Unit {0} → Action (Listener m) (Unit {0}))
      (r : Ended (Unit {0}) × Listener m)
      → RoundEnds m os sock k r
      → ((s : Listener m) → Empty sock (suc k) s → Forever n (next tt s))
      → Forever n (continue next r)
  next-Forever n k next (Ended.returned a, s) h go = go s h
  next-Forever n k next (Ended.exited code, s) h go = h
  next-Forever n k next (Ended.crashed, s) h go = h
  next-Forever n k next (Ended.running, s) h go = absurd h

  pub monitor_loop-Forever :
      (rounds count n : ℕ) (s : Listener m)
      → n ≡ rounds + count
      → Empty sock count s
      → Forever n (monitor_loop m os rounds count (neg 1) s)
  unfolding monitor_loop
  monitor_loop-Forever zero count n s all h = (h.0, h.1, h.2, omega (arith, h.3), h.4)
  monitor_loop-Forever (suc rounds) count n s all h =
      next-Forever n count _ (receive_event m os s) (receive_event-RoundEnds m os sock count s h)
        (λ s' h'.
          monitor_loop-Forever rounds (count + 1) n s' (omega arith)
            (h'.0, h'.1, h'.2, omega (arith, h'.3), h'.4))
