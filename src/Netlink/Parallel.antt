-- ===== src/Netlink/Parallel.antt =====
-- genl_demo.c: handlers at the same time. The family sets `parallel_ops`, so that the handlers of several
-- requests run at once: what they share is the counter, which `atomic_fetch_inc` reads and raises in
-- one step, so that a handler has two parts, up to that step and from it on.
use snippet.Base.{ℕ, zero, suc, Option, none, some, List, [], ◌∷◌, case_option}
use snippet.Netlink.Messages.{Messages}
use snippet.Netlink.GenlDemo.{GenlInfo, GenlDemo, Event, Kernel, begin_report, notify}

-- The module with the handlers that have taken a number and not sent yet.
pub record Handlers (m : Messages) : Type 0 where
  pub demo : GenlDemo m
  pub under_way : List Event

-- What goes on next: a request arrives and its handler runs up to `atomic_fetch_inc`, or one of the
-- handlers under way runs to its end.
pub data Turn (m : Messages) : Type 0 where
  arrives : (info : GenlInfo m) → Turn m
  ends : (at : ℕ) → Turn m

-- An element and the others.
unfoldable pub pick : List Event → ℕ → Option (Event × List Event)
pick [] at = none
pick (e ∷ rest) zero = some (e, rest)
pick (e ∷ rest) (suc at) =
    let more = pick rest at in case_option more none λ picked. some (picked.0, e ∷ picked.1)

module _ (m : Messages) (kernel : Kernel m) where
  unfoldable pub turn : Turn m → Handlers m → Handlers m
  unfolding pick begin_report notify
  turn (Turn.arrives info) h =
      let begun = begin_report m info h.demo in
      record { demo = begun.1; under_way = case_option begun.0 h.under_way λ e. e ∷ h.under_way }
  turn (Turn.ends at) h =
      case_option (pick h.under_way at) h
        λ picked. record { demo = notify m kernel picked.0 h.demo; under_way = picked.1 }

  unfoldable pub run_turns : List (Turn m) → Handlers m → Handlers m
  unfolding turn
  run_turns [] h = h
  run_turns (t ∷ rest) h = run_turns rest (turn t h)
