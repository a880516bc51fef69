-- ===== src/Netlink/Process.antt =====
-- What reporter.c and listener.c share: a run of a program that may leave by `exit`, what it has done
-- with libnl, libnl's answers, and `get_time_us`.
use snippet.Base.{
  ℕ, ◌+◌, ◌*◌, ◌/◌, ◌%◌, ◌^◌, ◌≡◌, refl, Bool, Option, none, some, List, [], ◌∷◌, ℤ, neg,
}
use snippet.Posix.{remove}
pub use snippet.Posix.Ending.{
  Ended, Action, continue, ◌>>=◌, ◌>>◌, pure, exit, modify, ask, or_exit, exit_if_negative,
  dereference, or_exit-rule, exit_if_negative-rule, dereference-rule,
}
use snippet.Netlink.Messages.{Messages}

-- A call that a program made.
pub data Act (M : Type 0) : Type 0 where
  socket_allocated socket_connected socket_closed socket_freed : (sock : ℕ) → Act M
  joined : (sock group : ℕ) → Act M
  auto_ack_disabled : (sock : ℕ) → Act M
  msg_allocated msg_freed : Act M
  msg_sent : (sock : ℕ) (msg : M) → Act M
  callbacks_allocated callbacks_released : Act M
  received : (sock : ℕ) → Act M
  string_copied string_freed : Act M

-- The latest first.
abbrev pub Log : Messages → Type 0
Log m = List (Act m.Msg)

-- What `nl_recvmsgs` does: it fails with an error, or hands messages to the callback, in order.
pub data Received (M : Type 0) : Type 0 where
  failed : (error : ℕ) → Received M
  messages : List M → Received M

-- The answers of libnl and of the C library. A negative number is an error.
pub record Libnl (m : Messages) : Type 0 where
  pub clock_gettime : Log m → Option (ℕ × ℕ)
  pub nl_socket_alloc : Log m → Option ℕ
  pub nl_connect : Log m → (sock : ℕ) → ℤ
  pub genl_ctrl_resolve : Log m → (sock : ℕ) → ℤ
  pub genl_ctrl_resolve_grp : Log m → (sock : ℕ) → ℤ
  pub nl_socket_add_membership : Log m → (sock group : ℕ) → ℤ
  pub nlmsg_alloc : Log m → Option m.Msg
  pub nl_send_auto : Log m → m.Msg → ℤ
  pub nl_cb_alloc : Log m → Bool
  pub nl_recvmsgs : Log m → Received m.Msg
  pub genlmsg_parse : Log m → m.Msg → ℤ
  pub nla_strdup : Log m → m.Attr → Option (List ℕ)

-- The microseconds in 64 bits.
abbrev pub microseconds : ℕ × ℕ → ℕ
microseconds (seconds, nanoseconds) = (seconds * 1000000 + nanoseconds / 1000) % 2 ^ 64

unfoldable pub get_time_us : {m : Messages} {S : Type 0} → Libnl m → (S → Log m) → Action S ℕ
get_time_us os log = do
  spec ← ask (λ s. os.clock_gettime (log s))
  spec ← or_exit (neg 1) spec
  pure (microseconds spec)

pub get_time_us-rule :
    {m : Messages} {S B : Type 0} (os : Libnl m) (log : S → Log m) (P : Ended B × S → Type 0)
    (next : ℕ → Action S B) (s : S)
    → P (Ended.exited (neg 1), s)
    → ((spec : ℕ × ℕ) → os.clock_gettime (log s) ≡ some spec → P (next (microseconds spec) s))
    → P (continue next (get_time_us os log s))
unfolding get_time_us
get_time_us-rule os log P next s left went = from_answer (os.clock_gettime (log s)) refl
  where
    from_answer :
        (o : Option (ℕ × ℕ))
        → os.clock_gettime (log s) ≡ o
        → P (continue next (continue (λ spec. pure (microseconds spec)) (or_exit (neg 1) o s)))
    from_answer none e = left
    from_answer (some spec) e = went spec e

-- The messages that were sent.
unfoldable pub sent_messages : {M : Type 0} → List (Act M) → List M
sent_messages [] = []
sent_messages (Act.msg_sent sock msg ∷ log) = msg ∷ sent_messages log
sent_messages (_ ∷ log) = sent_messages log

-- The sockets that are connected, and those that stand in memory.
unfoldable pub open_sockets : {M : Type 0} → List (Act M) → List ℕ
open_sockets [] = []
open_sockets (Act.socket_connected sock ∷ log) = sock ∷ open_sockets log
open_sockets (Act.socket_closed sock ∷ log) = remove sock (open_sockets log)
open_sockets (_ ∷ log) = open_sockets log

unfoldable pub live_sockets : {M : Type 0} → List (Act M) → List ℕ
live_sockets [] = []
live_sockets (Act.socket_allocated sock ∷ log) = sock ∷ live_sockets log
live_sockets (Act.socket_freed sock ∷ log) = remove sock (live_sockets log)
live_sockets (_ ∷ log) = live_sockets log
