-- ===== src/InetSocket/Tests.antt =====
-- Runs of linux-c/socket/inet-socket, and the theorems at concrete inputs.
use Prim.Native.String.{String}
use mathlib.Core.Option.{some-injective}
use snippet.Base.{◌≡◌, ◌≢◌, refl, true, false, Bool, ◌+◌, [], ◌∷◌, length, none, some, pos, arith}
use snippet.Posix.{Event, Trace, System, SockaddrIn, open_fds}
use snippet.InetSocket.Setup.{PtonAnswer, Lookup, htons, inet4_listen_str}
use snippet.InetSocket.Demo.{Stack, server_ip_0, server_port_0, run_server_lite, run_client_lite}
use snippet.InetSocket.Programs.{run_lite-open_fds}

-- Each socket is numbered three above what was done before it, and an address binds once four things
-- have been done.
abbrev late : Trace → Bool
late (a ∷ b ∷ c ∷ d ∷ t) = true
late t = false

abbrev second_try : System
second_try = record {
  socket = λ t. some (3 + length t);
  setsockopt = λ t. true;
  bind = late;
  listen = λ t. true;
  accept = λ t. some 9;
  connect = λ t. true;
  unlink = λ t. true;
  read = λ t count. none;
  write = λ t bytes. some (length bytes);
  malloc = λ t. some 1000;
}

abbrev loopback : SockaddrIn
loopback = record { sin_family = 2; sin_port = htons 55555; sin_addr = 16777343 }

abbrev two_addresses : Trace → Lookup
two_addresses t = Lookup.found 500 (loopback ∷ loopback ∷ [])

-- The first address cannot be bound, the second is.
second_listens : inet4_listen_str second_try two_addresses [] ≡ (
  Event.freed 500
      ∷ Event.listening 7
      ∷ Event.bound_inet 7 loopback
      ∷ Event.configured 7
      ∷ Event.opened 7
      ∷ Event.closed 4
      ∷ Event.configured 4
      ∷ Event.opened 4
      ∷ Event.allocated 500
      ∷ [],
  pos 7,
)
unfolding inet4_listen_str
second_listens = refl

abbrev inet_pton : String → PtonAnswer
inet_pton text = PtonAnswer.converted 16777343

abbrev stack : Stack
stack = record { head = 0 ∷ 0 ∷ 0 ∷ 0 ∷ []; gap = 0 }

above_zero : (t : Trace) → second_try.socket t ≢ some 0
above_zero t e = absurd (omega (arith, some-injective _ _ e))

run_lite-open_fds_example :
    (open_fds (run_server_lite second_try stack inet_pton (some server_ip_0) server_port_0 []).0
      ≡ open_fds [])
    × (open_fds (run_client_lite second_try stack inet_pton (some server_ip_0) server_port_0 []).0
        ≡ open_fds [])
run_lite-open_fds_example =
    run_lite-open_fds second_try above_zero inet_pton stack (some server_ip_0) server_port_0 []

-- A system without sockets.
abbrev no_sockets : System
no_sockets = record second_try { socket = λ t. none }
