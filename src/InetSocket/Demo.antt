-- ===== src/InetSocket/Demo.antt =====
-- linux-c/socket/inet-socket/server.c and client.c: `run_server_lite` and `run_client_lite`. What
-- stands before a label in the source is the argument of the step that stands behind it.
use Prim.Native.String.{String}
use snippet.Base.{
  ℕ, zero, suc, ◌^◌, ◌-◌, not, Option, none, some, List, ◌∷◌, ◌++◌, length, if◌then◌else◌,
  case_option, ℤ, pos, negsuc, neg, is_zero,
}
use snippet.Posix.{Event, Trace, System, c_string}
use snippet.InetIo.{PayloadType, le_bytes, send_packet, recv_payload, free_packet}
use snippet.InetSocket.Setup.{PtonAnswer, fill_sockaddr_in, inet4_listen, inet4_connect}

abbrev pub server_ip_0 : String
server_ip_0 = "127.0.0.1"

abbrev pub server_port_0 : ℕ
server_port_0 = 55555

-- {INT_MIN, 0, INT_MAX}
unfoldable pub array_payload : List ℕ
unfolding le_bytes
array_payload = le_bytes 4 (2 ^ 31) ++ (le_bytes 4 0 ++ le_bytes 4 (2 ^ 31 - 1))

-- `struct demo_struct_payload`, with a byte of padding between its fields
unfoldable pub struct_payload : ℕ → List ℕ
unfolding le_bytes
struct_payload padding = c_string "struct" ++ (padding ∷ le_bytes 8 12379813738877118345)

abbrev pub string_payload : List ℕ
string_payload = c_string "hello world"

unfoldable pub uint64_payload : List ℕ
unfolding le_bytes
uint64_payload = le_bytes 8 539296290

-- `sock_fd <= 0`
abbrev pub is_descriptor : ℤ → Option ℕ
is_descriptor (pos zero) = none
is_descriptor (pos (suc n)) = some (suc n)
is_descriptor (negsuc n) = none

-- The padding of the packets' heads, which is on the stack, and of `struct_payload`.
pub record Stack : Type 0 where
  pub head : List ℕ
  pub gap : ℕ

-- `close(fd)`
abbrev pub close_socket : ℕ → Trace × ℤ → Trace × ℤ
close_socket fd (t, ret) = (Event.closed fd ∷ t, ret)

module _ (os : System) (stack : Stack) where
  -- A packet is received and freed; then `next` is run. `ret` is what the variable holds.
  unfoldable pub receive_packet : ℕ → ℤ → (Trace → Trace × ℤ) → Trace → Trace × ℤ
  unfolding recv_payload free_packet
  receive_packet fd ret next t =
      let (t₁, packet) = recv_payload os fd t in
      case_option packet (t₁, ret) λ p. next (free_packet p t₁)

  -- A packet is sent; then `next` is run.
  unfoldable pub transmit : ℕ → PayloadType → List ℕ → (Trace → Trace × ℤ) → Trace → Trace × ℤ
  unfolding send_packet
  transmit fd type value next t =
      let (t₁, ret) = send_packet os stack.head fd type (length value) value t in
      if not (is_zero ret) then (t₁, ret) else next t₁

  -- From the first receive to `out_close_conn`.
  unfoldable pub serve_packets : ℕ → Trace → Trace × ℤ
  unfolding receive_packet transmit array_payload struct_payload
  serve_packets conn_fd = receive_packet conn_fd (pos conn_fd) (
      receive_packet conn_fd (pos conn_fd) (
        transmit conn_fd PayloadType.demo_int_array_payload array_payload (
          transmit conn_fd PayloadType.demo_struct_payload (struct_payload stack.gap)
            (λ t. (t, pos 0)))))

  -- From `accept` to `out_close_listen`.
  unfoldable pub accept_connection : Trace → Trace × ℤ
  unfolding serve_packets
  accept_connection t =
      case_option (os.accept t) (t, neg 1)
        λ conn_fd. close_socket conn_fd (serve_packets conn_fd (Event.opened conn_fd ∷ t))

  -- When `inet4_listen` fails, `ret` is still the 0 of `fill_sockaddr_in`.
  unfoldable pub run_server_lite : (String → PtonAnswer) → Option String → ℕ → Trace → Trace × ℤ
  unfolding fill_sockaddr_in inet4_listen accept_connection
  run_server_lite inet_pton server_ip port t =
      let (server_addr, ret) = fill_sockaddr_in inet_pton server_ip port in
      if not (is_zero ret)
      then (t, ret)
      else let (t₁, listener) = inet4_listen os server_addr t in
        case_option (is_descriptor listener) (t₁, ret)
          λ sock_fd. close_socket sock_fd (accept_connection t₁)

  -- From the first send to `out_close`.
  unfoldable pub request_packets : ℕ → Trace → Trace × ℤ
  unfolding receive_packet transmit uint64_payload
  request_packets sock_fd = transmit sock_fd PayloadType.demo_string_payload string_payload (
      transmit sock_fd PayloadType.demo_uint64_payload uint64_payload
        (receive_packet sock_fd (pos 0) (receive_packet sock_fd (pos 0) (λ t. (t, pos 0)))))

  unfoldable pub run_client_lite : (String → PtonAnswer) → Option String → ℕ → Trace → Trace × ℤ
  unfolding fill_sockaddr_in inet4_connect request_packets
  run_client_lite inet_pton server_ip port t =
      let (server_addr, ret) = fill_sockaddr_in inet_pton server_ip port in
      if not (is_zero ret)
      then (t, ret)
      else let (t₁, connection) = inet4_connect os server_addr t in
        case_option (is_descriptor connection) (t₁, ret)
          λ sock_fd. close_socket sock_fd (request_packets sock_fd t₁)
