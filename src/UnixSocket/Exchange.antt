-- ===== src/UnixSocket/Exchange.antt =====
-- linux-c/socket/unix-socket/unix_socket_demo.h, and the steps that server.c and client.c repeat:
-- a checked read, a checked write, and the removal of the socket file. Messages to the terminal
-- are left out.
use Prim.Native.String.{String}
use snippet.Base.{
  ℕ, Bool, List, ◌∷◌, case_option, length, take, ◌==◌, if◌then◌else◌, ℤ, pos, neg, is_zero,
}
use snippet.Posix.{Event, Trace, System, c_string, overlay, strncmp_eq}

abbrev pub server_stream_socket_path : String
server_stream_socket_path = "/tmp/unix_stream_socket"

abbrev pub server_dgram_socket_path : String
server_dgram_socket_path = "/tmp/unix_dgram_socket-server"

abbrev pub client_dgram_socket_path : String
client_dgram_socket_path = "/tmp/unix_dgram_socket-client"

abbrev pub data_buffer_size : ℕ
data_buffer_size = 64

abbrev pub client_req_msg : List ℕ
client_req_msg = c_string "CLIENT_REQ"

abbrev pub server_ack_msg : List ℕ
server_ack_msg = c_string "SERVER_ACK"

-- The outcome of a run: what was done, and the value returned.
abbrev pub Outcome : Type 0
Outcome = Trace × ℤ

-- `strncmp(msg, data_buffer, strlen(msg) + 1) == 0`, on the buffer that held `stack`
unfoldable pub is_message : List ℕ → List ℕ → List ℕ → Bool
unfolding strncmp_eq
is_message msg bytes stack = strncmp_eq (length msg) msg (overlay bytes stack)

module _ (os : System) where
  -- The read of a message that has to be `msg`; then `next` is run.
  unfoldable pub expect_message : ℕ → List ℕ → List ℕ → (Trace → Outcome) → Trace → Outcome
  unfolding is_message
  expect_message fd msg stack next t =
      case_option (os.read t data_buffer_size) (t, neg 1)
        λ bytes.
          if length bytes == 0
          then (t, neg 1)
          else let t' = Event.received fd bytes ∷ t in
            if is_message msg bytes stack then next t' else (t', neg 1)

  -- The write of all of `msg`; then `next` is run.
  unfoldable pub send_message : ℕ → List ℕ → (Trace → Outcome) → Trace → Outcome
  send_message fd msg next t =
      case_option (os.write t msg) (t, neg 1)
        λ n.
          if n == length msg
          then next (Event.sent fd msg ∷ t)
          else (Event.sent fd (take n msg) ∷ t, neg 1)

  -- `if (unlink(path) == -1) ret = ret ? ret : -1;`
  unfoldable pub unlink_path : String → Outcome → Outcome
  unlink_path path (t, ret) =
      if os.unlink t
      then (Event.unlinked path ∷ t, ret)
      else (t, if is_zero ret then neg 1 else ret)

-- `ret = 0`, the last statement before the labels
abbrev pub succeed : Trace → Outcome
succeed t = (t, pos 0)

-- `close(fd)`
abbrev pub close_fd : ℕ → Outcome → Outcome
close_fd fd (t, ret) = (Event.closed fd ∷ t, ret)
