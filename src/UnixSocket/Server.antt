-- ===== src/UnixSocket/Server.antt =====
-- linux-c/socket/unix-socket/server.c: `run_stream_server`, `run_datagram_server` and `main`. What
-- stands before a label in the source is the argument of the step that stands behind it.
use snippet.Base.{ℕ, not, List, ◌∷◌, case_option, if◌then◌else◌, neg, is_zero}
use snippet.Posix.{Event, Trace, System}
use snippet.UnixSocket.Exchange.{
  server_stream_socket_path, server_dgram_socket_path, client_req_msg, server_ack_msg, Outcome,
  expect_message, send_message, unlink_path, succeed, close_fd,
}

module _ (os : System) where
  -- From the read to `ret = 0`: a request is answered by an acknowledgement.
  unfoldable pub answer_request : ℕ → List ℕ → Trace → Outcome
  unfolding expect_message send_message
  answer_request fd stack =
      expect_message os fd client_req_msg stack (send_message os fd server_ack_msg succeed)

  -- From `listen` up to `out_unlink`.
  unfoldable pub serve_connection : ℕ → List ℕ → Trace → Outcome
  unfolding answer_request
  serve_connection sock_fd stack t =
      if not (os.listen t)
      then (t, neg 1)
      else let t₁ = Event.listening sock_fd ∷ t in
        case_option (os.accept t₁) (t₁, neg 1)
          λ conn_fd. close_fd conn_fd (answer_request conn_fd stack (Event.opened conn_fd ∷ t₁))

  -- `stack` is what the uninitialised `data_buffer` holds.
  unfoldable pub run_stream_server : List ℕ → Trace → Outcome
  unfolding serve_connection unlink_path
  run_stream_server stack t =
      case_option (os.socket t) (t, neg 1)
        λ sock_fd.
          let t₁ = Event.opened sock_fd ∷ t in
          close_fd sock_fd (
            if not (os.bind t₁)
            then (t₁, neg 1)
            else unlink_path os server_stream_socket_path (
                serve_connection sock_fd stack
                  (Event.bound sock_fd server_stream_socket_path ∷ t₁)))

  unfoldable pub run_datagram_server : List ℕ → Trace → Outcome
  unfolding answer_request unlink_path
  run_datagram_server stack t =
      case_option (os.socket t) (t, neg 1)
        λ sock_fd.
          let t₁ = Event.opened sock_fd ∷ t in
          close_fd sock_fd (
            if not (os.bind t₁)
            then (t₁, neg 1)
            else unlink_path os server_dgram_socket_path
                (answer_request sock_fd stack (Event.bound sock_fd server_dgram_socket_path ∷ t₁)))

  -- The stacks are those of the two calls.
  unfoldable pub server_main : List ℕ → List ℕ → Trace → Outcome
  server_main stack stack' t =
      let (t₁, ret) = run_stream_server stack t in
      if not (is_zero ret) then (t₁, ret) else run_datagram_server stack' t₁
