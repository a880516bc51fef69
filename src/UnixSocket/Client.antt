-- ===== src/UnixSocket/Client.antt =====
-- linux-c/socket/unix-socket/client.c: `run_stream_client`, `run_datagram_client` and `main`.
use snippet.Base.{ℕ, not, List, ◌∷◌, case_option, if◌then◌else◌, neg, is_zero}
use snippet.Posix.{Event, Trace, System}
use snippet.UnixSocket.Exchange.{
  client_dgram_socket_path, client_req_msg, server_ack_msg, Outcome, expect_message, send_message,
  unlink_path, succeed, close_fd,
}

module _ (os : System) where
  -- From the write to `ret = 0`: a request is sent and its acknowledgement awaited.
  unfoldable pub make_request : ℕ → List ℕ → Trace → Outcome
  unfolding expect_message send_message
  make_request fd stack =
      send_message os fd client_req_msg (expect_message os fd server_ack_msg stack succeed)

  unfoldable pub run_stream_client : List ℕ → Trace → Outcome
  unfolding make_request
  run_stream_client stack t =
      case_option (os.socket t) (t, neg 1)
        λ sock_fd.
          let t₁ = Event.opened sock_fd ∷ t in
          close_fd sock_fd (
            if not (os.connect t₁)
            then (t₁, neg 1)
            else make_request sock_fd stack (Event.connected sock_fd ∷ t₁))

  unfoldable pub run_datagram_client : List ℕ → Trace → Outcome
  unfolding make_request unlink_path
  run_datagram_client stack t =
      case_option (os.socket t) (t, neg 1)
        λ sock_fd.
          let t₁ = Event.opened sock_fd ∷ t in
          close_fd sock_fd (
            if not (os.bind t₁)
            then (t₁, neg 1)
            else unlink_path os client_dgram_socket_path
                (make_request sock_fd stack (Event.bound sock_fd client_dgram_socket_path ∷ t₁)))

  unfoldable pub client_main : List ℕ → List ℕ → Trace → Outcome
  client_main stack stack' t =
      let (t₁, ret) = run_stream_client stack t in
      if not (is_zero ret) then (t₁, ret) else run_datagram_client stack' t₁
