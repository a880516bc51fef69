-- ===== src/UnixSocket/Cleanup.antt =====
-- linux-c/socket/unix-socket: the descriptors that are open behind each run.
use Prim.Native.String.{String}
use snippet.Base.{
  ℕ, ◌≡◌, refl, ◌∙◌, not, List, ◌∷◌, length, take, ◌==◌, if◌then◌else◌, if-rule, case_option-rule,
  neg, is_zero,
}
use snippet.Posix.{Event, Trace, System, open_fds, remove_head}
use snippet.UnixSocket.Exchange.{
  Outcome, server_stream_socket_path, is_message, expect_message, send_message, unlink_path,
  succeed, close_fd, data_buffer_size, client_req_msg, server_ack_msg, client_dgram_socket_path,
  server_dgram_socket_path,
}
use snippet.UnixSocket.Server.{
  answer_request, serve_connection, run_stream_server, run_datagram_server, server_main,
}
use snippet.UnixSocket.Client.{make_request, run_stream_client, run_datagram_client, client_main}

-- A view of the trace that messages do not change.
record IgnoresMessages {ℓ} {A : Type ℓ} (view : Trace → A) : Type ℓ where
  sending : (fd : ℕ) (bytes : List ℕ) (t : Trace) → view (Event.sent fd bytes ∷ t) ≡ view t
  receiving : (fd : ℕ) (bytes : List ℕ) (t : Trace) → view (Event.received fd bytes ∷ t) ≡ view t

module _ {ℓ} {A : Type ℓ} (os : System) (view : Trace → A) (ignores : IgnoresMessages view) where
  expect_message-view :
      (fd : ℕ) (msg stack : List ℕ) (next : Trace → Outcome)
      → ((t : Trace) → view (next t).0 ≡ view t)
      → (t : Trace) → view (expect_message os fd msg stack next t).0 ≡ view t
  unfolding expect_message
  expect_message-view fd msg stack next keep t =
      case_option-rule (λ (r : Outcome). view r.0 ≡ view t) (os.read t data_buffer_size)
        (λ failed. refl)
        (λ bytes got.
          if-rule (λ (r : Outcome). view r.0 ≡ view t) (length bytes == 0) (λ empty. refl)
            (λ some_bytes.
              if-rule (λ (r : Outcome). view r.0 ≡ view t) (is_message msg bytes stack)
                (λ right. keep (Event.received fd bytes ∷ t) ∙ ignores.receiving fd bytes t)
                (λ wrong. ignores.receiving fd bytes t)))

  send_message-view :
      (fd : ℕ) (msg : List ℕ) (next : Trace → Outcome)
      → ((t : Trace) → view (next t).0 ≡ view t)
      → (t : Trace) → view (send_message os fd msg next t).0 ≡ view t
  unfolding send_message
  send_message-view fd msg next keep t =
      case_option-rule (λ (r : Outcome). view r.0 ≡ view t) (os.write t msg) (λ failed. refl)
        (λ n wrote.
          if-rule (λ (r : Outcome). view r.0 ≡ view t) (n == length msg)
            (λ all. keep (Event.sent fd msg ∷ t) ∙ ignores.sending fd msg t)
            (λ short. ignores.sending fd (take n msg) t))

  answer_request-view :
      (fd : ℕ) (stack : List ℕ) (t : Trace) → view (answer_request os fd stack t).0 ≡ view t
  unfolding answer_request
  answer_request-view fd stack =
      expect_message-view fd client_req_msg stack (send_message os fd server_ack_msg succeed)
        (send_message-view fd server_ack_msg succeed (λ t. refl))

  make_request-view :
      (fd : ℕ) (stack : List ℕ) (t : Trace) → view (make_request os fd stack t).0 ≡ view t
  unfolding make_request
  make_request-view fd stack =
      send_message-view fd client_req_msg (expect_message os fd server_ack_msg stack succeed)
        (expect_message-view fd server_ack_msg stack succeed (λ t. refl))

fds-IgnoresMessages : IgnoresMessages open_fds
unfolding open_fds
fds-IgnoresMessages = record { sending = λ fd bytes t. refl; receiving = λ fd bytes t. refl }

-- Closing what was opened on top gives the descriptors of before.
close_fd-open_fds :
    (fd : ℕ) (r : Outcome) (fds : List ℕ)
    → open_fds r.0 ≡ fd ∷ fds
    → open_fds (close_fd fd r).0 ≡ fds
unfolding open_fds
close_fd-open_fds fd r fds e = rw (open_fds, e) (remove_head fd fds)

module _ (os : System) where
  unlink_path-open_fds :
      (path : String) (r : Outcome) → open_fds (unlink_path os path r).0 ≡ open_fds r.0
  unfolding unlink_path open_fds
  unlink_path-open_fds path r =
      if-rule (λ (q : Outcome). open_fds q.0 ≡ open_fds r.0) (os.unlink r.0) (λ done. refl)
        (λ failed. refl)

  serve_connection-open_fds :
      (fd : ℕ) (stack : List ℕ) (t : Trace)
      → open_fds (serve_connection os fd stack t).0 ≡ open_fds t
  unfolding serve_connection open_fds
  serve_connection-open_fds fd stack t =
      let Same = λ (r : Outcome). open_fds r.0 ≡ open_fds t in
      let t₁ = Event.listening fd ∷ t in
      if-rule Same (not (os.listen t)) (λ failed. refl)
        (λ listening.
          case_option-rule Same (os.accept t₁) (λ failed. refl)
            (λ conn_fd accepted.
              close_fd-open_fds conn_fd
                (answer_request os conn_fd stack (Event.opened conn_fd ∷ t₁)) (open_fds t)
                (answer_request-view os open_fds fds-IgnoresMessages conn_fd stack
                  (Event.opened conn_fd ∷ t₁))))

  -- A bind, a body and the removal of the socket file, in a socket that is then closed.
  bound_body-open_fds :
      (fd : ℕ) (path : String) (body : Trace → Outcome) (t : Trace)
      → ((t : Trace) → open_fds (body t).0 ≡ open_fds t)
      → (open_fds
            (close_fd fd (
              if not (os.bind (Event.opened fd ∷ t))
              then (Event.opened fd ∷ t, neg 1)
              else unlink_path os path (body (Event.bound fd path ∷ Event.opened fd ∷ t)))).0
          ≡ open_fds t)
  unfolding open_fds
  bound_body-open_fds fd path body t keep =
      let t₂ = Event.bound fd path ∷ Event.opened fd ∷ t in
      if-rule (λ (r : Outcome). open_fds (close_fd fd r).0 ≡ open_fds t)
        (not (os.bind (Event.opened fd ∷ t)))
        (λ failed. close_fd-open_fds fd (Event.opened fd ∷ t, neg 1) (open_fds t) refl)
        (λ bound.
          close_fd-open_fds fd (unlink_path os path (body t₂)) (open_fds t)
            (unlink_path-open_fds path (body t₂) ∙ keep t₂))

  run_stream_server-open_fds :
      (stack : List ℕ) (t : Trace) → open_fds (run_stream_server os stack t).0 ≡ open_fds t
  unfolding run_stream_server
  run_stream_server-open_fds stack t =
      case_option-rule (λ (r : Outcome). open_fds r.0 ≡ open_fds t) (os.socket t) (λ failed. refl)
        (λ fd made.
          bound_body-open_fds fd server_stream_socket_path (serve_connection os fd stack) t
            (serve_connection-open_fds fd stack))

  run_datagram_server-open_fds :
      (stack : List ℕ) (t : Trace) → open_fds (run_datagram_server os stack t).0 ≡ open_fds t
  unfolding run_datagram_server
  run_datagram_server-open_fds stack t =
      case_option-rule (λ (r : Outcome). open_fds r.0 ≡ open_fds t) (os.socket t) (λ failed. refl)
        (λ fd made.
          bound_body-open_fds fd server_dgram_socket_path (answer_request os fd stack) t
            (answer_request-view os open_fds fds-IgnoresMessages fd stack))

  run_datagram_client-open_fds :
      (stack : List ℕ) (t : Trace) → open_fds (run_datagram_client os stack t).0 ≡ open_fds t
  unfolding run_datagram_client
  run_datagram_client-open_fds stack t =
      case_option-rule (λ (r : Outcome). open_fds r.0 ≡ open_fds t) (os.socket t) (λ failed. refl)
        (λ fd made.
          bound_body-open_fds fd client_dgram_socket_path (make_request os fd stack) t
            (make_request-view os open_fds fds-IgnoresMessages fd stack))

  run_stream_client-open_fds :
      (stack : List ℕ) (t : Trace) → open_fds (run_stream_client os stack t).0 ≡ open_fds t
  unfolding run_stream_client open_fds
  run_stream_client-open_fds stack t =
      case_option-rule (λ (r : Outcome). open_fds r.0 ≡ open_fds t) (os.socket t) (λ failed. refl)
        (λ fd made.
          let t₁ = Event.opened fd ∷ t in
          if-rule (λ (r : Outcome). open_fds (close_fd fd r).0 ≡ open_fds t) (not (os.connect t₁))
            (λ failed. close_fd-open_fds fd (t₁, neg 1) (open_fds t) refl)
            (λ connected.
              close_fd-open_fds fd (make_request os fd stack (Event.connected fd ∷ t₁)) (open_fds t)
                (make_request-view os open_fds fds-IgnoresMessages fd stack
                  (Event.connected fd ∷ t₁))))

-- The server program, whatever the system answers, ends with the descriptors that were open
-- before it, and so does the client program.
pub main-open_fds :
    (os : System) (stack stack' : List ℕ) (t : Trace)
    → (open_fds (server_main os stack stack' t).0 ≡ open_fds t)
      × (open_fds (client_main os stack stack' t).0 ≡ open_fds t)
unfolding server_main client_main
main-open_fds os stack stack' t =
    let s = run_stream_server os stack t in
    let c = run_stream_client os stack t in
    let Same = λ (r : Outcome). open_fds r.0 ≡ open_fds t in
    (
      if-rule Same (not (is_zero s.1)) (λ failed. run_stream_server-open_fds os stack t)
          (λ served.
            run_datagram_server-open_fds os stack' s.0 ∙ run_stream_server-open_fds os stack t),
      if-rule Same (not (is_zero c.1)) (λ failed. run_stream_client-open_fds os stack t)
          (λ served.
            run_datagram_client-open_fds os stack' c.0 ∙ run_stream_client-open_fds os stack t),
    )
