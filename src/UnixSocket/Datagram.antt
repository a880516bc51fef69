-- ===== src/UnixSocket/Datagram.antt =====
-- linux-c/socket/unix-socket/server.c: what a datagram server that returns 0 has done.
use snippet.Base.{ℕ, ◌≡◌, refl, ap, ◌∙◌, not, List, ◌∷◌, if-rule, case_option-rule, pos}
use snippet.Posix.{Event, Trace, System, overlay}
use snippet.UnixSocket.Exchange.{
  Outcome, unlink_path, close_fd, client_req_msg, server_ack_msg, server_dgram_socket_path,
}
use snippet.UnixSocket.Server.{answer_request, run_datagram_server}
use snippet.UnixSocket.Protocol.{Begins, answer_request-Answers, unlink_path-eq}

-- The datagram server's whole run, when all goes well.
pub record ServesDatagram (stack : List ℕ) (t t' : Trace) : Type 0 where
  pub sock_fd : ℕ
  pub request : List ℕ
  pub is_request : Begins client_req_msg (overlay request stack)
  pub did :
      t'
      ≡ Event.closed sock_fd
        ∷ Event.unlinked server_dgram_socket_path
        ∷ Event.sent sock_fd server_ack_msg
        ∷ Event.received sock_fd request
        ∷ Event.bound sock_fd server_dgram_socket_path
        ∷ Event.opened sock_fd
        ∷ t

served_datagram :
    (os : System) (stack : List ℕ) (fd : ℕ) (t : Trace)
    → (unlink_path os server_dgram_socket_path (
        answer_request os fd stack
          (Event.bound fd server_dgram_socket_path ∷ Event.opened fd ∷ t))).1
      ≡ pos 0
    → ServesDatagram stack t
        (close_fd fd (
          unlink_path os server_dgram_socket_path (
            answer_request os fd stack
              (Event.bound fd server_dgram_socket_path ∷ Event.opened fd ∷ t)))).0
served_datagram os stack fd t e =
    let t₁ = Event.bound fd server_dgram_socket_path ∷ Event.opened fd ∷ t in
    let r = answer_request os fd stack t₁ in
    let (zero_ret, unlinks) = unlink_path-eq os server_dgram_socket_path r e in
    let a = answer_request-Answers os fd stack t₁ zero_ret in
    record {
      sock_fd = fd;
      request = a.request;
      is_request = a.is_request;
      did = ap (λ (q : Outcome). Event.closed fd ∷ q.0) unlinks ∙ rw (a.did) refl;
    }

-- If the datagram server returns 0, it made a socket, bound it to the path, got a request and sent
-- the whole acknowledgement, removed the path and closed the socket, in this order, and did
-- nothing else.
pub run_datagram_server-ServesDatagram :
    (os : System) (stack : List ℕ) (t : Trace)
    → (run_datagram_server os stack t).1 ≡ pos 0
    → ServesDatagram stack t (run_datagram_server os stack t).0
unfolding run_datagram_server
run_datagram_server-ServesDatagram os stack t =
    case_option-rule (λ (r : Outcome). r.1 ≡ pos 0 → ServesDatagram stack t r.0) (os.socket t)
      (λ failed e. cc)
      (λ fd made.
        let t₁ = Event.opened fd ∷ t in
        if-rule (λ (r : Outcome). r.1 ≡ pos 0 → ServesDatagram stack t (close_fd fd r).0)
          (not (os.bind t₁)) (λ failed e. cc) (λ bound e. served_datagram os stack fd t e))
