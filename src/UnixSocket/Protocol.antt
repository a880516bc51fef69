-- ===== src/UnixSocket/Protocol.antt =====
-- linux-c/socket/unix-socket: what a run that returns 0 has done.

use Prim.Native.String.{String}
use snippet.Base.{
  ℕ, ◌≢◌, ◌≡◌, refl, sym, ◌∙◌, ap, true, not, List, [], ◌∷◌, ◌++◌, some, length, ◌==◌, if-rule,
  case_option-rule, pos, arith,
}
use snippet.Posix.{Event, Trace, System, NoZero, strncmp_eq, overlay, codes}
use snippet.UnixSocket.Exchange.{
  Outcome, is_message, expect_message, send_message, unlink_path, succeed, close_fd,
  data_buffer_size, client_req_msg, server_ack_msg, server_stream_socket_path,
}
use snippet.UnixSocket.Server.{answer_request, serve_connection, run_stream_server}
use snippet.UnixSocket.Client.{make_request, run_stream_client}

-- A buffer that begins with a message. After a read it holds the bytes that were received and, behind
-- them, what it held before.
abbrev pub Begins : List ℕ → List ℕ → Type 0
Begins msg buffer = (rest : List ℕ) × (buffer ≡ msg ++ rest)

strncmp_eq-Begins :
    (text buffer : List ℕ)
    → NoZero text
    → strncmp_eq (length (text ++ 0 ∷ [])) (text ++ 0 ∷ []) buffer ≡ true
    → Begins (text ++ 0 ∷ []) buffer
unfolding strncmp_eq
strncmp_eq-Begins [] [] plain e = cc
strncmp_eq-Begins [] (y ∷ buffer) plain e = (buffer, ap (λ b. b ∷ buffer) (ground arith))
strncmp_eq-Begins (c ∷ text) [] plain e = cc
strncmp_eq-Begins (c ∷ text) (y ∷ buffer) plain e =
    let same : y ≡ c = ground (arith, plain.0) in
    let more : strncmp_eq (length (text ++ 0 ∷ [])) (text ++ 0 ∷ []) buffer ≡ true =
      ground (arith, plain.0) in
    let (rest, split) = strncmp_eq-Begins text buffer plain.1 more in
    (rest, ap (λ b. b ∷ buffer) same ∙ ap (λ s. c ∷ s) split)

is_message-Begins :
    (text bytes stack : List ℕ)
    → NoZero text
    → is_message (text ++ 0 ∷ []) bytes stack ≡ true
    → Begins (text ++ 0 ∷ []) (overlay bytes stack)
unfolding is_message
is_message-Begins text bytes stack plain e = strncmp_eq-Begins text (overlay bytes stack) plain e

is_message-request :
    (bytes stack : List ℕ)
    → is_message client_req_msg bytes stack ≡ true
    → Begins client_req_msg (overlay bytes stack)
is_message-request bytes stack e =
    is_message-Begins (codes "CLIENT_REQ") bytes stack (omega arith) e

module _ (os : System) where
  -- A read that succeeds, of a message that fits.
  record Expects (fd : ℕ) (msg stack : List ℕ) (next : Trace → Outcome) (t : Trace) (r : Outcome)
      : Type 0 where
    bytes : List ℕ
    got : os.read t data_buffer_size ≡ some bytes
    not_empty : bytes ≢ []
    fits : is_message msg bytes stack ≡ true
    goes_on : r ≡ next (Event.received fd bytes ∷ t)

  expect_message-Expects :
      (fd : ℕ) (msg stack : List ℕ) (next : Trace → Outcome) (t : Trace)
      → (expect_message os fd msg stack next t).1 ≡ pos 0
      → Expects fd msg stack next t (expect_message os fd msg stack next t)
  unfolding expect_message
  expect_message-Expects fd msg stack next t =
      case_option-rule (λ (r : Outcome). r.1 ≡ pos 0 → Expects fd msg stack next t r)
        (os.read t data_buffer_size) (λ failed e. cc)
        (λ bytes got.
          if-rule (λ (r : Outcome). r.1 ≡ pos 0 → Expects fd msg stack next t r) (length bytes == 0)
            (λ empty e. cc)
            (λ some_bytes.
              if-rule (λ (r : Outcome). r.1 ≡ pos 0 → Expects fd msg stack next t r)
                (is_message msg bytes stack)
                (λ right e. record {
                  bytes = bytes;
                  got = got;
                  not_empty = λ none_got. ground arith;
                  fits = right;
                  goes_on = refl;
                })
                (λ wrong e. cc)))

  send_message-eq :
      (fd : ℕ) (msg : List ℕ) (next : Trace → Outcome) (t : Trace)
      → (send_message os fd msg next t).1 ≡ pos 0
      → send_message os fd msg next t ≡ next (Event.sent fd msg ∷ t)
  unfolding send_message
  send_message-eq fd msg next t =
      case_option-rule (λ (r : Outcome). r.1 ≡ pos 0 → r ≡ next (Event.sent fd msg ∷ t))
        (os.write t msg) (λ failed e. cc)
        (λ n wrote.
          if-rule (λ (r : Outcome). r.1 ≡ pos 0 → r ≡ next (Event.sent fd msg ∷ t))
            (n == length msg) (λ all e. refl) (λ short e. cc))

  pub unlink_path-eq :
      (path : String) (r : Outcome)
      → (unlink_path os path r).1 ≡ pos 0
      → (r.1 ≡ pos 0) × (unlink_path os path r ≡ (Event.unlinked path ∷ r.0, pos 0))
  unfolding unlink_path
  unlink_path-eq path r e = ground arith

  -- A request got and an acknowledgement sent over `fd`, after `t`.
  pub record Answers (fd : ℕ) (stack : List ℕ) (t t' : Trace) : Type 0 where
    pub request : List ℕ
    pub is_request : Begins client_req_msg (overlay request stack)
    pub did : t' ≡ Event.sent fd server_ack_msg ∷ Event.received fd request ∷ t

  pub answer_request-Answers :
      (fd : ℕ) (stack : List ℕ) (t : Trace)
      → (answer_request os fd stack t).1 ≡ pos 0
      → Answers fd stack t (answer_request os fd stack t).0
  unfolding answer_request
  answer_request-Answers fd stack t e =
      let next = send_message os fd server_ack_msg succeed in
      let x = expect_message-Expects fd client_req_msg stack next t e in
      let t₁ = Event.received fd x.bytes ∷ t in
      let later : (next t₁).1 ≡ pos 0 = ap (λ (r : Outcome). r.1) (sym x.goes_on) ∙ e in
      record {
        request = x.bytes;
        is_request = is_message-request x.bytes stack x.fits;
        did =
            ap (λ (r : Outcome). r.0)
              (x.goes_on ∙ send_message-eq fd server_ack_msg succeed t₁ later);
      }

  -- A request sent and its acknowledgement got over `fd`, after `t`.
  pub record IsAnswered (fd : ℕ) (stack : List ℕ) (t t' : Trace) : Type 0 where
    pub reply : List ℕ
    pub is_ack : is_message server_ack_msg reply stack ≡ true
    pub did : t' ≡ Event.received fd reply ∷ Event.sent fd client_req_msg ∷ t

  make_request-IsAnswered :
      (fd : ℕ) (stack : List ℕ) (t : Trace)
      → (make_request os fd stack t).1 ≡ pos 0
      → IsAnswered fd stack t (make_request os fd stack t).0
  unfolding make_request
  make_request-IsAnswered fd stack t e =
      let next = expect_message os fd server_ack_msg stack succeed in
      let wrote = send_message-eq fd client_req_msg next t e in
      let t₁ = Event.sent fd client_req_msg ∷ t in
      let later : (next t₁).1 ≡ pos 0 = ap (λ (r : Outcome). r.1) (sym wrote) ∙ e in
      let x = expect_message-Expects fd server_ack_msg stack succeed t₁ later in
      record {
        reply = x.bytes;
        is_ack = x.fits;
        did = ap (λ (r : Outcome). r.0) (wrote ∙ x.goes_on);
      }

  -- The stream server's whole run, when all goes well.
  pub record ServesStream (stack : List ℕ) (t t' : Trace) : Type 0 where
    pub sock_fd : ℕ
    pub conn_fd : ℕ
    pub request : List ℕ
    pub is_request : Begins client_req_msg (overlay request stack)
    pub did :
        t'
        ≡ Event.closed sock_fd
          ∷ Event.unlinked server_stream_socket_path
          ∷ Event.closed conn_fd
          ∷ Event.sent conn_fd server_ack_msg
          ∷ Event.received conn_fd request
          ∷ Event.opened conn_fd
          ∷ Event.listening sock_fd
          ∷ Event.bound sock_fd server_stream_socket_path
          ∷ Event.opened sock_fd
          ∷ t

  -- The stream client's whole run, when all goes well.
  pub record StreamAnswered (stack : List ℕ) (t t' : Trace) : Type 0 where
    pub sock_fd : ℕ
    pub reply : List ℕ
    pub is_ack : is_message server_ack_msg reply stack ≡ true
    pub did :
        t'
        ≡ Event.closed sock_fd
          ∷ Event.received sock_fd reply
          ∷ Event.sent sock_fd client_req_msg
          ∷ Event.connected sock_fd
          ∷ Event.opened sock_fd
          ∷ t

  -- The part of the server's run from `listen` on.
  record ServesConnection (fd : ℕ) (stack : List ℕ) (t t' : Trace) : Type 0 where
    conn_fd : ℕ
    answers :
        Answers conn_fd stack
          (Event.opened conn_fd ∷ Event.listening fd ∷ t)
          (answer_request os conn_fd stack (Event.opened conn_fd ∷ Event.listening fd ∷ t)).0
    did :
        t'
        ≡ Event.closed conn_fd
          ∷ (answer_request os conn_fd stack (Event.opened conn_fd ∷ Event.listening fd ∷ t)).0

  serve_connection-ServesConnection :
      (fd : ℕ) (stack : List ℕ) (t : Trace)
      → (serve_connection os fd stack t).1 ≡ pos 0
      → ServesConnection fd stack t (serve_connection os fd stack t).0
  unfolding serve_connection
  serve_connection-ServesConnection fd stack t =
      let t₁ = Event.listening fd ∷ t in
      if-rule (λ (r : Outcome). r.1 ≡ pos 0 → ServesConnection fd stack t r.0) (not (os.listen t))
        (λ failed e. cc)
        (λ listens.
          case_option-rule (λ (r : Outcome). r.1 ≡ pos 0 → ServesConnection fd stack t r.0)
            (os.accept t₁) (λ failed e. cc)
            (λ conn_fd accepted e. record {
              conn_fd = conn_fd;
              answers = answer_request-Answers conn_fd stack (Event.opened conn_fd ∷ t₁) e;
              did = refl;
            }))

  served :
      (stack : List ℕ) (sock_fd : ℕ) (t : Trace) (r : Outcome)
      → (unlink_path os server_stream_socket_path r).1 ≡ pos 0
      → (r.1 ≡ pos 0
          → ServesConnection sock_fd stack
              (Event.bound sock_fd server_stream_socket_path ∷ Event.opened sock_fd ∷ t)
              r.0)
      → ServesStream stack t (close_fd sock_fd (unlink_path os server_stream_socket_path r)).0
  served stack sock_fd t r e serves =
      let (zero_ret, unlinks) = unlink_path-eq server_stream_socket_path r e in
      let c = serves zero_ret in
      record {
        sock_fd = sock_fd;
        conn_fd = c.conn_fd;
        request = c.answers.request;
        is_request = c.answers.is_request;
        did =
            ap (λ (q : Outcome). Event.closed sock_fd ∷ q.0) unlinks
            ∙ rw (c.did, c.answers.did) refl;
      }

-- If the stream server returns 0, it made a socket, bound it to the path, listened, accepted one
-- connection, received bytes over it and sent the whole acknowledgement, closed the connection,
-- removed the path and closed the socket, in this order, and did nothing else. The bytes received
-- and, when they are fewer than the buffer has, what the buffer held behind them begin with the
-- request and its terminator.
pub run_stream_server-ServesStream :
    (os : System) (stack : List ℕ) (t : Trace)
    → (run_stream_server os stack t).1 ≡ pos 0
    → ServesStream os stack t (run_stream_server os stack t).0
unfolding run_stream_server
run_stream_server-ServesStream os stack t =
    case_option-rule (λ (r : Outcome). r.1 ≡ pos 0 → ServesStream os stack t r.0) (os.socket t)
      (λ failed e. cc)
      (λ fd made.
        let t₁ = Event.opened fd ∷ t in
        let t₂ = Event.bound fd server_stream_socket_path ∷ t₁ in
        if-rule (λ (r : Outcome). r.1 ≡ pos 0 → ServesStream os stack t (close_fd fd r).0)
          (not (os.bind t₁)) (λ failed e. cc)
          (λ bound e.
            served os stack fd t (serve_connection os fd stack t₂) e
              (serve_connection-ServesConnection os fd stack t₂)))

-- If the stream client returns 0, it made a socket, connected it, sent the whole request, got an
-- acknowledgement and closed the socket, in this order, and did nothing else.
pub run_stream_client-StreamAnswered :
    (os : System) (stack : List ℕ) (t : Trace)
    → (run_stream_client os stack t).1 ≡ pos 0
    → StreamAnswered os stack t (run_stream_client os stack t).0
unfolding run_stream_client
run_stream_client-StreamAnswered os stack t =
    case_option-rule (λ (r : Outcome). r.1 ≡ pos 0 → StreamAnswered os stack t r.0) (os.socket t)
      (λ failed e. cc)
      (λ fd made.
        let t₁ = Event.opened fd ∷ t in
        if-rule (λ (r : Outcome). r.1 ≡ pos 0 → StreamAnswered os stack t (close_fd fd r).0)
          (not (os.connect t₁)) (λ failed e. cc)
          (λ connects e.
            let a = make_request-IsAnswered os fd stack (Event.connected fd ∷ t₁) e in
            record {
              sock_fd = fd;
              reply = a.reply;
              is_ack = a.is_ack;
              did = ap (λ (q : Trace). Event.closed fd ∷ q) a.did;
            }))
