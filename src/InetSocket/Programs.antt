-- ===== src/InetSocket/Programs.antt =====
-- inet-socket/server.c and client.c: every run closes the descriptors that it opened.
use Prim.Native.String.{String}
use snippet.Base.{
  ℕ, zero, suc, not, ◌≡◌, ◌≢◌, refl, ap, sym, Option, none, some, List, ◌∷◌, length, take, ◌==◌,
  if-rule, case_option, case_option-rule, Option-cases, inl, inr, ℤ, pos, negsuc, is_zero,
}
use snippet.Posix.{Event, Trace, System, SockaddrIn, open_fds, remove_head}
use snippet.InetIo.{
  PayloadType, type_code, DemoPacket, metadata_bytes, metadata_length, sizeof_metadata, send_value,
  send_packet, recv_value, recv_metadata, recv_payload, free_packet, err_free_packet,
}
use snippet.InetSocket.Setup.{PtonAnswer, fill_sockaddr_in, inet4_listen, inet4_connect}
use snippet.InetSocket.Sockets.{
  ReturnsSocket, inet4_listen-ReturnsSocket, inet4_connect-ReturnsSocket,
}
use snippet.InetSocket.Demo.{
  is_descriptor, Stack, array_payload, struct_payload, string_payload, uint64_payload,
  receive_packet, transmit, serve_packets, accept_connection, close_socket, run_server_lite,
  request_packets, run_client_lite,
}

module _ {ℓ} {A : Type ℓ} (fds : List ℕ) where
  -- The descriptors that are open at the end of a step.
  abbrev Leaves : Trace × A → Type 0
  Leaves r = open_fds r.0 ≡ fds

module _ (os : System) (fds : List ℕ) where
  send_packet-Leaves :
      (head : List ℕ) (fd : ℕ) (type : PayloadType) (size : ℕ) (value : List ℕ) (t : Trace)
      → open_fds t ≡ fds
      → Leaves fds (send_packet os head fd type size value t)
  unfolding send_packet send_value open_fds
  send_packet-Leaves head fd type size value t h =
      let bytes = metadata_bytes head (type_code type) size in
      let t₁ = Event.sent fd bytes ∷ t in
      case_option-rule (Leaves fds) (os.write t bytes) (λ failed. h)
        (λ n wrote.
          if-rule (Leaves fds) (not (n == sizeof_metadata)) (λ short. h)
            (λ full.
              if-rule (Leaves fds) (size == 0) (λ empty. h)
                (λ long.
                  case_option-rule (Leaves fds) (os.write t₁ (take size value)) (λ failed. h)
                    (λ m wrote'.
                      if-rule (Leaves fds) (not (m == size)) (λ short. h) (λ full'. h)))))

  recv_payload-Leaves : (fd : ℕ) (t : Trace) → open_fds t ≡ fds → Leaves fds (recv_payload os fd t)
  unfolding recv_payload recv_metadata recv_value err_free_packet open_fds
  recv_payload-Leaves fd t h =
      case_option-rule (Leaves fds) (os.malloc t) (λ failed. h)
        (λ packet made.
          let t₁ = Event.allocated packet ∷ t in
          case_option-rule (Leaves fds) (os.read t₁ sizeof_metadata) (λ failed. h)
            (λ head got.
              let t₂ = Event.received fd head ∷ t₁ in
              let size = metadata_length head in
              if-rule (Leaves fds) (not (length head == sizeof_metadata)) (λ short. h)
                (λ full.
                  if-rule (Leaves fds) (size == 0) (λ empty. h)
                    (λ long.
                      case_option-rule (Leaves fds) (os.malloc t₂) (λ failed. h)
                        (λ payload made'.
                          case_option-rule (Leaves fds)
                            (os.read (Event.allocated payload ∷ t₂) size) (λ failed. h)
                            (λ bytes got'.
                              if-rule (Leaves fds) (not (length bytes == size)) (λ short. h)
                                (λ full'. h)))))))

  free_packet-Leaves :
      (p : DemoPacket) (t : Trace) → open_fds t ≡ fds → open_fds (free_packet p t) ≡ fds
  unfolding free_packet open_fds
  free_packet-Leaves p t h = elim (Option-cases p.payload) [
    | inl empty ↦ rw (empty) h
    | inr (q, held) ↦ rw (held) h
  ]

-- A step that ends with the descriptors that it began with.
Keeps : List ℕ → (Trace → Trace × ℤ) → Type 0
Keeps fds step = (t : Trace) → open_fds t ≡ fds → Leaves fds (step t)

kept :
    (fds : List ℕ) (step : Trace → Trace × ℤ)
    → Keeps fds step
    → (t : Trace) → open_fds t ≡ fds
    → Leaves fds (step t)
unfolding Keeps
kept fds step k = k

module _ (os : System) (stack : Stack) (fds : List ℕ) where
  done-Keeps : (ret : ℤ) → Keeps fds (λ t. (t, ret))
  unfolding Keeps
  done-Keeps ret t h = h

  receive_packet-Keeps :
      (fd : ℕ) (ret : ℤ) (next : Trace → Trace × ℤ)
      → Keeps fds next
      → Keeps fds (receive_packet os stack fd ret next)
  unfolding receive_packet Keeps
  receive_packet-Keeps fd ret next go t h =
      let kept = recv_payload-Leaves os fds fd t h in
      case_option-rule (Leaves fds) (recv_payload os fd t).1 (λ failed. kept)
        (λ p got. go _ (free_packet-Leaves os fds p _ kept))

  transmit-Keeps :
      (fd : ℕ) (type : PayloadType) (value : List ℕ) (next : Trace → Trace × ℤ)
      → Keeps fds next
      → Keeps fds (transmit os stack fd type value next)
  unfolding transmit Keeps
  transmit-Keeps fd type value next go t h =
      let r = send_packet os stack.head fd type (length value) value t in
      let kept = send_packet-Leaves os fds stack.head fd type (length value) value t h in
      if-rule (Leaves fds) (not (is_zero r.1)) (λ failed. kept) (λ sent. go _ kept)

  serve_packets-Keeps : (fd : ℕ) → Keeps fds (serve_packets os stack fd)
  unfolding serve_packets
  serve_packets-Keeps fd =
      let structure =
        transmit-Keeps fd PayloadType.demo_struct_payload (struct_payload stack.gap) _
          (done-Keeps (pos 0)) in
      let array = transmit-Keeps fd PayloadType.demo_int_array_payload array_payload _ structure in
      receive_packet-Keeps fd (pos fd) _ (receive_packet-Keeps fd (pos fd) _ array)

  request_packets-Keeps : (fd : ℕ) → Keeps fds (request_packets os stack fd)
  unfolding request_packets
  request_packets-Keeps fd =
      let answers =
        receive_packet-Keeps fd (pos 0) _
          (receive_packet-Keeps fd (pos 0) _ (done-Keeps (pos 0))) in
      let number = transmit-Keeps fd PayloadType.demo_uint64_payload uint64_payload _ answers in
      transmit-Keeps fd PayloadType.demo_string_payload string_payload _ number

closed_again :
    (fd : ℕ) (fds : List ℕ) (r : Trace × ℤ)
    → open_fds r.0 ≡ fd ∷ fds
    → open_fds (close_socket fd r).0 ≡ fds
unfolding open_fds
closed_again fd fds (t, ret) h = rw (h) (remove_head fd fds)

accept_connection-Keeps :
    (os : System) (stack : Stack) (fds : List ℕ) → Keeps fds (accept_connection os stack)
unfolding accept_connection Keeps open_fds
accept_connection-Keeps os stack fds t h =
    case_option-rule (Leaves fds) (os.accept t) (λ failed. h)
      (λ conn accepted.
        let t₁ = Event.opened conn ∷ t in
        closed_again conn fds (serve_packets os stack conn t₁) (
          kept (conn ∷ fds) (serve_packets os stack conn)
            (serve_packets-Keeps os stack (conn ∷ fds) conn) t₁ (ap (◌∷◌ conn) h)))

-- A result that is a descriptor, 0 apart, is the one opened; another leaves all as it was.
descriptor_cases :
    (before : Trace) (r : Trace × ℤ) (o : Option ℕ)
    → ReturnsSocket before r
    → (r.1 ≢ pos 0)
    → is_descriptor r.1 ≡ o
    → open_fds r.0 ≡ case_option o (open_fds before) (λ fd. fd ∷ open_fds before)
unfolding ReturnsSocket
descriptor_cases before (t, pos zero) o h ne e = absurd (ne refl)
descriptor_cases before (t, pos (suc n)) o h ne e = rw (sym e) (h.0)
descriptor_cases before (t, negsuc n) o h ne e = rw (sym e) (h.0)

abbrev HasNonzero : Trace × ℤ → Type 0
HasNonzero r = r.1 ≢ pos 0

module _ (os : System) (not_zero : (t : Trace) → os.socket t ≢ some 0) where
  inet4_listen-nonzero : (address : SockaddrIn) (t : Trace) → HasNonzero (inet4_listen os address t)
  unfolding inet4_listen
  inet4_listen-nonzero address t =
      case_option-rule HasNonzero (os.socket t) (λ failed e. cc)
        (λ fd made.
          let t₁ = Event.opened fd ∷ t in
          let t₂ = Event.configured fd ∷ t₁ in
          let t₃ = Event.bound_inet fd address ∷ t₂ in
          if-rule HasNonzero (not (os.setsockopt t₁)) (λ failed e. cc)
            (λ done.
              if-rule HasNonzero (not (os.bind t₂)) (λ failed e. cc)
                (λ bound.
                  if-rule HasNonzero (not (os.listen t₃)) (λ failed e. cc)
                    (λ listens e. not_zero t cc))))

  inet4_connect-nonzero :
      (address : SockaddrIn) (t : Trace) → HasNonzero (inet4_connect os address t)
  unfolding inet4_connect
  inet4_connect-nonzero address t =
      case_option-rule HasNonzero (os.socket t) (λ failed e. cc)
        (λ fd made.
          if-rule HasNonzero (not (os.connect (Event.opened fd ∷ t))) (λ failed e. cc)
            (λ connects e. not_zero t cc))

  module _ (inet_pton : String → PtonAnswer) (stack : Stack) where
    -- Where no socket is descriptor 0 (standard input stays open), the server program ends with the
    -- descriptors that were open before it, whatever the system answers, and so does the client
    -- program.
    pub run_lite-open_fds :
        (ip : Option String) (port : ℕ) (t : Trace)
        → (open_fds (run_server_lite os stack inet_pton ip port t).0 ≡ open_fds t)
          × (open_fds (run_client_lite os stack inet_pton ip port t).0 ≡ open_fds t)
    unfolding run_server_lite run_client_lite open_fds
    run_lite-open_fds ip port t =
        let fds = open_fds t in
        let filled = fill_sockaddr_in inet_pton ip port in
        let r = inet4_listen os filled.0 t in
        let s = inet4_connect os filled.0 t in
        let listens = λ (o : Option ℕ).
          descriptor_cases t r o (inet4_listen-ReturnsSocket os filled.0 t)
            (inet4_listen-nonzero filled.0 t) in
        let connects = λ (o : Option ℕ).
          descriptor_cases t s o (inet4_connect-ReturnsSocket os filled.0 t)
            (inet4_connect-nonzero filled.0 t) in
        (
          if-rule (Leaves fds) (not (is_zero filled.1)) (λ failed. refl)
              (λ ready.
                case_option-rule (Leaves fds) (is_descriptor r.1) (λ refused. listens none refused)
                  (λ fd got. closed_again fd fds (accept_connection os stack r.0) (
                    kept (fd ∷ fds) (accept_connection os stack)
                      (accept_connection-Keeps os stack (fd ∷ fds)) r.0 (listens (some fd) got)))),
          if-rule (Leaves fds) (not (is_zero filled.1)) (λ failed. refl)
              (λ ready.
                case_option-rule (Leaves fds) (is_descriptor s.1) (λ refused. connects none refused)
                  (λ fd got. closed_again fd fds (request_packets os stack fd s.0) (
                    kept (fd ∷ fds) (request_packets os stack fd)
                      (request_packets-Keeps os stack (fd ∷ fds) fd) s.0
                      (connects (some fd) got)))),
        )
