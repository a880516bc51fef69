-- ===== src/InetSocket/Setup.antt =====
-- linux-c/socket/inet-socket/inet_socket.c: `fill_sockaddr_in`, `inet4_listen`, `inet4_connect`,
-- `inet4_listen_str` and `inet4_connect_str`. Messages to the terminal are left out, and with them
-- `print_addrinfo`, `snprintf_addr_name` and `snprintf_addr`.
use Prim.Native.String.{String}
use snippet.Base.{
  ℕ, ◌+◌, ◌*◌, ◌/◌, ◌%◌, not, Option, none, some, List, [], ◌∷◌, if◌then◌else◌, case_option, ℤ, pos,
  negsuc, neg,
}
use snippet.Posix.{Event, Trace, System, SockaddrIn}

abbrev pub af_inet : ℕ
af_inet = 2

abbrev pub inaddr_any : ℕ
inaddr_any = 0

-- `htons` on a little-endian machine
abbrev pub htons : ℕ → ℕ
htons port = port % 256 * 256 + port / 256

-- What `inet_pton` says of a text: 1 and the address, 0, or -1.
pub data PtonAnswer : Type 0 where
  converted : (address : ℕ) → PtonAnswer
  not_valid : PtonAnswer
  not_supported : PtonAnswer

-- What `getaddrinfo` says: an error number, negative in the C library of Linux, or a list of
-- addresses, which stands in memory.
pub data Lookup : Type 0 where
  failed : ℕ → Lookup
  found : (results : ℕ) (addresses : List SockaddrIn) → Lookup

-- `sock_addr` and the value returned; the address of a failed call is the partly filled one.
unfoldable pub fill_sockaddr_in : (String → PtonAnswer) → Option String → ℕ → SockaddrIn × ℤ
fill_sockaddr_in inet_pton ip port =
    let blank : SockaddrIn = record {
      sin_family = af_inet;
      sin_port = htons port;
      sin_addr = inaddr_any;
    } in
    case_option ip (blank, pos 0)
      λ text. elim (inet_pton text) [
        | PtonAnswer.converted address ↦
            (record { sin_family = af_inet; sin_port = htons port; sin_addr = address }, pos 0)
        | PtonAnswer.not_valid ↦ (blank, neg 1)
        | PtonAnswer.not_supported ↦ (blank, neg 1)
      ]

module _ (os : System) where
  unfoldable pub inet4_listen : SockaddrIn → Trace → Trace × ℤ
  inet4_listen sock_addr t =
      case_option (os.socket t) (t, neg 1)
        λ sock_fd.
          let t₁ = Event.opened sock_fd ∷ t in
          if not (os.setsockopt t₁)
          then (Event.closed sock_fd ∷ t₁, neg 1)
          else let t₂ = Event.configured sock_fd ∷ t₁ in
            if not (os.bind t₂)
            then (Event.closed sock_fd ∷ t₂, neg 1)
            else let t₃ = Event.bound_inet sock_fd sock_addr ∷ t₂ in
              if not (os.listen t₃)
              then (Event.closed sock_fd ∷ t₃, neg 1)
              else (Event.listening sock_fd ∷ t₃, pos sock_fd)

  unfoldable pub inet4_connect : SockaddrIn → Trace → Trace × ℤ
  inet4_connect sock_addr t =
      case_option (os.socket t) (t, neg 1)
        λ sock_fd.
          let t₁ = Event.opened sock_fd ∷ t in
          if not (os.connect t₁)
          then (Event.closed sock_fd ∷ t₁, neg 1)
          else (Event.connected sock_fd ∷ t₁, pos sock_fd)

  -- `none` is a `sock_fd` of -1. A call on it fails with EBADF and does nothing.
  unfoldable pub configure_socket : ℕ → Trace → Trace × Option ℕ
  configure_socket sock_fd t =
      if not (os.setsockopt t)
      then (Event.closed sock_fd ∷ t, none)
      else (Event.configured sock_fd ∷ t, some sock_fd)

  unfoldable pub bind_socket : SockaddrIn → Trace × Option ℕ → Trace × Option ℕ
  bind_socket address (t, fd) =
      case_option fd (t, none)
        λ sock_fd.
          if not (os.bind t)
          then (Event.closed sock_fd ∷ t, none)
          else (Event.bound_inet sock_fd address ∷ t, some sock_fd)

  -- The body of the loop of `inet4_listen_str`, when there is no socket yet.
  unfoldable pub bind_address : SockaddrIn → Trace → Trace × Option ℕ
  unfolding configure_socket bind_socket
  bind_address address t =
      case_option (os.socket t) (t, none)
        λ sock_fd. bind_socket address (configure_socket sock_fd (Event.opened sock_fd ∷ t))

  -- The body of the loop of `inet4_connect_str`, when there is no socket yet.
  unfoldable pub connect_address : SockaddrIn → Trace → Trace × Option ℕ
  connect_address address t =
      case_option (os.socket t) (t, none)
        λ sock_fd.
          let t₁ = Event.opened sock_fd ∷ t in
          if not (os.connect t₁)
          then (Event.closed sock_fd ∷ t₁, none)
          else (Event.connected sock_fd ∷ t₁, some sock_fd)

  -- The loop over the addresses; once there is a socket the rest is passed over.
  unfoldable pub try_addresses :
      (SockaddrIn → Trace → Trace × Option ℕ)
      → List SockaddrIn
      → Trace × Option ℕ
      → Trace × Option ℕ
  try_addresses attempt [] state = state
  try_addresses attempt (address ∷ rest) (t, some fd) = try_addresses attempt rest (t, some fd)
  try_addresses attempt (address ∷ rest) (t, none) = try_addresses attempt rest (attempt address t)

  -- What stands behind the loop of `inet4_listen_str`; `results` is freed on every path.
  unfoldable pub listen_on : ℕ → Trace × Option ℕ → Trace × ℤ
  listen_on results (t, fd) =
      case_option fd (Event.freed results ∷ t, neg 1)
        λ sock_fd.
          if not (os.listen t)
          then (Event.freed results ∷ Event.closed sock_fd ∷ t, neg 1)
          else (Event.freed results ∷ Event.listening sock_fd ∷ t, pos sock_fd)

  -- From the checks of the answer of `getaddrinfo` to the end.
  unfoldable pub listen_looked_up : Lookup → Trace → Trace × ℤ
  unfolding bind_address try_addresses listen_on
  listen_looked_up (Lookup.failed error) t = (t, negsuc error)
  listen_looked_up (Lookup.found results []) t = (t, neg 1)
  listen_looked_up (Lookup.found results (address ∷ rest)) t =
      listen_on results
        (try_addresses bind_address (address ∷ rest) (Event.allocated results ∷ t, none))

  unfoldable pub inet4_listen_str : (Trace → Lookup) → Trace → Trace × ℤ
  unfolding listen_looked_up
  inet4_listen_str getaddrinfo t = listen_looked_up (getaddrinfo t) t

  unfoldable pub connected_on : ℕ → Trace × Option ℕ → Trace × ℤ
  connected_on results (t, fd) =
      case_option fd (Event.freed results ∷ t, neg 1)
        λ sock_fd. (Event.freed results ∷ t, pos sock_fd)

  unfoldable pub connect_looked_up : Lookup → Trace → Trace × ℤ
  unfolding connect_address try_addresses connected_on
  connect_looked_up (Lookup.failed error) t = (t, negsuc error)
  connect_looked_up (Lookup.found results []) t = (t, neg 1)
  connect_looked_up (Lookup.found results (address ∷ rest)) t =
      connected_on results
        (try_addresses connect_address (address ∷ rest) (Event.allocated results ∷ t, none))

  unfoldable pub inet4_connect_str : (Trace → Lookup) → Trace → Trace × ℤ
  unfolding connect_looked_up
  inet4_connect_str getaddrinfo t = connect_looked_up (getaddrinfo t) t
