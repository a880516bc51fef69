-- ===== src/InetSocket/Sockets.antt =====
-- inet_socket.c: what each of the four ways to set up a socket leaves open.
use snippet.Base.{
  ℕ, not, ◌≡◌, refl, Option, none, some, List, [], ◌∷◌, if-rule, case_option-rule, ℤ, pos, negsuc,
}
use snippet.Posix.{Event, Trace, System, SockaddrIn, open_fds, live, remove, remove_head}
use snippet.InetSocket.Setup.{
  Lookup, inet4_listen, inet4_connect, configure_socket, bind_socket, bind_address, connect_address,
  try_addresses, listen_on, listen_looked_up, connect_looked_up, inet4_listen_str, connected_on,
  inet4_connect_str,
}

-- The descriptor returned is the one that is open in addition; with an error none is. Memory is as
-- before.
unfoldable pub ReturnsSocket : Trace → Trace × ℤ → Type 0
ReturnsSocket before (t, pos fd) = (open_fds t ≡ fd ∷ open_fds before) × (live t ≡ live before)
ReturnsSocket before (t, negsuc error) = (open_fds t ≡ open_fds before) × (live t ≡ live before)

-- The same of an attempt, in which `fds` and `blocks` are what there was before.
HasSocket : List ℕ → List ℕ → Trace × Option ℕ → Type 0
HasSocket fds blocks (t, some fd) = (open_fds t ≡ fd ∷ fds) × (live t ≡ blocks)
HasSocket fds blocks (t, none) = (open_fds t ≡ fds) × (live t ≡ blocks)

module _ (os : System) where
  pub inet4_listen-ReturnsSocket :
      (address : SockaddrIn) (t : Trace) → ReturnsSocket t (inet4_listen os address t)
  unfolding inet4_listen ReturnsSocket open_fds live
  inet4_listen-ReturnsSocket address t =
      case_option-rule (ReturnsSocket t) (os.socket t) (λ failed. (refl, refl))
        (λ fd made.
          let shut : remove fd (fd ∷ open_fds t) ≡ open_fds t = remove_head fd (open_fds t) in
          let t₁ = Event.opened fd ∷ t in
          let t₂ = Event.configured fd ∷ t₁ in
          let t₃ = Event.bound_inet fd address ∷ t₂ in
          if-rule (ReturnsSocket t) (not (os.setsockopt t₁)) (λ failed. (shut, refl))
            (λ done.
              if-rule (ReturnsSocket t) (not (os.bind t₂)) (λ failed. (shut, refl))
                (λ bound.
                  if-rule (ReturnsSocket t) (not (os.listen t₃)) (λ failed. (shut, refl))
                    (λ listens. (refl, refl)))))

  pub inet4_connect-ReturnsSocket :
      (address : SockaddrIn) (t : Trace) → ReturnsSocket t (inet4_connect os address t)
  unfolding inet4_connect ReturnsSocket open_fds live
  inet4_connect-ReturnsSocket address t =
      case_option-rule (ReturnsSocket t) (os.socket t) (λ failed. (refl, refl))
        (λ fd made.
          if-rule (ReturnsSocket t) (not (os.connect (Event.opened fd ∷ t)))
            (λ failed. (remove_head fd (open_fds t), refl)) (λ connects. (refl, refl)))

  bind_socket-HasSocket :
      (fds blocks : List ℕ) (address : SockaddrIn) (s : Trace × Option ℕ)
      → HasSocket fds blocks s
      → HasSocket fds blocks (bind_socket os address s)
  unfolding bind_socket HasSocket open_fds live
  bind_socket-HasSocket fds blocks address (t, none) h = h
  bind_socket-HasSocket fds blocks address (t, some fd) h =
      if-rule (HasSocket fds blocks) (not (os.bind t))
        (λ failed. (rw (h.0) (remove_head fd fds), h.1)) (λ bound. h)

  bind_address-HasSocket :
      (fds blocks : List ℕ) (address : SockaddrIn) (t : Trace)
      → (open_fds t ≡ fds) × (live t ≡ blocks)
      → HasSocket fds blocks (bind_address os address t)
  unfolding bind_address configure_socket HasSocket open_fds live
  bind_address-HasSocket fds blocks address t h =
      case_option-rule (HasSocket fds blocks) (os.socket t) (λ failed. h)
        (λ fd made.
          let t₁ = Event.opened fd ∷ t in
          bind_socket-HasSocket fds blocks address (configure_socket os fd t₁) (
            if-rule (HasSocket fds blocks) (not (os.setsockopt t₁))
              (λ failed. (rw (h.0) (remove_head fd fds), h.1)) (λ done. (rw (h.0), h.1))))

  connect_address-HasSocket :
      (fds blocks : List ℕ) (address : SockaddrIn) (t : Trace)
      → (open_fds t ≡ fds) × (live t ≡ blocks)
      → HasSocket fds blocks (connect_address os address t)
  unfolding connect_address HasSocket open_fds live
  connect_address-HasSocket fds blocks address t h =
      case_option-rule (HasSocket fds blocks) (os.socket t) (λ failed. h)
        (λ fd made.
          if-rule (HasSocket fds blocks) (not (os.connect (Event.opened fd ∷ t)))
            (λ failed. (rw (h.0) (remove_head fd fds), h.1)) (λ connects. (rw (h.0), h.1)))

  try_addresses-HasSocket :
      (fds blocks : List ℕ) (attempt : SockaddrIn → Trace → Trace × Option ℕ)
      → ((address : SockaddrIn) (t : Trace)
          → (open_fds t ≡ fds) × (live t ≡ blocks)
          → HasSocket fds blocks (attempt address t))
      → (addresses : List SockaddrIn) (s : Trace × Option ℕ) → HasSocket fds blocks s
      → HasSocket fds blocks (try_addresses os attempt addresses s)
  unfolding try_addresses HasSocket
  try_addresses-HasSocket fds blocks attempt step [] s h = h
  try_addresses-HasSocket fds blocks attempt step (address ∷ rest) (t, some fd) h =
      try_addresses-HasSocket fds blocks attempt step rest (t, some fd) h
  try_addresses-HasSocket fds blocks attempt step (address ∷ rest) (t, none) h =
      try_addresses-HasSocket fds blocks attempt step rest (attempt address t) (step address t h)

  listen_on-ReturnsSocket :
      (before : Trace) (results : ℕ) (s : Trace × Option ℕ)
      → HasSocket (open_fds before) (results ∷ live before) s
      → ReturnsSocket before (listen_on os results s)
  unfolding listen_on HasSocket ReturnsSocket open_fds live
  listen_on-ReturnsSocket before results (t, none) h =
      (h.0, rw (h.1) (remove_head results (live before)))
  listen_on-ReturnsSocket before results (t, some fd) h =
      let released : remove results (live t) ≡ live before =
        rw (h.1) (remove_head results (live before)) in
      if-rule (ReturnsSocket before) (not (os.listen t))
        (λ failed. (rw (h.0) (remove_head fd (open_fds before)), released))
        (λ listens. (h.0, released))

  connected_on-ReturnsSocket :
      (before : Trace) (results : ℕ) (s : Trace × Option ℕ)
      → HasSocket (open_fds before) (results ∷ live before) s
      → ReturnsSocket before (connected_on os results s)
  unfolding connected_on HasSocket ReturnsSocket open_fds live
  connected_on-ReturnsSocket before results (t, none) h =
      (h.0, rw (h.1) (remove_head results (live before)))
  connected_on-ReturnsSocket before results (t, some fd) h =
      (h.0, rw (h.1) (remove_head results (live before)))

  listen_looked_up-ReturnsSocket :
      (lookup : Lookup) (t : Trace) → ReturnsSocket t (listen_looked_up os lookup t)
  unfolding listen_looked_up ReturnsSocket HasSocket open_fds live
  listen_looked_up-ReturnsSocket (Lookup.failed error) t = (refl, refl)
  listen_looked_up-ReturnsSocket (Lookup.found results []) t = (refl, refl)
  listen_looked_up-ReturnsSocket (Lookup.found results (address ∷ rest)) t =
      let fds = open_fds t in
      let blocks = results ∷ live t in
      listen_on-ReturnsSocket t results _ (
        try_addresses-HasSocket fds blocks (bind_address os) (bind_address-HasSocket fds blocks)
          (address ∷ rest) (Event.allocated results ∷ t, none) (refl, refl))

  connect_looked_up-ReturnsSocket :
      (lookup : Lookup) (t : Trace) → ReturnsSocket t (connect_looked_up os lookup t)
  unfolding connect_looked_up ReturnsSocket HasSocket open_fds live
  connect_looked_up-ReturnsSocket (Lookup.failed error) t = (refl, refl)
  connect_looked_up-ReturnsSocket (Lookup.found results []) t = (refl, refl)
  connect_looked_up-ReturnsSocket (Lookup.found results (address ∷ rest)) t =
      let fds = open_fds t in
      let blocks = results ∷ live t in
      connected_on-ReturnsSocket t results _ (
        try_addresses-HasSocket fds blocks (connect_address os)
          (connect_address-HasSocket fds blocks) (address ∷ rest)
          (Event.allocated results ∷ t, none) (refl, refl))

-- Whatever the system answers, each of the four functions that set up a socket either returns a
-- descriptor, which is the one that is open in addition, or an error with the descriptors as they
-- were, and the looked-up addresses are freed.
pub inet4-ReturnsSocket :
    (os : System) (getaddrinfo : Trace → Lookup) (address : SockaddrIn) (t : Trace)
    → (ReturnsSocket t (inet4_listen os address t))
      × (ReturnsSocket t (inet4_connect os address t))
      × (ReturnsSocket t (inet4_listen_str os getaddrinfo t))
      × (ReturnsSocket t (inet4_connect_str os getaddrinfo t))
unfolding inet4_listen_str inet4_connect_str
inet4-ReturnsSocket os getaddrinfo address t = (
  inet4_listen-ReturnsSocket os address t,
  inet4_connect-ReturnsSocket os address t,
  listen_looked_up-ReturnsSocket os (getaddrinfo t) t,
  connect_looked_up-ReturnsSocket os (getaddrinfo t) t,
)
