-- ===== src/InetSocket/Listening.antt =====
-- inet_socket.c: what a descriptor that `inet4_listen_str` or `inet4_listen` returns stands for.
use Prim.{Unit, tt}
use mathlib.Core.List.{append_assoc}
use snippet.Base.{
  sym, subst, ℕ, not, ◌≡◌, refl, ap, ◌∙◌, Option, none, some, List, [], ◌∷◌, ◌++◌, if-rule,
  case_option-rule, ℤ, pos, negsuc,
}
use snippet.Posix.{Event, Trace, System, SockaddrIn}
use snippet.InetSocket.Setup.{
  Lookup, configure_socket, bind_socket, bind_address, try_addresses, listen_on, listen_looked_up,
  inet4_listen_str,
}

abbrev pub Among : SockaddrIn → List SockaddrIn → Type 0
Among a addresses =
    (before : List SockaddrIn) × (after : List SockaddrIn) × (addresses ≡ before ++ a ∷ after)

-- The last thing done was to bind the socket, if there is one, to one of the addresses.
Bound : List SockaddrIn → Trace × Option ℕ → Type 0
Bound addresses (t, none) = Unit
Bound addresses (t, some fd) =
    (a : SockaddrIn) × Among a addresses × ((u : Trace) × (t ≡ Event.bound_inet fd a ∷ u))

-- The result is an error, or a descriptor that was bound to one of the addresses and then listened
-- on, after which nothing was done but to free the addresses.
pub Listens : ℕ → List SockaddrIn → Trace × ℤ → Type 0
Listens results addresses (t, negsuc error) = Unit
Listens results addresses (t, pos fd) =
    (a : SockaddrIn) × Among a addresses
    × ((u : Trace) × (t ≡ Event.freed results ∷ Event.listening fd ∷ Event.bound_inet fd a ∷ u))

further-Bound :
    (a : SockaddrIn) (rest : List SockaddrIn) (s : Trace × Option ℕ)
    → Bound rest s
    → Bound (a ∷ rest) s
unfolding Bound
further-Bound a rest (t, none) bound = tt
further-Bound a rest (t, some fd) (b, (before, after, e), u) =
    (b, (a ∷ before, after, ap (◌∷◌ a) e), u)

widened-Bound :
    (a : SockaddrIn) (rest : List SockaddrIn) (s : Trace × Option ℕ)
    → Bound (a ∷ []) s
    → Bound (a ∷ rest) s
unfolding Bound
widened-Bound a rest (t, none) bound = tt
widened-Bound a rest (t, some fd) (b, (before, after, e), u) = (
  b,
  (
    before,
    after ++ rest,
    ap (λ (xs : List SockaddrIn). xs ++ rest) e ∙ append_assoc before (b ∷ after) rest,
  ),
  u,
)

module _ (os : System) where
  bind_socket-Bound : (a : SockaddrIn) (s : Trace × Option ℕ) → Bound (a ∷ []) (bind_socket os a s)
  unfolding bind_socket Bound
  bind_socket-Bound a (t, none) = tt
  bind_socket-Bound a (t, some fd) =
      if-rule (Bound (a ∷ [])) (not (os.bind t)) (λ failed. tt)
        (λ bound. (a, ([], [], refl), (t, refl)))

  bind_address-Bound : (a : SockaddrIn) (t : Trace) → Bound (a ∷ []) (bind_address os a t)
  unfolding bind_address Bound
  bind_address-Bound a t =
      case_option-rule (Bound (a ∷ [])) (os.socket t) (λ failed. tt)
        (λ fd made. bind_socket-Bound a (configure_socket os fd (Event.opened fd ∷ t)))

  kept_socket :
      (attempt : SockaddrIn → Trace → Trace × Option ℕ) (addresses : List SockaddrIn) (t : Trace)
      (fd : ℕ)
      → try_addresses os attempt addresses (t, some fd) ≡ (t, some fd)
  unfolding try_addresses
  kept_socket attempt [] t fd = refl
  kept_socket attempt (a ∷ rest) t fd = kept_socket attempt rest t fd

  first-Bound :
      (a : SockaddrIn) (rest : List SockaddrIn) (s : Trace × Option ℕ)
      → Bound (a ∷ []) s
      → ((t : Trace) → Bound rest (try_addresses os (bind_address os) rest (t, none)))
      → Bound (a ∷ rest) (try_addresses os (bind_address os) rest s)
  first-Bound a rest (t, none) bound later =
      further-Bound a rest (try_addresses os (bind_address os) rest (t, none)) (later t)
  first-Bound a rest (t, some fd) bound later =
      subst (Bound (a ∷ rest)) (sym (kept_socket (bind_address os) rest t fd))
        (widened-Bound a rest (t, some fd) bound)

  try_addresses-Bound :
      (addresses : List SockaddrIn) (t : Trace)
      → Bound addresses (try_addresses os (bind_address os) addresses (t, none))
  unfolding try_addresses Bound
  try_addresses-Bound [] t = tt
  try_addresses-Bound (a ∷ rest) t =
      first-Bound a rest (bind_address os a t) (bind_address-Bound a t)
        (λ later. try_addresses-Bound rest later)

  listen_on-Listens :
      (results : ℕ) (addresses : List SockaddrIn) (s : Trace × Option ℕ)
      → Bound addresses s
      → Listens results addresses (listen_on os results s)
  unfolding listen_on Bound Listens
  listen_on-Listens results addresses (t, none) bound = tt
  listen_on-Listens results addresses (t, some fd) (a, among, (u, e)) =
      if-rule (Listens results addresses) (not (os.listen t)) (λ failed. tt)
        (λ listens.
          (a, among, (u, ap (λ (v : Trace). Event.freed results ∷ Event.listening fd ∷ v) e)))

-- When `getaddrinfo` finds addresses, a descriptor that `inet4_listen_str` returns was bound to one
-- of them and then listened on, after which nothing was done but to free the addresses.
pub inet4_listen_str-Listens :
    (os : System) (getaddrinfo : Trace → Lookup) (t : Trace) (results : ℕ) (first : SockaddrIn)
    (rest : List SockaddrIn)
    → getaddrinfo t ≡ Lookup.found results (first ∷ rest)
    → Listens results (first ∷ rest) (inet4_listen_str os getaddrinfo t)
unfolding inet4_listen_str listen_looked_up
inet4_listen_str-Listens os getaddrinfo t results first rest e =
    subst (λ (l : Lookup). Listens results (first ∷ rest) (listen_looked_up os l t)) (sym e)
      (listen_on-Listens os results (first ∷ rest) _
        (try_addresses-Bound os (first ∷ rest) (Event.allocated results ∷ t)))
