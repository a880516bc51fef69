-- ===== src/Posix/Events.antt =====
-- What a program has done to the system, and the descriptors, socket files and blocks of memory
-- that it has open, made and allocated.
use snippet.Base.{ℕ, ◌≡◌, refl, ◌≢◌, List, [], ◌∷◌, ◌==◌, ==_iff, if◌then◌else◌, arith}
use Prim.Native.String.{String}

-- `struct sockaddr_in`: the family, the port in network order as it is read on this machine, and
-- the address.
pub record SockaddrIn : Type 0 where
  pub sin_family : ℕ
  pub sin_port : ℕ
  pub sin_addr : ℕ

-- A call that succeeded. `opened` is `open`, `socket` or `accept`.
pub data Event : Type 0 where
  opened : (fd : ℕ) → Event
  closed : (fd : ℕ) → Event
  configured : (fd : ℕ) → Event
  bound : (fd : ℕ) (path : String) → Event
  bound_inet : (fd : ℕ) (address : SockaddrIn) → Event
  listening : (fd : ℕ) → Event
  connected : (fd : ℕ) → Event
  unlinked : (path : String) → Event
  sent : (fd : ℕ) (bytes : List ℕ) → Event
  received : (fd : ℕ) (bytes : List ℕ) → Event
  allocated : (address : ℕ) → Event
  freed : (address : ℕ) → Event

-- The latest event first.
abbrev pub Trace : Type 0
Trace = List Event

-- The list without the first `a`.
abbrev pub remove : ℕ → List ℕ → List ℕ
remove a [] = []
remove a (x ∷ xs) = if x == a then xs else x ∷ remove a xs

pub remove_head : (a : ℕ) (xs : List ℕ) → remove a (a ∷ xs) ≡ xs
remove_head a xs = rw ((==_iff a a).1 refl)

pub remove_second : (a b : ℕ) (xs : List ℕ) → a ≢ b → remove a (b ∷ a ∷ xs) ≡ b ∷ xs
remove_second a b xs ne = ground (arith, remove_head a xs)

unfoldable pub open_fds : Trace → List ℕ
open_fds [] = []
open_fds (Event.opened fd ∷ t) = fd ∷ open_fds t
open_fds (Event.closed fd ∷ t) = remove fd (open_fds t)
open_fds (_ ∷ t) = open_fds t

-- The blocks that `malloc` gave and `free` has not got back.
unfoldable pub live : Trace → List ℕ
live [] = []
live (Event.allocated a ∷ t) = a ∷ live t
live (Event.freed a ∷ t) = remove a (live t)
live (_ ∷ t) = live t
