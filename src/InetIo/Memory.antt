-- ===== src/InetIo/Memory.antt =====
-- inet_io.c: the blocks of memory that `recv_payload` allocates and `free_packet` frees.
use mathlib.Core.Option.{some-injective}
use snippet.Base.{
  ℕ, not, ◌≡◌, ◌≢◌, refl, ap, subst, sym, ==_iff, true, false, Option, none, some, List, ◌∷◌,
  length, ◌==◌, if-rule, case_option, case_option-rule, arith, ◌⊎◌, inl, inr, Option-cases,
  Bool-cases,
}
use snippet.Posix.{Event, Trace, System, live, remove, remove_head, remove_second}
use snippet.InetIo.Metadata.{sizeof_metadata, metadata_type, metadata_length}
use snippet.InetIo.Packet.{DemoPacket, recv_value, recv_metadata, recv_payload, free_packet}

-- The blocks of a packet.
abbrev pub blocks : DemoPacket → List ℕ → List ℕ
blocks p rest = case_option p.payload (p.address ∷ rest) λ q. q.0 ∷ p.address ∷ rest

-- What a receive does to memory: a packet holds its blocks; without one nothing is held, or one
-- block is left behind.
abbrev pub Holds : List ℕ → Trace × Option DemoPacket → Type 0
Holds before (t, none) = (live t ≡ before) ⊎ ((q : ℕ) × (live t ≡ q ∷ before))
Holds before (t, some p) = live t ≡ blocks p before

-- One of two blocks is freed: one is left.
remove_either : (a b : ℕ) (before : List ℕ) → (q : ℕ) × (remove a (b ∷ a ∷ before) ≡ q ∷ before)
remove_either a b before = elim (Bool-cases (b == a)) [
  | inl same ↦ (a, rw same)
  | inr other ↦ (b, rw other (ap (◌∷◌ b) (remove_head a before)))
]

free_packet-live :
    (p : DemoPacket) (t : Trace) (before : List ℕ)
    → live t ≡ blocks p before
    → live (free_packet p t) ≡ before
unfolding free_packet live
free_packet-live p t before = elim (Option-cases p.payload) [
  | inl empty ↦ rw (empty) (λ e. rw e (remove_head p.address before))
  | inr (q, held) ↦
      rw (held) (λ e.
        rw (live, e) (rw (remove_head q.0 (p.address ∷ before)) (remove_head p.address before)))
]

freed_later :
    (before : List ℕ) (r : Trace × Option DemoPacket) {p : DemoPacket}
    → Holds before r
    → r.1 ≡ some p
    → live (free_packet p r.0) ≡ before
freed_later before (t, none) h e = cc
freed_later before (t, some q) {p} h e =
    subst (λ x. live (free_packet x t) ≡ before) (some-injective _ _ e)
      (free_packet-live q t before h)

module _ (os : System) where
  recv_value-Holds :
      (fd packet type size : ℕ) (t : Trace) (before : List ℕ)
      → live t ≡ packet ∷ before
      → Holds before (recv_value os fd packet type size t)
  unfolding recv_value live
  recv_value-Holds fd packet type size t before e =
      let left = remove_either packet in
      case_option-rule (Holds before) (os.malloc t)
        (λ failed. inl (rw e (remove_head packet before)))
        (λ payload made.
          case_option-rule (Holds before) (os.read (Event.allocated payload ∷ t) size)
            (λ failed. inr (rw e (left payload before)))
            (λ bytes got.
              if-rule (Holds before) (not (length bytes == size))
                (λ short. inr (rw e (left payload before))) (λ full. ap (◌∷◌ payload) e)))

  recv_metadata-Holds :
      (fd packet : ℕ) (t : Trace) (before : List ℕ)
      → live t ≡ packet ∷ before
      → Holds before (recv_metadata os fd packet t)
  unfolding recv_metadata live
  recv_metadata-Holds fd packet t before e =
      case_option-rule (Holds before) (os.read t sizeof_metadata)
        (λ failed. inl (rw e (remove_head packet before)))
        (λ head got.
          let t₁ = Event.received fd head ∷ t in
          if-rule (Holds before) (not (length head == sizeof_metadata))
            (λ short. inl (rw e (remove_head packet before)))
            (λ full.
              if-rule (Holds before) (metadata_length head == 0) (λ empty. e)
                (λ some_bytes.
                  recv_value-Holds fd packet (metadata_type head) (metadata_length head) t₁ before
                    e)))

  -- `recv_payload`, whatever the system answers: a packet that it returns holds its block and that
  -- of its payload and nothing else is held; with no packet, at most one block is left behind.
  pub recv_payload-Holds : (fd : ℕ) (t : Trace) → Holds (live t) (recv_payload os fd t)
  unfolding recv_payload live
  recv_payload-Holds fd t =
      case_option-rule (Holds (live t)) (os.malloc t) (λ failed. inl refl)
        (λ packet made. recv_metadata-Holds fd packet (Event.allocated packet ∷ t) (live t) refl)

  -- A packet that was received and freed leaves memory as it was before the receive.
  pub recv-free_packet :
      (fd : ℕ) (t : Trace) {p : DemoPacket}
      → (recv_payload os fd t).1 ≡ some p
      → live (free_packet p (recv_payload os fd t).0) ≡ live t
  recv-free_packet fd t e = freed_later (live t) (recv_payload os fd t) (recv_payload-Holds fd t) e

  -- A payload whose read fails, or falls short, is never freed.
  pub recv_payload_leak :
      (fd packet payload : ℕ) (head : List ℕ) (t : Trace)
      → os.malloc t ≡ some packet
      → os.read (Event.allocated packet ∷ t) sizeof_metadata ≡ some head
      → length head ≡ sizeof_metadata
      → metadata_length head ≢ 0
      → os.malloc (Event.received fd head ∷ Event.allocated packet ∷ t) ≡ some payload
      → payload ≢ packet
      → os.read
          (Event.allocated payload ∷ Event.received fd head ∷ Event.allocated packet ∷ t)
          (metadata_length head)
        ≡ none
      → ((recv_payload os fd t).1 ≡ none) × (live (recv_payload os fd t).0 ≡ payload ∷ live t)
  unfolding recv_payload live
  recv_payload_leak fd packet payload head t a b full some_bytes c ne failed =
      let full' : (length head == sizeof_metadata) ≡ true = (==_iff _ _).1 full in
      let long : (metadata_length head == 0) ≡ false = ground arith in
      rw (a, b, full', long, c, failed)
        (refl, remove_second packet payload (live t) (λ e. ne (sym e)))
