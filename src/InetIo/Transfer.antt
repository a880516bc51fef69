-- ===== src/InetIo/Transfer.antt =====
-- inet_io.c: what `send_packet` writes, `recv_payload` reads back.
use mathlib.Core.List.{append_assoc, append-nil}
use native.Mathlib.Nat.{add_comm}
use snippet.Base.{
  Option-cases, inl, inr, true, false, subst, Bool-cases, ℕ, ◌+◌, ◌^◌, ◌<◌, not, ◌≡◌, ◌≢◌, refl,
  sym, ap, ◌∙◌, Option, none, some, List, [], ◌∷◌, ◌++◌, length, take, drop, take-append,
  drop-append, take_all, drop-drop, ◌==◌, ==_iff, if-rule, case_option-rule, ℤ, pos, arith,
}
use snippet.Posix.{Event, Trace, System}
use snippet.InetIo.Metadata.{PayloadType, type_code, sizeof_metadata, metadata_bytes}
use snippet.InetIo.Packet.{
  DemoPacket, send_value, send_packet, recv_value, recv_metadata, recv_payload,
}
use snippet.InetIo.Layout.{metadata_lem}

-- How many bytes have been received, on any descriptor.
abbrev pub consumed : Trace → ℕ
consumed [] = 0
consumed (Event.received fd bytes ∷ t) = length bytes + consumed t
consumed (_ ∷ t) = consumed t

-- The bytes sent, on any descriptor, the first first.
abbrev pub sent_bytes : Trace → List ℕ
sent_bytes [] = []
sent_bytes (Event.sent fd bytes ∷ t) = sent_bytes t ++ bytes
sent_bytes (_ ∷ t) = sent_bytes t

-- Reads deliver the bytes of `stream` in order, as many as are asked for as long as they last.
abbrev pub Delivers : System → List ℕ → Type 0
Delivers os stream = (t : Trace) (n : ℕ) → os.read t n ≡ some (take n (drop (consumed t) stream))

-- The bytes of one packet.
abbrev pub wire : List ℕ → PayloadType → List ℕ → List ℕ
wire padding type value = metadata_bytes padding (type_code type) (length value) ++ value

length-zero : (xs : List ℕ) → (length xs == 0) ≡ true → xs ≡ []
length-zero [] e = refl
length-zero (x ∷ xs) e = absurd (ground arith)

type_code-lt : (type : PayloadType) → type_code type < 2 ^ 32
type_code-lt PayloadType.demo_string_payload = omega arith
type_code-lt PayloadType.demo_uint64_payload = omega arith
type_code-lt PayloadType.demo_int_array_payload = omega arith
type_code-lt PayloadType.demo_struct_payload = omega arith

module _ (os : System) (fd : ℕ) where
  send_value-sent_bytes :
      (value : List ℕ) (t : Trace)
      → (send_value os fd (length value) value t).1 ≡ pos 0
      → sent_bytes (send_value os fd (length value) value t).0 ≡ sent_bytes t ++ value
  unfolding send_value
  send_value-sent_bytes value t =
      let all = take_all value (length value) refl in
      case_option-rule (λ (r : Trace × ℤ). r.1 ≡ pos 0 → sent_bytes r.0 ≡ sent_bytes t ++ value)
        (os.write t (take (length value) value)) (λ failed e. cc)
        (λ n wrote.
          if-rule (λ (r : Trace × ℤ). r.1 ≡ pos 0 → sent_bytes r.0 ≡ sent_bytes t ++ value)
            (not (n == length value)) (λ short e. cc) (λ full e. ap (◌++◌ (sent_bytes t)) all))

-- If `send_packet` returns 0, the bytes of the packet, head and value, have been sent, after what
-- was sent before, and nothing else.
pub send_packet-sent_bytes :
    (os : System) (padding : List ℕ) (fd : ℕ) (type : PayloadType) (value : List ℕ) (t : Trace)
    → (send_packet os padding fd type (length value) value t).1 ≡ pos 0
    → sent_bytes (send_packet os padding fd type (length value) value t).0
      ≡ sent_bytes t ++ wire padding type value
unfolding send_packet
send_packet-sent_bytes os padding fd type value t =
    let head = metadata_bytes padding (type_code type) (length value) in
    let before = sent_bytes t in
    case_option-rule (λ (r : Trace × ℤ). r.1 ≡ pos 0 → sent_bytes r.0 ≡ before ++ (head ++ value))
      (os.write t head) (λ failed e. cc)
      (λ n wrote.
        if-rule (λ (r : Trace × ℤ). r.1 ≡ pos 0 → sent_bytes r.0 ≡ before ++ (head ++ value))
          (not (n == sizeof_metadata)) (λ short e. cc)
          (λ full.
            let t₁ = Event.sent fd head ∷ t in
            if-rule (λ (r : Trace × ℤ). r.1 ≡ pos 0 → sent_bytes r.0 ≡ before ++ (head ++ value))
              (length value == 0)
              (λ empty e.
                ap (◌++◌ before)
                  (sym (append-nil head) ∙ ap (◌++◌ head) (sym (length-zero value empty))))
              (λ long e. send_value-sent_bytes os fd value t₁ e ∙ append_assoc before head value)))

-- A payload with this value: none for an empty one.
abbrev pub Carries : List ℕ → Option (ℕ × List ℕ) → Type 0
Carries [] payload = payload ≡ none
Carries (b ∷ value) payload = (address : ℕ) × (payload ≡ some (address, b ∷ value))

Carries-some :
    (value : List ℕ) (address : ℕ)
    → (length value == 0) ≡ false
    → Carries value (some (address, value))
Carries-some [] address long = absurd (ground arith)
Carries-some (b ∷ value) address long = (address, refl)

-- The packet that is returned has this type, length and value, and `rest` is still to be read.
abbrev pub Received : List ℕ → List ℕ → ℕ → List ℕ → Trace × Option DemoPacket → Type 0
Received stream rest type value r =
    (p : DemoPacket) × (r.1 ≡ some p)
    × (p.type ≡ type)
    × (p.size ≡ length value)
    × Carries value p.payload
    × (drop (consumed r.0) stream ≡ rest)

module _ (os : System) (fd : ℕ) (stream : List ℕ) (delivers : Delivers os stream) where
  read_next :
      (t : Trace) (bytes rest : List ℕ) (n : ℕ)
      → drop (consumed t) stream ≡ bytes ++ rest
      → length bytes ≡ n
      → os.read t n ≡ some bytes
  read_next t bytes rest n e full =
      delivers t n ∙ ap (λ xs. some (take n xs)) e ∙ ap some (take-append bytes rest n full)

  drop_next :
      (t : Trace) (bytes rest : List ℕ)
      → drop (consumed t) stream ≡ bytes ++ rest
      → drop (length bytes + consumed t) stream ≡ rest
  drop_next t bytes rest e =
      ap (λ n. drop n stream) (add_comm (length bytes) (consumed t))
      ∙ drop-drop (length bytes) (consumed t) stream
      ∙ ap (drop (length bytes)) e
      ∙ drop-append bytes rest (length bytes) refl

  module _ (room : (t : Trace) → os.malloc t ≢ none) where
    recv_value-Received :
        (packet type : ℕ) (value rest : List ℕ) (t : Trace)
        → (length value == 0) ≡ false
        → drop (consumed t) stream ≡ value ++ rest
        → Received stream rest type value (recv_value os fd packet type (length value) t)
    unfolding recv_value
    recv_value-Received packet type value rest t long e = elim (Option-cases (os.malloc t)) [
      | inl failed ↦ absurd (room t failed)
      | inr (payload, made) ↦
          let got = read_next (Event.allocated payload ∷ t) value rest (length value) e refl in
          let full : (length value == length value) ≡ true = (==_iff _ _).1 refl in
          rw (made, got, full)
            (
              record {
                address = packet;
                type = type;
                size = length value;
                payload = some (payload, value);
              },
              refl,
              refl,
              refl,
              Carries-some value payload long,
              drop_next t value rest e,
            )
    ]

-- Round trip over a stream: where the reads deliver the bytes of a packet and memory can be had,
-- `recv_payload` returns a packet of that type, length and value (no payload if the value is
-- empty), and what the stream holds behind the packet is still to be read.
pub recv_payload-wire :
    (os : System) (padding : List ℕ) (fd : ℕ) (type : PayloadType) (value rest stream : List ℕ)
    (t : Trace)
    → length padding ≡ 4
    → length value < 2 ^ 64
    → ((t : Trace) → os.malloc t ≢ none)
    → Delivers os stream
    → drop (consumed t) stream ≡ wire padding type value ++ rest
    → (p : DemoPacket) × ((recv_payload os fd t).1 ≡ some p)
      × (p.type ≡ type_code type)
      × (p.size ≡ length value)
      × Carries value p.payload
      × (drop (consumed (recv_payload os fd t).0) stream ≡ rest)
unfolding recv_payload recv_metadata
recv_payload-wire os padding fd type value rest stream t four small room delivers e =
    elim (Option-cases (os.malloc t)) [
      | inl failed ↦ absurd (room t failed)
      | inr (packet, made) ↦
          let head = metadata_bytes padding (type_code type) (length value) in
          let layout =
            metadata_lem padding (type_code type) (length value) four (type_code-lt type) small in
          let e₁ = e ∙ append_assoc head value rest in
          let t₁ = Event.received fd head ∷ Event.allocated packet ∷ t in
          let got =
            read_next os fd stream delivers (Event.allocated packet ∷ t) head (value ++ rest)
              sizeof_metadata e₁ layout.0 in
          let left = drop_next os fd stream delivers t head (value ++ rest) e₁ in
          let full : (length head == sizeof_metadata) ≡ true = (==_iff _ _).1 layout.0 in
          elim (Bool-cases (length value == 0)) [
            | inl empty ↦
                let none_left = length-zero value empty in
                rw (made, got, full, layout.1, layout.2, empty)
                  (
                    record { address = packet; type = type_code type; size = 0; payload = none },
                    refl,
                    refl,
                    sym (ap length none_left),
                    subst (λ v. Carries v none) (sym none_left) refl,
                    left ∙ ap (λ v. v ++ rest) none_left,
                  )
            | inr long ↦
                rw (made, got, full, layout.1, layout.2, long)
                  (recv_value-Received os fd stream delivers room packet (type_code type) value rest
                    t₁ long left)
          ]
    ]
