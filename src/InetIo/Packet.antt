-- ===== src/InetIo/Packet.antt =====
-- linux-c/socket/inet-socket/inet_io.c: `send_packet`, `recv_payload` and `free_packet`. Messages
-- to the terminal are left out, and with them `print_payload`.
use snippet.Base.{
  ℕ, not, Option, none, some, List, ◌∷◌, length, take, ◌==◌, if◌then◌else◌, case_option, ℤ, pos,
  neg,
}
use snippet.Posix.{Event, Trace, System}
use snippet.InetIo.Metadata.{
  PayloadType, type_code, sizeof_metadata, metadata_bytes, metadata_type, metadata_length,
}

-- `struct demo_packet` and the blocks that it stands in. The type is the number that was read,
-- which need be none of the enumerators.
pub record DemoPacket : Type 0 where
  pub address : ℕ
  pub type : ℕ
  pub size : ℕ
  pub payload : Option (ℕ × List ℕ)

module _ (os : System) where
  -- The write of the value, of `size` bytes.
  unfoldable pub send_value : ℕ → ℕ → List ℕ → Trace → Trace × ℤ
  send_value fd size value t =
      let bytes = take size value in
      case_option (os.write t bytes) (t, neg 1)
        λ n.
          if not (n == size)
          then (Event.sent fd (take n bytes) ∷ t, neg 1)
          else (Event.sent fd bytes ∷ t, pos 0)

  unfoldable pub send_packet : List ℕ → ℕ → PayloadType → ℕ → List ℕ → Trace → Trace × ℤ
  unfolding send_value metadata_bytes
  send_packet padding fd type size value t =
      let head = metadata_bytes padding (type_code type) size in
      case_option (os.write t head) (t, neg 1)
        λ n.
          if not (n == sizeof_metadata)
          then (Event.sent fd (take n head) ∷ t, neg 1)
          else let t₁ = Event.sent fd head ∷ t in
            if size == 0 then (t₁, pos 0) else send_value fd size value t₁

  -- `err_free_packet`
  unfoldable pub err_free_packet : ℕ → Trace → Trace × Option DemoPacket
  err_free_packet packet t = (Event.freed packet ∷ t, none)

  -- From the allocation of the payload on.
  unfoldable pub recv_value : ℕ → ℕ → ℕ → ℕ → Trace → Trace × Option DemoPacket
  unfolding err_free_packet
  recv_value fd packet type size t = case_option (os.malloc t) (err_free_packet packet t) λ payload.
      let t₁ = Event.allocated payload ∷ t in
      case_option (os.read t₁ size) (err_free_packet packet t₁) λ bytes.
        let t₂ = Event.received fd bytes ∷ t₁ in
        if not (length bytes == size) then err_free_packet packet t₂ else (
          t₂,
          some (record {
            address = packet;
            type = type;
            size = size;
            payload = some (payload, bytes);
          }),
        )

  -- From the read of the metadata on.
  unfoldable pub recv_metadata : ℕ → ℕ → Trace → Trace × Option DemoPacket
  unfolding recv_value metadata_type metadata_length err_free_packet
  recv_metadata fd packet t =
      case_option (os.read t sizeof_metadata) (err_free_packet packet t) λ head.
        let t₁ = Event.received fd head ∷ t in
        if not (length head == sizeof_metadata)
        then err_free_packet packet t₁
        else if metadata_length head == 0
        then (
          t₁,
          some (record { address = packet; type = metadata_type head; size = 0; payload = none }),
        )
        else recv_value fd packet (metadata_type head) (metadata_length head) t₁

  unfoldable pub recv_payload : ℕ → Trace → Trace × Option DemoPacket
  unfolding recv_metadata
  recv_payload fd t =
      case_option (os.malloc t) (t, none)
        λ packet. recv_metadata fd packet (Event.allocated packet ∷ t)

unfoldable pub free_packet : DemoPacket → Trace → Trace
free_packet p t = Event.freed p.address ∷ case_option p.payload t (λ q. Event.freed q.0 ∷ t)
