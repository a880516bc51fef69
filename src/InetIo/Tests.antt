-- ===== src/InetIo/Tests.antt =====
-- Packets of inet_io.c, and the theorems at concrete inputs.
use snippet.Base.{
  pos, ℕ, ◌≡◌, refl, true, false, List, [], ◌∷◌, length, take, drop, none, some, ◌==◌, arith,
}
use snippet.Posix.{Trace, System}
use snippet.InetIo.Metadata.{PayloadType, le_bytes, from_le, metadata_bytes}
use snippet.InetIo.Packet.{DemoPacket, send_packet, recv_payload}
use snippet.InetIo.EndToEnd.{send-recv_payload}
use snippet.InetIo.Transfer.{Carries, Received, consumed, sent_bytes, wire, recv_payload-wire}

abbrev padding : List ℕ
padding = 1 ∷ 2 ∷ 3 ∷ 4 ∷ []

-- "hi" and its terminator
abbrev value : List ℕ
value = 104 ∷ 105 ∷ 0 ∷ []

abbrev packet_bytes : List ℕ
unfolding metadata_bytes le_bytes
packet_bytes = wire padding PayloadType.demo_string_payload value

-- A system in which the reads get the bytes of a stream, and each block is placed at the number of
-- what was done before it.
abbrev streaming : List ℕ → System
streaming stream = record {
  socket = λ t. some 3;
  setsockopt = λ t. true;
  bind = λ t. true;
  listen = λ t. true;
  accept = λ t. some 4;
  connect = λ t. true;
  unlink = λ t. true;
  read = λ t count. some (take count (drop (consumed t) stream));
  write = λ t bytes. some (length bytes);
  malloc = λ t. some (length t);
}

recv_payload-wire_example :
    (p : DemoPacket) × ((recv_payload (streaming packet_bytes) 3 []).1 ≡ some p)
    × (p.type ≡ 0)
    × (p.size ≡ length value)
    × Carries value p.payload
    × (drop (consumed (recv_payload (streaming packet_bytes) 3 []).0) packet_bytes ≡ [])
unfolding metadata_bytes le_bytes
recv_payload-wire_example =
    recv_payload-wire (streaming packet_bytes) padding 3 PayloadType.demo_string_payload value []
      packet_bytes [] refl (omega arith) (λ t e. cc) (λ t n. refl) refl

abbrev received : DemoPacket
received = record { address = 0; type = 0; size = 3; payload = some (2, value) }

received_it : (recv_payload (streaming packet_bytes) 3 []).1 ≡ some received
unfolding recv_payload metadata_bytes le_bytes from_le
received_it = refl

-- A stream that ends behind the head of a packet: the read of its value fails.
abbrev breaking : System
unfolding metadata_bytes le_bytes
breaking = record {
  socket = λ t. some 3;
  setsockopt = λ t. true;
  bind = λ t. true;
  listen = λ t. true;
  accept = λ t. some 4;
  connect = λ t. true;
  unlink = λ t. true;
  read = λ t count. elim (count == 16) [ true ↦ some (metadata_bytes padding 0 3) | false ↦ none ];
  write = λ t bytes. some (length bytes);
  malloc = λ t. some (length t);
}

-- A sender, whose packet is the whole of the stream.
abbrev after_send : Trace
after_send =
    (send_packet (streaming []) padding 3 PayloadType.demo_string_payload (length value) value []).0

sent_all :
    (send_packet (streaming []) padding 3 PayloadType.demo_string_payload (length value) value []).1
    ≡ pos 0
unfolding send_packet le_bytes
sent_all = refl

send-recv_payload_example :
    Received
      (sent_bytes after_send)
      []
      0
      value
      (recv_payload (streaming (sent_bytes after_send)) 4 [])
send-recv_payload_example =
    send-recv_payload (streaming []) (streaming (sent_bytes after_send)) padding 3 4
      PayloadType.demo_string_payload value [] [] refl (omega arith) (λ t e. cc) sent_all
      (λ t n. refl) refl
