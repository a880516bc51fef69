-- ===== src/InetIo/EndToEnd.antt =====
-- inet_io.c: a packet from one program to another.
use mathlib.Core.List.{append-nil}
use snippet.Base.{
  ℕ, ◌^◌, ◌<◌, ◌≡◌, ◌≢◌, sym, ap, ◌∙◌, none, List, [], length, drop, drop-append, pos,
}
use snippet.Posix.{Trace, System}
use snippet.InetIo.Metadata.{PayloadType, type_code}
use snippet.InetIo.Packet.{send_packet, recv_payload}
use snippet.InetIo.Transfer.{
  consumed, sent_bytes, wire, Delivers, Received, send_packet-sent_bytes, recv_payload-wire,
}

-- From end to end: if one program's `send_packet` returns 0, and the other's reads deliver what the
-- first has sent, of which it has read all that was sent before, then with memory to be had its
-- `recv_payload` returns a packet of that type, length and value (no payload if the value is empty),
-- and has read all that was sent.
pub send-recv_payload :
    (sender receiver : System) (padding : List ℕ) (fd fd' : ℕ) (type : PayloadType) (value : List ℕ)
    (t t' : Trace)
    → length padding ≡ 4
    → length value < 2 ^ 64
    → ((t : Trace) → receiver.malloc t ≢ none)
    → (send_packet sender padding fd type (length value) value t).1 ≡ pos 0
    → Delivers receiver (sent_bytes (send_packet sender padding fd type (length value) value t).0)
    → consumed t' ≡ length (sent_bytes t)
    → Received
        (sent_bytes (send_packet sender padding fd type (length value) value t).0)
        []
        (type_code type)
        value
        (recv_payload receiver fd' t')
send-recv_payload sender receiver padding fd fd' type value t t' four small room sent delivers
      read =
    let stream = sent_bytes (send_packet sender padding fd type (length value) value t).0 in
    let all = send_packet-sent_bytes sender padding fd type value t sent in
    let behind : drop (consumed t') stream ≡ wire padding type value =
      ap (drop (consumed t')) all
      ∙ drop-append (sent_bytes t) (wire padding type value) (consumed t') (sym read) in
    recv_payload-wire receiver padding fd' type value [] stream t' four small room delivers
      (behind ∙ sym (append-nil (wire padding type value)))
