-- ===== src/UnixSocket/Messages.antt =====
-- linux-c/socket/unix-socket: which messages the two programs take.
use snippet.Base.{
  ℕ, zero, suc, ◌≡◌, refl, ap, true, false, List, [], ◌∷◌, ◌++◌, length, take, ◌≤◌, arith,
}
use snippet.Posix.{overlay, strncmp_eq}
use snippet.UnixSocket.Exchange.{is_message, client_req_msg, server_ack_msg}

-- Each program takes the other's message, whatever its buffer held before, and neither takes its
-- own for the other's.
pub messages_agree :
    (stack : List ℕ)
    → (is_message client_req_msg client_req_msg stack ≡ true)
      × (is_message server_ack_msg server_ack_msg stack ≡ true)
      × (is_message client_req_msg server_ack_msg stack ≡ false)
      × (is_message server_ack_msg client_req_msg stack ≡ false)
unfolding is_message
messages_agree stack = (refl, refl, refl, refl)

overlay_same : (n : ℕ) (xs ys : List ℕ) → n ≤ length xs → overlay (take n xs) (xs ++ ys) ≡ xs ++ ys
overlay_same zero xs ys h = refl
overlay_same (suc n) [] ys h = absurd (omega arith)
overlay_same (suc n) (x ∷ xs) ys h = ap (◌∷◌ x) (overlay_same n xs ys (omega arith))

-- The test looks past the bytes that were read: where the buffer still holds an earlier request,
-- any beginning of a request, even of one byte, is taken for a whole one.
pub short_request_taken :
    (n : ℕ) (rest : List ℕ)
    → n ≤ length client_req_msg
    → is_message client_req_msg (take n client_req_msg) (client_req_msg ++ rest) ≡ true
unfolding is_message
short_request_taken n rest h =
    ap (strncmp_eq 11 client_req_msg) (overlay_same n client_req_msg rest h)
