-- ===== src/InetSocket/Failures.antt =====
-- inet-socket/server.c and client.c: what a run returns that gets no socket.
use Prim.Native.String.{String}
use snippet.Base.{
  ℕ, zero, suc, not, true, ◌≡◌, refl, Option, none, if-rule, case_option-rule, ℤ, pos, negsuc,
  is_zero, is_negative,
}
use snippet.Posix.{Trace, System}
use snippet.InetSocket.Setup.{PtonAnswer, fill_sockaddr_in, inet4_listen, inet4_connect}
use snippet.InetSocket.Demo.{is_descriptor, Stack, run_server_lite, run_client_lite}

no_descriptor : (r : ℤ) → is_negative r ≡ true → is_descriptor r ≡ none
no_descriptor (pos zero) e = refl
no_descriptor (pos (suc n)) e = cc
no_descriptor (negsuc n) e = refl

abbrev ReturnsZero : Trace × ℤ → Type 0
ReturnsZero r = r.1 ≡ pos 0

-- If the address can be filled, then a server whose listen fails returns 0, as one that succeeds
-- does, and a client whose connect fails returns 0.
pub run_lite_failure :
    (os : System) (stack : Stack) (inet_pton : String → PtonAnswer) (ip : Option String) (port : ℕ)
    (t : Trace)
    → (fill_sockaddr_in inet_pton ip port).1 ≡ pos 0
    → is_negative (inet4_listen os (fill_sockaddr_in inet_pton ip port).0 t).1 ≡ true
    → is_negative (inet4_connect os (fill_sockaddr_in inet_pton ip port).0 t).1 ≡ true
    → ((run_server_lite os stack inet_pton ip port t).1 ≡ pos 0)
      × ((run_client_lite os stack inet_pton ip port t).1 ≡ pos 0)
unfolding run_server_lite run_client_lite
run_lite_failure os stack inet_pton ip port t filled no_listen no_connect =
    let address = fill_sockaddr_in inet_pton ip port in
    let r = inet4_listen os address.0 t in
    let s = inet4_connect os address.0 t in
    let no_listener = no_descriptor r.1 no_listen in
    let no_connection = no_descriptor s.1 no_connect in
    (
      if-rule ReturnsZero (not (is_zero address.1)) (λ failed. filled)
          (λ ready.
            case_option-rule ReturnsZero (is_descriptor r.1) (λ refused. filled) (λ fd got. cc)),
      if-rule ReturnsZero (not (is_zero address.1)) (λ failed. filled)
          (λ ready.
            case_option-rule ReturnsZero (is_descriptor s.1) (λ refused. filled) (λ fd got. cc)),
    )
