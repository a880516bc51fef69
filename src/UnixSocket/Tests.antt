-- ===== src/UnixSocket/Tests.antt =====
-- Runs of the programs of linux-c/socket/unix-socket, and the theorems at concrete inputs.
use snippet.Base.{ℕ, ◌≡◌, refl, true, List, [], length, some, pos, neg}
use snippet.Posix.{System, open_fds}
use snippet.UnixSocket.Exchange.{client_req_msg, server_ack_msg}
use snippet.UnixSocket.Server.{run_stream_server, server_main}
use snippet.UnixSocket.Client.{run_stream_client, client_main}
use snippet.UnixSocket.Cleanup.{main-open_fds}
use snippet.UnixSocket.Protocol.{ServesStream, run_stream_server-ServesStream}
use snippet.UnixSocket.Server.{run_datagram_server}

-- A system on which all goes well and each read gets `message`.
abbrev willing : List ℕ → System
willing message = record {
  socket = λ t. some 3;
  setsockopt = λ t. true;
  bind = λ t. true;
  listen = λ t. true;
  accept = λ t. some 4;
  connect = λ t. true;
  unlink = λ t. true;
  read = λ t count. some message;
  write = λ t bytes. some (length bytes);
  malloc = λ t. some 1000;
}

served : (run_stream_server (willing client_req_msg) [] []).1 ≡ pos 0
unfolding run_stream_server
served = refl

answered : (run_stream_client (willing server_ack_msg) [] []).1 ≡ pos 0
unfolding run_stream_client
answered = refl

-- A client that is sent its own request fails.
not_answered : (run_stream_client (willing client_req_msg) [] []).1 ≡ neg 1
unfolding run_stream_client
not_answered = refl

main-open_fds_example :
    (open_fds (server_main (willing client_req_msg) [] [] []).0 ≡ open_fds [])
    × (open_fds (client_main (willing client_req_msg) [] [] []).0 ≡ open_fds [])
main-open_fds_example = main-open_fds (willing client_req_msg) [] [] []

run_stream_server-ServesStream_example :
    ServesStream (willing client_req_msg) [] [] (run_stream_server (willing client_req_msg) [] []).0
run_stream_server-ServesStream_example =
    run_stream_server-ServesStream (willing client_req_msg) [] [] served

datagram_served : (run_datagram_server (willing client_req_msg) [] []).1 ≡ pos 0
unfolding run_datagram_server
datagram_served = refl
