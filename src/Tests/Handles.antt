-- ===== src/Tests/Handles.antt =====
-- Two clients of the server of Tests/Server, and a network on which closing fails.
use xibridge.Prelude.{ℕ, ◌≡◌, refl, false, [], ◌∷◌, none, some}
use xibridge.DeviceMap.{MapDevIdPHandle}
use xibridge.Protocol.Dispatch.{protocol3}
use xibridge.Client.{XibridgeClient, Network}
use xibridge.Client.Line.{Line, line}
use xibridge.Client.Whole.{server_peer}
use xibridge.Client.Handles.{Library, xbc_close_connection_device}
use xibridge.Client.Handles.Live.{IsLive, nobody, client}
use xibridge.Client.Handles.Gone.{
  IsUnknown, IsDangling, after_close, xbc_close_connection_device-IsUnknown,
  xbc_close_connection_device-IsDangling,
}
use xibridge.Client.Handles.Calls.{
  request, read, write, close, packet, run_all, StaysLive, run_all-StaysLive,
}
use xibridge.Tests.Devices.{motor}
use xibridge.Tests.Server.{lab, in_use}

abbrev line_of_lab : Network (Line MapDevIdPHandle)
line_of_lab = line (server_peer lab 77)

abbrev stuck : Network (Line MapDevIdPHandle)
stuck = record line_of_lab { disconnect = λ c n. (false, n) }

abbrev client_of : ℕ → XibridgeClient
client_of conn_id = record {
  server_protocol_version = 3;
  conn_id = conn_id;
  dev_id = motor;
  recv_message = [];
  is_really_recv = false;
  last_error = 0;
}

abbrev two_clients : Library (Line MapDevIdPHandle)
two_clients = record {
  clients = (1, some (client_of 1)) ∷ (2, some (client_of 2)) ∷ [];
  base_version = 3;
  net = record { state = in_use; fresh = 2; pending = none };
}

two_clients-IsLive : IsLive line_of_lab two_clients.clients
two_clients-IsLive =
    client (record { kind = protocol3; same_conn = refl; valid = refl; supported = refl })
      (client (record { kind = protocol3; same_conn = refl; valid = refl; supported = refl })
        nobody)

two_clients_stuck-IsLive : IsLive stuck two_clients.clients
two_clients_stuck-IsLive =
    client (record { kind = protocol3; same_conn = refl; valid = refl; supported = refl })
      (client (record { kind = protocol3; same_conn = refl; valid = refl; supported = refl })
        nobody)

-- A second close of one number, and a request to it.
run_all-StaysLive_example : StaysLive line_of_lab (
    run_all line_of_lab
      (request (some 1) (1 ∷ []) 3
        ∷ close (some 1)
        ∷ close (some 1)
        ∷ request (some 1) (1 ∷ []) 3
        ∷ packet 2 (9 ∷ [])
        ∷ read (some 2) 4
        ∷ write none []
        ∷ [])
      two_clients)
run_all-StaysLive_example =
    run_all-StaysLive line_of_lab
      (request (some 1) (1 ∷ []) 3
        ∷ close (some 1)
        ∷ close (some 1)
        ∷ request (some 1) (1 ∷ []) 3
        ∷ packet 2 (9 ∷ [])
        ∷ read (some 2) 4
        ∷ write none []
        ∷ [])
      two_clients (λ n. refl) (λ conn_id n. refl) two_clients-IsLive

xbc_close_connection_device-IsUnknown_example :
    (xbc_close_connection_device line_of_lab (some 2) two_clients
      ≡ some (after_close line_of_lab 2 (client_of 2) two_clients, 0))
    × IsUnknown line_of_lab 2 (after_close line_of_lab 2 (client_of 2) two_clients)
xbc_close_connection_device-IsUnknown_example =
    xbc_close_connection_device-IsUnknown line_of_lab 2 (client_of 2) two_clients two_clients-IsLive
      refl (λ n. refl) (λ n. refl)

xbc_close_connection_device-IsDangling_example :
    (xbc_close_connection_device stuck (some 2) two_clients
      ≡ some (after_close stuck 2 (client_of 2) two_clients, 0))
    × IsDangling stuck 2 (after_close stuck 2 (client_of 2) two_clients)
xbc_close_connection_device-IsDangling_example =
    xbc_close_connection_device-IsDangling stuck 2 (client_of 2) two_clients
      two_clients_stuck-IsLive refl (λ n. refl) (λ n. refl)
