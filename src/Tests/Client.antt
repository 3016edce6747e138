-- ===== src/Tests/Client.antt =====
-- A client that opens the device of Tests/Server.
use xibridge.Prelude.{◌≡◌, refl, false, [], none, some, if◌then◌else◌}
use xibridge.DeviceMap.{open_if_not}
use xibridge.Protocol.V3.{create_open_response}
use xibridge.Protocol.Dispatch.{protocol1, protocol3}
use xibridge.Protocol.State.{err_device_open}
use xibridge.Server.{callback_disc}
use xibridge.Client.{XibridgeClient}
use xibridge.Client.Interface.{xibridge_open_device_connection}
use xibridge.Client.Line.{line, apart}
use xibridge.Client.Negotiation.{only, xibridge_open_device_connection-only}
use xibridge.Client.Whole.{
  server_peer, accepted-IsAcceptance, xibridge_open_device_connection-server,
}
use xibridge.Tests.Devices.{motor}
use xibridge.Tests.Server.{lab, empty, motor-IsDevId}

abbrev fresh_client : XibridgeClient
fresh_client = record {
  server_protocol_version = 1;
  conn_id = 0;
  dev_id = motor;
  recv_message = [];
  is_really_recv = false;
  last_error = 0;
}

xibridge_open_device_connection-only_example :
    let (s, err, conn) =
      xibridge_open_device_connection
        (line (only protocol3 (create_open_response motor 1)))
        (apart (only protocol3 (create_open_response motor 1)) fresh_client 0 tt) in
    (err ≡ 0) × (s.client.server_protocol_version ≡ 3) × (conn ≡ some s.client.conn_id)
xibridge_open_device_connection-only_example =
    xibridge_open_device_connection-only protocol1 protocol3 (create_open_response motor 1)
      fresh_client 0 refl (accepted-IsAcceptance motor)

xibridge_open_device_connection-server_example :
    let (s, err, conn) =
      xibridge_open_device_connection
        (line (server_peer lab 77))
        (apart (server_peer lab 77) fresh_client 0 empty) in
    let (after, added) = open_if_not lab.create 2 motor empty in
    (err ≡ (if added then 0 else err_device_open))
    × (conn ≡ (if added then some 2 else none))
    × (s.client.server_protocol_version ≡ 3)
    × (s.net.state ≡ (if added then after else callback_disc 2 after))
xibridge_open_device_connection-server_example =
    xibridge_open_device_connection-server lab 77 fresh_client 0 empty refl motor-IsDevId refl refl
