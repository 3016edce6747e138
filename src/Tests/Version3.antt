-- ===== src/Tests/Version3.antt =====
-- Packets of protocol 3 between a client and a server.
use xibridge.Prelude.{◌≡◌, true, false, [], ◌∷◌, ◌++◌, some, arith}
use xibridge.Wire.RoundTrip.{be32}
use xibridge.MBuf.{mbuf_of}
use xibridge.Protocol.State.{pkt3_cmd_req, pkt3_cmd_resp, pkt3_enum_resp, err_pckt_fmt}
use xibridge.Protocol.V3.{
  create_cmd_request, create_cmd_response, create_enum_response, get_data_from_request,
}
use xibridge.Protocol.V3.Packets.{frame}
use xibridge.Protocol.V3.Requests.{
  server, get_data_from_request-create_cmd_request, get_data_from_request_bad_length,
}
use xibridge.Protocol.Dispatch.{protocol3, get_data_from_bindy_callback}
use xibridge.Protocol.Answers.V3.{client, get_data_from_bindy_callback-create_cmd_response}
use xibridge.Protocol.Answers.Enum.{devs_bytes, get_data_from_bindy_callback-create_enum_response}
use xibridge.Tests.Devices.{motor, lamp}

get_data_from_request-create_cmd_request_example :
    get_data_from_request
      (mbuf_of (create_cmd_request motor (some (1 ∷ 2 ∷ 3 ∷ [])) 300) true)
      (server 0 77)
    ≡ record {
      ret = true;
      req_data = 1 ∷ 2 ∷ 3 ∷ [];
      dev = motor;
      resp_len = 300;
      proto = server 0 77;
    }
get_data_from_request-create_cmd_request_example =
    get_data_from_request-create_cmd_request motor (1 ∷ 2 ∷ 3 ∷ []) 300 0 77 (omega arith)
      (omega arith) (omega arith)

get_data_from_request_bad_length_example :
    get_data_from_request
      (mbuf_of (frame pkt3_cmd_req 0 motor (be32 9 ++ (1 ∷ 2 ∷ []))) true)
      (server 0 77)
    ≡ record {
      ret = false;
      req_data = [];
      dev = motor;
      resp_len = 0;
      proto = server 0 err_pckt_fmt;
    }
get_data_from_request_bad_length_example =
    get_data_from_request_bad_length motor 0 9 (1 ∷ 2 ∷ []) 0 77 (omega arith) (omega arith)
      (omega arith)

get_data_from_bindy_callback-create_cmd_response_example :
    get_data_from_bindy_callback protocol3
      (mbuf_of (create_cmd_response lamp (some (8 ∷ 9 ∷ []))) true)
      (client 4 0)
    ≡ record {
      ret = true;
      res_data = [];
      data_out = 8 ∷ 9 ∷ [];
      pckt_type = some pkt3_cmd_resp;
      proto = client 0 0;
    }
get_data_from_bindy_callback-create_cmd_response_example =
    get_data_from_bindy_callback-create_cmd_response lamp (8 ∷ 9 ∷ []) 4 0 (omega arith)

get_data_from_bindy_callback-create_enum_response_example :
    get_data_from_bindy_callback protocol3
      (mbuf_of (create_enum_response (motor ∷ lamp ∷ [])) true)
      (client 4 0)
    ≡ record {
      ret = true;
      res_data = [];
      data_out = devs_bytes (motor ∷ lamp ∷ []);
      pckt_type = some pkt3_enum_resp;
      proto = client 2 0;
    }
get_data_from_bindy_callback-create_enum_response_example =
    get_data_from_bindy_callback-create_enum_response (motor ∷ lamp ∷ []) 4 0 (omega arith)
      (omega arith)
