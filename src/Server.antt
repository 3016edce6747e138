-- ===== src/Server.antt =====
-- server/xibridge_server_lib.cpp: what the server does with a packet of a client.
-- `World` is the serial library and the search for devices. It is given the first `request_len` bytes of
-- a request and the first `response_len` bytes of the buffer for the answer, and gives those back filled.
pub mod Handling
pub mod Exchange
use xibridge.Prelude.{
  ℕ, ◌-◌, ◌%◌, ◌^◌, Bool, true, false, not, List, [], ◌∷◌, ◌++◌, Option, none, some, if◌then◌else◌,
  ltb, ◌==◌, length, take, replicate, negsuc,
}
use xibridge.Wire.{hex32}
use xibridge.MBuf.{MBuf, mbuf_of, get32, mseek}
use xibridge.DevId.{DevId, dev_id}
use xibridge.DeviceMap.{
  MapDevIdPHandle, XibResult, xib_result_ok, xib_result_error, xib_result_value_error,
  xib_result_nodevice, xib_result_timeout, open_if_not, remove_conn_or_remove_device,
  operation_send_request, uint32_max,
}
use xibridge.Protocol.State.{
  AProtocol, pkt_open_req, pkt_close_req, pkt2_cmd_req, pkt3_cmd_req, pkt3_ver_req, pkt3_enum_req,
  err_device_err, err_device_err_val, err_recv_timeout, err_device_lost, err_no_protocol,
}
use xibridge.Protocol.V2
use xibridge.Protocol.V3
use xibridge.Protocol.Dispatch.{get_pckt_of_cmd}

pub record World : Type 0 where
  pub create : DevId → Option ℕ
  pub send : ℕ → List ℕ → List ℕ → XibResult × List ℕ
  pub urpc_send : List ℕ → ℕ → List ℕ → List ℕ → XibResult × List ℕ
  pub enumerate_dev : List DevId

abbrev pub xib_errors_to_xibridge : XibResult → ℕ
xib_errors_to_xibridge xib_result_error = err_device_err
xib_errors_to_xibridge xib_result_value_error = err_device_err_val
xib_errors_to_xibridge xib_result_timeout = err_recv_timeout
xib_errors_to_xibridge xib_result_nodevice = err_device_lost
xib_errors_to_xibridge xib_result_ok = 0

-- `(uint32_t)result`
abbrev pub uint32_of : XibResult → ℕ
uint32_of xib_result_ok = 0
uint32_of xib_result_error = 2 ^ 32 - 1
uint32_of xib_result_value_error = 2 ^ 32 - 3
uint32_of xib_result_nodevice = 2 ^ 32 - 4
uint32_of xib_result_timeout = 2 ^ 32 - 5

-- The device table, and the packets sent to the connection that asked.
abbrev pub Reply : Type 0
Reply = MapDevIdPHandle × List (List ℕ)

-- A command of either protocol: the result, and the response buffer. Both lengths are cast to uint8_t.
abbrev pub exchange :
    (ℕ → List ℕ → List ℕ → XibResult × List ℕ)
    → DevId
    → List ℕ
    → ℕ
    → MapDevIdPHandle
    → MapDevIdPHandle × XibResult × List ℕ
exchange send d req_data resp_len t =
    let (after, result, answer) =
      operation_send_request send d (take (length req_data % 256) req_data)
        (replicate (resp_len % 256) 0) t in
    (after, result, answer ++ replicate (resp_len - resp_len % 256) 0)

abbrev pub answer_cmd3 : DevId → MapDevIdPHandle × XibResult × List ℕ → Reply
answer_cmd3 d (t, xib_result_ok, resp_data) = (t, V3.create_cmd_response d (some resp_data) ∷ [])
answer_cmd3 d (t, result, resp_data) =
    (t, V3.create_error_response (xib_errors_to_xibridge result) ∷ [])

abbrev pub answer_cmd2 : DevId → MapDevIdPHandle × XibResult × List ℕ → Reply
answer_cmd2 d (t, result, resp_data) =
    (t, V2.create_cmd_response (uint32_of result) d resp_data ∷ [])

-- A Boolean as a uint32_t.
abbrev pub uint_of : Bool → ℕ
uint_of true = 1
uint_of false = 0

abbrev pub answer_open : (DevId → ℕ → List ℕ) → DevId → MapDevIdPHandle × Bool → Reply
answer_open create_open_response d (t, added) = (t, create_open_response d (uint_of added) ∷ [])

unfoldable pub handle2 : World → ℕ → ℕ → V2.Request → MapDevIdPHandle → Reply
handle2 w conn_id command_code r t =
    if command_code == pkt2_cmd_req
    then answer_cmd2 r.dev (exchange (w.urpc_send r.cid) r.dev r.req_data r.resp_len t)
    else if command_code == pkt_open_req
    then answer_open V2.create_open_response r.dev (open_if_not w.create conn_id r.dev t)
    else if command_code == pkt_close_req
    then (remove_conn_or_remove_device conn_id r.dev false t, V2.create_close_response r.dev 0 ∷ [])
    else (t, [])

-- The packets of protocol 3 that could be read.
unfoldable pub handle3 : World → ℕ → ℕ → V3.Request → MapDevIdPHandle → Reply
handle3 w conn_id command_code r t =
    if not r.ret
    then (t, V3.create_error_response r.proto.perror ∷ [])
    else if command_code == pkt3_cmd_req
    then answer_cmd3 r.dev (exchange w.send r.dev r.req_data r.resp_len t)
    else if command_code == pkt_open_req
    then answer_open V3.create_open_response r.dev (open_if_not w.create conn_id r.dev t)
    else if command_code == pkt_close_req
    then (remove_conn_or_remove_device conn_id r.dev false t, V3.create_close_response r.dev 0 ∷ [])
    else if command_code == pkt3_ver_req
    then (t, V3.create_version_response ∷ [])
    else if command_code == pkt3_enum_req
    then (t, V3.create_enum_response w.enumerate_dev ∷ [])
    else (t, [])

-- `none` is the exception. `err_p` is not initialised in the source: here it is what the stack held. The
-- identifier of a command of protocol 2 is copied whether the packet could be read or not.
unfoldable pub callback_data : World → ℕ → List ℕ → ℕ → MapDevIdPHandle → Option Reply
callback_data w conn_id message err_p t =
    if ltb (length message) 16
    then none
    else let (proto, m₁) = get32 (mbuf_of message true) (hex32 0 false) in
      let mbuf = (mseek m₁ (negsuc 3)).0 in
      let object : AProtocol = record { is_server = true; res_err = 0; perror = err_p } in
      some (
        if proto.value == 2
        then handle2 w conn_id (get_pckt_of_cmd message) (V2.get_data_from_request mbuf [] object) t
        else if proto.value == 3
        then handle3 w conn_id (get_pckt_of_cmd message) (V3.get_data_from_request mbuf object) t
        else (t, V3.create_error_response err_no_protocol ∷ []))

-- A connection that was cut.
abbrev pub callback_disc : ℕ → MapDevIdPHandle → MapDevIdPHandle
callback_disc conn_id t = remove_conn_or_remove_device conn_id (dev_id uint32_max 0 0 0) false t
