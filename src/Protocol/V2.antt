-- ===== src/Protocol/V2.antt =====
-- class Protocol2: the protocol of urpc servers.
use xibridge.Prelude.{
  ℕ, ◌+◌, ◌-◌, ◌%◌, ◌^◌, Bool, true, false, ◌||◌, not, List, [], ◌++◌, Option, none, some,
  if◌then◌else◌, ◌==◌, ltb, length, take, drop, pos, negsuc,
}
use xibridge.Wire.{hex32}
use xibridge.MBuf.{
  MBuf, mbuf_new, was_broken, size_max, bytes_at, ◌<<◌, get32, rest_of_size, mseek, to_vector,
}
use xibridge.DevId.{DevId, dev_id, add_uint32_2_bvector}
use xibridge.Protocol.State.{
  AProtocol, Parsed, failed, passed, pkt_open_req, pkt_open_resp, pkt_close_req, pkt_close_resp,
  pkt2_cmd_req, pkt2_cmd_resp, err_pckt_fmt, err_pckt_inv,
}
use xibridge.Protocol.V1.{size_of, write_data, get_result_word, get_rest_data}

abbrev pub urpc_cid_size : ℕ
urpc_cid_size = 4

-- The private `create_client_request`, for vectors whose size fits an int.
unfoldable pub create_client_request : ℕ → ℕ → Option (List ℕ) → List ℕ
create_client_request pckt serial bytes =
    let m = mbuf_new (64 + size_of bytes) false in
    let head =
      m
      << hex32 2 false
      << hex32 pckt false
      << hex32 0 false
      << hex32 serial false
      << hex32 0 false
      << hex32 0 false in
    to_vector (if pckt == pkt2_cmd_req then write_data head bytes else head) false

abbrev pub create_open_request : DevId → List ℕ
create_open_request d = create_client_request pkt_open_req d.id none

abbrev pub create_close_request : DevId → List ℕ
create_close_request d = create_client_request pkt_close_req d.id none

-- The length of the answer code is taken off the response length, on a uint32_t. (The code reads
-- `data -> cbegin()` before it tests the pointer; its callers pass a vector.)
unfoldable pub create_cmd_request : DevId → List ℕ → ℕ → List ℕ
create_cmd_request d bytes resp_length =
    let with_length =
      if ltb (length bytes) urpc_cid_size
      then []
      else add_uint32_2_bvector (take urpc_cid_size bytes) ((resp_length + 2 ^ 32 - 4) % 2 ^ 32)
        ++ drop urpc_cid_size bytes in
    create_client_request pkt2_cmd_req d.id (some with_length)

-- The private `create_server_response`.
unfoldable pub create_server_response : ℕ → ℕ → DevId → Option (List ℕ) → List ℕ
create_server_response pckt val d bytes =
    let m = mbuf_new (64 + size_of bytes) false in
    let head =
      m
      << hex32 2 false
      << hex32 pckt false
      << hex32 0 false
      << hex32 d.id false
      << hex32 0 false
      << hex32 0 false
      << hex32 val false in
    to_vector (if pckt == pkt2_cmd_resp then write_data head bytes else head) false

abbrev pub create_cmd_response : ℕ → DevId → List ℕ → List ℕ
create_cmd_response val d bytes = create_server_response pkt2_cmd_resp val d (some bytes)

abbrev pub create_open_response : DevId → ℕ → List ℕ
create_open_response d val = create_server_response pkt_open_resp val d none

abbrev pub create_close_response : DevId → ℕ → List ℕ
create_close_response d val = create_server_response pkt_close_resp val d none

-- A command at a server: a command identifier of four bytes, the response length, the request. The
-- identifier is copied before its four bytes are known to be there.
unfoldable pub get_cmd_data : MBuf → List ℕ → List ℕ → AProtocol → Parsed
get_cmd_data m res out p =
    let (m₁, _) = mseek m (pos 8) in
    if was_broken m₁ || rest_of_size m₁ (negsuc 0) == size_max
    then failed err_pckt_fmt m₁ res out p
    else let cid = bytes_at urpc_cid_size m₁ in
      let (m₂, _) = mseek m₁ (pos urpc_cid_size) in
      let (r, m₃) = get32 m₂ (hex32 0 false) in
      let len = rest_of_size m₃ (negsuc 0) in
      record {
        ret = not (was_broken m₃);
        mbuf = m₃;
        res_data = cid;
        data_out = if ltb 0 len then bytes_at len m₃ else out;
        proto = record p { res_err = r.value };
      }

unfoldable pub get_spec_data_server : MBuf → List ℕ → List ℕ → ℕ → AProtocol → Parsed
get_spec_data_server m res out pckt p =
    if pckt == pkt2_cmd_req
    then get_cmd_data m res out p
    else if pckt == pkt_open_req
    then passed m res out p
    else if pckt == pkt_close_req
    then passed m res out p
    else failed err_pckt_inv m res out p

unfoldable pub get_spec_data_client : MBuf → List ℕ → List ℕ → ℕ → AProtocol → Parsed
get_spec_data_client m res out pckt p =
    if pckt == pkt2_cmd_resp
    then get_rest_data m res out p
    else if pckt == pkt_open_resp
    then get_result_word m res out p
    else if pckt == pkt_close_resp
    then get_result_word m res out p
    else failed err_pckt_inv m res out p

unfoldable pub get_spec_data : MBuf → List ℕ → List ℕ → ℕ → AProtocol → Parsed
get_spec_data m res out pckt p =
    let p₀ = record p { res_err = 0 } in
    if p.is_server
    then get_spec_data_server m res out pckt p₀
    else get_spec_data_client m res out pckt p₀

-- What `get_data_from_request` leaves in its output arguments, and its result.
pub record Request : Type 0 where
  pub ret : Bool
  pub cid : List ℕ
  pub req_data : List ℕ
  pub dev : DevId
  pub resp_len : ℕ
  pub proto : AProtocol

unfoldable pub get_data_from_request : MBuf → List ℕ → AProtocol → Request
get_data_from_request cmd cid p =
    let (skip_prt, m₁) = get32 cmd (hex32 0 false) in
    let (pckt, m₂) = get32 m₁ (hex32 0 false) in
    let (skip_tout, m₃) = get32 m₂ (hex32 0 false) in
    let (serial, m₄) = get32 m₃ (hex32 0 false) in
    let out = get_spec_data m₄ cid [] pckt.value (record p { res_err = 0 }) in
    let answer : Request = record {
      ret = true;
      cid = out.res_data;
      req_data = out.data_out;
      dev = dev_id serial.value 0 0 0;
      resp_len = 0;
      proto = out.proto;
    } in
    if not out.ret
    then record answer { ret = false }
    else if was_broken out.mbuf
    then record answer {
      ret = false;
      resp_len = out.proto.res_err;
      proto = record (out.proto) { perror = err_pckt_fmt };
    }
    else record answer { resp_len = out.proto.res_err }

abbrev pub translate_response : AProtocol → Bool
translate_response p = p.res_err == 1
