-- ===== src/Protocol/V3.antt =====
-- class Protocol3: the protocol of xibridge servers.
pub mod Packets
pub mod Requests
use xibridge.Prelude.{
  ℕ, zero, suc, ◌+◌, ◌*◌, ◌/◌, Bool, true, false, ◌||◌, not, List, [], ◌∷◌, ◌++◌, Option, none,
  some, if◌then◌else◌, ◌==◌, length, ℤ, pos, negsuc, to_int,
}
use xibridge.Wire.{Hex, hex32}
use xibridge.MBuf.{
  MBuf, mbuf_new, was_broken, ◌<<◌, get32, memwrite, rest_of_size, mseek, to_vector,
}
use xibridge.DevId.{
  DevId, dev_id, HexIDev3, hex_idev3, put_idev3, get_idev3, to_dev_id, add_uint32_2_bvector,
  add_dev_id_bvector_net_order,
}
use xibridge.Protocol.State.{
  AProtocol, Parsed, failed, passed, range_at, rounds_of, pkt_open_req, pkt_open_resp,
  pkt_close_req, pkt_close_resp, pkt3_ver_req, pkt3_ver_resp, pkt3_cmd_req, pkt3_cmd_resp,
  pkt3_enum_req, pkt3_enum_resp, pkt3_error_resp, err_device_lost, err_pckt_fmt, err_pckt_inv,
}
use xibridge.Protocol.V1.{size_of, write_data}

-- sizeof(DevId) and sizeof(xibridge_device_t), which is packed
abbrev pub dev_size : ℕ
dev_size = 12

-- `create_client_request`, for vectors whose size fits an int.
unfoldable pub create_client_request : ℕ → DevId → ℕ → Option (List ℕ) → List ℕ
create_client_request pckt d tmout bytes =
    let m =
      mbuf_new (64 + size_of bytes) false
      << hex32 3 false
      << hex32 pckt false
      << hex32 tmout false in
    let body =
      if pckt == pkt_close_req || (pckt == pkt_open_req || pckt == pkt3_cmd_req)
      then (let head = put_idev3 m (hex_idev3 (some d) false) << hex32 0 false << hex32 0 false in
          if pckt == pkt3_cmd_req then write_data head bytes else head)
      else m << hex32 0 false << hex32 0 false << hex32 0 false << hex32 0 false << hex32 0 false in
    to_vector body false

abbrev pub create_open_request : DevId → List ℕ
create_open_request d = create_client_request pkt_open_req d 0 none

abbrev pub create_close_request : DevId → List ℕ
create_close_request d = create_client_request pkt_close_req d 0 none

abbrev pub create_version_request : List ℕ
create_version_request = create_client_request pkt3_ver_req (dev_id 0 0 0 0) 0 none

abbrev pub create_enum_request : List ℕ
create_enum_request = create_client_request pkt3_enum_req (dev_id 0 0 0 0) 0 none

-- The request between its length and the response length.
unfoldable pub create_cmd_request : DevId → Option (List ℕ) → ℕ → List ℕ
create_cmd_request d none resp_length =
    create_client_request pkt3_cmd_req d 0
      (some (add_uint32_2_bvector (add_uint32_2_bvector [] 0) resp_length))
create_cmd_request d (some bytes) resp_length =
    create_client_request pkt3_cmd_req d 0
      (some (add_uint32_2_bvector (add_uint32_2_bvector [] (length bytes) ++ bytes) resp_length))

-- The `switch` of `create_server_response`.
unfoldable pub response_body : ℕ → ℕ → Option (List ℕ) → MBuf → MBuf
response_body pckt val bytes m =
    if pckt == pkt_close_resp || pckt == pkt_open_resp
    then m << hex32 val false
    else if pckt == pkt3_cmd_resp
    then write_data (m << hex32 (size_of bytes) false) bytes
    else if pckt == pkt3_enum_resp
    then write_data (m << hex32 (size_of bytes / dev_size) false) bytes << hex32 0 false
    else if pckt == pkt3_ver_resp
    then m << hex32 3 false
    else if pckt == pkt3_error_resp
    then m << hex32 val false
    else m

unfoldable pub create_server_response : ℕ → ℕ → Option DevId → Option (List ℕ) → List ℕ
create_server_response pckt val pdevid bytes =
    let m =
      mbuf_new (64 + size_of bytes) false << hex32 3 false << hex32 pckt false << hex32 0 false in
    let head = put_idev3 m (hex_idev3 pdevid false) << hex32 0 false << hex32 0 false in
    to_vector (response_body pckt val bytes head) false

abbrev pub create_cmd_response : DevId → Option (List ℕ) → List ℕ
create_cmd_response d bytes = create_server_response pkt3_cmd_resp 0 (some d) bytes

abbrev pub create_open_response : DevId → ℕ → List ℕ
create_open_response d val = create_server_response pkt_open_resp val (some d) none

abbrev pub create_close_response : DevId → ℕ → List ℕ
create_close_response d val = create_server_response pkt_close_resp val (some d) none

abbrev pub create_version_response : List ℕ
create_version_response = create_server_response pkt3_ver_resp 0 none none

abbrev pub create_error_response : ℕ → List ℕ
create_error_response val = create_server_response pkt3_error_resp val none none

-- The identifiers of `vdevs`, written one behind the other.
unfoldable pub put_devs : MBuf → List DevId → MBuf
put_devs m [] = m
put_devs m (v ∷ vs) = put_devs (put_idev3 m (hex_idev3 (some v) false)) vs

unfoldable pub create_enum_response : List DevId → List ℕ
create_enum_response [] = create_server_response pkt3_enum_resp 0 none none
create_enum_response (v ∷ vs) =
    let enumbuf = put_devs (mbuf_new (length (v ∷ vs) * dev_size) false) (v ∷ vs) in
    create_server_response pkt3_enum_resp 0 none (some (to_vector enumbuf false))

-- A command at a server: its length must be that of the rest, less the response length behind it.
unfoldable pub get_cmd_request : MBuf → List ℕ → List ℕ → AProtocol → Parsed
get_cmd_request m res out p =
    let (m₁, _) = mseek m (pos 8) in
    let (size, m₂) = get32 m₁ (hex32 0 false) in
    if was_broken m₂ || not (rest_of_size m₂ (negsuc 0) == size.value + 4)
    then failed err_pckt_fmt m₂ res out p
    else let (m₃, _) = mseek m₂ (to_int size.value) in
      passed m₃ res (range_at (to_int size.value) m₂) p

unfoldable pub get_spec_data_server : MBuf → List ℕ → List ℕ → ℕ → AProtocol → Parsed
get_spec_data_server m res out pckt p =
    if pckt == pkt3_cmd_req
    then get_cmd_request m res out p
    else if pckt == pkt_open_req
    then passed m res out p
    else if pckt == pkt_close_req
    then passed m res out p
    else if pckt == pkt3_enum_req
    then passed m res out p
    else if pckt == pkt3_ver_req
    then passed m res out p
    else failed err_pckt_inv m res out p

unfoldable pub get_cmd_response : MBuf → List ℕ → List ℕ → AProtocol → Parsed
get_cmd_response m res out p =
    let (m₁, _) = mseek m (pos 8) in
    let (size, m₂) = get32 m₁ (hex32 0 false) in
    if was_broken m₂ || not (rest_of_size m₂ (negsuc 0) == size.value)
    then failed err_pckt_fmt m₂ res out p
    else passed m₂ res (to_vector m₂ true) p

-- The answers that end in one word; that of an error packet is the error.
unfoldable pub get_result_word : MBuf → List ℕ → List ℕ → ℕ → AProtocol → Parsed
get_result_word m res out pckt p =
    let (m', _) = mseek m (pos 8) in
    if not (rest_of_size m' (negsuc 0) == 4)
    then failed err_pckt_fmt m' res out p
    else let (r, m'') = get32 m' (hex32 0 false) in
      passed m'' res out (record p {
        res_err = r.value;
        perror = if pckt == pkt3_error_resp then r.value else p.perror;
      })

-- The loop over the devices of an enumeration.
unfoldable pub enum_loop : ℕ → MBuf → HexIDev3 → List ℕ → MBuf × List ℕ
enum_loop zero m dev out = (m, out)
enum_loop (suc rounds) m dev out =
    let (dev', m') = get_idev3 m dev in
    enum_loop rounds m' dev' (add_dev_id_bvector_net_order out (to_dev_id dev'))

unfoldable pub get_enum_data : MBuf → List ℕ → List ℕ → AProtocol → Parsed
get_enum_data m res out p =
    let (m₁, _) = mseek m (pos 8) in
    let (size, m₂) = get32 m₁ (hex32 0 false) in
    let (m₃, out') = enum_loop (rounds_of (to_int size.value)) m₂ (hex_idev3 none false) out in
    let p' = record p { res_err = size.value } in
    if was_broken m₃ then failed err_pckt_fmt m₃ res out' p' else passed m₃ res out' p'

unfoldable pub get_spec_data_client : MBuf → List ℕ → List ℕ → ℕ → AProtocol → Parsed
get_spec_data_client m res out pckt p =
    if pckt == pkt3_cmd_resp
    then get_cmd_response m res out p
    else if pckt == pkt_open_resp
        || (pckt == pkt_close_resp || (pckt == pkt3_ver_resp || pckt == pkt3_error_resp))
    then get_result_word m res out pckt p
    else if pckt == pkt3_enum_resp
    then get_enum_data m res out p
    else failed err_pckt_fmt m res out p

unfoldable pub get_spec_data : MBuf → List ℕ → List ℕ → ℕ → AProtocol → Parsed
get_spec_data m res out pckt p =
    let p₀ = record p { res_err = 0 } in
    if p.is_server
    then get_spec_data_server m res out pckt p₀
    else get_spec_data_client m res out pckt p₀

-- What `get_data_from_request` leaves in its output arguments, and its result.
pub record Request : Type 0 where
  pub ret : Bool
  pub req_data : List ℕ
  pub dev : DevId
  pub resp_len : ℕ
  pub proto : AProtocol

-- What `get_data_from_request` does once `get_spec_data` has returned: the response length stands
-- behind the command.
unfoldable pub finish_request : Parsed → Hex → HexIDev3 → Request
finish_request out skip_prt hdev =
    let answer : Request = record {
      ret = true;
      req_data = out.data_out;
      dev = to_dev_id hdev;
      resp_len = 0;
      proto = out.proto;
    } in
    if not out.ret
    then record answer { ret = false }
    else let (word, m₅) = get32 (out.mbuf) skip_prt in
      if was_broken m₅
      then record answer {
        ret = false;
        resp_len = word.value;
        proto = record (out.proto) { perror = err_pckt_fmt };
      }
      else record answer { resp_len = word.value }

unfoldable pub get_data_from_request : MBuf → AProtocol → Request
get_data_from_request cmd p =
    let (skip_prt, m₁) = get32 cmd (hex32 0 false) in
    let (pckt, m₂) = get32 m₁ (hex32 0 false) in
    let (skip_tout, m₃) = get32 m₂ (hex32 0 false) in
    let (hdev, m₄) = get_idev3 m₃ (hex_idev3 none false) in
    let out = get_spec_data m₄ [] [] pckt.value (record p { res_err = 0 }) in
    finish_request out skip_prt hdev

-- `translate_response` may set the error.
unfoldable pub translate_response : ℕ → AProtocol → Bool × AProtocol
translate_response pckt p =
    if pckt == pkt3_error_resp
    then (false, record p { perror = err_device_lost })
    else (p.res_err == 1, p)
