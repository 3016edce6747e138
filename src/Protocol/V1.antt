-- ===== src/Protocol/V1.antt =====
-- class Protocol1: the protocol of ximc servers.
use xibridge.Prelude.{
  ℕ, zero, suc, ◌+◌, ◌-◌, Bool, true, false, ◌||◌, not, List, Option, none, some, if◌then◌else◌,
  ◌==◌, length, pos, negsuc, to_int,
}
use xibridge.Wire.{Hex, hex32}
use xibridge.MBuf.{
  MBuf, mbuf_new, was_broken, size_max, bytes_at, ◌<<◌, get32, memwrite, rest_of_size, mseek,
  to_vector,
}
use xibridge.DevId.{DevId, dev_id, add_dev_id_bvector_net_order}
use xibridge.Protocol.State.{
  AProtocol, Parsed, failed, passed, rounds_of, pkt_open_req, pkt_open_resp, pkt_close_req,
  pkt_close_resp, pkt1_raw, pkt1_enum_req, pkt1_enum_resp, pkt1_error_ntf, err_device_lost,
  err_pckt_fmt, err_pckt_inv,
}

-- The size of an optional vector, and `if (data != nullptr) mbuf.memwrite(...)`.
abbrev pub size_of : Option (List ℕ) → ℕ
size_of none = 0
size_of (some bytes) = length bytes

unfoldable pub write_data : MBuf → Option (List ℕ) → MBuf
write_data m none = m
write_data m (some bytes) = (memwrite m bytes).0

-- The private `create_client_request`, for vectors whose size fits an int.
unfoldable pub create_client_request : ℕ → ℕ → Option (List ℕ) → List ℕ
create_client_request pckt serial bytes =
    let m = mbuf_new (64 + size_of bytes) false in
    let head =
      m
      << hex32 1 false
      << hex32 pckt false
      << hex32 0 false
      << hex32 serial false
      << hex32 0 false
      << hex32 0 false in
    let body =
      if pckt == pkt1_raw
      then write_data head bytes
      else if pckt == pkt1_enum_req
      then head << hex32 0 false
      else head in
    to_vector body false

abbrev pub create_open_request : DevId → List ℕ
create_open_request d = create_client_request pkt_open_req d.id none

abbrev pub create_close_request : DevId → List ℕ
create_close_request d = create_client_request pkt_close_req d.id none

abbrev pub create_enum_request : List ℕ
create_enum_request = create_client_request pkt1_enum_req 0 none

abbrev pub create_cmd_request : DevId → Option (List ℕ) → List ℕ
create_cmd_request d bytes = create_client_request pkt1_raw d.id bytes

-- A device command at a server.
unfoldable pub get_raw_request : MBuf → List ℕ → List ℕ → AProtocol → Parsed
get_raw_request m res out p =
    let (m', _) = mseek m (pos (8 + 4)) in
    let len = rest_of_size m' (negsuc 0) in
    if was_broken m' || len == size_max
    then failed err_pckt_fmt m' res out p
    else passed m' res (bytes_at len m') p

-- `get_spec_data` at a server; `cur` is behind the first 16 bytes.
unfoldable pub get_spec_data_server : MBuf → List ℕ → List ℕ → ℕ → AProtocol → Parsed
get_spec_data_server m res out pckt p =
    if pckt == pkt1_raw
    then get_raw_request m res out p
    else if pckt == pkt_open_req
    then passed m res out p
    else if pckt == pkt_close_req
    then passed m res out p
    else if pckt == pkt1_enum_req
    then passed m res out p
    else failed err_pckt_inv m res out p

-- The loop over the devices of an enumeration: a number, little-endian, and 176 bytes to skip.
unfoldable pub enum_loop : ℕ → MBuf → Hex → List ℕ → MBuf × List ℕ
enum_loop zero m devnum out = (m, out)
enum_loop (suc rounds) m devnum out =
    let (devnum', m₁) = get32 m devnum in
    let out' = add_dev_id_bvector_net_order out (dev_id devnum'.value 0 0 0) in
    let (m₂, _) = mseek m₁ (pos (180 - 4)) in enum_loop rounds m₂ devnum' out'

-- The answer of an open or close request: one word, at the end.
unfoldable pub get_result_word : MBuf → List ℕ → List ℕ → AProtocol → Parsed
get_result_word m res out p =
    let (m', _) = mseek m (pos 8) in
    if not (rest_of_size m' (negsuc 0) == 4)
    then failed err_pckt_fmt m' res out p
    else let (r, m'') = get32 m' (hex32 0 false) in
      passed m'' res out (record p { res_err = r.value })

-- Device data, up to the end of the packet.
unfoldable pub get_rest_data : MBuf → List ℕ → List ℕ → AProtocol → Parsed
get_rest_data m res out p =
    let (m', _) = mseek m (pos 8) in
    if was_broken m' || rest_of_size m' (negsuc 0) == size_max
    then failed err_pckt_fmt m' res out p
    else passed m' res (to_vector m' true) p

unfoldable pub get_enum_data : MBuf → List ℕ → List ℕ → AProtocol → Parsed
get_enum_data m res out p =
    let (m₁, _) = mseek m (negsuc 3) in
    let (count, m₂) = get32 m₁ (hex32 0 false) in
    let (m₃, out') = enum_loop (rounds_of (to_int count.value)) m₂ (hex32 0 true) out in
    let p' = record p { res_err = count.value } in
    if was_broken m₃ then failed err_pckt_fmt m₃ res out' p' else passed m₃ res out' p'

-- `get_spec_data` at a client.
unfoldable pub get_spec_data_client : MBuf → List ℕ → List ℕ → ℕ → AProtocol → Parsed
get_spec_data_client m res out pckt p =
    if pckt == pkt1_error_ntf
    then failed err_device_lost m res out p
    else if pckt == pkt1_raw
    then get_rest_data m res out p
    else if pckt == pkt_open_resp
    then get_result_word m res out p
    else if pckt == pkt_close_resp
    then get_result_word m res out p
    else if pckt == pkt1_enum_resp
    then get_enum_data m res out p
    else failed err_pckt_inv m res out p

unfoldable pub get_spec_data : MBuf → List ℕ → List ℕ → ℕ → AProtocol → Parsed
get_spec_data m res out pckt p =
    let p₀ = record p { res_err = 0 } in
    if p.is_server
    then get_spec_data_server m res out pckt p₀
    else get_spec_data_client m res out pckt p₀

abbrev pub translate_response : AProtocol → Bool
translate_response p = p.res_err == 1
