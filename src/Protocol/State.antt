-- ===== src/Protocol/State.antt =====
-- The packet types, the error codes of client/xibridge_client.h, the fields of AProtocol, and what a
-- call of `get_spec_data` leaves behind.
use xibridge.Prelude.{ℕ, Bool, true, false, List, ℤ, pos, negsuc, []}
use xibridge.MBuf.{MBuf, bytes_at}

abbrev pub err_no_protocol : ℕ
err_no_protocol = 1

abbrev pub err_no_connection : ℕ
err_no_connection = 2

abbrev pub err_send_data : ℕ
err_send_data = 5

abbrev pub err_recv_timeout : ℕ
err_recv_timeout = 7

abbrev pub err_another_protocol : ℕ
err_another_protocol = 8

abbrev pub err_nullptr_param : ℕ
err_nullptr_param = 9

abbrev pub err_device_open : ℕ
err_device_open = 0xffbc

abbrev pub err_device_lost : ℕ
err_device_lost = 0xfffb

abbrev pub err_device_err : ℕ
err_device_err = 0xfffa

abbrev pub err_device_err_val : ℕ
err_device_err_val = 0xfff9

abbrev pub err_pckt_fmt : ℕ
err_pckt_fmt = 12

abbrev pub err_pckt_inv : ℕ
err_pckt_inv = 13

-- The packet types that every protocol gives the same number.
abbrev pub pkt_open_req : ℕ
pkt_open_req = 0x1

abbrev pub pkt_open_resp : ℕ
pkt_open_resp = 0xFF

abbrev pub pkt_close_req : ℕ
pkt_close_req = 2

abbrev pub pkt_close_resp : ℕ
pkt_close_resp = 0xFE

-- Pkt_types1
abbrev pub pkt1_raw : ℕ
pkt1_raw = 0x0

abbrev pub pkt1_enum_req : ℕ
pkt1_enum_req = 0x3

abbrev pub pkt1_enum_resp : ℕ
pkt1_enum_resp = 0xFD

abbrev pub pkt1_error_ntf : ℕ
pkt1_error_ntf = 0x4

-- Pkt_types2
abbrev pub pkt2_cmd_req : ℕ
pkt2_cmd_req = 0x3

abbrev pub pkt2_cmd_resp : ℕ
pkt2_cmd_resp = 0xFD

-- Pkt_types3
abbrev pub pkt3_ver_req : ℕ
pkt3_ver_req = 0x5

abbrev pub pkt3_ver_resp : ℕ
pkt3_ver_resp = 0xFB

abbrev pub pkt3_cmd_req : ℕ
pkt3_cmd_req = 0x3

abbrev pub pkt3_cmd_resp : ℕ
pkt3_cmd_resp = 0xFD

abbrev pub pkt3_enum_req : ℕ
pkt3_enum_req = 0x4

abbrev pub pkt3_enum_resp : ℕ
pkt3_enum_resp = 0xFC

abbrev pub pkt3_error_resp : ℕ
pkt3_error_resp = 0xFA

-- The fields of AProtocol; `perror` is what the pointer `_perror` points to.
pub record AProtocol : Type 0 where
  pub is_server : Bool
  pub res_err : ℕ
  pub perror : ℕ

-- What `get_spec_data` returns, and what it leaves in its arguments and in the object.
pub record Parsed : Type 0 where
  pub ret : Bool
  pub mbuf : MBuf
  pub res_data : List ℕ
  pub data_out : List ℕ
  pub proto : AProtocol

-- `*_perror = err; return false;`
abbrev pub failed : ℕ → MBuf → List ℕ → List ℕ → AProtocol → Parsed
failed err m res_data out p = record {
  ret = false;
  mbuf = m;
  res_data = res_data;
  data_out = out;
  proto = record p { perror = err };
}

abbrev pub passed : MBuf → List ℕ → List ℕ → AProtocol → Parsed
passed m res_data out p = record {
  ret = true;
  mbuf = m;
  res_data = res_data;
  data_out = out;
  proto = p;
}

-- `assign(cur_data(), cur_data() + n)`; a range that runs backwards is no range, and gives nothing here.
abbrev pub range_at : ℤ → MBuf → List ℕ
range_at (pos n) m = bytes_at n m
range_at (negsuc k) m = []

-- The rounds of `for (int i = 0; i < n; i++)`.
abbrev pub rounds_of : ℤ → ℕ
rounds_of (pos n) = n
rounds_of (negsuc k) = 0
