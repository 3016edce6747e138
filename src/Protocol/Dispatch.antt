-- ===== src/Protocol/Dispatch.antt =====
-- AProtocol: the functions that all three protocols share, its virtual functions, and the choice of a
-- protocol by its version number.
use xibridge.Prelude.{
  ℕ, Bool, true, false, not, List, [], ◌∷◌, Option, none, some, if◌then◌else◌, ◌==◌,
}
use xibridge.Wire.{hex32}
use xibridge.MBuf.{MBuf, mbuf_of, was_broken, get32}
use xibridge.DevId.{DevId, hex_idev3, get_idev3}
use xibridge.Protocol.State.{AProtocol, Parsed, err_pckt_fmt}
use xibridge.Protocol.V1
use xibridge.Protocol.V2
use xibridge.Protocol.V3

pub data Kind : Type 0 where
  protocol1 protocol2 protocol3 : Kind

-- `none` is the null pointer. The object is created as a client's.
unfoldable pub create_appropriate_protocol : ℕ → Option Kind
create_appropriate_protocol version_number =
    if version_number == 1
    then some protocol1
    else if version_number == 2
    then some protocol2
    else if version_number == 3
    then some protocol3
    else none

abbrev pub version : Kind → ℕ
version protocol1 = 1
version protocol2 = 2
version protocol3 = 3

abbrev pub is_device_id_extended : Kind → Bool
is_device_id_extended protocol1 = false
is_device_id_extended protocol2 = false
is_device_id_extended protocol3 = true

abbrev pub create_open_request : Kind → DevId → List ℕ
create_open_request protocol1 d = V1.create_open_request d
create_open_request protocol2 d = V2.create_open_request d
create_open_request protocol3 d = V3.create_open_request d

abbrev pub create_close_request : Kind → DevId → List ℕ
create_close_request protocol1 d = V1.create_close_request d
create_close_request protocol2 d = V2.create_close_request d
create_close_request protocol3 d = V3.create_close_request d

-- A protocol that has no such request gives an empty vector.
abbrev pub create_version_request : Kind → List ℕ
create_version_request protocol1 = []
create_version_request protocol2 = []
create_version_request protocol3 = V3.create_version_request

abbrev pub create_enum_request : Kind → List ℕ
create_enum_request protocol1 = V1.create_enum_request
create_enum_request protocol2 = []
create_enum_request protocol3 = V3.create_enum_request

abbrev pub create_cmd_request : Kind → DevId → List ℕ → ℕ → List ℕ
create_cmd_request protocol1 d bytes resp_length = V1.create_cmd_request d (some bytes)
create_cmd_request protocol2 d bytes resp_length = V2.create_cmd_request d bytes resp_length
create_cmd_request protocol3 d bytes resp_length = V3.create_cmd_request d (some bytes) resp_length

abbrev pub get_spec_data : Kind → MBuf → List ℕ → List ℕ → ℕ → AProtocol → Parsed
get_spec_data protocol1 = V1.get_spec_data
get_spec_data protocol2 = V2.get_spec_data
get_spec_data protocol3 = V3.get_spec_data

abbrev pub translate_response : Kind → ℕ → AProtocol → Bool × AProtocol
translate_response protocol1 pckt p = (V1.translate_response p, p)
translate_response protocol2 pckt p = (V2.translate_response p, p)
translate_response protocol3 pckt p = V3.translate_response pckt p

-- `get_version_of_cmd` takes the fourth byte alone.
abbrev pub get_version_of_cmd : List ℕ → ℕ
get_version_of_cmd (a ∷ b ∷ c ∷ d ∷ cmd) = d
get_version_of_cmd _ = 0

unfoldable pub get_pckt_of_cmd : List ℕ → ℕ
get_pckt_of_cmd cmd =
    let (x, m₁) = get32 (mbuf_of cmd true) (hex32 0 false) in
    let (p, m₂) = get32 m₁ (hex32 0 false) in p.value

-- What `get_data_from_bindy_callback` leaves in its output arguments, and its result. The packet type
-- is written on success alone.
pub record Received : Type 0 where
  pub ret : Bool
  pub res_data : List ℕ
  pub data_out : List ℕ
  pub pckt_type : Option ℕ
  pub proto : AProtocol

-- `cmd >> serial` or `cmd >> hdev`
unfoldable pub skip_device : Kind → MBuf → MBuf
skip_device k m =
    if not (is_device_id_extended k)
    then (get32 m (hex32 0 false)).1
    else (get_idev3 m (hex_idev3 none false)).1

-- What it does with the outcome of `get_spec_data`.
abbrev pub received : ℕ → Parsed → Received
received pckt out = record {
  ret = out.ret;
  res_data = out.res_data;
  data_out = out.data_out;
  pckt_type = if out.ret then some pckt else none;
  proto = out.proto;
}

unfoldable pub get_data_from_bindy_callback : Kind → MBuf → AProtocol → Received
get_data_from_bindy_callback k cmd p =
    let (skip_prt, m₁) = get32 cmd (hex32 0 false) in
    let (pckt, m₂) = get32 m₁ (hex32 0 false) in
    let (skip_tout, m₃) = get32 m₂ (hex32 0 false) in
    let m₄ = skip_device k m₃ in
    let p₀ = record p { res_err = 0 } in
    if was_broken m₄
    then record {
      ret = false;
      res_data = [];
      data_out = [];
      pckt_type = none;
      proto = record p₀ { perror = err_pckt_fmt };
    }
    else received pckt.value (get_spec_data k m₄ [] [] pckt.value p₀)
