-- ===== src/DevId.antt =====
-- common/protocols.h: class DevId; common/utils.h and common/utils.cpp: class HexIDev3, the 12-byte
-- device identifier of protocol 3, and the functions that append numbers to a byte vector.
pub mod Order
pub mod Coding
use xibridge.Prelude.{
  ℕ, zero, suc, ◌+◌, ◌-◌, ◌*◌, ◌/◌, ◌%◌, ◌^◌, ◌<◌, Bool, true, false, ◌&&◌, List, [], ◌∷◌, ◌++◌,
  if◌then◌else◌, ltb, ◌==◌, Option, none, some,
}
use xibridge.Wire.{Hex, hex16, hex32}
use xibridge.MBuf.{MBuf, ◌<<◌, get32, get16}

pub record DevId : Type 0 where
  pub id : ℕ
  pub pid : ℕ
  pub vid : ℕ
  pub reserve : ℕ

-- DevId(id, pid, vid, reserve)
abbrev pub dev_id : ℕ → ℕ → ℕ → ℕ → DevId
dev_id id pid vid reserve = record {
  id = id % 2 ^ 32;
  pid = pid % 2 ^ 16;
  vid = vid % 2 ^ 16;
  reserve = reserve % 2 ^ 32;
}

-- The fields are of types uint32_t, uint16_t, uint16_t and uint32_t.
pub record IsDevId (d : DevId) : Type 0 where
  pub id_fits : d.id < 2 ^ 32
  pub pid_fits : d.pid < 2 ^ 16
  pub vid_fits : d.vid < 2 ^ 16
  pub reserve_fits : d.reserve < 2 ^ 32

-- `operator ==` and `operator <`
unfoldable pub dev_eq : DevId → DevId → Bool
dev_eq d e = d.id == e.id && (d.pid == e.pid && (d.vid == e.vid && d.reserve == e.reserve))

unfoldable pub dev_lt : DevId → DevId → Bool
dev_lt d e =
    if ltb d.vid e.vid
    then true
    else if ltb d.pid e.pid
    then true
    else if ltb d.id e.id
    then true
    else false

pub record HexIDev3 : Type 0 where
  pub id_value : Hex
  pub id_pid : Hex
  pub id_vid : Hex
  pub reserve : Hex
  pub lend : Bool

-- HexIDev3(pdevid, lit_end); `none` is the null pointer.
abbrev pub hex_idev3 : Option DevId → Bool → HexIDev3
hex_idev3 none lit_end = record {
  id_value = hex32 0 false;
  id_pid = hex16 0 false;
  id_vid = hex16 0 false;
  reserve = hex32 0 false;
  lend = lit_end;
}
hex_idev3 (some d) lit_end = record {
  id_value = hex32 d.id lit_end;
  id_pid = hex16 d.pid false;
  id_vid = hex16 d.vid false;
  reserve = hex32 d.reserve lit_end;
  lend = lit_end;
}

-- `put_stream`, which is `operator <<` of MBuf
unfoldable pub put_idev3 : MBuf → HexIDev3 → MBuf
put_idev3 m h =
    if h.lend
    then m << h.id_value << h.id_pid << h.id_vid << h.reserve
    else m << h.reserve << h.id_vid << h.id_pid << h.id_value

-- `get_stream`, which is `operator >>`
get_little : MBuf → HexIDev3 → HexIDev3 × MBuf
get_little m h =
    let (id, m₁) = get32 m h.id_value in
    let (pid, m₂) = get16 m₁ h.id_pid in
    let (vid, m₃) = get16 m₂ h.id_vid in
    let (res, m₄) = get32 m₃ h.reserve in
    (record h { id_value = id; id_pid = pid; id_vid = vid; reserve = res }, m₄)

get_big : MBuf → HexIDev3 → HexIDev3 × MBuf
get_big m h =
    let (res, m₁) = get32 m h.reserve in
    let (vid, m₂) = get16 m₁ h.id_vid in
    let (pid, m₃) = get16 m₂ h.id_pid in
    let (id, m₄) = get32 m₃ h.id_value in
    (record h { id_value = id; id_pid = pid; id_vid = vid; reserve = res }, m₄)

unfoldable pub get_idev3 : MBuf → HexIDev3 → HexIDev3 × MBuf
unfolding get_little get_big
get_idev3 m h = if h.lend then get_little m h else get_big m h

abbrev pub to_dev_id : HexIDev3 → DevId
to_dev_id h = dev_id h.id_value.value h.id_pid.value h.id_vid.value h.reserve.value

-- `add_value_2_bvector_net_order`: its loop from round i on.
abbrev add_loop : ℕ → ℕ → ℕ → ℕ → List ℕ → List ℕ
add_loop zero size i val bv = bv
add_loop (suc rounds) size i val bv =
    add_loop rounds size (i + 1) val (bv ++ (val / 2 ^ ((size - 1) * 8 - 8 * i) % 256 ∷ []))

abbrev pub add_value_2_bvector_net_order : List ℕ → ℕ → ℕ → List ℕ
add_value_2_bvector_net_order bv val size = add_loop size size 0 val bv

unfoldable pub add_uint32_2_bvector : List ℕ → ℕ → List ℕ
add_uint32_2_bvector bv val = add_value_2_bvector_net_order bv (val % 2 ^ 32) 4

unfoldable pub add_uint16_2_bvector : List ℕ → ℕ → List ℕ
add_uint16_2_bvector bv val = add_value_2_bvector_net_order bv (val % 2 ^ 16) 2

unfoldable pub add_dev_id_bvector_net_order : List ℕ → DevId → List ℕ
add_dev_id_bvector_net_order bv d =
    let with_reserve = add_uint32_2_bvector bv d.reserve in
    let with_vid = add_uint16_2_bvector with_reserve d.vid in
    let with_pid = add_uint16_2_bvector with_vid d.pid in add_uint32_2_bvector with_pid d.id
