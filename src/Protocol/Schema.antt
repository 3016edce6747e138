-- ===== src/Protocol/Schema.antt =====
-- cmd_schema_t of common/protocols.h and common/protocols.cpp: the layouts of packets, written as texts
-- such as "v_p_0_d_0_0_x", and the three tables of them.
pub mod Plain
pub mod Tables
use xibridge.Prelude.{
  ℕ, ◌+◌, ◌%◌, ◌^◌, Bool, true, false, not, List, [], ◌∷◌, Option, none, some, if◌then◌else◌, ◌==◌,
  codes, ℤ, negsuc, to_int,
}
use xibridge.Wire.{Hex, hex32}
use xibridge.MBuf.{
  MBuf, mbuf_new, mbuf_of, was_broken, size_max, ◌<<◌, get32, rest_of_size, mseek, to_vector,
}
use xibridge.DevId.{DevId, HexIDev3, hex_idev3, put_idev3, get_idev3}
use xibridge.Protocol.State.{
  pkt_open_req, pkt_open_resp, pkt_close_req, pkt_close_resp, pkt1_raw, pkt1_enum_req,
  pkt1_enum_resp, pkt1_error_ntf, pkt2_cmd_req, pkt2_cmd_resp, pkt3_ver_req, pkt3_ver_resp,
  pkt3_cmd_req, pkt3_cmd_resp, pkt3_enum_req, pkt3_enum_resp, pkt3_error_resp,
}

-- `none` is the null pointer that ends a table.
pub record CmdSchema : Type 0 where
  pub pkt_type : ℕ
  pub schema : Option (List ℕ)

abbrev pub entry : ℕ → List ℕ → CmdSchema
entry pckt text = record { pkt_type = pckt; schema = some text }

abbrev pub cmd_schemas1 : List CmdSchema
cmd_schemas1 =
    entry pkt1_raw (codes "v_p_0_d_0_0_x")
    ∷ entry pkt_open_req (codes "v_p_0_d_0_0")
    ∷ entry pkt_open_resp (codes "v_p_0_d_0_0_b")
    ∷ entry pkt_close_req (codes "v_p_0_d_0_0")
    ∷ entry pkt_close_resp (codes "v_p_0_d_0_0_b")
    ∷ entry pkt1_enum_req (codes "v_p_0_0_0_0_0")
    ∷ entry pkt1_enum_resp (codes "v_p_0_u_x")
    ∷ entry pkt1_error_ntf (codes "v_p_0_d_0_0")
    ∷ record { pkt_type = pkt1_raw; schema = none }
    ∷ []

abbrev pub cmd_schemas2 : List CmdSchema
cmd_schemas2 =
    entry pkt2_cmd_req (codes "v_p_0_d_0_0_x")
    ∷ entry pkt2_cmd_resp (codes "v_p_0_d_0_0_x")
    ∷ entry pkt_open_req (codes "v_p_0_d_0_0")
    ∷ entry pkt_open_resp (codes "v_p_0_d_0_0_b")
    ∷ entry pkt_close_req (codes "v_p_0_d_0_0")
    ∷ entry pkt_close_resp (codes "v_p_0_d_0_0_b")
    ∷ record { pkt_type = pkt2_cmd_req; schema = none }
    ∷ []

abbrev pub cmd_schemas3 : List CmdSchema
cmd_schemas3 =
    entry pkt3_ver_req (codes "v_p_0_0_0_0_0_0")
    ∷ entry pkt3_ver_resp (codes "v_p_0_0_0_0_0_0_u")
    ∷ entry pkt3_cmd_req (codes "v_p_0_I_0_0_l_u")
    ∷ entry pkt3_cmd_resp (codes "v_p_0_I_0_0_l")
    ∷ entry pkt_open_req (codes "v_p_0_I_0_0")
    ∷ entry pkt_open_resp (codes "v_p_0_I_0_0_b")
    ∷ entry pkt_close_req (codes "v_p_0_I_0_0")
    ∷ entry pkt_close_resp (codes "v_p_0_I_0_0_b")
    ∷ entry pkt3_enum_req (codes "v_p_0_0_0_0_0_0")
    ∷ entry pkt3_enum_resp (codes "v_p_0_0_0_0_0_0_x")
    ∷ entry pkt3_error_resp (codes "v_p_0_I_0_0_u")
    ∷ record { pkt_type = pkt3_error_resp; schema = none }
    ∷ []

-- A table ends with a null entry, so the empty list is not reached.
unfoldable pub get_schema : ℕ → List CmdSchema → CmdSchema
get_schema pckt [] = record { pkt_type = 0; schema = none }
get_schema pckt (s ∷ ss) = elim s.schema [
  | none ↦ s
  | some text ↦ if s.pkt_type == pckt then s else get_schema pckt ss
]

-- The cases of the `switch` on a character.
pub data Symbol : Type 0 where
  separator version zeros packet device bytes block flag any extended unknown : Symbol

unfoldable pub symbol_of : ℕ → Symbol
symbol_of ch =
    if ch == b'_'
    then separator
    else if ch == b'v'
    then version
    else if ch == b'0'
    then zeros
    else if ch == b'p'
    then packet
    else if ch == b'd'
    then device
    else if ch == b'x'
    then bytes
    else if ch == b'l'
    then block
    else if ch == b'b'
    then flag
    else if ch == b'u'
    then any
    else if ch == b'I'
    then extended
    else unknown

-- `get_plain_command_length`, from a length of `l` on; `none` is -1.
abbrev pub symbol_length : Symbol → Option ℕ
symbol_length separator = some 0
symbol_length extended = some 12
symbol_length bytes = none
symbol_length block = none
symbol_length unknown = none
symbol_length _ = some 4

unfoldable pub plain_length : List ℕ → ℕ → Option ℕ
plain_length [] l = some l
plain_length (ch ∷ chs) l = elim (symbol_length (symbol_of ch)) [
  | none ↦ none
  | some n ↦ plain_length chs (l + n)
]

-- What `gen_plain_command` and `is_match` are called with.
pub record Fields : Type 0 where
  pub pkt_type : ℕ
  pub proto : ℕ
  pub dev : DevId
  pub zero_one : ℕ
  pub other : ℕ

abbrev pub put_symbol : Fields → Symbol → MBuf → MBuf
put_symbol f version m = m << hex32 f.proto false
put_symbol f zeros m = m << hex32 0 false
put_symbol f packet m = m << hex32 f.pkt_type false
put_symbol f device m = m << hex32 f.dev.id false
put_symbol f flag m = m << hex32 f.zero_one false
put_symbol f any m = m << hex32 f.other false
put_symbol f extended m = put_idev3 m (hex_idev3 (some f.dev) false)
put_symbol f _ m = m

unfoldable pub put_symbols : Fields → List ℕ → MBuf → MBuf
put_symbols f [] m = m
put_symbols f (ch ∷ chs) m = put_symbols f chs (put_symbol f (symbol_of ch) m)

unfoldable pub gen_plain_command : Fields → List ℕ → List ℕ
gen_plain_command f text = elim (plain_length text 0) [
  | none ↦ []
  | some l ↦ to_vector (put_symbols f text (mbuf_new l false)) false
]

-- The variables of the loop of `is_match`.
pub record Matching : Type 0 where
  pub mbuf : MBuf
  pub hex : Hex
  pub hdev : HexIDev3

-- `mbuf >> hex32`, then a test of what was read; `none` is `return false`.
abbrev pub read_and : (ℕ → Bool) → Matching → Option Matching
read_and test s =
    let (hex, m) = get32 s.mbuf s.hex in
    if test hex.value then some (record s { mbuf = m; hex = hex }) else none

abbrev pub match_symbol : Fields → Symbol → Matching → Option Matching
match_symbol f separator s = some s
match_symbol f version s = read_and (λ v. v == f.proto) s
match_symbol f zeros s = read_and (λ v. v == 0) s
match_symbol f packet s = read_and (λ v. f.pkt_type == v) s
match_symbol f device s = read_and (λ v. v == f.dev.id) s
match_symbol f bytes s = if rest_of_size s.mbuf (negsuc 0) == size_max then none else some s
match_symbol f block s =
    let (hex, m) = get32 s.mbuf s.hex in
    some (record s { mbuf = (mseek m (to_int hex.value)).0; hex = hex })
match_symbol f flag s = read_and (λ v. if v == 0 then true else v == 1) s
match_symbol f any s = read_and (λ v. true) s
match_symbol f extended s =
    let (hdev, m) = get_idev3 s.mbuf s.hdev in some (record s { mbuf = m; hdev = hdev })
match_symbol f unknown s = none

unfoldable pub match_symbols : Fields → List ℕ → Matching → Bool
match_symbols f [] s = not (was_broken s.mbuf)
match_symbols f (ch ∷ chs) s = elim (match_symbol f (symbol_of ch) s) [
  | none ↦ false
  | some s' ↦ match_symbols f chs s'
]

-- `is_match`; of the fields it uses the packet type, the version and the device.
unfoldable pub is_match : Fields → List ℕ → List ℕ → Bool
is_match f text message =
    match_symbols f text
      (record { mbuf = mbuf_of message true; hex = hex32 0 false; hdev = hex_idev3 none false })
