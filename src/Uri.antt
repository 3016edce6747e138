-- ===== src/Uri.antt =====
-- common/xibridge_uri_parse.h and common/utils.cpp: the text form of a device, as the client reads it from its caller and
-- as it writes it for the devices that a server names. Texts are lists of character codes without the final 0.
pub mod Scan
pub mod Digits
pub mod RoundTrip
pub mod Listing
use xibridge.Prelude.{
  ℕ, zero, suc, ◌-◌, ◌+◌, ◌*◌, ◌/◌, ◌%◌, ◌^◌, Bool, true, false, ◌&&◌, ◌||◌, List, [], ◌∷◌, ◌++◌,
  Option, none, some, if◌then◌else◌, ltb, leb, ◌==◌, length, take, drop, replicate, same_bytes,
}
use xibridge.DevId.{DevId, HexIDev3, get_idev3, hex_idev3, to_dev_id}
use xibridge.Wire.{hex8}
use xibridge.MBuf.{MBuf, mbuf_of, memwrite, was_broken, put8, size_max, overflowed}
use xibridge.Uri.Scan.{scan_hex, hex_text}

abbrev xi_uri_schema_len : ℕ
xi_uri_schema_len = 16

abbrev xi_uri_host_len : ℕ
xi_uri_host_len = 64

pub record ParsedUri : Type 0 where
  pub uri_schema : List ℕ
  pub uri_server_host : List ℕ
  pub uri_device_id : DevId

abbrev pub xi_net_schema : List ℕ
xi_net_schema = 120 ∷ 105 ∷ 45 ∷ 110 ∷ 101 ∷ 116 ∷ []

-- `p += strspn(p, " \t")`
abbrev pub skip_blanks : List ℕ → List ℕ
skip_blanks [] = []
skip_blanks (c ∷ cs) =
    let rest = skip_blanks cs in if c == 32 then rest else if c == 9 then rest else c ∷ cs

abbrev pub before : ℕ → Option (List ℕ × List ℕ) → Option (List ℕ × List ℕ)
before c none = none
before c (some (xs, ys)) = some (c ∷ xs, ys)

-- What stands before and behind the first "://", and the first '/'.
abbrev pub split_schema : List ℕ → Option (List ℕ × List ℕ)
split_schema [] = none
split_schema (c ∷ cs) =
    let rest = split_schema cs in
    if same_bytes (take 3 (c ∷ cs)) (58 ∷ 47 ∷ 47 ∷ [])
    then some ([], drop 3 (c ∷ cs))
    else before c rest

abbrev pub split_host : List ℕ → Option (List ℕ × List ℕ)
split_host [] = none
split_host (c ∷ cs) = let rest = split_host cs in if c == 47 then some ([], cs) else before c rest

-- The assignments of the four numbers, with their casts.
abbrev pub device_of : ℕ → ℕ → ℕ → ℕ → DevId
device_of reserved vid pid id = record {
  id = id;
  pid = pid % 2 ^ 16;
  vid = vid % 2 ^ 16;
  reserve = reserved % 2 ^ 16;
}

infixl 5 ◌>>=◌
abbrev ◌>>=◌ {ℓ κ} : {A : Type ℓ} {B : Type κ} → Option A → (A → Option B) → Option B
none >>= f = none
some a >>= f = f a

-- `sscanf(sdev, "%8x%4x%4x%8x", ...) == 4`
unfoldable pub scan_device : List ℕ → Option DevId
scan_device sdev = do
  (reserved, p₁) ← scan_hex 8 sdev
  (vid, p₂) ← scan_hex 4 p₁
  (pid, p₃) ← scan_hex 4 p₂
  (id, p₄) ← scan_hex 8 p₃
  some (device_of reserved vid pid id)

unfoldable pub parse_device : List ℕ → Option DevId
parse_device p = if leb (length p) 24 then scan_device (replicate (24 - length p) 48 ++ p) else none

abbrev pub with_device : List ℕ → Option DevId → Option ParsedUri
with_device host none = none
with_device host (some d) =
    some (record { uri_schema = xi_net_schema; uri_server_host = host; uri_device_id = d })

abbrev pub with_host : Option (List ℕ × List ℕ) → Option ParsedUri
with_host none = none
with_host (some (host, dev)) =
    if ltb (length host) xi_uri_host_len then with_device host (parse_device dev) else none

abbrev pub with_schema : Option (List ℕ × List ℕ) → Option ParsedUri
with_schema none = none
with_schema (some (schema, p)) =
    if ltb (length schema) xi_uri_schema_len && same_bytes schema xi_net_schema
    then with_host (split_host p)
    else none

-- `some` is the result 0 with what `*parsed_uri` then holds, `none` is the result 1.
unfoldable pub xibridge_parse_uri_dev12 : List ℕ → Option ParsedUri
xibridge_parse_uri_dev12 uri = with_schema (split_schema (skip_blanks uri))

abbrev pub xinet_pre : List ℕ
xinet_pre = 120 ∷ 105 ∷ 45 ∷ 110 ∷ 101 ∷ 116 ∷ 58 ∷ 47 ∷ 47 ∷ []

-- "%08X%04X%04X%08X"
unfoldable pub device_text : DevId → List ℕ
device_text d = hex_text 8 d.reserve ++ (hex_text 4 d.vid ++ (hex_text 4 d.pid ++ hex_text 8 d.id))

-- `(int)strlen` given for a size_t: a length that does not fit an int becomes another one.
abbrev pub int_to_size : ℕ → ℕ
int_to_size n = if ltb (n % 2 ^ 32) (2 ^ 31) then n % 2 ^ 32 else n % 2 ^ 32 + (2 ^ 64 - 2 ^ 32)

-- `memwrite` of a text by its `strlen`. A length that has become larger than the text finds no room.
unfoldable pub memwrite_text : MBuf → List ℕ → MBuf
memwrite_text m text =
    let len = int_to_size (length text) in
    if leb len (length text)
    then (memwrite m (take len text)).0
    else if m.rdon || len == size_max
    then m
    else overflowed m

-- A round of the loop of `xi_net_dev_uris`.
unfoldable pub write_uri : MBuf → List ℕ → DevId → MBuf
write_uri result server dev =
    let m₁ = memwrite_text result xinet_pre in
    let m₂ = memwrite_text m₁ server in
    let m₃ = put8 m₂ (hex8 47) in let m₄ = memwrite_text m₃ (device_text dev) in put8 m₄ (hex8 0)

-- A count below 0 is not modelled.
abbrev pub write_uris : ℕ → MBuf → List ℕ → MBuf → MBuf × MBuf
write_uris zero result server read_buf = (result, read_buf)
write_uris (suc count) result server read_buf =
    let (h, read_buf') = get_idev3 read_buf (hex_idev3 none false) in
    write_uris count (write_uri result server (to_dev_id h)) server read_buf'

unfoldable pub xi_net_dev_uris : MBuf → List ℕ → List ℕ → ℕ → MBuf × Bool
xi_net_dev_uris result server data_devid count =
    let (m, read_buf) = write_uris count result server (mbuf_of data_devid true) in
    let ended = if m.cur == 0 then m else put8 m (hex8 0) in
    (ended, if was_broken read_buf then false else if was_broken ended then false else true)
