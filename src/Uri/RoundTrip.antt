-- ===== src/Uri/RoundTrip.antt =====
-- A uri written and read again.
use xibridge.Prelude.{
  ℕ, zero, suc, ◌%◌, ◌^◌, ◌<◌, ◌≡◌, refl, sym, ap, ◌∙◌, Bool, true, false, List, [], ◌∷◌, ◌++◌,
  some, arith, if◌then◌else◌, ◌==◌, length, append-nil, lt→ltb,
}
use xibridge.DevId.{DevId, IsDevId}
use xibridge.Uri.{
  xi_net_schema, xinet_pre, split_host, scan_device, device_text, parse_device, with_device,
  with_host, xibridge_parse_uri_dev12,
}
use xibridge.Uri.Scan.{scan_hex, hex_text}
use xibridge.Uri.Digits.{scan_hex-hex_text}

abbrev pub has_slash : List ℕ → Bool
has_slash [] = false
has_slash (c ∷ cs) = if c == 47 then true else has_slash cs

abbrev pub uri_text : List ℕ → DevId → List ℕ
uri_text host d = xinet_pre ++ (host ++ (47 ∷ device_text d))

length-hex_text : (w n : ℕ) → length (hex_text w n) ≡ w
length-hex_text zero n = refl
length-hex_text (suc w) n = ap suc (length-hex_text w n)

pub length-device_text : (d : DevId) → length (device_text d) ≡ 24
unfolding device_text
length-device_text d = refl

scan_device-device_text :
    (d : DevId)
    → IsDevId d
    → scan_device (device_text d) ≡ some (record d { reserve = d.reserve % 2 ^ 16 })
unfolding scan_device device_text
scan_device-device_text d v =
    rw
      (
        scan_hex-hex_text 6 d.reserve (hex_text 4 d.vid ++ (hex_text 4 d.pid ++ hex_text 8 d.id)),
        scan_hex-hex_text 2 d.vid (hex_text 4 d.pid ++ hex_text 8 d.id),
        scan_hex-hex_text 2 d.pid (hex_text 8 d.id),
        last,
      )
      (ap (λ e. some e) (ground arith))
  where
    last : scan_hex 8 (hex_text 8 d.id) ≡ some (d.id % 2 ^ 32, [])
    last = ap (scan_hex 8) (sym (append-nil (hex_text 8 d.id))) ∙ scan_hex-hex_text 6 d.id []

split_host-slash :
    (host rest : List ℕ)
    → has_slash host ≡ false
    → split_host (host ++ (47 ∷ rest)) ≡ some (host, rest)
split_host-slash [] rest h = refl
split_host-slash (c ∷ host) rest h = ground (arith, split_host-slash host rest)

parse_device-device_text :
    (d : DevId)
    → IsDevId d
    → parse_device (device_text d) ≡ some (record d { reserve = d.reserve % 2 ^ 16 })
unfolding parse_device
parse_device-device_text d v = rw (length-device_text d) (scan_device-device_text d v)

-- The uri of a host without a slash, shorter than 64 characters, and of a device is read as that host and that device, but
-- for the upper half of the device's 32-bit `reserve`, which the reader cuts off.
pub xibridge_parse_uri_dev12-uri_text :
    (host : List ℕ) (d : DevId)
    → has_slash host ≡ false
    → length host < 64
    → IsDevId d
    → xibridge_parse_uri_dev12 (uri_text host d)
      ≡ some (record {
        uri_schema = xi_net_schema;
        uri_server_host = host;
        uri_device_id = record d { reserve = d.reserve % 2 ^ 16 };
      })
unfolding xibridge_parse_uri_dev12
xibridge_parse_uri_dev12-uri_text host d h l v =
    ap with_host (split_host-slash host (device_text d) h)
    ∙ rw (lt→ltb (length host) 64 l) (ap (with_device host) (parse_device-device_text d v))
