-- ===== src/Tests/Uris.antt =====
-- A uri, and the list that a client makes.
use xibridge.Prelude.{◌%◌, ◌^◌, ◌≡◌, refl, true, false, [], ◌∷◌, ◌++◌, some, arith, codes}
use xibridge.MBuf.{mbuf_new, to_vector}
use xibridge.Uri.{
  xi_net_schema, xibridge_parse_uri_dev12, scan_device, parse_device, xi_net_dev_uris,
}
use xibridge.Uri.Scan.{hex_value, scan_hex}
use xibridge.Uri.RoundTrip.{uri_text, xibridge_parse_uri_dev12-uri_text}
use xibridge.Uri.Listing.{dev_bytes, uri_texts, xi_net_dev_uris-written}
use xibridge.Tests.Devices.{motor}
use xibridge.Tests.Server.{motor-IsDevId}

short_uri :
    xibridge_parse_uri_dev12 (codes "xi-net://abcd/1")
    ≡ some (record {
      uri_schema = xi_net_schema;
      uri_server_host = codes "abcd";
      uri_device_id = record { id = 1; pid = 0; vid = 0; reserve = 0 };
    })
unfolding xibridge_parse_uri_dev12 parse_device scan_device scan_hex hex_value
short_uri = refl

xibridge_parse_uri_dev12-uri_text_example :
    xibridge_parse_uri_dev12 (uri_text (codes "lab") motor)
    ≡ some (record {
      uri_schema = xi_net_schema;
      uri_server_host = codes "lab";
      uri_device_id = record motor { reserve = motor.reserve % 2 ^ 16 };
    })
xibridge_parse_uri_dev12-uri_text_example =
    xibridge_parse_uri_dev12-uri_text (codes "lab") motor refl (omega arith) motor-IsDevId

xi_net_dev_uris-written_example :
    let (m, done) = xi_net_dev_uris (mbuf_new 43 false) (codes "lab") (dev_bytes (motor ∷ [])) 1 in
    (to_vector m false ≡ uri_texts (codes "lab") (motor ∷ []) ++ (0 ∷ [])) × (done ≡ true)
xi_net_dev_uris-written_example = xi_net_dev_uris-written (codes "lab") motor [] (omega arith)
