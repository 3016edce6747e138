-- ===== src/Protocol/Schema/Tables.antt =====
-- The tables of schemas against the packets that the protocols make.
use xibridge.Prelude.{ℕ, ◌≡◌, refl, arith, List, [], none, some, true, ◌∙◌, ◌^◌, ◌<◌}
use xibridge.MBuf.{◌<<◌, to_vector}
use xibridge.DevId.{DevId, put_idev3}
use xibridge.Wire.{put_stream1_4}
use xibridge.Protocol.State.{
  pkt_open_req, pkt_close_req, pkt1_enum_req, pkt3_enum_req, pkt3_ver_req,
}
use xibridge.Protocol.V1
use xibridge.Protocol.V2
use xibridge.Protocol.V3
use xibridge.Protocol.Dispatch.{
  Kind, protocol1, protocol2, protocol3, version, create_open_request, create_close_request,
  create_enum_request, create_version_request,
}
use xibridge.Protocol.Schema.{
  CmdSchema, cmd_schemas1, cmd_schemas2, cmd_schemas3, get_schema, plain_length, Fields,
  put_symbols, symbol_of, gen_plain_command, is_match, match_symbols,
}
use xibridge.Protocol.Schema.Plain.{no_device, Fits, is_match-gen_plain_command}

abbrev pub cmd_schemas : Kind → List CmdSchema
cmd_schemas protocol1 = cmd_schemas1
cmd_schemas protocol2 = cmd_schemas2
cmd_schemas protocol3 = cmd_schemas3

abbrev pub text_of : CmdSchema → List ℕ
text_of s = elim s.schema [ none ↦ [] | some text ↦ text ]

-- The schema text of a packet type, and the fields of a packet about a device.
abbrev pub layout : Kind → ℕ → List ℕ
layout k pckt = text_of (get_schema pckt (cmd_schemas k))

abbrev pub about : Kind → ℕ → DevId → Fields
about k pckt d = record { pkt_type = pckt; proto = version k; dev = d; zero_one = 0; other = 0 }

-- What the functions of the three protocols write for an open or a close request of a device is, byte
-- for byte, the plain command that their tables of schemas describe.
pub requests_follow_schemas :
    (k : Kind) (d : DevId)
    → (create_open_request k d ≡ gen_plain_command (about k pkt_open_req d) (layout k pkt_open_req))
      × (create_close_request k d
          ≡ gen_plain_command (about k pkt_close_req d) (layout k pkt_close_req))
unfolding gen_plain_command plain_length put_symbols symbol_of get_schema V1.create_client_request
    V2.create_client_request V3.create_client_request ◌<<◌ to_vector put_idev3 put_stream1_4
requests_follow_schemas protocol1 d = (refl, refl)
requests_follow_schemas protocol2 d = (refl, refl)
requests_follow_schemas protocol3 d = (refl, refl)

about-Fits :
    (k : Kind) (pckt : ℕ) (d : DevId) → pckt < 2 ^ 32 → d.id < 2 ^ 32 → Fits (about k pckt d)
about-Fits protocol1 pckt d p h = ground arith
about-Fits protocol2 pckt d p h = ground arith
about-Fits protocol3 pckt d p h = ground arith

-- The enumeration and version requests, which name no device.
pub queries_follow_schemas :
    (create_enum_request protocol1
      ≡ gen_plain_command
          (about protocol1 pkt1_enum_req no_device)
          (layout protocol1 pkt1_enum_req))
    × (create_enum_request protocol3
        ≡ gen_plain_command
            (about protocol3 pkt3_enum_req no_device)
            (layout protocol3 pkt3_enum_req))
    × (create_version_request protocol3
        ≡ gen_plain_command
            (about protocol3 pkt3_ver_req no_device)
            (layout protocol3 pkt3_ver_req))
unfolding gen_plain_command plain_length put_symbols symbol_of get_schema V1.create_client_request
    V3.create_client_request ◌<<◌ to_vector put_idev3 put_stream1_4
queries_follow_schemas = (refl, refl, refl)

open_layout : (k : Kind) → (n : ℕ) × (plain_length (layout k pkt_open_req) 0 ≡ some n)
unfolding plain_length get_schema symbol_of
open_layout protocol1 = (24, refl)
open_layout protocol2 = (24, refl)
open_layout protocol3 = (32, refl)

-- An open request matches the schema of its protocol for open requests, at the version of the protocol and
-- the device it names.
pub is_match-create_open_request :
    (k : Kind) (d : DevId)
    → d.id < 2 ^ 32
    → is_match (about k pkt_open_req d) (layout k pkt_open_req) (create_open_request k d) ≡ true
is_match-create_open_request k d h =
    let (n, plain) = open_layout k in
    rw ((requests_follow_schemas k d).0) (
      is_match-gen_plain_command (about k pkt_open_req d) (layout k pkt_open_req) n
        (about-Fits k pkt_open_req d (omega arith) h) plain)

same_match :
    (d e : DevId) (message : List ℕ)
    → is_match (about protocol3 pkt_open_req d) (layout protocol3 pkt_open_req) message
      ≡ is_match (about protocol3 pkt_open_req e) (layout protocol3 pkt_open_req) message
unfolding is_match match_symbols symbol_of get_schema
same_match d e message = refl

-- In protocol 3 `is_match` does not look at the device: an open request of any device matches for any
-- other.
pub is_match_of_other_device :
    (d e : DevId)
    → e.id < 2 ^ 32
    → is_match
        (about protocol3 pkt_open_req d)
        (layout protocol3 pkt_open_req)
        (create_open_request protocol3 e)
      ≡ true
is_match_of_other_device d e h =
    same_match d e (create_open_request protocol3 e) ∙ is_match-create_open_request protocol3 e h
