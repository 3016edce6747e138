-- ===== src/Tests/Schemas.antt =====
-- Packets and their schemas, for two devices.
use xibridge.Prelude.{◌≡◌, refl, true, some, codes, arith}
use xibridge.Protocol.State.{pkt_open_req}
use xibridge.Protocol.Dispatch.{protocol1, protocol2, create_open_request, create_close_request}
use xibridge.Protocol.State.{pkt_close_req}
use xibridge.Protocol.Schema.{plain_length, symbol_of, Fields, gen_plain_command, is_match}
use xibridge.Protocol.Schema.Plain.{Fits, is_match-gen_plain_command}
use xibridge.Protocol.Schema.Tables.{
  about, layout, requests_follow_schemas, is_match-create_open_request,
}
use xibridge.Tests.Devices.{motor, lamp}

-- An open response of protocol 3 about the motor.
abbrev opened : Fields
opened = record { pkt_type = 0xFF; proto = 3; dev = motor; zero_one = 1; other = 0 }

opened-Fits : Fits opened
opened-Fits = ground arith

opened_plain : plain_length (codes "v_p_0_I_0_0_b") 0 ≡ some 36
unfolding plain_length symbol_of
opened_plain = refl

is_match-gen_plain_command_example :
    is_match opened (codes "v_p_0_I_0_0_b") (gen_plain_command opened (codes "v_p_0_I_0_0_b"))
    ≡ true
is_match-gen_plain_command_example =
    is_match-gen_plain_command opened (codes "v_p_0_I_0_0_b") 36 opened-Fits opened_plain

requests_follow_schemas_example :
    (create_open_request protocol2 lamp
      ≡ gen_plain_command (about protocol2 pkt_open_req lamp) (layout protocol2 pkt_open_req))
    × (create_close_request protocol2 lamp
        ≡ gen_plain_command (about protocol2 pkt_close_req lamp) (layout protocol2 pkt_close_req))
requests_follow_schemas_example = requests_follow_schemas protocol2 lamp

is_match-create_open_request_example :
    is_match
      (about protocol1 pkt_open_req motor)
      (layout protocol1 pkt_open_req)
      (create_open_request protocol1 motor)
    ≡ true
is_match-create_open_request_example = is_match-create_open_request protocol1 motor (omega arith)
