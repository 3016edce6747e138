-- ===== src/Tests/Version2.antt =====
-- Packets of protocols 1 and 2 between a client and a server, and a hollow packet of protocol 3.
use xibridge.Prelude.{◌≡◌, ◌↔◌, ◌%◌, true, arith}
use xibridge.Wire.RoundTrip.{be32}
use xibridge.MBuf.{mbuf_of}
use xibridge.Protocol.State.{pkt3_enum_resp}
use xibridge.Protocol.V3.Packets.{frame}
use xibridge.Protocol.Dispatch.{protocol3, get_data_from_bindy_callback}
use xibridge.Protocol.Answers.V3.{client}
use xibridge.Protocol.Answers.Wrap.{get_data_from_bindy_callback_hollow}
use xibridge.Tests.Devices.{motor}

get_data_from_bindy_callback_hollow_example :
    ((get_data_from_bindy_callback protocol3
        (mbuf_of (frame pkt3_enum_resp 0 motor (be32 64)) true)
        (client 4 0)).ret
      ≡ true)
    ↔ (64 % 64 ≡ 0)
get_data_from_bindy_callback_hollow_example =
    get_data_from_bindy_callback_hollow 64 4 0 motor (omega arith)
