-- ===== src/Protocol/V3/Requests.antt =====
-- What a server of protocol 3 makes of the packets that a client sends.
use xibridge.Prelude.{
  ℕ, ◌+◌, ◌%◌, ◌^◌, ◌<◌, ◌≡◌, ◌≢◌, inl, inr, refl, true, false, List, [], ◌∷◌, ◌++◌, arith, some,
  length, length-append, ◌==◌, pos, to_int,
}
use native.Mathlib.Nat.{mod-eq_of_lt}
use xibridge.Wire.RoundTrip.{be32}
use xibridge.MBuf.{mbuf_of}
use xibridge.MBuf.Reader.{
  reader, big32, get32-reader, mseek-reader, rest_of_size-reader, bytes_at-reader,
}
use xibridge.DevId.{DevId, IsDevId, dev_id}
use xibridge.DevId.Coding.{idev_bytes, big_idev3, truncated, get_idev3-reader, to_dev_id-big_idev3}
use xibridge.Protocol.State.{
  AProtocol, passed, failed, err_pckt_fmt, pkt3_cmd_req, pkt_open_req, pkt_close_req,
}
use xibridge.Protocol.Frame.{words}
use xibridge.Protocol.V3.{
  Request, create_open_request, create_close_request, create_cmd_request, get_cmd_request,
  get_spec_data_server, get_spec_data, finish_request, get_data_from_request,
}
use xibridge.Protocol.V3.Packets.{
  frame, create_cmd_request-frame, create_client_request-frame_empty,
}

abbrev pub server : ℕ → ℕ → AProtocol
server res_err perror = record { is_server = true; res_err = res_err; perror = perror }

to_int_small : (n : ℕ) → n < 2 ^ 31 → to_int (n % 2 ^ 32) ≡ pos n
to_int_small n h = ground arith

-- The command behind the frame, as `create_cmd_request` lays it out.
abbrev command : List ℕ → ℕ → List ℕ
command bytes resp_length = be32 (length bytes) ++ (bytes ++ be32 resp_length)

get_cmd_request-reader :
    (done res out bytes : List ℕ) (resp_length : ℕ) (p : AProtocol)
    → length done + length bytes + 16 < 2 ^ 31
    → get_cmd_request (reader done (words (0 ∷ 0 ∷ []) ++ command bytes resp_length)) res out p
      ≡ passed
          (reader
            (((done ++ words (0 ∷ 0 ∷ [])) ++ be32 (length bytes)) ++ bytes)
            (be32 resp_length))
          res
          bytes
          p
unfolding get_cmd_request
get_cmd_request-reader done res out bytes resp_length p h = rw (
  mseek-reader done (words (0 ∷ 0 ∷ [])) (command bytes resp_length)
      (omega (arith, length-append bytes (be32 resp_length))),
  get32-reader 0 (length bytes) (done ++ words (0 ∷ 0 ∷ [])) (bytes ++ be32 resp_length),
  rest_of_size-reader ((done ++ words (0 ∷ 0 ∷ [])) ++ be32 (length bytes))
      (bytes ++ be32 resp_length) (omega (arith, head, length-append bytes (be32 resp_length))),
  fits,
  to_int_small (length bytes) (omega arith),
  mseek-reader ((done ++ words (0 ∷ 0 ∷ [])) ++ be32 (length bytes)) bytes (be32 resp_length)
      (omega (arith, head)),
  bytes_at-reader ((done ++ words (0 ∷ 0 ∷ [])) ++ be32 (length bytes)) bytes (be32 resp_length),
)
  where
    head : length ((done ++ words (0 ∷ 0 ∷ [])) ++ be32 (length bytes)) ≡ length done + 12
    head = omega (
      arith,
      length-append (done ++ words (0 ∷ 0 ∷ [])) (be32 (length bytes)),
      length-append done (words (0 ∷ 0 ∷ [])),
    )

    fits : (length (bytes ++ be32 resp_length) == length bytes % 2 ^ 32 + 4) ≡ true
    fits = ground (arith, length-append bytes (be32 resp_length))

-- The frame as `get_data_from_request` reads it, and where that leaves the buffer.
abbrev head_of : ℕ → ℕ → DevId → List ℕ
head_of pckt tmout d = words (3 ∷ pckt ∷ tmout ∷ []) ++ idev_bytes d

-- Any packet with the frame of a known device goes to `get_spec_data` behind that frame.
pub get_data_from_request-frame :
    (pckt tmout : ℕ) (d : DevId) (body : List ℕ) (p : AProtocol)
    → IsDevId d
    → pckt < 2 ^ 32
    → get_data_from_request (mbuf_of (frame pckt tmout d body) true) p
      ≡ finish_request
          (get_spec_data
            (reader (head_of pckt tmout d) (words (0 ∷ 0 ∷ []) ++ body))
            []
            []
            pckt
            (record p { res_err = 0 }))
          (big32 3)
          (big_idev3 (truncated d))
unfolding get_data_from_request
get_data_from_request-frame pckt tmout d body p v h = rw (
  get32-reader 0 3 [] (words (pckt ∷ tmout ∷ []) ++ (idev_bytes d ++ (words (0 ∷ 0 ∷ []) ++ body))),
  get32-reader 0 pckt (be32 3) (be32 tmout ++ (idev_bytes d ++ (words (0 ∷ 0 ∷ []) ++ body))),
  get32-reader 0 tmout (words (3 ∷ pckt ∷ [])) (idev_bytes d ++ (words (0 ∷ 0 ∷ []) ++ body)),
  get_idev3-reader (dev_id 0 0 0 0) d (words (3 ∷ pckt ∷ tmout ∷ [])) (words (0 ∷ 0 ∷ []) ++ body),
  mod-eq_of_lt h,
)

-- A server of protocol 3 reads a device command as the client sent it: the same request, device and
-- response length. The request is shorter than 2 ^ 30 bytes.
pub get_data_from_request-create_cmd_request :
    (d : DevId) (bytes : List ℕ) (resp_length res_err perror : ℕ)
    → IsDevId d
    → length bytes < 2 ^ 30
    → resp_length < 2 ^ 32
    → get_data_from_request
        (mbuf_of (create_cmd_request d (some bytes) resp_length) true)
        (server res_err perror)
      ≡ record {
        ret = true;
        req_data = bytes;
        dev = d;
        resp_len = resp_length;
        proto = server 0 perror;
      }
unfolding get_spec_data get_spec_data_server finish_request
get_data_from_request-create_cmd_request d bytes resp_length res_err perror v h k = rw (
  create_cmd_request-frame d bytes resp_length h,
  get_data_from_request-frame pkt3_cmd_req 0 d (command bytes resp_length) (server res_err perror) v
      (omega arith),
  get_cmd_request-reader (head_of pkt3_cmd_req 0 d) [] [] bytes resp_length (server 0 perror)
      (omega arith),
  get32-reader 3 resp_length
      (((head_of pkt3_cmd_req 0 d ++ words (0 ∷ 0 ∷ [])) ++ be32 (length bytes)) ++ bytes) [],
  to_dev_id-big_idev3 d v,
  mod-eq_of_lt k,
)

-- An open or close request names its device; no data and no response length come with it.
pub get_data_from_request-create_open_request :
    (d : DevId) (res_err perror : ℕ)
    → IsDevId d
    → let answer : Request = record {
      ret = true;
      req_data = [];
      dev = d;
      resp_len = 0;
      proto = server 0 perror;
    } in
      (get_data_from_request (mbuf_of (create_open_request d) true) (server res_err perror)
        ≡ answer)
      × (get_data_from_request (mbuf_of (create_close_request d) true) (server res_err perror)
          ≡ answer)
unfolding get_spec_data get_spec_data_server finish_request
get_data_from_request-create_open_request d res_err perror v = (
  rw (
    create_client_request-frame_empty pkt_open_req 0 d (inl refl),
    get_data_from_request-frame pkt_open_req 0 d [] (server res_err perror) v (omega arith),
    get32-reader 3 0 (head_of pkt_open_req 0 d) (be32 0),
    to_dev_id-big_idev3 d v,
  ),
  rw (
    create_client_request-frame_empty pkt_close_req 0 d (inr refl),
    get_data_from_request-frame pkt_close_req 0 d [] (server res_err perror) v (omega arith),
    get32-reader 3 0 (head_of pkt_close_req 0 d) (be32 0),
    to_dev_id-big_idev3 d v,
  ),
)

get_cmd_request_bad :
    (done res out rest : List ℕ) (size : ℕ) (p : AProtocol)
    → length done + length rest + 16 < 2 ^ 31
    → length rest ≢ size % 2 ^ 32 + 4
    → get_cmd_request (reader done (words (0 ∷ 0 ∷ []) ++ (be32 size ++ rest))) res out p
      ≡ failed err_pckt_fmt (reader ((done ++ words (0 ∷ 0 ∷ [])) ++ be32 size) rest) res out p
unfolding get_cmd_request
get_cmd_request_bad done res out rest size p h ne = rw (
  mseek-reader done (words (0 ∷ 0 ∷ [])) (be32 size ++ rest) (omega arith),
  get32-reader 0 size (done ++ words (0 ∷ 0 ∷ [])) rest,
  rest_of_size-reader ((done ++ words (0 ∷ 0 ∷ [])) ++ be32 size) rest (
      omega (
        arith,
        length-append (done ++ words (0 ∷ 0 ∷ [])) (be32 size),
        length-append done (words (0 ∷ 0 ∷ [])),
      )),
  differ,
)
  where
    differ : (length rest == size % 2 ^ 32 + 4) ≡ false
    differ = ground arith

-- A server of protocol 3 refuses a device command whose stated length is not that of the bytes behind
-- it, less the response length: it hands over no data and reports ERR_PCKT_FMT.
pub get_data_from_request_bad_length :
    (d : DevId) (tmout size : ℕ) (rest : List ℕ) (res_err perror : ℕ)
    → IsDevId d
    → length rest < 2 ^ 30
    → length rest ≢ size % 2 ^ 32 + 4
    → get_data_from_request
        (mbuf_of (frame pkt3_cmd_req tmout d (be32 size ++ rest)) true)
        (server res_err perror)
      ≡ record { ret = false; req_data = []; dev = d; resp_len = 0; proto = server 0 err_pckt_fmt }
unfolding get_spec_data get_spec_data_server finish_request
get_data_from_request_bad_length d tmout size rest res_err perror v h ne = rw (
  get_data_from_request-frame pkt3_cmd_req tmout d (be32 size ++ rest) (server res_err perror) v
      (omega arith),
  get_cmd_request_bad (head_of pkt3_cmd_req tmout d) [] [] rest size (server 0 perror) (omega arith)
      ne,
  to_dev_id-big_idev3 d v,
)
