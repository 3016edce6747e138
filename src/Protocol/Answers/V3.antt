-- ===== src/Protocol/Answers/V3.antt =====
-- What a client of protocol 3 makes of the packets that a server sends.
use xibridge.Prelude.{
  ℕ, ◌+◌, ◌%◌, ◌^◌, ◌<◌, ◌≡◌, ◌↔◌, inl, inr, refl, true, false, List, [], ◌∷◌, ◌++◌, arith, Option,
  none, some, length, length-append, ◌==◌, if◌then◌else◌,
}
use native.Mathlib.Nat.{mod-eq_of_lt}
use xibridge.Wire.RoundTrip.{be32}
use xibridge.MBuf.{MBuf, mbuf_of}
use xibridge.MBuf.Reader.{reader, get32-reader, mseek-reader, rest_of_size-reader, to_vector-reader}
use xibridge.DevId.{DevId, dev_id}
use xibridge.DevId.Coding.{idev_bytes, get_idev3-reader}
use xibridge.Protocol.State.{
  AProtocol, passed, err_device_lost, pkt_open_resp, pkt_close_resp, pkt3_cmd_resp, pkt3_error_resp,
}
use xibridge.Protocol.Frame.{words}
use xibridge.Protocol.V3.{
  create_server_response, create_cmd_response, create_open_response, create_close_response,
  create_error_response, get_spec_data, get_spec_data_client, get_cmd_response, get_result_word,
  translate_response,
}
use xibridge.Protocol.V3.Packets.{
  frame, dev_of, create_server_response-word, create_server_response-cmd, IsWordResponse, last_word,
}
use xibridge.Protocol.Dispatch.{received, protocol3, skip_device, get_data_from_bindy_callback}

abbrev pub client : ℕ → ℕ → AProtocol
client res_err perror = record { is_server = false; res_err = res_err; perror = perror }

abbrev pub head_of : ℕ → ℕ → DevId → List ℕ
head_of pckt tmout d = words (3 ∷ pckt ∷ tmout ∷ []) ++ idev_bytes d

-- Any packet with a whole frame goes to `get_spec_data` behind its identifier.
pub get_data_from_bindy_callback-frame :
    (pckt tmout : ℕ) (d : DevId) (body : List ℕ) (p : AProtocol)
    → pckt < 2 ^ 32
    → get_data_from_bindy_callback protocol3 (mbuf_of (frame pckt tmout d body) true) p
      ≡ received pckt (
          get_spec_data
            (reader (head_of pckt tmout d) (words (0 ∷ 0 ∷ []) ++ body))
            []
            []
            pckt
            (record p { res_err = 0 }))
unfolding get_data_from_bindy_callback skip_device
get_data_from_bindy_callback-frame pckt tmout d body p h = rw (
  get32-reader 0 3 [] (words (pckt ∷ tmout ∷ []) ++ (idev_bytes d ++ (words (0 ∷ 0 ∷ []) ++ body))),
  get32-reader 0 pckt (be32 3) (be32 tmout ++ (idev_bytes d ++ (words (0 ∷ 0 ∷ []) ++ body))),
  get32-reader 0 tmout (words (3 ∷ pckt ∷ [])) (idev_bytes d ++ (words (0 ∷ 0 ∷ []) ++ body)),
  get_idev3-reader (dev_id 0 0 0 0) d (words (3 ∷ pckt ∷ tmout ∷ [])) (words (0 ∷ 0 ∷ []) ++ body),
  mod-eq_of_lt h,
)

get_cmd_response-reader :
    (done res out bytes : List ℕ) (p : AProtocol)
    → length done + length bytes + 12 < 2 ^ 31
    → get_cmd_response
        (reader done (words (0 ∷ 0 ∷ []) ++ (be32 (length bytes) ++ bytes)))
        res
        out
        p
      ≡ passed (reader ((done ++ words (0 ∷ 0 ∷ [])) ++ be32 (length bytes)) bytes) res bytes p
unfolding get_cmd_response
get_cmd_response-reader done res out bytes p h = rw (
  mseek-reader done (words (0 ∷ 0 ∷ [])) (be32 (length bytes) ++ bytes) (omega arith),
  get32-reader 0 (length bytes) (done ++ words (0 ∷ 0 ∷ [])) bytes,
  rest_of_size-reader ((done ++ words (0 ∷ 0 ∷ [])) ++ be32 (length bytes)) bytes
      (omega (arith, head)),
  fits,
  to_vector-reader ((done ++ words (0 ∷ 0 ∷ [])) ++ be32 (length bytes)) bytes
      (omega (arith, head)),
)
  where
    head : length ((done ++ words (0 ∷ 0 ∷ [])) ++ be32 (length bytes)) ≡ length done + 12
    head = omega (
      arith,
      length-append (done ++ words (0 ∷ 0 ∷ [])) (be32 (length bytes)),
      length-append done (words (0 ∷ 0 ∷ [])),
    )

    fits : (length bytes == length bytes % 2 ^ 32) ≡ true
    fits = ground arith

-- A client of protocol 3 gets from a command response the very bytes that the server put there, and
-- no error. They are fewer than 2 ^ 30.
pub get_data_from_bindy_callback-create_cmd_response :
    (d : DevId) (bytes : List ℕ) (res_err perror : ℕ)
    → length bytes < 2 ^ 30
    → get_data_from_bindy_callback protocol3
        (mbuf_of (create_cmd_response d (some bytes)) true)
        (client res_err perror)
      ≡ record {
        ret = true;
        res_data = [];
        data_out = bytes;
        pckt_type = some pkt3_cmd_resp;
        proto = client 0 perror;
      }
unfolding get_spec_data get_spec_data_client
get_data_from_bindy_callback-create_cmd_response d bytes res_err perror h = rw (
  create_server_response-cmd d bytes (omega arith),
  get_data_from_bindy_callback-frame pkt3_cmd_resp 0 d (be32 (length bytes) ++ bytes)
      (client res_err perror) (omega arith),
  get_cmd_response-reader (head_of pkt3_cmd_resp 0 d) [] [] bytes (client 0 perror) (omega arith),
)

get_result_word-reader :
    (done res out : List ℕ) (val pckt : ℕ) (p : AProtocol)
    → length done + 12 < 2 ^ 31
    → get_result_word (reader done (words (0 ∷ 0 ∷ []) ++ be32 val)) res out pckt p
      ≡ passed (reader ((done ++ words (0 ∷ 0 ∷ [])) ++ be32 val) []) res out (record p {
        res_err = val % 2 ^ 32;
        perror = if pckt == pkt3_error_resp then val % 2 ^ 32 else p.perror;
      })
unfolding get_result_word
get_result_word-reader done res out val pckt p h = rw (
  mseek-reader done (words (0 ∷ 0 ∷ [])) (be32 val) (omega arith),
  rest_of_size-reader (done ++ words (0 ∷ 0 ∷ [])) (be32 val)
      (omega (arith, length-append done (words (0 ∷ 0 ∷ [])))),
  get32-reader 0 val (done ++ words (0 ∷ 0 ∷ [])) [],
)

to_result_word :
    (m : MBuf) (res out : List ℕ) (pckt : ℕ) (p : AProtocol)
    → IsWordResponse pckt
    → get_spec_data_client m res out pckt p ≡ get_result_word m res out pckt p
unfolding get_spec_data_client
to_result_word m res out pckt p (inl e) = rw e
to_result_word m res out pckt p (inr (inl e)) = rw e
to_result_word m res out pckt p (inr (inr (inl e))) = rw e
to_result_word m res out pckt p (inr (inr (inr e))) = rw e

-- A client of protocol 3 accepts every open, close, error and version response, with its one word as
-- the result; the word of an error response becomes the error.
pub get_data_from_bindy_callback-word :
    (pckt val res_err perror : ℕ) (pdevid : Option DevId)
    → IsWordResponse pckt
    → get_data_from_bindy_callback protocol3
        (mbuf_of (create_server_response pckt val pdevid none) true)
        (client res_err perror)
      ≡ record {
        ret = true;
        res_data = [];
        data_out = [];
        pckt_type = some pckt;
        proto =
            client
              (last_word pckt val % 2 ^ 32)
              (if pckt == pkt3_error_resp then val % 2 ^ 32 else perror);
      }
unfolding get_spec_data
get_data_from_bindy_callback-word pckt val res_err perror pdevid h =
    rw
      (
        create_server_response-word pckt val pdevid h,
        get_data_from_bindy_callback-frame pckt 0 (dev_of pdevid) (be32 (last_word pckt val))
            (client res_err perror) (omega arith),
        to_result_word
            (reader (head_of pckt 0 (dev_of pdevid))
              (words (0 ∷ 0 ∷ []) ++ be32 (last_word pckt val)))
            [] [] pckt (client 0 perror) h,
        get_result_word-reader (head_of pckt 0 (dev_of pdevid)) [] [] (last_word pckt val) pckt
            (client 0 perror) (omega arith),
      )
      (ground arith)

-- What a client of protocol 3 makes of the answer to an open or close request: success, exactly if
-- the word is 1.
pub translate_response-word :
    (val res_err perror : ℕ) (d : DevId)
    → val < 2 ^ 32
    → let opened =
        get_data_from_bindy_callback protocol3
          (mbuf_of (create_open_response d val) true)
          (client res_err perror) in
      let closed =
        get_data_from_bindy_callback protocol3
          (mbuf_of (create_close_response d val) true)
          (client res_err perror) in
      (((translate_response pkt_open_resp opened.proto).0 ≡ true) ↔ (val ≡ 1))
      × (((translate_response pkt_close_resp closed.proto).0 ≡ true) ↔ (val ≡ 1))
unfolding translate_response
translate_response-word val res_err perror d h =
    rw
      (
        get_data_from_bindy_callback-word pkt_open_resp val res_err perror (some d) (inl refl),
        get_data_from_bindy_callback-word pkt_close_resp val res_err perror (some d)
            (inr (inl refl)),
      )
      (ground arith)

-- What a client of protocol 3 makes of an error response: it is read, the error is the server's, and
-- translating it reports a lost device whatever the error was.
pub translate_response-error :
    (err res_err perror : ℕ)
    → err < 2 ^ 32
    → let got =
        get_data_from_bindy_callback protocol3
          (mbuf_of (create_error_response err) true)
          (client res_err perror) in
      (got.ret ≡ true)
      × (got.proto.perror ≡ err)
      × (translate_response pkt3_error_resp got.proto ≡ (false, client err err_device_lost))
unfolding translate_response
translate_response-error err res_err perror h =
    rw
      (get_data_from_bindy_callback-word pkt3_error_resp err res_err perror none
        (inr (inr (inl refl))))
      (ground arith)
