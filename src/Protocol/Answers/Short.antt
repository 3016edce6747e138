-- ===== src/Protocol/Answers/Short.antt =====
-- What a client of protocol 2 makes of the packets that a server sends, and a server of protocol 1 of
-- a device command.
use xibridge.Prelude.{
  ℕ, ◌+◌, ◌%◌, ◌^◌, ◌<◌, ◌≡◌, ◌↔◌, inl, inr, refl, true, false, List, [], ◌∷◌, ◌++◌, arith, some,
  length, length-append, ◌==◌,
}
use native.Mathlib.Nat.{mod-eq_of_lt}
use xibridge.Wire.RoundTrip.{be32}
use xibridge.MBuf.{mbuf_of, size_max}
use xibridge.MBuf.Reader.{reader, get32-reader, mseek-reader, rest_of_size-reader, to_vector-reader}
use xibridge.DevId.{DevId}
use xibridge.Protocol.State.{
  AProtocol, passed, pkt1_raw, pkt2_cmd_resp, pkt_open_resp, pkt_close_resp,
}
use xibridge.Protocol.Frame.{words}
use xibridge.Protocol.Short.{frame, cmd_request1-frame, cmd_response2-frame, word_response2-frame}
use xibridge.Protocol.V1
use xibridge.Protocol.V1.{get_rest_data, get_result_word, get_raw_request}
use xibridge.Protocol.V2
use xibridge.Protocol.Requests2.{server, rest_bytes}
use xibridge.Protocol.Dispatch.{
  Kind, protocol1, protocol2, received, is_device_id_extended, skip_device, get_spec_data,
  get_data_from_bindy_callback,
}
use xibridge.Protocol.Answers.V3.{client}

abbrev head_of : ℕ → ℕ → ℕ → List ℕ
head_of version pckt serial = words (version ∷ pckt ∷ 0 ∷ serial ∷ [])

-- Any packet with a whole frame goes to `get_spec_data` behind its serial number.
get_data_from_bindy_callback-frame :
    (k : Kind) (version pckt serial : ℕ) (body : List ℕ) (p : AProtocol)
    → is_device_id_extended k ≡ false
    → pckt < 2 ^ 32
    → get_data_from_bindy_callback k (mbuf_of (frame version pckt serial body) true) p
      ≡ received pckt (
          get_spec_data k
            (reader (head_of version pckt serial) (words (0 ∷ 0 ∷ []) ++ body))
            []
            []
            pckt
            (record p { res_err = 0 }))
unfolding get_data_from_bindy_callback skip_device
get_data_from_bindy_callback-frame k version pckt serial body p e h = rw (
  e,
  get32-reader 0 version [] (words (pckt ∷ 0 ∷ serial ∷ 0 ∷ 0 ∷ []) ++ body),
  get32-reader 0 pckt (be32 version) (words (0 ∷ serial ∷ 0 ∷ 0 ∷ []) ++ body),
  get32-reader 0 0 (words (version ∷ pckt ∷ [])) (words (serial ∷ 0 ∷ 0 ∷ []) ++ body),
  get32-reader 0 serial (words (version ∷ pckt ∷ 0 ∷ [])) (words (0 ∷ 0 ∷ []) ++ body),
  mod-eq_of_lt h,
)

get_rest_data-reader :
    (done res out bytes : List ℕ) (p : AProtocol)
    → length done + length bytes + 8 < 2 ^ 31
    → get_rest_data (reader done (words (0 ∷ 0 ∷ []) ++ bytes)) res out p
      ≡ passed (reader (done ++ words (0 ∷ 0 ∷ [])) bytes) res bytes p
unfolding get_rest_data
get_rest_data-reader done res out bytes p h =
    let start : List ℕ = done ++ words (0 ∷ 0 ∷ []) in
    rw (
      mseek-reader done (words (0 ∷ 0 ∷ [])) bytes (omega arith),
      rest_of_size-reader start bytes (omega (arith, length-append done (words (0 ∷ 0 ∷ [])))),
      whole,
      to_vector-reader start bytes (omega (arith, length-append done (words (0 ∷ 0 ∷ [])))),
    )
  where
    whole : (length bytes == size_max) ≡ false
    whole = ground arith

get_result_word-reader :
    (done res out : List ℕ) (val : ℕ) (p : AProtocol)
    → length done + 12 < 2 ^ 31
    → get_result_word (reader done (words (0 ∷ 0 ∷ []) ++ be32 val)) res out p
      ≡ passed
          (reader ((done ++ words (0 ∷ 0 ∷ [])) ++ be32 val) [])
          res
          out
          (record p { res_err = val % 2 ^ 32 })
unfolding get_result_word
get_result_word-reader done res out val p h = rw (
  mseek-reader done (words (0 ∷ 0 ∷ [])) (be32 val) (omega arith),
  rest_of_size-reader (done ++ words (0 ∷ 0 ∷ [])) (be32 val)
      (omega (arith, length-append done (words (0 ∷ 0 ∷ [])))),
  get32-reader 0 val (done ++ words (0 ∷ 0 ∷ [])) [],
)

-- A client of protocol 2 gets from a command response the server's result word, as four bytes, and
-- behind it the very bytes that the server put there. They are fewer than 2 ^ 30.
pub get_data_from_bindy_callback-create_cmd_response2 :
    (val : ℕ) (d : DevId) (bytes : List ℕ) (res_err perror : ℕ)
    → length bytes < 2 ^ 30
    → get_data_from_bindy_callback protocol2
        (mbuf_of (V2.create_cmd_response val d bytes) true)
        (client res_err perror)
      ≡ record {
        ret = true;
        res_data = [];
        data_out = be32 val ++ bytes;
        pckt_type = some pkt2_cmd_resp;
        proto = client 0 perror;
      }
unfolding V2.get_spec_data V2.get_spec_data_client
get_data_from_bindy_callback-create_cmd_response2 val d bytes res_err perror h = rw (
  cmd_response2-frame val d bytes h,
  get_data_from_bindy_callback-frame protocol2 2 pkt2_cmd_resp d.id (be32 val ++ bytes)
      (client res_err perror) refl (omega arith),
  get_rest_data-reader (head_of 2 pkt2_cmd_resp d.id) [] [] (be32 val ++ bytes) (client 0 perror)
      (omega arith),
)

-- What a client of protocol 2 makes of the answer to an open or close request: success, exactly if the
-- word is 1.
pub translate_response2-word :
    (val res_err perror : ℕ) (d : DevId)
    → val < 2 ^ 32
    → let opened =
        get_data_from_bindy_callback protocol2
          (mbuf_of (V2.create_open_response d val) true)
          (client res_err perror) in
      let closed =
        get_data_from_bindy_callback protocol2
          (mbuf_of (V2.create_close_response d val) true)
          (client res_err perror) in
      (opened.ret ≡ true)
      × (closed.ret ≡ true)
      × ((V2.translate_response opened.proto ≡ true) ↔ (val ≡ 1))
      × ((V2.translate_response closed.proto ≡ true) ↔ (val ≡ 1))
unfolding V2.get_spec_data V2.get_spec_data_client
translate_response2-word val res_err perror d h =
    rw
      (
        word_response2-frame pkt_open_resp val d (inl refl),
        word_response2-frame pkt_close_resp val d (inr refl),
        get_data_from_bindy_callback-frame protocol2 2 pkt_open_resp d.id (be32 val)
            (client res_err perror) refl (omega arith),
        get_data_from_bindy_callback-frame protocol2 2 pkt_close_resp d.id (be32 val)
            (client res_err perror) refl (omega arith),
        get_result_word-reader (head_of 2 pkt_open_resp d.id) [] [] val (client 0 perror)
            (omega arith),
        get_result_word-reader (head_of 2 pkt_close_resp d.id) [] [] val (client 0 perror)
            (omega arith),
      )
      (ground arith)

get_raw_request-reader :
    (done res out bytes : List ℕ) (a b c e : ℕ) (p : AProtocol)
    → length done + length bytes + 12 < 2 ^ 31
    → get_raw_request (reader done (words (0 ∷ 0 ∷ []) ++ (a ∷ b ∷ c ∷ e ∷ bytes))) res out p
      ≡ passed (reader (done ++ (words (0 ∷ 0 ∷ []) ++ (a ∷ b ∷ c ∷ e ∷ []))) bytes) res bytes p
unfolding get_raw_request
get_raw_request-reader done res out bytes a b c e p h =
    let skipped : List ℕ = words (0 ∷ 0 ∷ []) ++ (a ∷ b ∷ c ∷ e ∷ []) in
    rw (
      mseek-reader done skipped bytes (omega arith),
      rest_of_size-reader (done ++ skipped) bytes (omega (arith, length-append done skipped)),
      whole,
      rest_bytes (done ++ skipped) bytes,
    )
  where
    whole : (length bytes == size_max) ≡ false
    whole = ground arith

-- A server of protocol 1 does not get a device command as the client sent it: its first four bytes are
-- lost.
pub get_data_from_bindy_callback-create_cmd_request1 :
    (d : DevId) (a b c e : ℕ) (bytes : List ℕ) (res_err perror : ℕ)
    → length bytes < 2 ^ 29
    → (get_data_from_bindy_callback protocol1
        (mbuf_of (V1.create_cmd_request d (some (a ∷ b ∷ c ∷ e ∷ bytes))) true)
        (server res_err perror)).data_out
      ≡ bytes
unfolding V1.get_spec_data V1.get_spec_data_server
get_data_from_bindy_callback-create_cmd_request1 d a b c e bytes res_err perror h = rw (
  cmd_request1-frame d (a ∷ b ∷ c ∷ e ∷ bytes) (omega arith),
  get_data_from_bindy_callback-frame protocol1 1 pkt1_raw d.id (a ∷ b ∷ c ∷ e ∷ bytes)
      (server res_err perror) refl (omega arith),
  get_raw_request-reader (head_of 1 pkt1_raw d.id) [] [] bytes a b c e (server 0 perror)
      (omega arith),
)
