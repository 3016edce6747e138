-- ===== src/Protocol/Requests2.antt =====
-- What a server makes of the packets of protocol 2 (and one of protocol 1) that a client sends.
use xibridge.Prelude.{
  ℕ, ◌+◌, ◌-◌, ◌%◌, ◌^◌, ◌<◌, ◌≡◌, true, false, List, [], ◌∷◌, ◌++◌, arith, length, length-append,
  append-nil, length_zero, if◌then◌else◌, ltb, ◌==◌,
}
use native.Mathlib.Nat.{mod-eq_of_lt}
use xibridge.Wire.RoundTrip.{be32}
use xibridge.MBuf.{mbuf_of, size_max, bytes_at}
use xibridge.MBuf.Reader.{reader, get32-reader, mseek-reader, rest_of_size-reader, bytes_at-reader}
use xibridge.DevId.{DevId}
use xibridge.Protocol.State.{AProtocol, passed, pkt2_cmd_req}
use xibridge.Protocol.Frame.{words}
use xibridge.Protocol.Short.{cmd_request2-frame}
use xibridge.Protocol.V2
use xibridge.Protocol.V2.{get_cmd_data, get_data_from_request, Request}

abbrev pub server : ℕ → ℕ → AProtocol
server res_err perror = record { is_server = true; res_err = res_err; perror = perror }

abbrev head_of : ℕ → ℕ → ℕ → List ℕ
head_of version pckt serial = words (version ∷ pckt ∷ 0 ∷ serial ∷ [])

-- All bytes to come, read by the length that `restOfSize` gives.
pub rest_bytes : (done rest : List ℕ) → bytes_at (length rest) (reader done rest) ≡ rest
rest_bytes done rest = rw (append-nil rest) at (bytes_at-reader done rest [])

data_or_none :
    (done rest : List ℕ)
    → (if ltb 0 (length rest) then bytes_at (length rest) (reader done rest) else []) ≡ rest
data_or_none done rest = rw (rest_bytes done rest) (ground (arith, length_zero rest))

get_cmd_data-reader :
    (done res : List ℕ) (a b c e val : ℕ) (bytes : List ℕ) (p : AProtocol)
    → length done + length bytes + 16 < 2 ^ 31
    → get_cmd_data
        (reader done (words (0 ∷ 0 ∷ []) ++ ((a ∷ b ∷ c ∷ e ∷ []) ++ (be32 val ++ bytes))))
        res
        []
        p
      ≡ passed
          (reader (((done ++ words (0 ∷ 0 ∷ [])) ++ (a ∷ b ∷ c ∷ e ∷ [])) ++ be32 val) bytes)
          (a ∷ b ∷ c ∷ e ∷ [])
          bytes
          (record p { res_err = val % 2 ^ 32 })
unfolding get_cmd_data
get_cmd_data-reader done res a b c e val bytes p h =
    let cid : List ℕ = a ∷ b ∷ c ∷ e ∷ [] in
    let start : List ℕ = done ++ words (0 ∷ 0 ∷ []) in
    rw (
      mseek-reader done (words (0 ∷ 0 ∷ [])) (cid ++ (be32 val ++ bytes)) (omega arith),
      rest_of_size-reader start (cid ++ (be32 val ++ bytes))
          (omega (arith, length-append done (words (0 ∷ 0 ∷ [])))),
      whole,
      bytes_at-reader start cid (be32 val ++ bytes),
      mseek-reader start cid (be32 val ++ bytes)
          (omega (arith, length-append done (words (0 ∷ 0 ∷ [])))),
      get32-reader 0 val (start ++ cid) bytes,
      rest_of_size-reader ((start ++ cid) ++ be32 val) bytes (
          omega (
            arith,
            length-append (start ++ cid) (be32 val),
            length-append start cid,
            length-append done (words (0 ∷ 0 ∷ [])),
          )),
      data_or_none ((start ++ cid) ++ be32 val) bytes,
    )
  where
    whole : (length ((a ∷ b ∷ c ∷ e ∷ []) ++ (be32 val ++ bytes)) == size_max) ≡ false
    whole = ground arith

-- A server of protocol 2 splits a device command into the four bytes of its identifier and the rest,
-- with the response length that the client gave less four, on 32 bits. Of the device it knows the id.
pub get_data_from_request2-create_cmd_request :
    (d : DevId) (a b c e : ℕ) (bytes cid : List ℕ) (resp_length res_err perror : ℕ)
    → d.id < 2 ^ 32
    → length bytes < 2 ^ 30
    → get_data_from_request
        (mbuf_of (V2.create_cmd_request d (a ∷ b ∷ c ∷ e ∷ bytes) resp_length) true)
        cid
        (server res_err perror)
      ≡ record {
        ret = true;
        cid = a ∷ b ∷ c ∷ e ∷ [];
        req_data = bytes;
        dev = record { id = d.id; pid = 0; vid = 0; reserve = 0 };
        resp_len = (resp_length + 2 ^ 32 - 4) % 2 ^ 32;
        proto = server ((resp_length + 2 ^ 32 - 4) % 2 ^ 32) perror;
      }
unfolding get_data_from_request V2.get_spec_data V2.get_spec_data_server
get_data_from_request2-create_cmd_request d a b c e bytes cid resp_length res_err perror v h =
    let len : ℕ = (resp_length + 2 ^ 32 - 4) % 2 ^ 32 in
    let body : List ℕ = words (0 ∷ 0 ∷ []) ++ ((a ∷ b ∷ c ∷ e ∷ []) ++ (be32 len ++ bytes)) in
    rw
      (
        cmd_request2-frame d a b c e bytes resp_length h,
        get32-reader 0 2 [] (words (pkt2_cmd_req ∷ 0 ∷ d.id ∷ []) ++ body),
        get32-reader 0 pkt2_cmd_req (be32 2) (words (0 ∷ d.id ∷ []) ++ body),
        get32-reader 0 0 (words (2 ∷ pkt2_cmd_req ∷ [])) (be32 d.id ++ body),
        get32-reader 0 d.id (words (2 ∷ pkt2_cmd_req ∷ 0 ∷ [])) body,
        get_cmd_data-reader (head_of 2 pkt2_cmd_req d.id) cid a b c e len bytes (server 0 perror)
            (omega arith),
        mod-eq_of_lt {n = len} {m = 2 ^ 32} (omega arith),
        mod-eq_of_lt v,
      )
      (ground (arith, mod-eq_of_lt v))
