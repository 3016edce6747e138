-- ===== src/Protocol/V3/Packets.antt =====
-- The packets of protocol 3, byte by byte.
use xibridge.Prelude.{
  ℕ, ◌+◌, ◌-◌, ◌*◌, ◌≤◌, ◌<◌, ◌≡◌, ap, false, List, [], ◌∷◌, ◌++◌, append_assoc, arith, Option,
  none, some, length, ◌^◌, if◌then◌else◌, ◌==◌, ◌⊎◌, inl, inr, length-append,
}
use xibridge.Wire.RoundTrip.{be32}
use xibridge.MBuf.{mbuf_new}
use xibridge.MBuf.Writer.{filled, to_vector-filled}
use xibridge.DevId.{DevId, hex_idev3, put_idev3}
use xibridge.DevId.Coding.{idev_bytes, put_idev3-filled, <<-be32, add_uint32_2_bvector-be32}
use xibridge.Protocol.State.{
  pkt3_cmd_req, pkt3_cmd_resp, pkt3_ver_resp, pkt3_error_resp, pkt_open_resp, pkt_close_resp,
  pkt_open_req, pkt_close_req,
}
use xibridge.Protocol.Frame.{words, put_words, put_words-filled, write_data-filled}
use xibridge.Protocol.V1.{size_of}
use xibridge.Protocol.V3.{
  create_client_request, create_cmd_request, create_server_response, response_body,
}

-- Version, packet type, timeout, identifier, two zeros.
abbrev pub frame : ℕ → ℕ → DevId → List ℕ → List ℕ
frame pckt tmout d body =
    words (3 ∷ pckt ∷ tmout ∷ []) ++ (idev_bytes d ++ (words (0 ∷ 0 ∷ []) ++ body))

-- The 32 bytes that open a packet about a device, in a new buffer of `n` bytes.
put_head :
    (pckt tmout n : ℕ) (d : DevId)
    → 32 ≤ n
    → put_words
        (put_idev3
          (put_words (mbuf_new n false) (3 ∷ pckt ∷ tmout ∷ []))
          (hex_idev3 (some d) false))
        (0 ∷ 0 ∷ [])
      ≡ filled (frame pckt tmout d []) (n - 32)
put_head pckt tmout n d h =
    rw
      (
        put_words-filled (3 ∷ pckt ∷ tmout ∷ []) [] n (omega arith),
        put_idev3-filled (words (3 ∷ pckt ∷ tmout ∷ [])) (n - 4 * 3) d (omega arith),
        put_words-filled (0 ∷ 0 ∷ []) (words (3 ∷ pckt ∷ tmout ∷ []) ++ idev_bytes d)
            (n - 4 * 3 - 12) (omega arith),
      )
      (ap (filled (frame pckt tmout d [])) spare)
  where
    spare : n - 4 * 3 - 12 - 4 * 2 ≡ n - 32
    spare = omega arith

-- What a device command is sent as.
pub create_client_request-frame :
    (d : DevId) (tmout : ℕ) (bytes : List ℕ)
    → length bytes < 2 ^ 31
    → create_client_request pkt3_cmd_req d tmout (some bytes) ≡ frame pkt3_cmd_req tmout d bytes
unfolding create_client_request
create_client_request-frame d tmout bytes h = rw (
  put_head pkt3_cmd_req tmout (64 + length bytes) d (omega arith),
  write_data-filled (frame pkt3_cmd_req tmout d []) (64 + length bytes - 32) (some bytes)
      (omega arith) (omega arith),
  to_vector-filled,
)

-- An open or close request has no more than the frame.
pub create_client_request-frame_empty :
    (pckt tmout : ℕ) (d : DevId)
    → (pckt ≡ pkt_open_req) ⊎ (pckt ≡ pkt_close_req)
    → create_client_request pckt d tmout none ≡ frame pckt tmout d []
unfolding create_client_request
create_client_request-frame_empty pckt tmout d (inl e) =
    rw (e, put_head pkt_open_req tmout 64 d (omega arith), to_vector-filled)
create_client_request-frame_empty pckt tmout d (inr e) =
    rw (e, put_head pkt_close_req tmout 64 d (omega arith), to_vector-filled)

-- A command: the length of the request, the request, the response length.
pub create_cmd_request-frame :
    (d : DevId) (bytes : List ℕ) (resp_length : ℕ)
    → length bytes < 2 ^ 30
    → create_cmd_request d (some bytes) resp_length
      ≡ frame pkt3_cmd_req 0 d (be32 (length bytes) ++ (bytes ++ be32 resp_length))
unfolding create_cmd_request
create_cmd_request-frame d bytes resp_length h = rw (
  add_uint32_2_bvector-be32 [] (length bytes),
  add_uint32_2_bvector-be32 (be32 (length bytes) ++ bytes) resp_length,
  create_client_request-frame d 0 ((be32 (length bytes) ++ bytes) ++ be32 resp_length)
      (omega (arith, length-append bytes (be32 resp_length))),
)

-- The identifier that a null pointer is written as.
abbrev pub dev_of : Option DevId → DevId
dev_of none = record { id = 0; pid = 0; vid = 0; reserve = 0 }
dev_of (some d) = d

-- What `response_body` appends, wherever it starts, stands behind the frame.
pub create_server_response-frame :
    (pckt val : ℕ) (pdevid : Option DevId) (bytes : Option (List ℕ)) (body : List ℕ) (rest : ℕ)
    → ((bs : List ℕ)
        → response_body pckt val bytes (filled bs (64 + size_of bytes - 32))
          ≡ filled (bs ++ body) rest)
    → create_server_response pckt val pdevid bytes ≡ frame pckt 0 (dev_of pdevid) body
unfolding create_server_response
create_server_response-frame pckt val none bytes body rest e = rw (
  put_head pckt 0 (64 + size_of bytes) (dev_of none) (omega arith),
  e (frame pckt 0 (dev_of none) []),
  to_vector-filled,
)
create_server_response-frame pckt val (some d) bytes body rest e =
    rw (
      put_head pckt 0 (64 + size_of bytes) d (omega arith),
      e (frame pckt 0 d []),
      to_vector-filled,
    )

-- Open, close, error and version responses end in one word.
abbrev pub last_word : ℕ → ℕ → ℕ
last_word pckt val = if pckt == pkt3_ver_resp then 3 else val

abbrev pub IsWordResponse : ℕ → Type 0
IsWordResponse pckt =
    (pckt ≡ pkt_open_resp)
    ⊎ (pckt ≡ pkt_close_resp)
    ⊎ (pckt ≡ pkt3_error_resp)
    ⊎ (pckt ≡ pkt3_ver_resp)

pub create_server_response-word :
    (pckt val : ℕ) (pdevid : Option DevId)
    → IsWordResponse pckt
    → create_server_response pckt val pdevid none
      ≡ frame pckt 0 (dev_of pdevid) (be32 (last_word pckt val))
create_server_response-word pckt val pdevid h =
    create_server_response-frame pckt val pdevid none (be32 (last_word pckt val)) (64 + 0 - 32 - 4)
      (body pckt h)
  where
    body :
        (p : ℕ)
        → IsWordResponse p
        → (bs : List ℕ)
        → response_body p val none (filled bs (64 + 0 - 32))
          ≡ filled (bs ++ be32 (last_word p val)) (64 + 0 - 32 - 4)
    body p (inl e) bs = unfold response_body in rw e (<<-be32 bs 32 val (omega arith))
    body p (inr (inl e)) bs = unfold response_body in rw e (<<-be32 bs 32 val (omega arith))
    body p (inr (inr (inl e))) bs = unfold response_body in rw e (<<-be32 bs 32 val (omega arith))
    body p (inr (inr (inr e))) bs = unfold response_body in rw e (<<-be32 bs 32 3 (omega arith))

-- A command response: the length of the answer and the answer.
pub create_server_response-cmd :
    (d : DevId) (bytes : List ℕ)
    → length bytes < 2 ^ 31
    → create_server_response pkt3_cmd_resp 0 (some d) (some bytes)
      ≡ frame pkt3_cmd_resp 0 d (be32 (length bytes) ++ bytes)
create_server_response-cmd d bytes h =
    create_server_response-frame pkt3_cmd_resp 0 (some d) (some bytes)
      (be32 (length bytes) ++ bytes) (64 + length bytes - 32 - 4 - length bytes) body
  where
    body :
        (bs : List ℕ)
        → response_body pkt3_cmd_resp 0 (some bytes) (filled bs (64 + length bytes - 32))
          ≡ filled
              (bs ++ (be32 (length bytes) ++ bytes))
              (64 + length bytes - 32 - 4 - length bytes)
    body bs =
        unfold response_body in
        rw
          (
            <<-be32 bs (64 + length bytes - 32) (length bytes) (omega arith),
            write_data-filled (bs ++ be32 (length bytes)) (64 + length bytes - 32 - 4) (some bytes)
                (omega arith) (omega arith),
          )
          (ap (λ f. filled f (64 + length bytes - 32 - 4 - length bytes))
            (append_assoc bs (be32 (length bytes)) bytes))
