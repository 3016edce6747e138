-- ===== src/Protocol/Short.antt =====
-- The packets of protocols 1 and 2, whose frame is six words.
use xibridge.Prelude.{
  ℕ, ◌+◌, ◌-◌, ◌%◌, ◌^◌, ◌≤◌, ◌<◌, ◌≡◌, ◌⊎◌, inl, inr, false, List, [], ◌∷◌, ◌++◌, arith, none,
  some, length, le→ltb,
}
use xibridge.Wire.RoundTrip.{be32}
use xibridge.MBuf.{mbuf_new}
use xibridge.MBuf.Writer.{filled, to_vector-filled}
use xibridge.DevId.{DevId}
use xibridge.DevId.Coding.{<<-be32, add_uint32_2_bvector-be32}
use xibridge.Protocol.State.{
  pkt1_raw, pkt2_cmd_req, pkt2_cmd_resp, pkt_open_req, pkt_open_resp, pkt_close_req, pkt_close_resp,
}
use xibridge.Protocol.Frame.{words, put_words, put_words-filled, write_data-filled}
use xibridge.Protocol.V1
use xibridge.Protocol.V2

abbrev pub frame : ℕ → ℕ → ℕ → List ℕ → List ℕ
frame version pckt serial body = words (version ∷ pckt ∷ 0 ∷ serial ∷ 0 ∷ 0 ∷ []) ++ body

put_head :
    (version pckt serial n : ℕ)
    → 24 ≤ n
    → put_words (mbuf_new n false) (version ∷ pckt ∷ 0 ∷ serial ∷ 0 ∷ 0 ∷ [])
      ≡ filled (frame version pckt serial []) (n - 24)
put_head version pckt serial n h =
    put_words-filled (version ∷ pckt ∷ 0 ∷ serial ∷ 0 ∷ 0 ∷ []) [] n (omega arith)

-- A device command of protocol 1.
pub cmd_request1-frame :
    (d : DevId) (bytes : List ℕ)
    → length bytes < 2 ^ 30
    → V1.create_cmd_request d (some bytes) ≡ frame 1 pkt1_raw d.id bytes
unfolding V1.create_client_request
cmd_request1-frame d bytes h = rw (
  put_head 1 pkt1_raw d.id (64 + length bytes) (omega arith),
  write_data-filled (frame 1 pkt1_raw d.id []) (64 + length bytes - 24) (some bytes) (omega arith)
      (omega arith),
  to_vector-filled,
)

client_request2-frame :
    (serial : ℕ) (bytes : List ℕ)
    → length bytes < 2 ^ 31
    → V2.create_client_request pkt2_cmd_req serial (some bytes) ≡ frame 2 pkt2_cmd_req serial bytes
unfolding V2.create_client_request
client_request2-frame serial bytes h = rw (
  put_head 2 pkt2_cmd_req serial (64 + length bytes) (omega arith),
  write_data-filled (frame 2 pkt2_cmd_req serial []) (64 + length bytes - 24) (some bytes)
      (omega arith) (omega arith),
  to_vector-filled,
)

-- A device command of protocol 2: four bytes of the request, the response length less four, the rest
-- of the request.
pub cmd_request2-frame :
    (d : DevId) (a b c e : ℕ) (bytes : List ℕ) (resp_length : ℕ)
    → length bytes < 2 ^ 30
    → V2.create_cmd_request d (a ∷ b ∷ c ∷ e ∷ bytes) resp_length
      ≡ frame 2 pkt2_cmd_req d.id
          ((a ∷ b ∷ c ∷ e ∷ []) ++ (be32 ((resp_length + 2 ^ 32 - 4) % 2 ^ 32) ++ bytes))
unfolding V2.create_cmd_request
cmd_request2-frame d a b c e bytes resp_length h =
    rw
      (
        le→ltb (length (a ∷ b ∷ c ∷ e ∷ bytes)) 4 (omega arith),
        add_uint32_2_bvector-be32 (a ∷ b ∷ c ∷ e ∷ []) ((resp_length + 2 ^ 32 - 4) % 2 ^ 32),
      )
      (client_request2-frame d.id
        ((a ∷ b ∷ c ∷ e ∷ []) ++ (be32 ((resp_length + 2 ^ 32 - 4) % 2 ^ 32) ++ bytes))
        (omega arith))

pub open_request2-frame :
    (d : DevId)
    → (V2.create_open_request d ≡ frame 2 pkt_open_req d.id [])
      × (V2.create_close_request d ≡ frame 2 pkt_close_req d.id [])
unfolding V2.create_client_request
open_request2-frame d = (
  rw (put_head 2 pkt_open_req d.id 64 (omega arith), to_vector-filled),
  rw (put_head 2 pkt_close_req d.id 64 (omega arith), to_vector-filled),
)

-- The server's packets of protocol 2: a word, and the data of a command response.
pub cmd_response2-frame :
    (val : ℕ) (d : DevId) (bytes : List ℕ)
    → length bytes < 2 ^ 30
    → V2.create_cmd_response val d bytes ≡ frame 2 pkt2_cmd_resp d.id (be32 val ++ bytes)
unfolding V2.create_server_response
cmd_response2-frame val d bytes h = rw (
  put_head 2 pkt2_cmd_resp d.id (64 + length bytes) (omega arith),
  <<-be32 (frame 2 pkt2_cmd_resp d.id []) (64 + length bytes - 24) val (omega arith),
  write_data-filled (frame 2 pkt2_cmd_resp d.id (be32 val)) (64 + length bytes - 24 - 4)
      (some bytes) (omega arith) (omega arith),
  to_vector-filled,
)

pub word_response2-frame :
    (pckt val : ℕ) (d : DevId)
    → (pckt ≡ pkt_open_resp) ⊎ (pckt ≡ pkt_close_resp)
    → V2.create_server_response pckt val d none ≡ frame 2 pckt d.id (be32 val)
unfolding V2.create_server_response
word_response2-frame pckt val d (inl e) = rw (
  e,
  put_head 2 pkt_open_resp d.id 64 (omega arith),
  <<-be32 (frame 2 pkt_open_resp d.id []) (64 - 24) val (omega arith),
  to_vector-filled,
)
word_response2-frame pckt val d (inr e) = rw (
  e,
  put_head 2 pkt_close_resp d.id 64 (omega arith),
  <<-be32 (frame 2 pkt_close_resp d.id []) (64 - 24) val (omega arith),
  to_vector-filled,
)
