-- ===== src/Server/Exchange.antt =====
-- Whole exchanges of protocol 3: the client's request, the server's step, the client's view of the answer.
use xibridge.Prelude.{
  ℕ, ◌-◌, ◌^◌, ◌<◌, ◌≡◌, ◌↔◌, refl, ap, ◌∙◌, inl, inr, Bool, true, false, List, [], ◌∷◌, ◌++◌,
  append-nil, arith, some, length, length-append, take-all, replicate,
}
use native.Mathlib.Nat.{mod-eq_of_lt}
use xibridge.Wire.RoundTrip.{be32}
use xibridge.MBuf.{mbuf_of}
use xibridge.DevId.{DevId, IsDevId}
use xibridge.DeviceMap.{
  MapDevIdPHandle, XibResult, xib_result_ok, find_device, open_if_not, remove_conn_or_remove_device,
  operation_send_request,
}
use xibridge.Protocol.State.{
  pkt_open_req, pkt_close_req, pkt3_cmd_req, pkt_open_resp, pkt_close_resp,
}
use xibridge.Protocol.V3.{
  Request, create_open_request, create_close_request, create_cmd_request, create_cmd_response,
  create_open_response, create_close_response, translate_response,
}
use xibridge.Protocol.V3.Packets.{create_client_request-frame_empty, create_cmd_request-frame}
use xibridge.Protocol.V3.Requests.{
  server, get_data_from_request-create_open_request, get_data_from_request-create_cmd_request,
}
use xibridge.Protocol.Dispatch.{protocol3, get_data_from_bindy_callback}
use xibridge.Protocol.Answers.V3.{
  client, translate_response-word, get_data_from_bindy_callback-create_cmd_response,
}
use xibridge.Server.{World, callback_data, handle3, uint_of, exchange, answer_cmd3}
use xibridge.Server.Handling.{callback_data-request, plain_request, handle3-open, handle3-close}

-- What a client makes of the answer to an open or to a close request.
abbrev pub takes_for_opened : List ℕ → Bool
takes_for_opened message =
    (translate_response pkt_open_resp
      (get_data_from_bindy_callback protocol3 (mbuf_of message true) (client 0 0)).proto).0

abbrev pub takes_for_closed : List ℕ → Bool
takes_for_closed message =
    (translate_response pkt_close_resp
      (get_data_from_bindy_callback protocol3 (mbuf_of message true) (client 0 0)).proto).0

trans_iff : {A B C : Type 0} → A ↔ B → B ↔ C → A ↔ C
trans_iff f g = (λ a. g.0 (f.0 a), λ c. f.1 (g.1 c))

uint_of-one : (b : Bool) → (uint_of b ≡ 1) ↔ (b ≡ true)
uint_of-one true = ground arith
uint_of-one false = ground arith

uint_of-small : (b : Bool) → uint_of b < 2 ^ 32
uint_of-small true = omega arith
uint_of-small false = omega arith

-- An open request of protocol 3 makes the server open its device as `open_if_not` does and send one packet,
-- which the client takes for success exactly if `open_if_not` returned true.
pub open_exchange :
    (w : World) (conn_id err_p : ℕ) (d : DevId) (t : MapDevIdPHandle)
    → IsDevId d
    → let (after, added) = open_if_not w.create conn_id d t in
      let answer = create_open_response d (uint_of added) in
      (callback_data w conn_id (create_open_request d) err_p t ≡ some (after, answer ∷ []))
      × ((takes_for_opened answer ≡ true) ↔ (added ≡ true))
open_exchange w conn_id err_p d t v = (
  callback_data-request w conn_id pkt_open_req 0 d [] (create_open_request d) err_p t
        (plain_request d err_p) (omega arith) (omega arith)
        (create_client_request-frame_empty pkt_open_req 0 d (inl refl))
        (get_data_from_request-create_open_request d 0 err_p v).0
      ∙ ap some (handle3-open w conn_id err_p d t),
  trans_iff (translate_response-word (uint_of added) 0 0 d (uint_of-small added)).0
      (uint_of-one added),
)
  where
    added : Bool
    added = (open_if_not w.create conn_id d t).1

-- A close request of protocol 3 makes the server drop the connection as `remove_conn_or_remove_device`
-- does and send one packet, which the client always takes for a failure.
pub close_exchange :
    (w : World) (conn_id err_p : ℕ) (d : DevId) (t : MapDevIdPHandle)
    → IsDevId d
    → let answer = create_close_response d 0 in
      (callback_data w conn_id (create_close_request d) err_p t
        ≡ some (remove_conn_or_remove_device conn_id d false t, answer ∷ []))
      × (takes_for_closed answer ≡ false)
close_exchange w conn_id err_p d t v = (
  callback_data-request w conn_id pkt_close_req 0 d [] (create_close_request d) err_p t
        (plain_request d err_p) (omega arith) (omega arith)
        (create_client_request-frame_empty pkt_close_req 0 d (inr refl))
        (get_data_from_request-create_open_request d 0 err_p v).1
      ∙ ap some (handle3-close w conn_id err_p d t),
  not_zero (takes_for_closed (create_close_response d 0))
      (translate_response-word 0 0 0 d (omega arith)).1,
)
  where
    not_zero : (b : Bool) → ((b ≡ true) ↔ (uint_of false ≡ 1)) → b ≡ false
    not_zero false e = refl
    not_zero true e = absurd (omega (arith, e.0 refl))

abbrev cmd_request : DevId → List ℕ → ℕ → ℕ → Request
cmd_request d bytes resp_length err_p = record {
  ret = true;
  req_data = bytes;
  dev = d;
  resp_len = resp_length;
  proto = server 0 err_p;
}

operation_send_request-ok :
    (send : ℕ → List ℕ → List ℕ → XibResult × List ℕ) (h : ℕ) (d : DevId)
    (request response answer : List ℕ) (t : MapDevIdPHandle)
    → find_device t.devices d ≡ some (some h)
    → send h request response ≡ (xib_result_ok, answer)
    → operation_send_request send d request response t ≡ (t, xib_result_ok, answer)
unfolding operation_send_request
operation_send_request-ok send h d request response answer t e s = ground arith

-- Lengths below 256 survive the casts to uint8_t.
exchange-ok :
    (send : ℕ → List ℕ → List ℕ → XibResult × List ℕ) (h resp_length : ℕ) (d : DevId)
    (bytes answer : List ℕ) (t : MapDevIdPHandle)
    → length bytes < 256
    → resp_length < 256
    → find_device t.devices d ≡ some (some h)
    → send h bytes (replicate resp_length 0) ≡ (xib_result_ok, answer)
    → exchange send d bytes resp_length t ≡ (t, xib_result_ok, answer)
exchange-ok send h resp_length d bytes answer t lb lr e s =
    rw
      (
        mod-eq_of_lt lb,
        mod-eq_of_lt lr,
        take-all bytes,
        operation_send_request-ok send h d bytes (replicate resp_length 0) answer t e s,
      )
      (ap (λ x. (t, xib_result_ok, x))
        (ap (λ k. answer ++ replicate k 0) nothing ∙ append-nil answer))
  where
    nothing : resp_length - resp_length ≡ 0
    nothing = omega arith

handle3-cmd :
    (w : World) (conn_id err_p resp_length h : ℕ) (d : DevId) (bytes answer : List ℕ)
    (t : MapDevIdPHandle)
    → length bytes < 256
    → resp_length < 256
    → find_device t.devices d ≡ some (some h)
    → w.send h bytes (replicate resp_length 0) ≡ (xib_result_ok, answer)
    → handle3 w conn_id pkt3_cmd_req (cmd_request d bytes resp_length err_p) t
      ≡ (t, create_cmd_response d (some answer) ∷ [])
unfolding handle3
handle3-cmd w conn_id err_p resp_length h d bytes answer t lb lr e s =
    ap (answer_cmd3 d) (exchange-ok w.send h resp_length d bytes answer t lb lr e s)

-- A device command of protocol 3, of fewer than 256 bytes and for an answer of fewer than 256 bytes, to
-- an open device that answers it with fewer than 2 ^ 30 bytes, makes the server send one packet, from
-- which the client gets the very bytes that the device answered; the table of devices stays as it was.
pub cmd_exchange :
    (w : World) (conn_id err_p resp_length h : ℕ) (d : DevId) (bytes answer : List ℕ)
    (t : MapDevIdPHandle)
    → IsDevId d
    → length bytes < 256
    → resp_length < 256
    → length answer < 2 ^ 30
    → find_device t.devices d ≡ some (some h)
    → w.send h bytes (replicate resp_length 0) ≡ (xib_result_ok, answer)
    → let response = create_cmd_response d (some answer) in
      (callback_data w conn_id (create_cmd_request d (some bytes) resp_length) err_p t
        ≡ some (t, response ∷ []))
      × ((get_data_from_bindy_callback protocol3 (mbuf_of response true) (client 0 0)).data_out
          ≡ answer)
cmd_exchange w conn_id err_p resp_length h d bytes answer t v lb lr la e s = (
  callback_data-request w conn_id pkt3_cmd_req 0 d
        (be32 (length bytes) ++ (bytes ++ be32 resp_length))
        (create_cmd_request d (some bytes) resp_length) err_p t
        (cmd_request d bytes resp_length err_p) (omega arith)
        (omega (arith, length-append bytes (be32 resp_length)))
        (create_cmd_request-frame d bytes resp_length (omega arith))
        (get_data_from_request-create_cmd_request d bytes resp_length 0 err_p v (omega arith)
          (omega arith))
      ∙ ap some (handle3-cmd w conn_id err_p resp_length h d bytes answer t lb lr e s),
  ap (λ r. r.data_out) (get_data_from_bindy_callback-create_cmd_response d answer 0 0 la),
)
