-- ===== src/System/Command.antt =====
-- A command of a client, through the server, to the device on the serial line and back.
use xibridge.Prelude.{
  ℕ, suc, ◌^◌, ◌<◌, ◌≡◌, refl, sym, ap, ◌∙◌, List, [], ◌∷◌, ◌++◌, Option, some, arith, length, take,
  drop, replicate, length-replicate, take-all, drop-append, append-nil, ==_refl,
}
use xibridge.DevId.{DevId, IsDevId}
use xibridge.DeviceMap.{MapDevIdPHandle, find_device}
use xibridge.Protocol.V3
use xibridge.Protocol.V3.Packets.{create_cmd_request-frame}
use xibridge.Protocol.Answers.V3.{get_data_from_bindy_callback-create_cmd_response}
use xibridge.Protocol.Dispatch.{protocol3, create_cmd_request}
use xibridge.Server.{World}
use xibridge.Server.Exchange.{cmd_exchange}
use xibridge.Client.{XibridgeClient, Session, callback_data_bindy, is_connected}
use xibridge.Client.Calls.{ask, asked, answered, exchange, send_data_and_receive, request_response}
use xibridge.Client.Line.{
  Peer, Line, suc_not_zero, line, joined, exchange_answered, request_of-version,
}
use xibridge.Client.Whole.{server_peer, answer_of}
use xibridge.Serial.{
  SerialPort, Outcome, xib_result_ok, device_serial_send_request_base, receive_unless_empty,
}
use xibridge.Serial.Request.{still_open, xib_com_device_send_request}
use xibridge.Serial.Reliable.{ReliablePort, send_reliable, receive_reliable}

-- The bytes on a reliable line after a request.
module _ {P : Type 0} (port : SerialPort P) (r : ReliablePort port) where
  abbrev put_request : List ℕ → P → P
  put_request [] s = s
  put_request (b ∷ bs) s = r.put (b ∷ bs) s

  abbrev got_answer : List ℕ → P → P
  got_answer [] s = s
  got_answer (b ∷ bs) s = r.got (length (b ∷ bs)) s

  abbrev pub after_request : List ℕ → List ℕ → P → P
  after_request request answer s = got_answer answer (put_request request s)

  incoming-put_request :
      (request : List ℕ) (s : P) → r.incoming (put_request request s) ≡ r.incoming s
  incoming-put_request [] s = refl
  incoming-put_request (b ∷ bs) s = r.incoming-put (b ∷ bs) s

  receive_unless_empty_reliable :
      (f : ℕ) (answer response rest : List ℕ) (s : P)
      → length answer ≡ length response
      → r.incoming s ≡ answer ++ rest
      → receive_unless_empty port (suc f) response s
        ≡ some (xib_result_ok, answer, got_answer answer s)
  receive_unless_empty_reliable f [] [] rest s h e = refl
  receive_unless_empty_reliable f [] (b ∷ bs) rest s h e = absurd (omega arith)
  receive_unless_empty_reliable f (a ∷ xs) [] rest s h e = absurd (omega arith)
  receive_unless_empty_reliable f (a ∷ xs) (b ∷ bs) rest s h e =
      rw (receive_reliable port r f (a ∷ xs) rest (b ∷ bs) s e h) refl

  -- A request without an identifier, of any length, to a device that answers with as many bytes as the
  -- caller's buffer has.
  pub device_serial_send_request_base-answered :
      (f : ℕ) (request answer response rest : List ℕ) (s : P)
      → length answer ≡ length response
      → r.incoming s ≡ answer ++ rest
      → device_serial_send_request_base port (suc f) request response s
        ≡ some (xib_result_ok, answer, after_request request answer s)
  unfolding device_serial_send_request_base
  device_serial_send_request_base-answered f [] answer response rest s h e =
      receive_unless_empty_reliable f answer response rest s h e
  device_serial_send_request_base-answered f (b ∷ bs) answer response rest s h e =
      rw (send_reliable port r (b ∷ bs) s) (
        receive_unless_empty_reliable f answer response rest (r.put (b ∷ bs) s) h
          (r.incoming-put (b ∷ bs) s ∙ e))

  pub incoming-after_request :
      (request answer rest : List ℕ) (s : P)
      → r.incoming s ≡ answer ++ rest
      → r.incoming (after_request request answer s) ≡ rest
  incoming-after_request request [] rest s e = incoming-put_request request s ∙ e
  incoming-after_request request (b ∷ bs) rest s e =
      r.incoming-got (length (b ∷ bs)) (put_request request s)
      ∙ ap (drop (length (b ∷ bs))) (incoming-put_request request s ∙ e)
      ∙ drop-append (b ∷ bs) rest

  pub outgoing-after_request :
      (request answer : List ℕ) (s : P)
      → r.outgoing (after_request request answer s) ≡ r.outgoing s ++ request
  outgoing-after_request [] [] s = sym (append-nil (r.outgoing s))
  outgoing-after_request (a ∷ request) [] s = r.outgoing-put (a ∷ request) s
  outgoing-after_request [] (b ∷ bs) s =
      r.outgoing-got (length (b ∷ bs)) s ∙ sym (append-nil (r.outgoing s))
  outgoing-after_request (a ∷ request) (b ∷ bs) s =
      r.outgoing-got (length (b ∷ bs)) (r.put (a ∷ request) s) ∙ r.outgoing-put (a ∷ request) s

-- The serial calls of a server: what `send` gives is what `xib_com_device_send_request` gives on the port of
-- the handle, where that call returns.
pub record IsSerial {P : Type 0} (w : World) (port : SerialPort P) (fuel : ℕ) (opened : ℕ → P)
    : Type 0 where
  pub send_lem :
      (h : ℕ) (request response : List ℕ) (o : Outcome (Option P))
      → xib_com_device_send_request port fuel request response (some (opened h)) ≡ some o
      → w.send h request response ≡ (o.0, o.1)

create_cmd_request_head :
    (d : DevId) (bytes : List ℕ) (resp_length : ℕ)
    → length bytes < 2 ^ 30
    → create_cmd_request protocol3 d bytes resp_length
      ≡ 0 ∷ drop 1 (create_cmd_request protocol3 d bytes resp_length)
create_cmd_request_head d bytes resp_length h =
    rw (create_cmd_request-frame d bytes resp_length h) refl

-- The answer of the server, and what the client makes of it.
answered_command :
    (c : XibridgeClient) (answer : List ℕ)
    → length answer < 2 ^ 30
    → answered protocol3 (callback_data_bindy (V3.create_cmd_response c.dev_id (some answer)) c)
      ≡ (callback_data_bindy (V3.create_cmd_response c.dev_id (some answer)) c, answer)
unfolding answered
answered_command c answer h =
    rw (get_data_from_bindy_callback-create_cmd_response c.dev_id answer 0 c.last_error h) refl

send_data_and_receive-joined :
    {S : Type 0} (p : Peer S) (c : XibridgeClient) (f resp_len : ℕ) (bytes : List ℕ) (st : S)
    → c.server_protocol_version ≡ 3
    → length bytes < 2 ^ 30
    → send_data_and_receive (line p) bytes resp_len (joined p c (suc f) st)
      ≡ exchange
          (line p)
          []
          answered
          protocol3
          (create_cmd_request protocol3 c.dev_id bytes resp_len)
          (joined p (record c { last_error = 0 }) (suc f) st)
unfolding send_data_and_receive ask is_connected
send_data_and_receive-joined p c f resp_len bytes st e h =
    rw (suc_not_zero f, ==_refl (suc f))
      (ap (λ o. asked (line p) [] answered o (joined p (record c { last_error = 0 }) (suc f) st))
          (request_of-version (λ k. create_cmd_request k c.dev_id bytes resp_len)
            (record c { conn_id = suc f; last_error = 0 }) protocol3 0
            (drop 1 (create_cmd_request protocol3 c.dev_id bytes resp_len)) e
            (create_cmd_request_head c.dev_id bytes resp_len h))
        ∙ ap
            (λ req.
              exchange (line p) [] answered protocol3 req
                (joined p (record c { last_error = 0 }) (suc f) st))
            (sym (create_cmd_request_head c.dev_id bytes resp_len h)))

-- A request of the client through the server, if the device's handle answers.
request_response-server :
    (w : World) (err_p : ℕ) (c : XibridgeClient) (f resp_len h : ℕ) (bytes answer : List ℕ)
    (t : MapDevIdPHandle)
    → c.server_protocol_version ≡ 3
    → IsDevId c.dev_id
    → length bytes < 256
    → resp_len < 256
    → length answer ≡ resp_len
    → find_device t.devices c.dev_id ≡ some (some h)
    → w.send h bytes (replicate resp_len 0) ≡ (xib_result_ok, answer)
    → let (s, err, response) =
        request_response
          (line (server_peer w err_p))
          bytes
          resp_len
          (joined (server_peer w err_p) c (suc f) t) in
      (err ≡ 0) × (response ≡ answer) × (s.net.state ≡ t)
unfolding request_response
request_response-server w err_p c f resp_len h bytes answer t e v lb lr la d q = (
  ap (λ (a : Session (Line MapDevIdPHandle) × List ℕ). a.0.client.last_error) whole,
  ap (λ (a : Session (Line MapDevIdPHandle) × List ℕ). take resp_len a.1) whole
      ∙ rw (sym la) (take-all answer),
  ap (λ (a : Session (Line MapDevIdPHandle) × List ℕ). a.0.net.state) whole,
)
  where
    p : Peer MapDevIdPHandle
    p = server_peer w err_p

    got : XibridgeClient
    got = record c { conn_id = suc f; last_error = 0 }

    message : List ℕ
    message = V3.create_cmd_response c.dev_id (some answer)

    whole :
        send_data_and_receive (line p) bytes resp_len (joined p c (suc f) t)
        ≡ (record (joined p c (suc f) t) { client = callback_data_bindy message got }, answer)
    whole =
        send_data_and_receive-joined p c f resp_len bytes t e (omega arith)
        ∙ exchange_answered p [] answered protocol3
            (create_cmd_request protocol3 c.dev_id bytes resp_len) (record c { last_error = 0 })
            (suc f) t t message
            (ap (answer_of t)
              (cmd_exchange w (suc f) err_p resp_len h c.dev_id bytes answer t v lb lr (omega arith)
                d q).0)
        ∙ ap
            (λ (a : XibridgeClient × List ℕ). (record (joined p c (suc f) t) { client = a.0 }, a.1))
            (answered_command got answer (omega arith))

-- A client of protocol 3 on a network that loses nothing asks for as many bytes as the device answers, fewer than
-- 256 as those of the request; the server has the device open on a serial line that moves every byte. Then the client
-- gets the error 0 and the very bytes that the device answered, the server's table stays as it was, the serial
-- call of the server ends within one round of its loop, and on the line the answer was read and the request
-- written, with nothing before, between or behind.
pub request_response-serial :
    {P : Type 0} (port : SerialPort P) (r : ReliablePort port) (fuel : ℕ) (opened : ℕ → P)
    (w : World) (err_p : ℕ) (c : XibridgeClient) (f resp_len h : ℕ) (bytes answer rest : List ℕ)
    (t : MapDevIdPHandle)
    → IsSerial w port (suc fuel) opened
    → c.server_protocol_version ≡ 3
    → IsDevId c.dev_id
    → length bytes < 256
    → resp_len < 256
    → length answer ≡ resp_len
    → find_device t.devices c.dev_id ≡ some (some h)
    → r.incoming (opened h) ≡ answer ++ rest
    → let (s, err, response) =
        request_response
          (line (server_peer w err_p))
          bytes
          resp_len
          (joined (server_peer w err_p) c (suc f) t) in
      let after : P = after_request port r bytes answer (opened h) in
      (err ≡ 0)
      × (response ≡ answer)
      × (s.net.state ≡ t)
      × (xib_com_device_send_request port (suc fuel) bytes (replicate resp_len 0) (some (opened h))
          ≡ some (xib_result_ok, answer, some after))
      × (r.incoming after ≡ rest)
      × (r.outgoing after ≡ r.outgoing (opened h) ++ bytes)
unfolding xib_com_device_send_request
request_response-serial {P} port r fuel opened w err_p c f resp_len h bytes answer rest t i e v lb
      lr la d q =
    let (no_error, same, kept) =
      request_response-server w err_p c f resp_len h bytes answer t e v lb lr la d
        (i.send_lem h bytes (replicate resp_len 0) (xib_result_ok, answer, some after) returned) in
    (
      no_error,
      same,
      kept,
      returned,
      incoming-after_request port r bytes answer rest (opened h) q,
      outgoing-after_request port r bytes answer (opened h),
    )
  where
    after : P
    after = after_request port r bytes answer (opened h)

    returned :
        xib_com_device_send_request port (suc fuel) bytes (replicate resp_len 0) (some (opened h))
        ≡ some (xib_result_ok, answer, some after)
    returned = ap (still_open port) (
        device_serial_send_request_base-answered port r fuel bytes answer (replicate resp_len 0)
          rest (opened h) (la ∙ sym (length-replicate {A = ℕ} resp_len 0)) q)
