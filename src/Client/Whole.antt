-- ===== src/Client/Whole.antt =====
-- A client that opens a device at this repository's own server.
use xibridge.Prelude.{
  ℕ, suc, ◌≡◌, refl, ap, ◌∙◌, inl, inr, Bool, true, false, List, [], ◌∷◌, Option, none, some, arith,
  length, drop, if◌then◌else◌,
}
use xibridge.Wire.{put_stream1_4}
use xibridge.MBuf.{◌<<◌, to_vector}
use xibridge.MBuf.Reader.{get32-reader}
use xibridge.DevId.{DevId, IsDevId}
use xibridge.DeviceMap.{
  MapDevIdPHandle, find_conn, erase_conn, find_device, dev_invalid, open_if_not, release,
  remove_conn_or_remove_device,
}
use xibridge.Protocol.State.{err_no_protocol, err_device_open, pkt3_error_resp, pkt_open_resp}
use xibridge.Protocol.V1
use xibridge.Protocol.V3
use xibridge.Protocol.V3.Packets.{create_server_response-word}
use xibridge.Protocol.Dispatch.{protocol1, protocol3, create_open_request, get_version_of_cmd}
use xibridge.Protocol.Answers.V3.{get_data_from_bindy_callback-word}
use xibridge.Server.{World, Reply, callback_data, callback_disc, uint_of}
use xibridge.Server.Exchange.{open_exchange}
use xibridge.Client.{XibridgeClient, Session, callback_data_bindy}
use xibridge.Client.Calls.{open_device, opened, translated}
use xibridge.Client.Interface.{xibridge_open_device_connection, finish_open}
use xibridge.Client.Line.{Peer, line, apart, joined, disconnect-joined}
use xibridge.Client.Opening.{IsAcceptance, open_request_head, opened_accepted, open_device_answered}
use xibridge.Client.Rounds.{open_rounds, moved, round_another}

abbrev pub answer_of : MapDevIdPHandle → Option Reply → MapDevIdPHandle × Option (List ℕ)
answer_of t none = (t, none)
answer_of t (some (t', [])) = (t', none)
answer_of t (some (t', answer ∷ answers)) = (t', some answer)

-- The server at the other end; bindy calls `callback_disc` when a connection ends.
abbrev pub server_peer : World → ℕ → Peer MapDevIdPHandle
server_peer w err_p = record {
  receive = λ conn_id message t. answer_of t (callback_data w conn_id message err_p t);
  drop = λ conn_id t. callback_disc conn_id t;
}

erase_conn_absent :
    (conns : List (ℕ × DevId)) (c : ℕ) → find_conn conns c ≡ none → erase_conn conns c ≡ conns
erase_conn_absent [] c h = refl
erase_conn_absent ((b, d) ∷ conns) c h = ground (arith, erase_conn_absent conns c)

release_absent :
    (d : DevId) (t : MapDevIdPHandle) → find_device t.devices d ≡ none → release d false t ≡ t
unfolding release
release_absent d t h = ground arith

-- The end of a connection that opened nothing.
callback_disc_absent :
    (c : ℕ) (t : MapDevIdPHandle)
    → find_conn t.conns c ≡ none
    → find_device t.devices dev_invalid ≡ none
    → callback_disc c t ≡ t
unfolding remove_conn_or_remove_device
callback_disc_absent c t h e =
    ground (arith, erase_conn_absent t.conns c, release_absent dev_invalid t)

length-create_open_request1 : (d : DevId) → length (create_open_request protocol1 d) ≡ 24
unfolding V1.create_client_request ◌<<◌ to_vector put_stream1_4
length-create_open_request1 d = refl

-- A packet of protocol 1 is answered by an error packet of protocol 3.
callback_data-create_open_request1 :
    (w : World) (conn_id err_p : ℕ) (d : DevId) (t : MapDevIdPHandle)
    → callback_data w conn_id (create_open_request protocol1 d) err_p t
      ≡ some (t, V3.create_error_response err_no_protocol ∷ [])
unfolding callback_data
callback_data-create_open_request1 w conn_id err_p d t =
    rw
      (
        length-create_open_request1 d,
        open_request_head protocol1 d,
        get32-reader 0 1 [] (drop 4 (create_open_request protocol1 d)),
      )
      refl

version-error : get_version_of_cmd (V3.create_error_response err_no_protocol) ≡ 3
version-error =
    rw (create_server_response-word pkt3_error_resp err_no_protocol none (inr (inr (inl refl))))
      refl

version-create_open_response :
    (d : DevId) (val : ℕ) → get_version_of_cmd (V3.create_open_response d val) ≡ 3
version-create_open_response d val =
    rw (create_server_response-word pkt_open_resp val (some d) (inl refl)) refl

pub accepted-IsAcceptance : (d : DevId) → IsAcceptance protocol3 (V3.create_open_response d 1)
unfolding V3.translate_response
accepted-IsAcceptance d = record {
  says_version = version-create_open_response d 1;
  is_read = rw (get_data_from_bindy_callback-word pkt_open_resp 1 0 0 (some d) (inl refl)) refl;
  is_done = rw (get_data_from_bindy_callback-word pkt_open_resp 1 0 0 (some d) (inl refl)) refl;
  no_error = rw (get_data_from_bindy_callback-word pkt_open_resp 1 0 0 (some d) (inl refl)) refl;
}

-- What the client makes of the word 0.
opened_refused :
    (c : XibridgeClient) (d : DevId)
    → c.server_protocol_version ≡ 3
    → opened protocol3
        (callback_data_bindy (V3.create_open_response d 0) (record c { last_error = 0 }))
      ≡ (
        record (callback_data_bindy (V3.create_open_response d 0) c) {
          last_error = err_device_open;
        },
        false,
      )
unfolding opened translated V3.translate_response
opened_refused c d e =
    rw
      (
        version-create_open_response d 0,
        e,
        get_data_from_bindy_callback-word pkt_open_resp 0 0 0 (some d) (inl refl),
      )
      refl

abbrev no_protocol : List ℕ
no_protocol = V3.create_error_response err_no_protocol

-- What the loop makes of the answer to a second request.
abbrev outcome : {N : Type 0} → Session N × Bool → Session N × Option (ℕ × Bool)
outcome (s, done) = (s, some (s.client.last_error, done))

-- The error that the client is left with.
abbrev pub error_for : Bool → ℕ
error_for true = 0
error_for false = err_device_open

abbrev pub after_answer : Bool → XibridgeClient → XibridgeClient
after_answer added c =
    record (callback_data_bindy (V3.create_open_response c.dev_id (uint_of added)) c) {
      last_error = error_for added;
    }

opened-answer :
    (added : Bool) (c : XibridgeClient)
    → c.server_protocol_version ≡ 3
    → opened protocol3 (
        callback_data_bindy
          (V3.create_open_response c.dev_id (uint_of added))
          (record c { last_error = 0 }))
      ≡ (after_answer added c, added)
opened-answer true c e =
    opened_accepted protocol3 c (V3.create_open_response c.dev_id 1) e
      (accepted-IsAcceptance c.dev_id)
opened-answer false c e = opened_refused c c.dev_id e

module _ (w : World) (err_p : ℕ) where
  -- The request in protocol 3.
  open_device-server :
      (c : XibridgeClient) (f : ℕ) (t : MapDevIdPHandle)
      → c.server_protocol_version ≡ 3
      → IsDevId c.dev_id
      → let (after, added) = open_if_not w.create f c.dev_id t in
        open_device (line (server_peer w err_p)) (joined (server_peer w err_p) c f t)
        ≡ (joined (server_peer w err_p) (after_answer added c) f after, added)
  open_device-server c f t e v =
      open_device_answered (server_peer w err_p) protocol3 c f t
        (open_if_not w.create f c.dev_id t).0
        (V3.create_open_response c.dev_id (uint_of (open_if_not w.create f c.dev_id t).1)) e
        (ap (answer_of t) (open_exchange w f err_p c.dev_id t v).0)
      ∙ ap
          (λ r. (
            record (joined (server_peer w err_p) c f (open_if_not w.create f c.dev_id t).0) {
              client = r.0;
            },
            r.1,
          ))
          (opened-answer (open_if_not w.create f c.dev_id t).1 (record c { conn_id = f }) e)

  -- The loop: an error packet to the request in protocol 1, then the request in protocol 3.
  rounds-server :
      (last : ℕ × Bool) (c : XibridgeClient) (f : ℕ) (t : MapDevIdPHandle)
      → c.server_protocol_version ≡ 1
      → IsDevId c.dev_id
      → find_conn t.conns (suc f) ≡ none
      → find_device t.devices dev_invalid ≡ none
      → let (after, added) = open_if_not w.create (suc (suc f)) c.dev_id t in
        open_rounds (server_peer w err_p) 3 last (apart (server_peer w err_p) c f t) ≡ (
          joined
              (server_peer w err_p)
              (after_answer added (moved no_protocol c))
              (suc (suc f))
              after,
          some (error_for added, added),
        )
  rounds-server last c f t e v h g =
      round_another (server_peer w err_p) 2 last protocol1 c f t t no_protocol e
        (rw version-error refl)
        (ap (answer_of t) (callback_data-create_open_request1 w (suc f) err_p c.dev_id t))
      ∙ (ap
            (λ (t' : MapDevIdPHandle). outcome (
              open_device (line (server_peer w err_p))
                (joined (server_peer w err_p) (moved no_protocol c) (suc (suc f)) t')))
            (callback_disc_absent (suc f) t h g)
          ∙ ap outcome (open_device-server (moved no_protocol c) (suc (suc f)) t version-error v))

  finish-server :
      (added : Bool) (c : XibridgeClient) (f : ℕ) (t : MapDevIdPHandle)
      → c.server_protocol_version ≡ 3
      → let (s, err, conn) = finish_open (line (server_peer w err_p)) (
        joined (server_peer w err_p) (after_answer added c) (suc f) t,
        some (error_for added, added),
      ) in
        (err ≡ (if added then 0 else err_device_open))
        × (conn ≡ (if added then some (suc f) else none))
        × (s.client.server_protocol_version ≡ 3)
        × (s.net.state ≡ (if added then t else callback_disc (suc f) t))
  finish-server true c f t e = (refl, refl, e, refl)
  finish-server false c f t e =
      rw (disconnect-joined (server_peer w err_p) (after_answer false c) f t) (refl, refl, e, refl)

-- A client that starts with version 1, as the library sets it, opens a device at the server of this
-- repository: the server answers the first request by an error packet of protocol 3, the client
-- connects again in protocol 3, and its second request opens the device as `open_if_not` does. The
-- error, the connection returned and the table of devices are those of that result. The connections
-- are new to the server, and no device with id, PID and VID 0 is open.
pub xibridge_open_device_connection-server :
    (w : World) (err_p : ℕ) (c : XibridgeClient) (f : ℕ) (t : MapDevIdPHandle)
    → c.server_protocol_version ≡ 1
    → IsDevId c.dev_id
    → find_conn t.conns (suc f) ≡ none
    → find_device t.devices dev_invalid ≡ none
    → let (s, err, conn) =
        xibridge_open_device_connection
          (line (server_peer w err_p))
          (apart (server_peer w err_p) c f t) in
      let (after, added) = open_if_not w.create (suc (suc f)) c.dev_id t in
      (err ≡ (if added then 0 else err_device_open))
      × (conn ≡ (if added then some (suc (suc f)) else none))
      × (s.client.server_protocol_version ≡ 3)
      × (s.net.state ≡ (if added then after else callback_disc (suc (suc f)) after))
unfolding xibridge_open_device_connection
xibridge_open_device_connection-server w err_p c f t e v h g =
    let r : MapDevIdPHandle × Bool = open_if_not w.create (suc (suc f)) c.dev_id t in
    rw (rounds-server w err_p (0, false) c f t e v h g)
      (finish-server w err_p r.1 (moved no_protocol c) (suc f) r.0 version-error)
