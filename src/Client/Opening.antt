-- ===== src/Client/Opening.antt =====
-- One round of the loop that opens a device, over a network that loses nothing.
use xibridge.Prelude.{
  ℕ, ◌≡◌, refl, sym, ap, ◌∙◌, Bool, true, false, List, ◌∷◌, none, some, ◌==◌, ==_refl, drop,
}
use xibridge.Wire.{put_stream1_4}
use xibridge.MBuf.{mbuf_of, ◌<<◌, to_vector}
use xibridge.DevId.{DevId, put_idev3}
use xibridge.Protocol.State.{AProtocol, err_recv_timeout}
use xibridge.Protocol.V1
use xibridge.Protocol.V2
use xibridge.Protocol.V3
use xibridge.Protocol.Dispatch.{
  Kind, protocol1, protocol2, protocol3, version, create_open_request, get_version_of_cmd, Received,
  get_data_from_bindy_callback, translate_response,
}
use xibridge.Protocol.Answers.V3.{client}
use xibridge.Client.{XibridgeClient, callback_data_bindy}
use xibridge.Client.Calls.{
  open_device, ask, asked, exchange, opened, translated, pckt_of, take_version,
}
use xibridge.Client.Line.{
  Peer, line, joined, exchange_silent, exchange_answered, request_of-version,
}

-- An open request starts with the version of its protocol.
pub open_request_head :
    (k : Kind) (d : DevId)
    → create_open_request k d ≡ 0 ∷ 0 ∷ 0 ∷ version k ∷ drop 4 (create_open_request k d)
unfolding V1.create_client_request V2.create_client_request V3.create_client_request ◌<<◌ to_vector
    put_idev3 put_stream1_4
open_request_head protocol1 d = refl
open_request_head protocol2 d = refl
open_request_head protocol3 d = refl

pub get_version_of_cmd-create_open_request :
    (k : Kind) (d : DevId) → get_version_of_cmd (create_open_request k d) ≡ version k
get_version_of_cmd-create_open_request k d = rw (open_request_head k d) refl

-- What a client of protocol `k` reads in a packet.
abbrev pub reading : Kind → List ℕ → Received
reading k message = get_data_from_bindy_callback k (mbuf_of message true) (client 0 0)

abbrev pub verdict : Kind → List ℕ → Bool × AProtocol
verdict k message = let r = reading k message in translate_response k (pckt_of r) r.proto

-- The packet is of protocol `k`, and says that the device was opened.
pub record IsAcceptance (k : Kind) (message : List ℕ) : Type 0 where
  pub says_version : get_version_of_cmd message ≡ version k
  pub is_read : (reading k message).ret ≡ true
  pub is_done : (verdict k message).0 ≡ true
  pub no_error : (verdict k message).1.perror ≡ 0

pub opened_other :
    (k : Kind) (c : XibridgeClient)
    → (get_version_of_cmd c.recv_message == c.server_protocol_version) ≡ false
    → opened k c ≡ (take_version c, false)
unfolding opened
opened_other k c e = rw e refl

pub opened_accepted :
    (k : Kind) (c : XibridgeClient) (message : List ℕ)
    → c.server_protocol_version ≡ version k
    → IsAcceptance k message
    → opened k (callback_data_bindy message (record c { last_error = 0 }))
      ≡ (callback_data_bindy message (record c { last_error = 0 }), true)
unfolding opened translated
opened_accepted k c message e v =
    rw (same, v.is_read, v.is_done)
      (ap (λ err. (record (callback_data_bindy message c) { last_error = err }, true)) v.no_error)
  where
    same : (get_version_of_cmd message == c.server_protocol_version) ≡ true
    same = rw (v.says_version, e) (==_refl (version k))

module _ {S : Type 0} (p : Peer S) where
  open_device-ask :
      (k : Kind) (c : XibridgeClient) (f : ℕ) (st : S)
      → c.server_protocol_version ≡ version k
      → open_device (line p) (joined p c f st)
        ≡ exchange
            (line p)
            false
            opened
            k
            (create_open_request k c.dev_id)
            (joined p (record c { last_error = 0 }) f st)
  unfolding open_device ask
  open_device-ask k c f st e =
      ap (λ o. asked (line p) false opened o (joined p (record c { last_error = 0 }) f st))
        (request_of-version (λ j. create_open_request j c.dev_id)
          (record c { conn_id = f; last_error = 0 }) k 0
          (0 ∷ 0 ∷ version k ∷ drop 4 (create_open_request k c.dev_id)) e
          (open_request_head k c.dev_id))
      ∙ ap
          (λ req.
            exchange (line p) false opened k req (joined p (record c { last_error = 0 }) f st))
          (sym (open_request_head k c.dev_id))

  -- A server that does not answer, one that answers in another version, and one that accepts.
  pub open_device_silent :
      (k : Kind) (c : XibridgeClient) (f : ℕ) (st st' : S)
      → c.server_protocol_version ≡ version k
      → p.receive f (create_open_request k c.dev_id) st ≡ (st', none)
      → open_device (line p) (joined p c f st) ≡ (
        joined p (record c { is_really_recv = false; last_error = err_recv_timeout }) f st',
        false,
      )
  open_device_silent k c f st st' e q =
      open_device-ask k c f st e
      ∙ exchange_silent p false opened k (create_open_request k c.dev_id)
          (record c { last_error = 0 }) f st st' q

  pub open_device_answered :
      (k : Kind) (c : XibridgeClient) (f : ℕ) (st st' : S) (message : List ℕ)
      → c.server_protocol_version ≡ version k
      → p.receive f (create_open_request k c.dev_id) st ≡ (st', some message)
      → let got = callback_data_bindy message (record c { conn_id = f; last_error = 0 }) in
        open_device (line p) (joined p c f st)
        ≡ (record (joined p c f st') { client = (opened k got).0 }, (opened k got).1)
  open_device_answered k c f st st' message e q =
      open_device-ask k c f st e
      ∙ exchange_answered p false opened k (create_open_request k c.dev_id)
          (record c { last_error = 0 }) f st st' message q
