-- ===== src/Client/Rounds.antt =====
-- The rounds of a client that opens a device: no answer, an answer in another version, a success.
use xibridge.Prelude.{
  ℕ, suc, ◌≡◌, refl, ap, ◌∙◌, Bool, true, false, List, Option, none, some, arith, ◌==◌,
}
use xibridge.Protocol.State.{err_recv_timeout}
use xibridge.Protocol.Dispatch.{
  Kind, protocol1, protocol2, protocol3, version, create_open_request, get_version_of_cmd,
}
use xibridge.Client.{
  XibridgeClient, Session, callback_data_bindy, decrement_server_protocol_version,
}
use xibridge.Client.Calls.{open_device}
use xibridge.Client.Interface.{rounds, older}
use xibridge.Client.Line.{Peer, Line, line, apart, joined, open_connection-apart, disconnect-joined}
use xibridge.Client.Opening.{
  IsAcceptance, opened_other, opened_accepted, open_device_silent, open_device_answered,
}

-- The version that is tried after a timeout.
abbrev pub next_kind : Kind → Kind
next_kind protocol1 = protocol3
next_kind protocol2 = protocol1
next_kind protocol3 = protocol2

decrement_lem :
    (k : Kind) (c : XibridgeClient)
    → c.server_protocol_version ≡ version k
    → decrement_server_protocol_version c
      ≡ record c { server_protocol_version = version (next_kind k) }
unfolding decrement_server_protocol_version
decrement_lem protocol1 c e = ground arith
decrement_lem protocol2 c e = ground arith
decrement_lem protocol3 c e = ground arith

-- The client after a request that timed out.
abbrev pub after_timeout : Kind → XibridgeClient → XibridgeClient
after_timeout k c = record c {
  server_protocol_version = version (next_kind k);
  is_really_recv = false;
  last_error = err_recv_timeout;
}

-- The client after an answer of another version: it takes that version over and connects again.
abbrev pub moved : List ℕ → XibridgeClient → XibridgeClient
moved message c = record c {
  server_protocol_version = get_version_of_cmd message;
  recv_message = message;
  is_really_recv = true;
  last_error = 0;
}

module _ {S : Type 0} (p : Peer S) where
  abbrev pub open_rounds : ℕ → ℕ × Bool → Session (Line S) → Session (Line S) × Option (ℕ × Bool)
  open_rounds = rounds (line p) (open_device (line p)) (λ err. err == err_recv_timeout)

  older-joined :
      (k : Kind) (c : XibridgeClient) (f : ℕ) (st : S)
      → c.server_protocol_version ≡ version k
      → older
          (line p)
          (joined p (record c { is_really_recv = false; last_error = err_recv_timeout }) (suc f) st)
        ≡ apart p (after_timeout k c) (suc f) (p.drop (suc f) st)
  older-joined k c f st e =
      rw
        (decrement_lem k
          (record c { conn_id = suc f; is_really_recv = false; last_error = err_recv_timeout }) e)
        (disconnect-joined p (after_timeout k c) f st)

  -- A round in which the server is silent.
  pub round_silent :
      (n : ℕ) (last : ℕ × Bool) (k : Kind) (c : XibridgeClient) (f : ℕ) (st st' : S)
      → c.server_protocol_version ≡ version k
      → p.receive (suc f) (create_open_request k c.dev_id) st ≡ (st', none)
      → open_rounds (suc n) last (apart p c f st)
        ≡ open_rounds n
            (err_recv_timeout, false)
            (apart p (after_timeout k c) (suc f) (p.drop (suc f) st'))
  unfolding rounds
  round_silent n last k c f st st' e q =
      rw
        (
          open_connection-apart p c f st,
          open_device_silent p k (record c { last_error = 0 }) (suc f) st st' e q,
        )
        (ap (open_rounds n (err_recv_timeout, false)) (older-joined k c f st' e))

  -- The client after a request that was accepted.
  abbrev pub after_success : List ℕ → XibridgeClient → XibridgeClient
  after_success message c = callback_data_bindy message (record c { last_error = 0 })

  open_device_accepted :
      (k : Kind) (c : XibridgeClient) (f : ℕ) (st st' : S) (message : List ℕ)
      → c.server_protocol_version ≡ version k
      → IsAcceptance k message
      → p.receive f (create_open_request k c.dev_id) st ≡ (st', some message)
      → open_device (line p) (joined p c f st) ≡ (joined p (after_success message c) f st', true)
  open_device_accepted k c f st st' message e v q =
      open_device_answered p k c f st st' message e q
      ∙ ap (λ r. (record (joined p c f st') { client = r.0 }, r.1))
          (opened_accepted k (record c { conn_id = f }) message e v)

  -- A round in which the server accepts.
  pub round_accepted :
      (n : ℕ) (last : ℕ × Bool) (k : Kind) (c : XibridgeClient) (f : ℕ) (st st' : S)
      (message : List ℕ)
      → c.server_protocol_version ≡ version k
      → IsAcceptance k message
      → p.receive (suc f) (create_open_request k c.dev_id) st ≡ (st', some message)
      → open_rounds (suc n) last (apart p c f st)
        ≡ (joined p (after_success message c) (suc f) st', some (0, true))
  unfolding rounds
  round_accepted n last k c f st st' message e v q =
      rw
        (
          open_connection-apart p c f st,
          open_device_accepted k (record c { last_error = 0 }) (suc f) st st' message e v q,
        )
        refl

  -- A round in which the server answers in another version, and what follows it.
  pub round_another :
      (n : ℕ) (last : ℕ × Bool) (k : Kind) (c : XibridgeClient) (f : ℕ) (st st' : S)
      (message : List ℕ)
      → c.server_protocol_version ≡ version k
      → (get_version_of_cmd message == version k) ≡ false
      → p.receive (suc f) (create_open_request k c.dev_id) st ≡ (st', some message)
      → open_rounds (suc n) last (apart p c f st) ≡ (
          let (s, done) =
            open_device (line p) (joined p (moved message c) (suc (suc f)) (p.drop (suc f) st')) in
          (s, some (s.client.last_error, done)))
  unfolding rounds
  round_another n last k c f st st' message e v q =
      rw
        (
          open_connection-apart p c f st,
          open_device_answered p k (record c { last_error = 0 }) (suc f) st st' message e q,
          opened_other k
              (callback_data_bindy message (record c { conn_id = suc f; last_error = 0 })) (rw e v),
          disconnect-joined p (moved message c) f st',
          open_connection-apart p (moved message c) (suc f) (p.drop (suc f) st'),
        )
        refl
