-- ===== src/Client/Line.antt =====
-- A network that loses nothing: each packet sent reaches the other end, and its answer comes back.
use xibridge.Prelude.{
  ℕ, suc, ◌≡◌, refl, true, false, List, [], ◌∷◌, Option, none, some, arith, ◌==◌, ==_refl,
}
use xibridge.Protocol.State.{err_recv_timeout}
use xibridge.Protocol.Dispatch.{
  Kind, version, create_appropriate_protocol, protocol1, protocol2, protocol3,
}
use xibridge.Client.{
  XibridgeClient, Network, Session, accepted, open_connection, disconnect, helper_connect,
  helper_disconnect, send_and_receive, after_send, callback_data_bindy,
}
use xibridge.Client.Calls.{request_of, exchange}

pub suc_not_zero : (f : ℕ) → (suc f == 0) ≡ false
suc_not_zero f = ground arith

-- The other end: what it answers to a packet of a connection, if it does, and what it does when a
-- connection ends.
pub record Peer (S : Type 0) : Type 0 where
  pub receive : ℕ → List ℕ → S → S × Option (List ℕ)
  pub drop : ℕ → S → S

pub record Line (S : Type 0) : Type 0 where
  pub state : S
  pub fresh : ℕ
  pub pending : Option (List ℕ)

module _ {S : Type 0} (p : Peer S) where
  -- The connections are numbered from 1 on.
  abbrev pub line : Network (Line S)
  line = record {
    conn_id_invalid = 0;
    alive = λ n. true;
    connect = λ n. (some (suc n.fresh), record n { fresh = suc n.fresh });
    disconnect = λ c n. (true, record n { state = p.drop c n.state; pending = none });
    send = λ c message n.
        let (state, answer) = p.receive c message n.state in
        (accepted none, record n { state = state; pending = answer });
    wait = λ c n. (n.pending, record n { pending = none });
  }

  -- A client without a connection, and one with its connection.
  abbrev pub apart : XibridgeClient → ℕ → S → Session (Line S)
  apart c f st = record {
    client = record c { conn_id = 0 };
    map = [];
    net = record { state = st; fresh = f; pending = none };
  }

  abbrev pub joined : XibridgeClient → ℕ → S → Session (Line S)
  joined c f st = record {
    client = record c { conn_id = f };
    map = f ∷ [];
    net = record { state = st; fresh = f; pending = none };
  }

  pub open_connection-apart :
      (c : XibridgeClient) (f : ℕ) (st : S)
      → open_connection line (apart c f st)
        ≡ (joined (record c { last_error = 0 }) (suc f) st, true)
  unfolding open_connection helper_connect
  open_connection-apart c f st = rw (suc_not_zero f) (rw (suc_not_zero f) refl)

  pub disconnect-joined :
      (c : XibridgeClient) (f : ℕ) (st : S)
      → disconnect line (joined c (suc f) st) ≡ apart c (suc f) (p.drop (suc f) st)
  unfolding disconnect helper_disconnect
  disconnect-joined c f st = rw (suc_not_zero f, ==_refl (suc f)) refl

  -- A request that the other end leaves without an answer.
  pub exchange_silent {ℓ} :
      {A : Type ℓ} (nothing : A) (use_answer : Kind → XibridgeClient → XibridgeClient × A)
      (k : Kind) (req : List ℕ) (c : XibridgeClient) (f : ℕ) (st st' : S)
      → p.receive f req st ≡ (st', none)
      → exchange line nothing use_answer k req (joined c f st) ≡ (
        joined (record c { is_really_recv = false; last_error = err_recv_timeout }) f st',
        nothing,
      )
  unfolding exchange send_and_receive after_send
  exchange_silent nothing use_answer k req c f st st' e = rw (==_refl f, e) refl

  -- A request and its answer.
  pub exchange_answered {ℓ} :
      {A : Type ℓ} (nothing : A) (use_answer : Kind → XibridgeClient → XibridgeClient × A)
      (k : Kind) (req : List ℕ) (c : XibridgeClient) (f : ℕ) (st st' : S) (message : List ℕ)
      → p.receive f req st ≡ (st', some message)
      → let got = callback_data_bindy message (record c { conn_id = f }) in
        exchange line nothing use_answer k req (joined c f st)
        ≡ (record (joined c f st') { client = (use_answer k got).0 }, (use_answer k got).1)
  unfolding exchange send_and_receive after_send
  exchange_answered nothing use_answer k req c f st st' message e = rw (==_refl f, e) refl

-- The request of a protocol, where it has one.
pub request_of-version :
    (make : Kind → List ℕ) (c : XibridgeClient) (k : Kind) (b : ℕ) (bs : List ℕ)
    → c.server_protocol_version ≡ version k
    → make k ≡ b ∷ bs
    → request_of make c ≡ some (k, b ∷ bs)
unfolding create_appropriate_protocol
request_of-version make c protocol1 b bs e q = ground arith
request_of-version make c protocol2 b bs e q = ground arith
request_of-version make c protocol3 b bs e q = ground arith
