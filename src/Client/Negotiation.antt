-- ===== src/Client/Negotiation.antt =====
-- How a client that opens a device finds the protocol of the server.
use xibridge.Prelude.{
  ℕ, suc, ◌≡◌, refl, Bool, true, false, List, Option, none, some, ◌==◌, ==_refl, if◌then◌else◌,
}
use xibridge.DevId.{DevId}
use xibridge.Protocol.State.{err_recv_timeout}
use xibridge.Protocol.Dispatch.{
  Kind, protocol1, protocol2, protocol3, version, create_open_request, get_version_of_cmd,
}
use xibridge.Client.{XibridgeClient, Session}
use xibridge.Client.Interface.{xibridge_open_device_connection, finish_open}
use xibridge.Client.Line.{Peer, Line, line, apart}
use xibridge.Client.Opening.{IsAcceptance, get_version_of_cmd-create_open_request}
use xibridge.Client.Rounds.{open_rounds, next_kind, after_timeout, round_silent, round_accepted}

-- A server that speaks one version, answers every packet of it by `message`, and no other.
abbrev pub only : Kind → List ℕ → Peer (Unit {0})
only v message = record {
  receive =
      λ c request s. (s, if get_version_of_cmd request == version v then some message else none);
  drop = λ c s. s;
}

only_other :
    (u v : Kind) (message : List ℕ) (d : DevId) (f : ℕ)
    → (version u == version v) ≡ false
    → (only v message).receive f (create_open_request u d) tt ≡ (tt, none)
only_other u v message d f e = rw (get_version_of_cmd-create_open_request u d, e) refl

only_same :
    (v : Kind) (message : List ℕ) (d : DevId) (f : ℕ)
    → (only v message).receive f (create_open_request v d) tt ≡ (tt, some message)
only_same v message d f = rw (get_version_of_cmd-create_open_request v d, ==_refl (version v)) refl

-- The rounds of a client against such a server.
abbrev Finds : Kind → Session (Line (Unit {0})) × Option (ℕ × Bool) → Type 0
Finds v (s, out) = (s.client.server_protocol_version ≡ version v) × (out ≡ some (0, true))

module _ (v : Kind) (message : List ℕ) (accepts : IsAcceptance v message) where
  reached_now :
      (n : ℕ) (last : ℕ × Bool) (c : XibridgeClient) (f : ℕ)
      → c.server_protocol_version ≡ version v
      → Finds v (open_rounds (only v message) (suc n) last (apart (only v message) c f tt))
  reached_now n last c f e =
      rw
        (round_accepted (only v message) n last v c f tt tt message e accepts
          (only_same v message c.dev_id (suc f)))
        (e, refl)

  reached_later :
      (n : ℕ) (last : ℕ × Bool) (u : Kind) (c : XibridgeClient) (f : ℕ)
      → c.server_protocol_version ≡ version u
      → (version u == version v) ≡ false
      → Finds v (
          open_rounds
            (only v message)
            n
            (err_recv_timeout, false)
            (apart (only v message) (after_timeout u c) (suc f) tt))
      → Finds v (open_rounds (only v message) (suc n) last (apart (only v message) c f tt))
  reached_later n last u c f e other rest =
      rw
        (round_silent (only v message) n last u c f tt tt e
          (only_other u v message c.dev_id (suc f) other))
        rest

  -- One round and two rounds before the version is tried.
  reached_second :
      (last : ℕ × Bool) (u : Kind) (c : XibridgeClient) (f : ℕ)
      → c.server_protocol_version ≡ version u
      → (version u == version v) ≡ false
      → version (next_kind u) ≡ version v
      → Finds v (open_rounds (only v message) 3 last (apart (only v message) c f tt))
  reached_second last u c f e other here =
      reached_later 2 last u c f e other
        (reached_now 1 (err_recv_timeout, false) (after_timeout u c) (suc f) here)

  reached_third :
      (last : ℕ × Bool) (u : Kind) (c : XibridgeClient) (f : ℕ)
      → c.server_protocol_version ≡ version u
      → (version u == version v) ≡ false
      → (version (next_kind u) == version v) ≡ false
      → version (next_kind (next_kind u)) ≡ version v
      → Finds v (open_rounds (only v message) 3 last (apart (only v message) c f tt))
  reached_third last u c f e other other' here = reached_later 2 last u c f e other (
      reached_later 1 (err_recv_timeout, false) (next_kind u) (after_timeout u c) (suc f) refl
        other'
        (reached_now 0 (err_recv_timeout, false) (after_timeout (next_kind u) (after_timeout u c))
          (suc (suc f)) here))

finds :
    (u v : Kind) (message : List ℕ) (c : XibridgeClient) (f : ℕ) (last : ℕ × Bool)
    → c.server_protocol_version ≡ version u
    → IsAcceptance v message
    → Finds v (open_rounds (only v message) 3 last (apart (only v message) c f tt))
finds protocol1 protocol1 m c f last e a = reached_now protocol1 m a 2 last c f e
finds protocol2 protocol2 m c f last e a = reached_now protocol2 m a 2 last c f e
finds protocol3 protocol3 m c f last e a = reached_now protocol3 m a 2 last c f e
finds protocol1 protocol3 m c f last e a =
    reached_second protocol3 m a last protocol1 c f e refl refl
finds protocol2 protocol1 m c f last e a =
    reached_second protocol1 m a last protocol2 c f e refl refl
finds protocol3 protocol2 m c f last e a =
    reached_second protocol2 m a last protocol3 c f e refl refl
finds protocol1 protocol2 m c f last e a =
    reached_third protocol2 m a last protocol1 c f e refl refl refl
finds protocol2 protocol3 m c f last e a =
    reached_third protocol3 m a last protocol2 c f e refl refl refl
finds protocol3 protocol1 m c f last e a =
    reached_third protocol1 m a last protocol3 c f e refl refl refl

finish_open-Finds :
    (v : Kind) (message : List ℕ) (r : Session (Line (Unit {0})) × Option (ℕ × Bool))
    → Finds v r
    → let (s, err, conn) = finish_open (line (only v message)) r in
      (err ≡ 0) × (s.client.server_protocol_version ≡ version v) × (conn ≡ some s.client.conn_id)
finish_open-Finds v message (s, out) (e, h) = rw h (refl, e, refl)

-- Whatever version a client starts with, it opens the device at a server that answers packets of one
-- version alone, if that server accepts: the error is 0, and the client goes on in that version, on the
-- connection that it returns.
pub xibridge_open_device_connection-only :
    (u v : Kind) (message : List ℕ) (c : XibridgeClient) (f : ℕ)
    → c.server_protocol_version ≡ version u
    → IsAcceptance v message
    → let (s, err, conn) =
        xibridge_open_device_connection (line (only v message)) (apart (only v message) c f tt) in
      (err ≡ 0) × (s.client.server_protocol_version ≡ version v) × (conn ≡ some s.client.conn_id)
unfolding xibridge_open_device_connection
xibridge_open_device_connection-only u v message c f e a =
    finish_open-Finds v message
      (open_rounds (only v message) 3 (0, false) (apart (only v message) c f tt))
      (finds u v message c f (0, false) e a)
