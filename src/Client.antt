-- ===== src/Client.antt =====
-- client/xibridge_client.h, client/xibridge_client.cpp, client/bindy_helper.cpp: class Xibridge_client, and the
-- functions of Bindy_helper through which it uses the network.
-- The network library bindy is a parameter, `Network`, with a state of its own. One client is modelled: `map`
-- holds the connections of it that Bindy_helper knows of.
pub mod Calls
pub mod Interface
pub mod Line
pub mod Opening
pub mod Rounds
pub mod Negotiation
pub mod Whole
pub mod Reading
pub mod Handles
use xibridge.Prelude.{
  ℕ, ◌-◌, Bool, true, false, not, ◌&&◌, ◌||◌, List, [], ◌∷◌, Option, none, some, if◌then◌else◌, ltb,
  ◌==◌,
}
use xibridge.DevId.{DevId}
use xibridge.Protocol.State.{AProtocol, err_no_connection, err_send_data, err_recv_timeout}

abbrev pub err_no_bindy : ℕ
err_no_bindy = 4

abbrev pub err_set_connection : ℕ
err_set_connection = 10

abbrev pub default_proto_version : ℕ
default_proto_version = 3

pub record XibridgeClient : Type 0 where
  pub server_protocol_version : ℕ
  pub conn_id : ℕ
  pub dev_id : DevId
  pub recv_message : List ℕ
  pub is_really_recv : Bool
  pub last_error : ℕ

-- An exception of `send_data`, or the packet, if any, that came in before `_is_really_recv` was cleared.
pub data Sent : Type 0 where
  refused : Sent
  accepted : Option (List ℕ) → Sent

-- What the client uses of bindy. `alive` is whether it could be created; `connect` gives `none` and
-- `disconnect` gives false for an exception; `wait` gives the packet that comes in before a `wait_for`
-- times out, if one does. The host and the adapter are fixed.
pub record Network (N : Type 0) : Type 0 where
  pub conn_id_invalid : ℕ
  pub alive : N → Bool
  pub connect : N → Option ℕ × N
  pub disconnect : ℕ → N → Bool × N
  pub send : ℕ → List ℕ → N → Sent × N
  pub wait : ℕ → N → Option (List ℕ) × N

pub record Session (N : Type 0) : Type 0 where
  pub client : XibridgeClient
  pub map : List ℕ
  pub net : N

abbrev pub has_conn : List ℕ → ℕ → Bool
has_conn [] conn_id = false
has_conn (c ∷ map) conn_id = if c == conn_id then true else has_conn map conn_id

abbrev pub erase : List ℕ → ℕ → List ℕ
erase [] conn_id = []
erase (c ∷ map) conn_id = if c == conn_id then erase map conn_id else c ∷ erase map conn_id

-- `_set_last_error`; the text that comes with an error is not used.
abbrev pub set_last_error : XibridgeClient → ℕ → XibridgeClient
set_last_error c err = record c { last_error = err }

abbrev pub clr_errors : XibridgeClient → XibridgeClient
clr_errors c = record c { last_error = 0 }

-- A new protocol object of a client: its `_perror` points to `_last_error`.
abbrev pub proto_of : XibridgeClient → AProtocol
proto_of c = record { is_server = false; res_err = 0; perror = c.last_error }

unfoldable pub decrement_server_protocol_version : XibridgeClient → XibridgeClient
decrement_server_protocol_version c =
    if ltb 1 c.server_protocol_version
    then record c { server_protocol_version = c.server_protocol_version - 1 }
    else record c { server_protocol_version = default_proto_version }

-- `callback_data_bindy`, run by a thread of bindy.
abbrev pub callback_data_bindy : List ℕ → XibridgeClient → XibridgeClient
callback_data_bindy message c = record c { recv_message = message; is_really_recv = true }

abbrev pub early : Option (List ℕ) → XibridgeClient → XibridgeClient
early none c = c
early (some message) c = callback_data_bindy message c

module _ {N : Type 0} (w : Network N) where
  abbrev pub fail : ℕ → Session N → Session N
  fail err s = record s { client = set_last_error s.client err }

  -- `Bindy_helper::connect` with what bindy returned.
  abbrev pub connected : Option ℕ → Session N → Session N × ℕ
  connected none s = (fail err_set_connection s, w.conn_id_invalid)
  connected (some conn) s =
      if conn == w.conn_id_invalid then (s, conn) else (record s { map = conn ∷ s.map }, conn)

  unfoldable pub helper_connect : Session N → Session N × ℕ
  helper_connect s =
      if w.alive s.net
      then (let (conn, net) = w.connect s.net in connected conn (record s { net = net }))
      else (fail err_no_bindy s, w.conn_id_invalid)

  -- `Bindy_helper::disconnect`: an exception leaves the map as it is.
  unfoldable pub helper_disconnect : ℕ → Session N → Session N
  helper_disconnect conn_id s =
      if not (w.alive s.net) || conn_id == w.conn_id_invalid
      then s
      else let (done, net) = w.disconnect conn_id s.net in
        record s { map = if done then erase s.map conn_id else s.map; net = net }

  unfoldable pub open_connection : Session N → Session N × Bool
  open_connection s =
      let (s₁, conn) = helper_connect (record s { client = clr_errors s.client }) in
      let s₂ : Session N = record s₁ { client = record (s₁.client) { conn_id = conn } } in
      if conn == w.conn_id_invalid then (fail err_no_connection s₂, false) else (s₂, true)

  unfoldable pub disconnect : Session N → Session N
  disconnect s =
      let s₁ = helper_disconnect s.client.conn_id s in
      record s₁ { client = record (s₁.client) { conn_id = w.conn_id_invalid } }

  unfoldable pub is_connected : Session N → Bool
  is_connected s = not (s.client.conn_id == w.conn_id_invalid) && has_conn s.map s.client.conn_id

  -- What is left of `_send_and_receive` once the packet is sent.
  abbrev pub received_or_not : Option (List ℕ) → Session N → Session N × Bool
  received_or_not none s = (fail err_recv_timeout s, false)
  received_or_not (some message) s =
      (record s { client = callback_data_bindy message s.client }, true)

  unfoldable pub after_send : Sent → Session N → Session N × Bool
  after_send refused s = (fail err_send_data s, false)
  after_send (accepted first) s =
      let (message, net) = w.wait s.client.conn_id s.net in
      received_or_not message
        (record s { client = record (early first s.client) { is_really_recv = false }; net = net })

  unfoldable pub send_and_receive : List ℕ → Session N → Session N × Bool
  send_and_receive req s =
      if has_conn s.map s.client.conn_id
      then (let (sent, net) = w.send s.client.conn_id req s.net in
          after_send sent (record s { net = net }))
      else (fail err_send_data s, false)
