-- ===== src/Client/Calls.antt =====
-- client/xibridge_client.cpp: what a client asks of a server. A method returns the session with its result.
use xibridge.Prelude.{
  ℕ, ◌%◌, Bool, true, false, not, List, [], ◌∷◌, Option, none, some, if◌then◌else◌, ◌==◌, take,
}
use xibridge.MBuf.{mbuf_of}
use xibridge.Protocol.State.{
  AProtocol, err_no_protocol, err_no_connection, err_another_protocol, err_device_open,
}
use xibridge.Protocol.Dispatch.{
  Kind, create_appropriate_protocol, create_open_request, create_close_request, create_cmd_request,
  create_enum_request, create_version_request, get_version_of_cmd, Received,
  get_data_from_bindy_callback, translate_response,
}
use xibridge.Client.{
  XibridgeClient, Network, Session, set_last_error, clr_errors, proto_of, default_proto_version,
  fail, disconnect, is_connected, send_and_receive,
}

-- A protocol object of the current version, and the packet it makes; `none` is `ERR_NO_PROTOCOL`.
abbrev pub nonempty : List ℕ → Option (List ℕ)
nonempty [] = none
nonempty (b ∷ bs) = some (b ∷ bs)

abbrev pub request_of : (Kind → List ℕ) → XibridgeClient → Option (Kind × List ℕ)
request_of make c = elim (create_appropriate_protocol c.server_protocol_version) [
  | none ↦ none
  | some k ↦ elim (nonempty (make k)) [ none ↦ none | some req ↦ some (k, req) ]
]

-- `get_data_from_bindy_callback` on the packet received, and what it and `translate_response` leave in
-- `_last_error`.
abbrev pub read_answer : Kind → XibridgeClient → Received
read_answer k c = get_data_from_bindy_callback k (mbuf_of c.recv_message true) (proto_of c)

abbrev pub pckt_of : Received → ℕ
pckt_of r = elim r.pckt_type [ none ↦ 0 | some pckt ↦ pckt ]

abbrev pub with_error : AProtocol → XibridgeClient → XibridgeClient
with_error p c = record c { last_error = p.perror }

unfoldable pub translated : Kind → Received → XibridgeClient → XibridgeClient × Bool
translated k r c =
    let (done, p) = translate_response k (pckt_of r) r.proto in (with_error p c, done)

-- Another version in the answer than the client's: the client takes it over.
abbrev pub is_another : XibridgeClient → Bool
is_another c = not (get_version_of_cmd c.recv_message == c.server_protocol_version)

abbrev pub take_version : XibridgeClient → XibridgeClient
take_version c = record c {
  server_protocol_version = get_version_of_cmd c.recv_message;
  last_error = err_another_protocol;
}

-- `open_device` with an answer received.
unfoldable pub opened : Kind → XibridgeClient → XibridgeClient × Bool
opened k c =
    let r = read_answer k c in
    let (c', done) = translated k r (with_error r.proto c) in
    if is_another c
    then (take_version c, false)
    else if not r.ret
    then (with_error r.proto c, false)
    else if done
    then (c', true)
    else (set_last_error c' err_device_open, false)

-- `close_connection_device` with an answer received. A packet that could not be read is translated all
-- the same, with a packet type that was never set (0 here).
unfoldable pub closed : Kind → XibridgeClient → XibridgeClient × Bool
closed k c = let r = read_answer k c in translated k r (with_error r.proto c)

-- `send_data_and_receive` with an answer received.
unfoldable pub answered : Kind → XibridgeClient → XibridgeClient × List ℕ
answered k c = let r = read_answer k c in (with_error r.proto c, if r.ret then r.data_out else [])

-- `exec_version_request` with an answer received: `none` leaves `*pversion` as it was.
unfoldable pub versioned : Kind → XibridgeClient → XibridgeClient × Option ℕ
versioned k c =
    let r = read_answer k c in
    if r.ret
    then (with_error r.proto c, some (r.proto.res_err % 256))
    else (set_last_error c err_no_protocol, none)

-- `exec_enumerate` with an answer received: the number of devices and their identifiers.
unfoldable pub enumerated : Kind → XibridgeClient → XibridgeClient × Option (ℕ × List ℕ)
enumerated k c =
    let r = read_answer k c in
    if is_another c
    then (take_version c, none)
    else if r.ret
    then (with_error r.proto c, some (r.proto.res_err, r.data_out))
    else (with_error r.proto c, none)

module _ {N : Type 0} (w : Network N) where
  -- Sends a request and hands a received answer to `use_answer`.
  unfoldable pub exchange {ℓ} :
      {A : Type ℓ}
      → A
      → (Kind → XibridgeClient → XibridgeClient × A)
      → Kind
      → List ℕ
      → Session N
      → Session N × A
  exchange nothing use_answer k req s =
      let (s₁, got) = send_and_receive w req s in
      let (c, result) = use_answer k s₁.client in
      if got then (record s₁ { client = c }, result) else (s₁, nothing)

  -- The same, if the protocol has such a request.
  abbrev pub asked {ℓ} :
      {A : Type ℓ}
      → A
      → (Kind → XibridgeClient → XibridgeClient × A)
      → Option (Kind × List ℕ)
      → Session N
      → Session N × A
  asked nothing use_answer none s = (fail w err_no_protocol s, nothing)
  asked nothing use_answer (some (k, req)) s = exchange nothing use_answer k req s

  unfoldable pub ask {ℓ} :
      {A : Type ℓ}
      → (Kind → List ℕ)
      → A
      → (Kind → XibridgeClient → XibridgeClient × A)
      → Session N
      → Session N × A
  ask make nothing use_answer s = asked nothing use_answer (request_of make s.client) s

  abbrev pub clear : Session N → Session N
  clear s = record s { client = clr_errors s.client }

  unfoldable pub open_device : Session N → Session N × Bool
  open_device s = ask (λ k. create_open_request k s.client.dev_id) false opened (clear s)

  unfoldable pub send_data_and_receive : List ℕ → ℕ → Session N → Session N × List ℕ
  send_data_and_receive bytes resp_length s =
      if is_connected w (clear s)
      then ask (λ k. create_cmd_request k s.client.dev_id bytes resp_length) [] answered (clear s)
      else (fail w err_no_connection s, [])

  -- `xbc_request_response` on a client that was found: the error, and what is copied to `resp`.
  unfoldable pub request_response : List ℕ → ℕ → Session N → Session N × ℕ × List ℕ
  request_response req resp_len s =
      let (s₁, response) = send_data_and_receive req resp_len s in
      (s₁, s₁.client.last_error, take resp_len response)

  abbrev pub then_disconnect {ℓ} : {A : Type ℓ} → Session N × A → Session N × A
  then_disconnect (s, a) = (disconnect w s, a)

  unfoldable pub close_connection_device : Session N → Session N × Bool
  close_connection_device s =
      if is_connected w (clear s)
      then elim (request_of (λ k. create_close_request k s.client.dev_id) s.client) [
        | none ↦ (fail w err_no_protocol s, false)
        | some (k, req) ↦ then_disconnect (exchange false closed k req (clear s))
      ]
      else (fail w err_no_connection s, false)

  -- The version of the client becomes the last one, and stays so.
  unfoldable pub exec_version_request : Session N → Session N × Option ℕ
  exec_version_request s = ask create_version_request none versioned (record s {
    client = record (clr_errors s.client) { server_protocol_version = default_proto_version };
  })

  -- The devices found; `xi_net_dev_uris` makes their texts.
  unfoldable pub exec_enumerate : Session N → Session N × Option (ℕ × List ℕ)
  exec_enumerate s = ask create_enum_request none enumerated (clear s)
