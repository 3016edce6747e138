-- ===== src/Client/Handles.antt =====
-- client/xibridge_client.cpp and client/xibridge.cpp: the clients behind the connection numbers that the library gives its
-- callers. `clients` is `Bindy_helper::_map`; an entry `none` is a pointer to a client that was deleted.
-- A result `none` is a use of such a pointer. A null `pconn` is `none`.
pub mod Kept
pub mod Live
pub mod Closed
pub mod Gone
pub mod Calls
use xibridge.Prelude.{
  ℕ, ◌%◌, Bool, true, false, ◌&&◌, List, [], ◌∷◌, Option, none, some, if◌then◌else◌, ◌==◌,
}
use xibridge.DevId.{DevId}
use xibridge.Uri.{ParsedUri, xibridge_parse_uri_dev12}
use xibridge.Protocol.State.{err_nullptr_param, err_no_connection}
use xibridge.Client.{XibridgeClient, Network, Session, has_conn, callback_data_bindy}
use xibridge.Client.Calls.{request_response, close_connection_device}
use xibridge.Client.Interface.{xibridge_open_device_connection}
use xibridge.Client.Reading.{read_connection_buffer, write_connection}

abbrev pub Entries : Type 0
Entries = List (ℕ × Option XibridgeClient)

pub record Library (N : Type 0) : Type 0 where
  pub clients : Entries
  pub base_version : ℕ
  pub net : N

-- `_get_client_as_free`
abbrev pub get_client : ℕ → Entries → Option (Option XibridgeClient)
get_client conn_id [] = none
get_client conn_id ((k, c) ∷ es) = if k == conn_id then some c else get_client conn_id es

abbrev pub keys : Entries → List ℕ
keys [] = []
keys ((k, c) ∷ es) = k ∷ keys es

abbrev pub set_client : ℕ → Option XibridgeClient → Entries → Entries
set_client conn_id c [] = []
set_client conn_id c ((k, b) ∷ es) =
    if k == conn_id then (k, c) ∷ es else (k, b) ∷ set_client conn_id c es

-- The entries that a session left in the map.
abbrev pub kept_keys : List ℕ → Entries → Entries
kept_keys ks [] = []
kept_keys ks ((k, c) ∷ es) =
    let rest = kept_keys ks es in if has_conn ks k then (k, c) ∷ rest else rest

-- `_map.insert` of what a session added.
abbrev pub add_keys : List ℕ → Option XibridgeClient → Entries → Entries
add_keys [] c es = es
add_keys (k ∷ ks) c es =
    let rest = add_keys ks c es in if has_conn (keys rest) k then rest else (k, c) ∷ rest

-- The client of a uri; `stale` is what its memory held, which stays if the uri cannot be read.
abbrev pub dev_of_uri : DevId → Option ParsedUri → DevId
dev_of_uri stale none = stale
dev_of_uri stale (some parsed) = parsed.uri_device_id

module _ {N : Type 0} (w : Network N) where
  unfoldable pub new_client : List ℕ → DevId → ℕ → XibridgeClient
  new_client uri stale base = record {
    server_protocol_version = base;
    conn_id = w.conn_id_invalid;
    dev_id = dev_of_uri stale (xibridge_parse_uri_dev12 uri);
    recv_message = [];
    is_really_recv = false;
    last_error = 0;
  }

  abbrev pub session_of : Library N → XibridgeClient → Session N
  session_of lib c = record { client = c; map = keys lib.clients; net = lib.net }

  -- The library after a session of the client of `conn_id`, which then is `c` or, deleted, `none`.
  abbrev pub put_back : ℕ → Option XibridgeClient → Session N → Library N → Library N
  put_back conn_id c s lib = record lib {
    clients = kept_keys s.map (set_client conn_id c lib.clients);
    net = s.net;
  }

  abbrev pub use_client {ℓ} :
      {A : Type ℓ}
      → A
      → (Session N → Session N × A)
      → ℕ
      → Option (Option XibridgeClient)
      → Library N
      → Option (Library N × A)
  use_client absent act conn_id none lib = some (lib, absent)
  use_client absent act conn_id (some none) lib = none
  use_client absent act conn_id (some (some c)) lib =
      let (s, r) = act (session_of lib c) in some (put_back conn_id (some s.client) s lib, r)

  -- The function of a client that a connection number is turned into.
  abbrev pub with_client {ℓ} :
      {A : Type ℓ}
      → A
      → A
      → (Session N → Session N × A)
      → Option ℕ
      → Library N
      → Option (Library N × A)
  with_client null absent act none lib = some (lib, null)
  with_client null absent act (some conn_id) lib =
      use_client absent act conn_id (get_client conn_id lib.clients) lib

  abbrev pub requested : List ℕ → ℕ → Session N → Session N × (ℕ × List ℕ)
  requested req resp_len s =
      let (s₁, err, resp) = request_response w req resp_len s in (s₁, (err, resp))

  -- The error, and what is copied to `resp`.
  unfoldable pub xbc_request_response :
      Option ℕ → List ℕ → ℕ → Library N → Option (Library N × (ℕ × List ℕ))
  xbc_request_response pconn req resp_len lib =
      with_client (err_nullptr_param, []) (err_no_connection, []) (requested req resp_len) pconn lib

  abbrev pub read_session : ℕ → Session N → Session N × (ℕ × List ℕ)
  read_session size s =
      let (c, err, bytes) = read_connection_buffer size s.client in
      (record s { client = c }, (err, bytes))

  unfoldable pub xbc_read_connection_buffer :
      Option ℕ → ℕ → Library N → Option (Library N × (ℕ × List ℕ))
  xbc_read_connection_buffer pconn size lib =
      with_client (err_nullptr_param, []) (err_no_connection, []) (read_session size) pconn lib

  unfoldable pub xbc_write_connection : Option ℕ → List ℕ → Library N → Option (Library N × ℕ)
  xbc_write_connection pconn bytes lib =
      with_client err_nullptr_param err_no_connection (write_connection w bytes) pconn lib

  abbrev pub close_client : ℕ → Option (Option XibridgeClient) → Library N → Option (Library N × ℕ)
  close_client conn_id none lib = some (lib, 0)
  close_client conn_id (some none) lib = none
  close_client conn_id (some (some c)) lib =
      some (put_back conn_id none (close_connection_device w (session_of lib c)).0 lib, 0)

  -- The client is deleted whether its connection was closed or not.
  unfoldable pub xbc_close_connection_device : Option ℕ → Library N → Option (Library N × ℕ)
  xbc_close_connection_device none lib = some (lib, err_nullptr_param)
  xbc_close_connection_device (some conn_id) lib =
      close_client conn_id (get_client conn_id lib.clients) lib

  abbrev pub version_of : ℕ → Option (Option XibridgeClient) → Option ℕ
  version_of base none = some (base % 256)
  version_of base (some none) = none
  version_of base (some (some c)) = some (c.server_protocol_version % 256)

  -- The major number; that of an invalid version is 0.
  unfoldable pub xbc_get_connection_protocol_version : Option ℕ → Library N → Option ℕ
  xbc_get_connection_protocol_version none lib = some 0
  xbc_get_connection_protocol_version (some conn_id) lib =
      version_of lib.base_version (get_client conn_id lib.clients)

  -- A packet that bindy hands over while no function waits for it.
  abbrev pub arrived : List ℕ → Session N → Session N × Unit {0}
  arrived message s = (record s { client = callback_data_bindy message s.client }, tt)

  unfoldable pub packet_arrives : ℕ → List ℕ → Library N → Option (Library N × Unit {0})
  packet_arrives conn_id message lib = with_client tt tt (arrived message) (some conn_id) lib

  -- Opening: a client that could not open its device is deleted.
  abbrev pub opened_library : Session N × ℕ × Option ℕ → Library N → Library N × ℕ × Option ℕ
  opened_library (s, err, conn) lib = (
    record lib {
      clients =
          kept_keys s.map (add_keys s.map (if err == 0 then some s.client else none) lib.clients);
      net = s.net;
    },
    err,
    conn,
  )

  unfoldable pub open_in_library : List ℕ → DevId → Library N → Library N × ℕ × Option ℕ
  open_in_library uri stale lib =
      opened_library
        (xibridge_open_device_connection w (session_of lib (new_client uri stale lib.base_version)))
        lib
