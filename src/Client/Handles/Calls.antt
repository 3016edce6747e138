-- ===== src/Client/Handles/Calls.antt =====
-- client/xibridge_client.cpp: sequences of calls of the library on its open connections, with packets that arrive between them.
use xibridge.Prelude.{
  ℕ, ◌≡◌, refl, ap, ◌∙◌, true, List, [], ◌∷◌, Option, none, some, leb, Bool-cases, inl, inr, length,
}
use xibridge.Protocol.State.{err_nullptr_param, err_no_connection}
use xibridge.Client.{
  XibridgeClient, Network, Session, Sent, refused, accepted, has_conn, clr_errors,
}
use xibridge.Client.Calls.{close_connection_device}
use xibridge.Client.Reading.{read_connection_buffer, write_connection, after_write}
use xibridge.Client.Handles.{
  Library, get_client, keys, session_of, put_back, use_client, with_client, close_client, requested,
  read_session, arrived, xbc_request_response, xbc_read_connection_buffer, xbc_write_connection,
  xbc_close_connection_device, packet_arrives,
}
use xibridge.Client.Handles.Kept.{Keeps, Keeps-trans, request_response-Keeps}
use xibridge.Client.Handles.Live.{
  IsOpen, IsLive, Found, absent, present, get_client-Found, set_client-IsLive, kept_keys-IsLive,
  closed-IsLive, has_conn-erase,
}
use xibridge.Client.Handles.Closed.{close_connection_device-map}

-- A call, with its arguments, or a packet that bindy hands over. A number is `none` for a null `pconn`.
pub data Call : Type 0 where
  request : Option ℕ → List ℕ → ℕ → Call
  read : Option ℕ → ℕ → Call
  write : Option ℕ → List ℕ → Call
  close : Option ℕ → Call
  packet : ℕ → List ℕ → Call

abbrev pub library_of {ℓ} : {L : Type 0} {A : Type ℓ} → Option (L × A) → Option L
library_of none = none
library_of (some (lib, a)) = some lib

module _ {N : Type 0} (w : Network N) where
  abbrev pub run : Call → Library N → Option (Library N)
  run (request conn req resp_len) lib = library_of (xbc_request_response w conn req resp_len lib)
  run (read conn size) lib = library_of (xbc_read_connection_buffer w conn size lib)
  run (write conn bytes) lib = library_of (xbc_write_connection w conn bytes lib)
  run (close conn) lib = library_of (xbc_close_connection_device w conn lib)
  run (packet conn_id message) lib = library_of (packet_arrives w conn_id message lib)

  -- `none` if a call used a deleted client.
  abbrev pub run_all : List Call → Library N → Option (Library N)
  run_all [] lib = some lib
  run_all (call ∷ calls) lib = elim (run call lib) [ none ↦ none | some lib' ↦ run_all calls lib' ]

  -- A library that was reached without use of a deleted client, and has no entry of one.
  pub record StaysLive (result : Option (Library N)) : Type 0 where
    pub after : Library N
    pub reached : result ≡ some after
    pub live : IsLive w after.clients

  Keeps-IsOpen :
      (conn_id : ℕ) {s s' : Session N}
      → Keeps s s'
      → IsOpen w conn_id s.client
      → IsOpen w conn_id s'.client
  Keeps-IsOpen conn_id k o = record {
    kind = o.kind;
    same_conn = k.same_conn ∙ o.same_conn;
    valid = o.valid;
    supported = k.same_version ∙ o.supported;
  }

  use_client-StaysLive {ℓ} :
      {A : Type ℓ} (absent_result : A) (act : Session N → Session N × A) (conn_id : ℕ)
      (lib : Library N) (o : Option (Option XibridgeClient))
      → ((s : Session N) → IsOpen w conn_id s.client → IsOpen w conn_id (act s).0.client)
      → IsLive w lib.clients
      → Found w conn_id lib.clients o
      → StaysLive (library_of (use_client w absent_result act conn_id o lib))
  use_client-StaysLive absent_result act conn_id lib _ keep l absent = record {
    after = lib;
    reached = refl;
    live = l;
  }
  use_client-StaysLive absent_result act conn_id lib _ keep l (present c o i) = record {
    after =
        put_back w conn_id (some (act (session_of w lib c)).0.client) (act (session_of w lib c)).0
          lib;
    reached = refl;
    live = kept_keys-IsLive w (act (session_of w lib c)).0.map (
        set_client-IsLive w conn_id (act (session_of w lib c)).0.client
          (keep (session_of w lib c) o) l);
  }

  with_client-StaysLive {ℓ} :
      {A : Type ℓ} (null_result absent_result : A) (act : Session N → Session N × A)
      (conn : Option ℕ) (lib : Library N)
      → ((conn_id : ℕ) (s : Session N)
          → IsOpen w conn_id s.client
          → IsOpen w conn_id (act s).0.client)
      → IsLive w lib.clients
      → StaysLive (library_of (with_client w null_result absent_result act conn lib))
  with_client-StaysLive null_result absent_result act none lib keep l = record {
    after = lib;
    reached = refl;
    live = l;
  }
  with_client-StaysLive null_result absent_result act (some conn_id) lib keep l =
      use_client-StaysLive absent_result act conn_id lib (get_client conn_id lib.clients)
        (keep conn_id) l (get_client-Found w conn_id l)

  read-Keeps : (size : ℕ) (s : Session N) → Keeps s (read_session w size s).0
  unfolding read_connection_buffer
  read-Keeps size s = elim (Bool-cases (leb (length s.client.recv_message) size)) [
    | inl b ↦ rw b (record { same_conn = refl; same_version = refl; same_map = refl })
    | inr b ↦ rw b (record { same_conn = refl; same_version = refl; same_map = refl })
  ]

  after_write-Keeps : (sent : Sent) (s : Session N) → Keeps s (after_write w sent s)
  after_write-Keeps refused s = record { same_conn = refl; same_version = refl; same_map = refl }
  after_write-Keeps (accepted none) s = record {
    same_conn = refl;
    same_version = refl;
    same_map = refl;
  }
  after_write-Keeps (accepted (some m)) s = record {
    same_conn = refl;
    same_version = refl;
    same_map = refl;
  }

  write-Keeps : (bytes : List ℕ) (s : Session N) → Keeps s (write_connection w bytes s).0
  unfolding write_connection
  write-Keeps bytes s = elim (Bool-cases (has_conn s.map s.client.conn_id)) [
    | inl b ↦ rw b (
        Keeps-trans
          {s = record s {
            client = clr_errors s.client;
            net = (w.send s.client.conn_id bytes s.net).1;
          }}
          (record { same_conn = refl; same_version = refl; same_map = refl })
          (after_write-Keeps (w.send s.client.conn_id bytes s.net).0 (record s {
            client = clr_errors s.client;
            net = (w.send s.client.conn_id bytes s.net).1;
          })))
    | inr b ↦ rw b (record { same_conn = refl; same_version = refl; same_map = refl })
  ]

  close_client-StaysLive :
      (conn_id : ℕ) (lib : Library N) (o : Option (Option XibridgeClient))
      → ((n : N) → w.alive n ≡ true)
      → ((n : N) → (w.disconnect conn_id n).0 ≡ true)
      → IsLive w lib.clients
      → Found w conn_id lib.clients o
      → StaysLive (library_of (close_client w conn_id o lib))
  close_client-StaysLive conn_id lib _ a d l absent = record {
    after = lib;
    reached = refl;
    live = l;
  }
  close_client-StaysLive conn_id lib _ a d l (present c o i) = record {
    after = put_back w conn_id none (close_connection_device w (session_of w lib c)).0 lib;
    reached = refl;
    live =
        closed-IsLive w (close_connection_device w (session_of w lib c)).0.map conn_id
          (ap (λ m. has_conn m conn_id) (close_connection_device-map w conn_id lib c true o i a d)
            ∙ has_conn-erase (keys lib.clients) conn_id)
          l;
  }

  run-StaysLive :
      (call : Call) (lib : Library N)
      → ((n : N) → w.alive n ≡ true)
      → ((conn_id : ℕ) (n : N) → (w.disconnect conn_id n).0 ≡ true)
      → IsLive w lib.clients
      → StaysLive (run call lib)
  unfolding xbc_request_response xbc_read_connection_buffer xbc_write_connection
      xbc_close_connection_device packet_arrives
  run-StaysLive (request conn req resp_len) lib a d l =
      with_client-StaysLive (err_nullptr_param, []) (err_no_connection, [])
        (requested w req resp_len) conn lib
        (λ conn_id s o. Keeps-IsOpen conn_id (request_response-Keeps w req resp_len s) o) l
  run-StaysLive (read conn size) lib a d l =
      with_client-StaysLive (err_nullptr_param, []) (err_no_connection, []) (read_session w size)
        conn lib (λ conn_id s o. Keeps-IsOpen conn_id (read-Keeps size s) o) l
  run-StaysLive (write conn bytes) lib a d l =
      with_client-StaysLive err_nullptr_param err_no_connection (write_connection w bytes) conn lib
        (λ conn_id s o. Keeps-IsOpen conn_id (write-Keeps bytes s) o) l
  run-StaysLive (close none) lib a d l = record { after = lib; reached = refl; live = l }
  run-StaysLive (close (some conn_id)) lib a d l =
      close_client-StaysLive conn_id lib (get_client conn_id lib.clients) a (d conn_id) l
        (get_client-Found w conn_id l)
  run-StaysLive (packet conn_id message) lib a d l =
      with_client-StaysLive tt tt (arrived w message) (some conn_id) lib
        (λ k s o. record {
          kind = o.kind;
          same_conn = o.same_conn;
          valid = o.valid;
          supported = o.supported;
        })
        l

  then_run :
      (calls : List Call) (result : Option (Library N))
      → StaysLive result
      → ((lib : Library N) → IsLive w lib.clients → StaysLive (run_all calls lib))
      → StaysLive (elim result [ none ↦ none | some lib' ↦ run_all calls lib' ])
  then_run calls result s rest = rw s.reached (rest s.after s.live)

  -- Where no entry of the map points to a deleted client, and while bindy lives and its `disconnect` does not
  -- throw, no sequence of requests, reads, writes, closes and incoming packets, on any numbers, ever uses a
  -- deleted client, and each leaves every remaining number with its own open client.
  pub run_all-StaysLive :
      (calls : List Call) (lib : Library N)
      → ((n : N) → w.alive n ≡ true)
      → ((conn_id : ℕ) (n : N) → (w.disconnect conn_id n).0 ≡ true)
      → IsLive w lib.clients
      → StaysLive (run_all calls lib)
  run_all-StaysLive [] lib a d l = record { after = lib; reached = refl; live = l }
  run_all-StaysLive (call ∷ calls) lib a d l =
      then_run calls (run call lib) (run-StaysLive call lib a d l)
        (λ lib' l'. run_all-StaysLive calls lib' a d l')
