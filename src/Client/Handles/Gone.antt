-- ===== src/Client/Handles/Gone.antt =====
-- client/xibridge_client.cpp: a connection number after xbc_close_connection_device.
use xibridge.Prelude.{ℕ, ◌≡◌, refl, ap, ◌∙◌, true, false, List, [], none, some}
use xibridge.Protocol.State.{err_no_connection}
use xibridge.Client.{XibridgeClient, Network, has_conn}
use xibridge.Client.Calls.{close_connection_device}
use xibridge.Client.Handles.{
  Library, get_client, keys, set_client, session_of, put_back, xbc_request_response,
  xbc_read_connection_buffer, xbc_write_connection, xbc_close_connection_device,
}
use xibridge.Client.Handles.Live.{IsLive, found_client, has_conn-erase}
use xibridge.Client.Handles.Closed.{
  get_client-kept_keys, get_client-deleted, close_connection_device-map,
}

module _ {N : Type 0} (w : Network N) where
  -- What all functions give for a number that no client has, and for one whose client was deleted.
  pub record IsUnknown (conn_id : ℕ) (lib : Library N) : Type 0 where
    pub request_unknown :
        (req : List ℕ) (resp_len : ℕ)
        → xbc_request_response w (some conn_id) req resp_len lib
          ≡ some (lib, (err_no_connection, []))
    pub read_unknown :
        (size : ℕ)
        → xbc_read_connection_buffer w (some conn_id) size lib ≡ some (lib, (err_no_connection, []))
    pub write_unknown :
        (bytes : List ℕ)
        → xbc_write_connection w (some conn_id) bytes lib ≡ some (lib, err_no_connection)
    pub close_unknown : xbc_close_connection_device w (some conn_id) lib ≡ some (lib, 0)

  pub record IsDangling (conn_id : ℕ) (lib : Library N) : Type 0 where
    pub request_dangling :
        (req : List ℕ) (resp_len : ℕ)
        → xbc_request_response w (some conn_id) req resp_len lib ≡ none
    pub read_dangling : (size : ℕ) → xbc_read_connection_buffer w (some conn_id) size lib ≡ none
    pub write_dangling : (bytes : List ℕ) → xbc_write_connection w (some conn_id) bytes lib ≡ none
    pub close_dangling : xbc_close_connection_device w (some conn_id) lib ≡ none

  get_client-IsUnknown :
      (conn_id : ℕ) (lib : Library N)
      → get_client conn_id lib.clients ≡ none
      → IsUnknown conn_id lib
  unfolding xbc_request_response xbc_read_connection_buffer xbc_write_connection
      xbc_close_connection_device
  get_client-IsUnknown conn_id lib e = record {
    request_unknown = λ req resp_len. rw e refl;
    read_unknown = λ size. rw e refl;
    write_unknown = λ bytes. rw e refl;
    close_unknown = rw e refl;
  }

  get_client-IsDangling :
      (conn_id : ℕ) (lib : Library N)
      → get_client conn_id lib.clients ≡ some none
      → IsDangling conn_id lib
  unfolding xbc_request_response xbc_read_connection_buffer xbc_write_connection
      xbc_close_connection_device
  get_client-IsDangling conn_id lib e = record {
    request_dangling = λ req resp_len. rw e refl;
    read_dangling = λ size. rw e refl;
    write_dangling = λ bytes. rw e refl;
    close_dangling = rw e refl;
  }

  -- The library after a close.
  abbrev pub after_close : ℕ → XibridgeClient → Library N → Library N
  after_close conn_id c lib =
      put_back w conn_id none (close_connection_device w (session_of w lib c)).0 lib

  close_found :
      (conn_id : ℕ) (c : XibridgeClient) (lib : Library N)
      → get_client conn_id lib.clients ≡ some (some c)
      → xbc_close_connection_device w (some conn_id) lib ≡ some (after_close conn_id c lib, 0)
  unfolding xbc_close_connection_device
  close_found conn_id c lib e = rw e refl

  -- Closing a connection always returns 0. Where bindy's `disconnect` does not throw, the number is gone
  -- afterwards: the functions of the library give `ERR_NO_CONNECTION` for it, the close 0, and change nothing.
  pub xbc_close_connection_device-IsUnknown :
      (conn_id : ℕ) (c : XibridgeClient) (lib : Library N)
      → IsLive w lib.clients
      → get_client conn_id lib.clients ≡ some (some c)
      → ((n : N) → w.alive n ≡ true)
      → ((n : N) → (w.disconnect conn_id n).0 ≡ true)
      → (xbc_close_connection_device w (some conn_id) lib ≡ some (after_close conn_id c lib, 0))
        × IsUnknown conn_id (after_close conn_id c lib)
  xbc_close_connection_device-IsUnknown conn_id c lib l e a d =
      let p = found_client w conn_id c lib.clients l e in
      (
        close_found conn_id c lib e,
        get_client-IsUnknown conn_id (after_close conn_id c lib) (
            get_client-kept_keys (close_connection_device w (session_of w lib c)).0.map conn_id
              (set_client conn_id none lib.clients)
              (ap (λ m. has_conn m conn_id)
                  (close_connection_device-map w conn_id lib c true p.0 p.1 a d)
                ∙ has_conn-erase (keys lib.clients) conn_id)),
      )

  -- Closing a connection returns 0 also where bindy's `disconnect` throws, and deletes the client, but leaves its
  -- entry in the map: each function that is then called with the number uses the deleted client.
  pub xbc_close_connection_device-IsDangling :
      (conn_id : ℕ) (c : XibridgeClient) (lib : Library N)
      → IsLive w lib.clients
      → get_client conn_id lib.clients ≡ some (some c)
      → ((n : N) → w.alive n ≡ true)
      → ((n : N) → (w.disconnect conn_id n).0 ≡ false)
      → (xbc_close_connection_device w (some conn_id) lib ≡ some (after_close conn_id c lib, 0))
        × IsDangling conn_id (after_close conn_id c lib)
  xbc_close_connection_device-IsDangling conn_id c lib l e a d =
      let p = found_client w conn_id c lib.clients l e in
      (
        close_found conn_id c lib e,
        get_client-IsDangling conn_id (after_close conn_id c lib) (
            get_client-deleted (close_connection_device w (session_of w lib c)).0.map conn_id
              lib.clients p.1
              (ap (λ m. has_conn m conn_id)
                  (close_connection_device-map w conn_id lib c false p.0 p.1 a d)
                ∙ p.1)),
      )
