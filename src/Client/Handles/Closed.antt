-- ===== src/Client/Handles/Closed.antt =====
-- client/xibridge_client.cpp: what closing a connection leaves in the map.
use xibridge.Prelude.{
  ℕ, ◌≡◌, refl, sym, ap, ◌∙◌, Bool, true, false, List, [], ◌∷◌, none, some, if◌then◌else◌, ◌==◌,
  Bool-cases, ==→eq, inl, inr, drop,
}
use xibridge.DevId.{DevId, put_idev3}
use xibridge.MBuf.{◌<<◌, to_vector}
use xibridge.Wire.{put_stream1_4}
use xibridge.Protocol.V1
use xibridge.Protocol.V2
use xibridge.Protocol.V3
use xibridge.Protocol.Dispatch.{Kind, protocol1, protocol2, protocol3, create_close_request}
use xibridge.Client.{
  XibridgeClient, Network, Session, has_conn, erase, helper_disconnect, disconnect, is_connected,
}
use xibridge.Client.Calls.{close_connection_device, request_of, exchange, closed, clear}
use xibridge.Client.Line.{request_of-version}
use xibridge.Client.Handles.{Entries, Library, get_client, keys, set_client, kept_keys, session_of}
use xibridge.Client.Handles.Kept.{Keeps, exchange-Keeps, closed-KeepsClient}
use xibridge.Client.Handles.Live.{IsOpen}

close_request_head :
    (k : Kind) (d : DevId) → create_close_request k d ≡ 0 ∷ drop 1 (create_close_request k d)
unfolding V1.create_client_request V2.create_client_request V3.create_client_request ◌<<◌ to_vector
    put_idev3 put_stream1_4
close_request_head protocol1 d = refl
close_request_head protocol2 d = refl
close_request_head protocol3 d = refl

module _ {N : Type 0} (w : Network N) where
  -- The session of a client that asks for the close, before it disconnects.
  abbrev pub asked_to_close : (lib : Library N) (c : XibridgeClient) → Kind → Session N × Bool
  asked_to_close lib c k =
      exchange w false closed k (create_close_request k c.dev_id) (clear w (session_of w lib c))

  connected_client :
      (conn_id : ℕ) (lib : Library N) (c : XibridgeClient)
      → IsOpen w conn_id c
      → has_conn (keys lib.clients) conn_id ≡ true
      → is_connected w (clear w (session_of w lib c)) ≡ true
  unfolding is_connected
  connected_client conn_id lib c o i = rw (o.same_conn, o.valid, i) refl

  close_request :
      (conn_id : ℕ) (c : XibridgeClient) (o : IsOpen w conn_id c)
      → request_of (λ k. create_close_request k c.dev_id) c
        ≡ some (o.kind, create_close_request o.kind c.dev_id)
  close_request conn_id c o =
      request_of-version (λ k. create_close_request k c.dev_id) c o.kind 0
        (drop 1 (create_close_request o.kind c.dev_id)) o.supported
        (close_request_head o.kind c.dev_id)
      ∙ ap (λ req. some (o.kind, req)) (sym (close_request_head o.kind c.dev_id))

  close_connection_device-disconnect :
      (conn_id : ℕ) (lib : Library N) (c : XibridgeClient) (o : IsOpen w conn_id c)
      → has_conn (keys lib.clients) conn_id ≡ true
      → (close_connection_device w (session_of w lib c)).0
        ≡ disconnect w (asked_to_close lib c o.kind).0
  unfolding close_connection_device
  close_connection_device-disconnect conn_id lib c o i =
      rw (connected_client conn_id lib c o i, close_request conn_id c o) refl

  disconnect-map :
      (conn_id : ℕ) (s : Session N) (done : Bool)
      → (conn_id == w.conn_id_invalid) ≡ false
      → s.client.conn_id ≡ conn_id
      → ((n : N) → w.alive n ≡ true)
      → ((n : N) → (w.disconnect conn_id n).0 ≡ done)
      → (disconnect w s).map ≡ (if done then erase s.map conn_id else s.map)
  unfolding disconnect helper_disconnect
  disconnect-map conn_id s done v e a d = rw (e, a s.net, v, d s.net) refl

  -- The map after a close: without the connection, if bindy's `disconnect` did not throw.
  pub close_connection_device-map :
      (conn_id : ℕ) (lib : Library N) (c : XibridgeClient) (done : Bool)
      → IsOpen w conn_id c
      → has_conn (keys lib.clients) conn_id ≡ true
      → ((n : N) → w.alive n ≡ true)
      → ((n : N) → (w.disconnect conn_id n).0 ≡ done)
      → (close_connection_device w (session_of w lib c)).0.map
        ≡ (if done then erase (keys lib.clients) conn_id else keys lib.clients)
  close_connection_device-map conn_id lib c done o i a d =
      ap (λ (s : Session N). s.map) (close_connection_device-disconnect conn_id lib c o i)
      ∙ disconnect-map conn_id (asked_to_close lib c o.kind).0 done o.valid
          (kept.same_conn ∙ o.same_conn) a d
      ∙ ap (λ m. if done then erase m conn_id else m) kept.same_map
    where
      kept : Keeps (clear w (session_of w lib c)) (asked_to_close lib c o.kind).0
      kept =
          exchange-Keeps w false closed o.kind (create_close_request o.kind c.dev_id)
            (clear w (session_of w lib c)) closed-KeepsClient

-- What a search finds once a number is gone, and where the entry of a deleted client stays.
pub get_client-kept_keys :
    (ks : List ℕ) (conn_id : ℕ) (es : Entries)
    → has_conn ks conn_id ≡ false
    → get_client conn_id (kept_keys ks es) ≡ none
get_client-kept_keys ks conn_id [] h = refl
get_client-kept_keys ks conn_id ((k, c) ∷ es) h = elim (Bool-cases (k == conn_id)) [
  | inl e ↦ rw (ap (has_conn ks) (==→eq k conn_id e) ∙ h) (get_client-kept_keys ks conn_id es h)
  | inr e ↦ elim (Bool-cases (has_conn ks k)) [
    | inl i ↦ rw (i, e) (get_client-kept_keys ks conn_id es h)
    | inr i ↦ rw i (get_client-kept_keys ks conn_id es h)
  ]
]

has_conn_later :
    (k conn_id : ℕ) (ks : List ℕ)
    → (k == conn_id) ≡ false
    → has_conn (k ∷ ks) conn_id ≡ has_conn ks conn_id
has_conn_later k conn_id ks e = rw e refl

pub get_client-deleted :
    (ks : List ℕ) (conn_id : ℕ) (es : Entries)
    → has_conn (keys es) conn_id ≡ true
    → has_conn ks conn_id ≡ true
    → get_client conn_id (kept_keys ks (set_client conn_id none es)) ≡ some none
get_client-deleted ks conn_id [] h i = absurd cc
get_client-deleted ks conn_id ((k, c) ∷ es) h i = elim (Bool-cases (k == conn_id)) [
  | inl e ↦ rw (e, ap (has_conn ks) (==→eq k conn_id e) ∙ i, e) refl
  | inr e ↦ elim (Bool-cases (has_conn ks k)) [
    | inl j ↦
        rw (e, j, e)
          (get_client-deleted ks conn_id es (sym (has_conn_later k conn_id (keys es) e) ∙ h) i)
    | inr j ↦
        rw (e, j)
          (get_client-deleted ks conn_id es (sym (has_conn_later k conn_id (keys es) e) ∙ h) i)
  ]
]
