-- ===== src/Client/Reading.antt =====
-- client/xibridge_client.cpp and client/bindy_helper.cpp: what else the library's interface does with a client that it found by
-- its connection number, and the end of a connection that bindy reports. Functions of a version are about its numbers
-- major, minor and bagfix.
use xibridge.Prelude.{
  ℕ, zero, suc, ◌≡◌, refl, ap, Bool, ◌&&◌, List, [], ◌∷◌, ◌++◌, if◌then◌else◌, ltb, leb, ◌==◌,
  length, take, drop, append-nil, Bool-cases, inl, inr,
}
use xibridge.Protocol.State.{err_no_protocol}
use xibridge.Client.{
  XibridgeClient, Network, Session, Sent, refused, accepted, default_proto_version, clr_errors,
  early, has_conn, erase,
}

unfoldable pub is_protocol_supported_version : ℕ × ℕ × ℕ → Bool
is_protocol_supported_version (major, minor, bagfix) =
    ltb 0 major && (leb major default_proto_version && (minor == 0 && bagfix == 0))

-- The error, and the new `_server_base_protocol_version`.
unfoldable pub xbc_set_base_protocol_version : ℕ × ℕ × ℕ → ℕ → ℕ × ℕ
xbc_set_base_protocol_version (major, minor, bagfix) base =
    if is_protocol_supported_version (major, minor, bagfix)
    then (0, major)
    else (err_no_protocol, base)

-- `xbc_read_connection_buffer`: the client, the error and the bytes copied.
unfoldable pub read_connection_buffer : ℕ → XibridgeClient → XibridgeClient × ℕ × List ℕ
read_connection_buffer size c =
    if leb (length c.recv_message) size
    then (record (clr_errors c) { recv_message = [] }, 0, c.recv_message)
    else (
      record (clr_errors c) { recv_message = drop size c.recv_message },
      0,
      take size c.recv_message,
    )

take-drop : (n : ℕ) (xs : List ℕ) → take n xs ++ drop n xs ≡ xs
take-drop zero xs = refl
take-drop (suc n) [] = refl
take-drop (suc n) (x ∷ xs) = ap (λ l. x ∷ l) (take-drop n xs)

-- Nothing of a message is lost or doubled by a read of any size: what is read and what is left are the message.
read_connection_buffer-whole :
    (size : ℕ) (c : XibridgeClient)
    → let (c', err, bytes) = read_connection_buffer size c in
      bytes ++ c'.recv_message ≡ c.recv_message
unfolding read_connection_buffer
read_connection_buffer-whole size c = elim (Bool-cases (leb (length c.recv_message) size)) [
  | inl b ↦ rw b (append-nil c.recv_message)
  | inr b ↦ rw b (take-drop size c.recv_message)
]

module _ {N : Type 0} (w : Network N) where
  abbrev pub after_write : Sent → Session N → Session N
  after_write refused s = s
  after_write (accepted first) s = record s { client = early first s.client }

  -- `xbc_write_connection`: the error is 0 also if nothing was sent, since the result of the call that
  -- sends is not used.
  unfoldable pub write_connection : List ℕ → Session N → Session N × ℕ
  write_connection bytes s =
      if has_conn s.map s.client.conn_id
      then (let (sent, net) = w.send s.client.conn_id bytes s.net in
          (after_write sent (record s { client = clr_errors s.client; net = net }), 0))
      else (record s { client = clr_errors s.client }, 0)

  unfoldable pub on_bindy_disconnect : ℕ → Session N → Session N
  on_bindy_disconnect conn_id s =
      if has_conn s.map conn_id
      then record s {
        client = record (s.client) { conn_id = w.conn_id_invalid };
        map = erase s.map conn_id;
      }
      else s
