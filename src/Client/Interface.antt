-- ===== src/Client/Interface.antt =====
-- client/xibridge.cpp: the functions of the library's interface that open a device, list the devices of a
-- server and ask for its version.
use xibridge.Prelude.{
  ℕ, zero, suc, Bool, false, not, ◌||◌, List, Option, none, some, if◌then◌else◌, ◌==◌,
}
use xibridge.Protocol.State.{err_no_protocol, err_recv_timeout, err_another_protocol}
use xibridge.Client.{
  Network, Session, default_proto_version, decrement_server_protocol_version, open_connection,
  disconnect,
}
use xibridge.Client.Calls.{clear, open_device, exec_version_request, exec_enumerate}

module _ {N : Type 0} (w : Network N) where
  -- The loop of `xibridge_open_device_connection` and of `xibridge_enumerate_adapter_devices`, which
  -- differ in what is asked and in the errors after which another version is tried. The outcome is
  -- `none` if there is no connection (`label_noconn`), and else the error and what was found.
  abbrev pub second_chance {ℓ} :
      {A : Type ℓ} → (Session N → Session N × A) → Session N → Session N × Option (ℕ × A)
  second_chance act s =
      let (s₁, ok) = open_connection w (disconnect w (clear w s)) in
      let (s₂, a) = act s₁ in if ok then (s₂, some (s₂.client.last_error, a)) else (s₁, none)

  abbrev pub older : Session N → Session N
  older s = disconnect w (record s { client = decrement_server_protocol_version s.client })

  unfoldable pub rounds {ℓ} :
      {A : Type ℓ}
      → (Session N → Session N × A)
      → (ℕ → Bool)
      → ℕ
      → ℕ × A
      → Session N
      → Session N × Option (ℕ × A)
  rounds act retry zero last s = (s, some last)
  rounds act retry (suc ncount) last s =
      let (s₁, ok) = open_connection w s in
      let (s₂, a) = act (clear w s₁) in
      let err = s₂.client.last_error in
      let rest = rounds act retry ncount (err, a) (older s₂) in
      if not ok
      then (s₁, none)
      else if err == err_another_protocol
      then second_chance act s₂
      else if retry err
      then rest
      else (s₂, some (err, a))

  -- The error returned, and the connection written to `*pconn`.
  abbrev pub finish_open : Session N × Option (ℕ × Bool) → Session N × ℕ × Option ℕ
  finish_open (s, none) = (s, s.client.last_error, none)
  finish_open (s, some (err, done)) =
      if err == 0 then (s, err, some s.client.conn_id) else (disconnect w s, err, none)

  unfoldable pub xibridge_open_device_connection : Session N → Session N × ℕ × Option ℕ
  xibridge_open_device_connection s =
      finish_open
        (rounds (open_device w) (λ err. err == err_recv_timeout) default_proto_version (0, false) s)

  abbrev pub finish_enumerate :
      Session N × Option (ℕ × Option (ℕ × List ℕ)) → Session N × ℕ × Option (ℕ × List ℕ)
  finish_enumerate (s, none) = (s, s.client.last_error, none)
  finish_enumerate (s, some (err, found)) = (disconnect w s, err, found)

  unfoldable pub xibridge_enumerate_adapter_devices :
      Session N → Session N × ℕ × Option (ℕ × List ℕ)
  xibridge_enumerate_adapter_devices s = finish_enumerate (
      rounds (exec_enumerate w) (λ err. err == err_recv_timeout || err == err_no_protocol)
        default_proto_version (0, none) s)

  unfoldable pub xibridge_get_server_last_protocol_version : Session N → Session N × ℕ × Option ℕ
  xibridge_get_server_last_protocol_version s =
      let (s₁, ok) = open_connection w s in
      let (s₂, version) = exec_version_request w s₁ in
      if ok
      then (disconnect w s₂, s₂.client.last_error, version)
      else (s₁, s₁.client.last_error, none)
