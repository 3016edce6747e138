-- ===== src/Serial/Request.antt =====
-- server/xib-serial/devserial.c: urpc_device_serial_send_request, a request with an identifier and a check sum.
use xibridge.Prelude.{
  same_bytes, ℕ, zero, suc, List, [], ◌∷◌, ◌++◌, Option, none, some, if◌then◌else◌, ◌==◌, take,
  drop,
}
use xibridge.Serial.{
  XibResult, xib_result_ok, xib_result_error, xib_result_value_error, xib_result_nodevice,
  SerialPort, Outcome, sp_buf_both, errv_cid, errd_cid, command_port_send, zerosync, receive,
  if_sent, if_received, keep_it, device_serial_send_request_base,
}
use xibridge.Serial.Crc.{get_crc, crc_bytes}

abbrev pub first_byte : List ℕ → ℕ
first_byte [] = 0
first_byte (b ∷ bs) = b

-- The check sum of the response. Whatever the test says, the result is `xib_result_ok`, as in the source: it compares
-- the check sum received with that of the first two bytes of the response.
abbrev pub check_crc : List ℕ → List ℕ → XibResult
check_crc crc response =
    if same_bytes crc (crc_bytes (get_crc (take 2 response))) then xib_result_ok else xib_result_ok

module _ {P : Type 0} (port : SerialPort P) where
  -- The request and its check sum, if there is a request.
  abbrev pub send_body : List ℕ → List ℕ → P → (P → Option (Outcome P)) → Option (Outcome P)
  send_body [] response s next = next s
  send_body (b ∷ bs) response s next =
      if_sent port response (command_port_send port (b ∷ bs) s) (λ s₁.
        if_sent port response (command_port_send port (crc_bytes (get_crc (b ∷ bs))) s₁) next)

  -- Reads the first byte until it is not zero. The buffer is that byte.
  abbrev pub first_nonzero : ℕ → ℕ → List ℕ → P → Option (Outcome P)
  first_nonzero zero fuel cid s = none
  first_nonzero (suc f) fuel cid s = if_received port keep_it (receive port fuel cid s) (λ got s₁.
      let rest = first_nonzero f fuel got s₁ in
      if first_byte got == 0 then rest else some (xib_result_ok, got, s₁))

  abbrev pub flush_both : XibResult → List ℕ → P → Outcome P
  flush_both r response s = (r, response, (port.flush sp_buf_both s).1)

  unfoldable pub receive_body : ℕ → List ℕ → P → Option (Outcome P)
  receive_body fuel [] s = some (xib_result_ok, [], s)
  receive_body fuel (b ∷ bs) s =
      if_received port keep_it (receive port fuel (b ∷ bs) s) (λ response s₁.
        if_received port (λ crc. response) (receive port fuel (0 ∷ 0 ∷ []) s₁)
          (λ crc s₂. some (check_crc crc response, response, s₂)))

  -- What follows once the four bytes of the identifier are received.
  unfoldable pub dispatch : ℕ → List ℕ → List ℕ → List ℕ → P → Option (Outcome P)
  dispatch fuel request_cid response cid s =
      if same_bytes errv_cid cid
      then some (flush_both xib_result_value_error response s)
      else if same_bytes errd_cid cid
      then some (flush_both xib_result_error response (zerosync port s).1)
      else if same_bytes request_cid cid
      then receive_body fuel response s
      else some (flush_both xib_result_error response (zerosync port s).1)

  -- `response_cid` is the identifier's buffer, which the source does not initialise.
  unfoldable pub receive_answer : ℕ → List ℕ → List ℕ → List ℕ → P → Option (Outcome P)
  receive_answer fuel request_cid response_cid response s =
      if_received port (λ got. response) (first_nonzero fuel fuel (take 1 response_cid) s)
        (λ first s₁.
          if_received port (λ got. response) (receive port fuel (drop 1 response_cid) s₁)
            (λ others s₂. dispatch fuel request_cid response (first ++ others) s₂))

  unfoldable pub urpc_device_serial_send_request :
      ℕ → List ℕ → List ℕ → List ℕ → List ℕ → P → Option (Outcome P)
  urpc_device_serial_send_request fuel request_cid request response_cid response s =
      if_sent port response (command_port_send port request_cid s) (λ s₁.
        send_body request response s₁
          (λ s₂. receive_answer fuel request_cid response_cid response s₂))

  -- xib_com.c: a null handle is no device.
  abbrev pub still_open : Option (Outcome P) → Option (Outcome (Option P))
  still_open none = none
  still_open (some (r, buf, s)) = some (r, buf, some s)

  abbrev pub with_handle :
      List ℕ → Option P → (P → Option (Outcome P)) → Option (Outcome (Option P))
  with_handle response none request = some (xib_result_nodevice, response, none)
  with_handle response (some s) request = still_open (request s)

  unfoldable pub urpc_device_send_request :
      ℕ → List ℕ → List ℕ → List ℕ → List ℕ → Option P → Option (Outcome (Option P))
  urpc_device_send_request fuel cid request response_cid response device =
      with_handle response device
        (λ s. urpc_device_serial_send_request fuel cid request response_cid response s)

  unfoldable pub xib_com_device_send_request :
      ℕ → List ℕ → List ℕ → Option P → Option (Outcome (Option P))
  xib_com_device_send_request fuel request response device =
      with_handle response device
        (λ s. device_serial_send_request_base port fuel request response s)
