-- ===== src/Serial.antt =====
-- server/xib-serial/devserial.c, server/xib-serial/xib_com.c, server/xib-serial/xib_com.h: requests to a device at a
-- serial port. The serial port library and the clock are a parameter, `SerialPort`, with a state of its own.
-- `none` is a call that has not returned after `f` rounds of a loop.
pub mod Crc
pub mod Request
pub mod Reliable
pub mod Answered
pub mod Silence
pub mod Opening
use xibridge.Prelude.{
  ℕ, zero, suc, ◌-◌, ◌+◌, ◌*◌, Bool, true, false, List, [], ◌∷◌, ◌++◌, Option, none, some,
  if◌then◌else◌, ltb, ◌==◌, length, take, replicate, same_bytes,
}
use xibridge.Serial.Crc.{get_crc, crc_bytes}

abbrev port_timeout_ms : ℕ
port_timeout_ms = 500

abbrev pub zerosync_trigger_timeout : ℕ
zerosync_trigger_timeout = 10000

abbrev zerosync_retry_count : ℕ
zerosync_retry_count = 4

abbrev zerosync_retry_delay : ℕ
zerosync_retry_delay = 200

abbrev zerosync_burst_size : ℕ
zerosync_burst_size = 64

pub data XibResult : Type 0 where
  xib_result_ok : XibResult
  xib_result_error : XibResult
  xib_result_value_error : XibResult
  xib_result_nodevice : XibResult
  xib_result_timeout : XibResult

-- What a blocking call of libserialport returns: the number of bytes, which is less than asked for when the
-- time is over, `SP_ERR_FAIL`, or another error.
pub data SpReturn : Type 0 where
  transferred : ℕ → SpReturn
  sp_err_fail : SpReturn
  sp_err_other : SpReturn

pub data SpBuffer : Type 0 where
  sp_buf_input : SpBuffer
  sp_buf_output : SpBuffer
  sp_buf_both : SpBuffer

-- `write bytes timeout`, `read count timeout` with the bytes it stored, `flush` with whether it is
-- `SP_OK`, `wallclock` in seconds and milliseconds.
pub record SerialPort (P : Type 0) : Type 0 where
  pub write : List ℕ → ℕ → P → SpReturn × P
  pub read : ℕ → ℕ → P → SpReturn × List ℕ × P
  pub flush : SpBuffer → P → Bool × P
  pub wallclock : P → ℕ × ℕ
  pub msec_sleep : ℕ → P → P

-- What a call leaves: its result, the caller's buffer, the port.
abbrev pub Outcome : Type 0 → Type 0
Outcome P = XibResult × List ℕ × P

abbrev pub is_ok : XibResult → Bool
is_ok xib_result_ok = true
is_ok _ = false

abbrev pub is_timeout : XibResult → Bool
is_timeout xib_result_timeout = true
is_timeout _ = false

-- The bytes of a list stored from the start of a buffer.
abbrev pub store_bytes : List ℕ → List ℕ → List ℕ
store_bytes [] buf = buf
store_bytes (b ∷ bs) [] = []
store_bytes (b ∷ bs) (c ∷ buf) = b ∷ store_bytes bs buf

abbrev pub errv_cid : List ℕ
errv_cid = 101 ∷ 114 ∷ 114 ∷ 118 ∷ []

abbrev pub errd_cid : List ℕ
errd_cid = 101 ∷ 114 ∷ 114 ∷ 100 ∷ []

-- A negative difference becomes 0. The source's `int` holds what is below 24 days.
unfoldable pub wallclock_diff : ℕ × ℕ → ℕ × ℕ → ℕ
wallclock_diff (sec_beg, msec_beg) (sec_end, msec_end) =
    (if ltb sec_beg sec_end then sec_end - sec_beg else 0) * 1000 + msec_end - msec_beg

abbrev pub keep_it : List ℕ → List ℕ
keep_it buf = buf

module _ {P : Type 0} (port : SerialPort P) where
  abbrev pub flushed : SpBuffer → P → XibResult × P
  flushed buffer s =
      let (done, s₁) = port.flush buffer s in
      (if done then xib_result_timeout else xib_result_nodevice, s₁)

  abbrev pub result_of : SpBuffer → SpReturn → P → XibResult × P
  result_of buffer (transferred n) s = (xib_result_ok, s)
  result_of buffer sp_err_fail s = (xib_result_nodevice, s)
  result_of buffer sp_err_other s = flushed buffer s

  unfoldable pub command_port_send : List ℕ → P → XibResult × P
  command_port_send command s =
      let (result, s₁) = port.write command port_timeout_ms s in result_of sp_buf_output result s₁

  unfoldable pub command_port_receive : List ℕ → P → Outcome P
  command_port_receive response s =
      let (result, bytes, s₁) = port.read (length response) port_timeout_ms s in
      let (r, s₂) = result_of sp_buf_input result s₁ in (r, store_bytes bytes response, s₂)

  -- The loop that waits for a zero; true is success, which the source writes 0.
  abbrev pub await_zero : ℕ → List ℕ → P → Bool × P
  await_zero zero zeroes s = (false, s)
  await_zero (suc received) zeroes s =
      let (r, zeroes', s₁) = command_port_receive (take 1 zeroes) s in
      let rest = await_zero received zeroes' s₁ in
      if is_ok r then (if same_bytes zeroes' (0 ∷ []) then (true, s₁) else rest) else (false, s₁)

  unfoldable pub send_synchronization_zeroes : P → Bool × P
  send_synchronization_zeroes s =
      let (r, s₁) = command_port_send (replicate zerosync_burst_size 0) s in
      if is_ok r
      then await_zero zerosync_burst_size (replicate zerosync_burst_size 0) s₁
      else (false, s₁)

  abbrev pub attempts : ℕ → P → Bool × P
  attempts zero s = (false, s)
  attempts (suc retry_counter) s =
      let (done, s₁) = send_synchronization_zeroes s in
      let rest = attempts retry_counter s₁ in if done then (true, s₁) else rest

  unfoldable pub zerosync : P → Bool × P
  zerosync s = attempts zerosync_retry_count s

  -- After the last time-out.
  unfoldable pub give_up : List ℕ → P → Outcome P
  give_up response s =
      let (done, s₁) = zerosync s in
      (if done then xib_result_ok else xib_result_nodevice, response, s₁)

  -- The pause after a read that timed out: `sec_prev` and `msec_prev` are always those of the beginning.
  abbrev pub pause : ℕ × ℕ → P → P
  pause beg s =
      if ltb (wallclock_diff beg (port.wallclock s)) zerosync_retry_delay
      then port.msec_sleep zerosync_retry_delay s
      else s

  abbrev pub receive_loop : ℕ → ℕ × ℕ → List ℕ → P → Option (Outcome P)
  receive_loop zero beg response s = none
  receive_loop (suc f) beg response s =
      let (r, response', s₁) = command_port_receive response s in
      let delta_time = wallclock_diff beg (port.wallclock s₁) in
      let rest = receive_loop f beg response' (pause beg s₁) in
      if is_timeout r
      then (if ltb delta_time zerosync_trigger_timeout
          then rest
          else some (give_up response' (pause beg s₁)))
      else some (r, response', s₁)

  unfoldable pub receive : ℕ → List ℕ → P → Option (Outcome P)
  receive f response s = receive_loop f (port.wallclock s) response s

  -- The early return after a send that failed.
  abbrev pub if_sent : List ℕ → XibResult × P → (P → Option (Outcome P)) → Option (Outcome P)
  if_sent response (r, s) next = if is_ok r then next s else some (r, response, s)

  -- The early return after a receive that failed; `keep` makes the caller's buffer of the one received into.
  abbrev pub if_received :
      (List ℕ → List ℕ)
      → Option (Outcome P)
      → (List ℕ → P → Option (Outcome P))
      → Option (Outcome P)
  if_received keep none next = none
  if_received keep (some (r, buf, s)) next = if is_ok r then next buf s else some (r, keep buf, s)

  -- A request of no bytes is not sent, a response of no bytes is not received.
  abbrev pub send_unless_empty : List ℕ → List ℕ → P → (P → Option (Outcome P)) → Option (Outcome P)
  send_unless_empty [] response s next = next s
  send_unless_empty (b ∷ bs) response s next = if_sent response (command_port_send (b ∷ bs) s) next

  abbrev pub receive_unless_empty : ℕ → List ℕ → P → Option (Outcome P)
  receive_unless_empty f [] s = some (xib_result_ok, [], s)
  receive_unless_empty f (b ∷ bs) s =
      if_received keep_it (receive f (b ∷ bs) s) (λ buf s₁. some (xib_result_ok, buf, s₁))

  unfoldable pub device_serial_send_request_base : ℕ → List ℕ → List ℕ → P → Option (Outcome P)
  device_serial_send_request_base f request response s =
      send_unless_empty request response s (λ s₁. receive_unless_empty f response s₁)
