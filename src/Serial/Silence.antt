-- ===== src/Serial/Silence.antt =====
-- A port at which nothing answers: its reads end after the time-out without an error and without a byte.
use xibridge.Prelude.{ℕ, suc, ◌≡◌, refl, List, [], ◌∷◌, Option, none, some, length}
use xibridge.Serial.{
  XibResult, xib_result_ok, transferred, SerialPort, Outcome, command_port_send,
  command_port_receive, receive, device_serial_send_request_base,
}

pub record SilentPort {P : Type 0} (port : SerialPort P) : Type 0 where
  pub put : List ℕ → P → P
  pub waited : P → P
  pub write_lem :
      (bs : List ℕ) (t : ℕ) (s : P) → port.write bs t s ≡ (transferred (length bs), put bs s)
  pub read_lem : (n t : ℕ) (s : P) → port.read n t s ≡ (transferred 0, [], waited s)

module _ {P : Type 0} (port : SerialPort P) (q : SilentPort port) where
  receive_silent :
      (f : ℕ) (buf : List ℕ) (s : P)
      → receive port (suc f) buf s ≡ some (xib_result_ok, buf, q.waited s)
  unfolding receive command_port_receive
  receive_silent f buf s = rw (q.read_lem (length buf) 500 s) refl

  abbrev pub result_and_response : Option (Outcome P) → Option (XibResult × List ℕ)
  result_and_response none = none
  result_and_response (some (result, response, s)) = some (result, response)

  -- A request to a device that never answers returns `xib_result_ok` with the caller's buffer as it was: nothing counts the
  -- bytes that a read stored.
  pub device_serial_send_request_base-silent :
      (f : ℕ) (request response : List ℕ) (s : P)
      → result_and_response (device_serial_send_request_base port (suc f) request response s)
        ≡ some (xib_result_ok, response)
  unfolding device_serial_send_request_base command_port_send
  device_serial_send_request_base-silent f [] [] s = refl
  device_serial_send_request_base-silent f [] (b ∷ response) s =
      rw (receive_silent f (b ∷ response) s) refl
  device_serial_send_request_base-silent f (a ∷ request) [] s =
      rw (q.write_lem (a ∷ request) 500 s) refl
  device_serial_send_request_base-silent f (a ∷ request) (b ∷ response) s =
      rw (q.write_lem (a ∷ request) 500 s, receive_silent f (b ∷ response) (q.put (a ∷ request) s))
        refl
