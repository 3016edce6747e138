-- ===== src/Tests/Serial.antt =====
-- A serial port that is a queue of bytes, and one that is silent.
use xibridge.Prelude.{
  ℕ, suc, ◌≡◌, ◌≢◌, refl, true, List, [], ◌∷◌, ◌++◌, some, arith, length, take, drop,
}
use xibridge.Serial.{
  transferred, xib_result_ok, xib_result_error, SerialPort, device_serial_send_request_base,
}
use xibridge.Serial.Crc.{get_crc, crc_bytes, shift_crc, add_byte}
use xibridge.Serial.Crc.Detection.{get_crc_detects}
use xibridge.Serial.Request.{urpc_device_serial_send_request}
use xibridge.Serial.Reliable.{ReliablePort}
use xibridge.Serial.Answered.{
  observed, result_of_request, urpc_device_serial_send_request-answered,
  urpc_device_serial_send_request-other,
}
use xibridge.Serial.Silence.{result_and_response, device_serial_send_request_base-silent}

check_sum : get_crc (49 ∷ 50 ∷ 51 ∷ 52 ∷ 53 ∷ 54 ∷ 55 ∷ 56 ∷ 57 ∷ []) ≡ 0x4B37
unfolding get_crc add_byte shift_crc
check_sum = refl

get_crc_detects_example : get_crc (7 ∷ 1 ∷ 9 ∷ []) ≢ get_crc (7 ∷ 3 ∷ 9 ∷ [])
get_crc_detects_example =
    get_crc_detects (7 ∷ []) (9 ∷ []) 1 3 (omega arith, tt) (omega arith, tt) (omega arith)
      (omega arith) (λ e. absurd (omega arith))

-- The bytes to come in and those that went out.
abbrev pub Queue : Type 0
Queue = List ℕ × List ℕ

abbrev pub queue : SerialPort Queue
queue = record {
  write = λ bs t s. (transferred (length bs), (s.0, s.1 ++ bs));
  read = λ n t s. (transferred n, take n s.0, (drop n s.0, s.1));
  flush = λ b s. (true, s);
  wallclock = λ s. (0, 0);
  msec_sleep = λ n s. s;
}

abbrev pub queue_is_reliable : ReliablePort queue
queue_is_reliable = record {
  incoming = λ s. s.0;
  outgoing = λ s. s.1;
  put = λ bs s. (s.0, s.1 ++ bs);
  got = λ n s. (drop n s.0, s.1);
  write_lem = λ bs t s. refl;
  incoming-put = λ bs s. refl;
  outgoing-put = λ bs s. refl;
  read_lem = λ n t s h. refl;
  incoming-got = λ n s. refl;
  outgoing-got = λ n s. refl;
}

-- Two zeroes, the identifier "gets", two bytes, a wrong check sum.
urpc_device_serial_send_request-answered_example :
    observed queue queue_is_reliable (
      urpc_device_serial_send_request queue 3
        (103 ∷ 101 ∷ 116 ∷ 115 ∷ [])
        (5 ∷ [])
        (0 ∷ 0 ∷ 0 ∷ 0 ∷ [])
        (0 ∷ 0 ∷ [])
        (0 ∷ 0 ∷ 103 ∷ 101 ∷ 116 ∷ 115 ∷ 8 ∷ 9 ∷ 1 ∷ 1 ∷ [], []))
    ≡ some (xib_result_ok, 8 ∷ 9 ∷ [], [], 103 ∷ 101 ∷ 116 ∷ 115 ∷ 5 ∷ crc_bytes (get_crc (5 ∷ [])))
urpc_device_serial_send_request-answered_example =
    urpc_device_serial_send_request-answered queue queue_is_reliable 2 0 0 0 0 0 103 101 116 115 0 1
      1 (5 ∷ []) (0 ∷ []) (8 ∷ 9 ∷ []) [] (0 ∷ 0 ∷ 103 ∷ 101 ∷ 116 ∷ 115 ∷ 8 ∷ 9 ∷ 1 ∷ 1 ∷ [], [])
      (λ e. absurd (omega arith)) refl refl refl refl

urpc_device_serial_send_request-other_example :
    result_of_request queue queue_is_reliable (
      urpc_device_serial_send_request queue 1
        (103 ∷ 101 ∷ 116 ∷ 115 ∷ [])
        []
        (0 ∷ 0 ∷ 0 ∷ 0 ∷ [])
        (4 ∷ [])
        (101 ∷ 114 ∷ 114 ∷ 100 ∷ [], []))
    ≡ some (xib_result_error, 4 ∷ [])
urpc_device_serial_send_request-other_example =
    urpc_device_serial_send_request-other queue queue_is_reliable 0 0 0 0 0 0 101 114 114 100
      (103 ∷ 101 ∷ 116 ∷ 115 ∷ []) [] (4 ∷ []) [] (101 ∷ 114 ∷ 114 ∷ 100 ∷ [], [])
      (λ e. absurd (omega arith)) refl refl

abbrev silent : SerialPort ℕ
silent = record {
  write = λ bs t s. (transferred (length bs), s);
  read = λ n t s. (transferred 0, [], suc s);
  flush = λ b s. (true, s);
  wallclock = λ s. (s, 0);
  msec_sleep = λ n s. s;
}

device_serial_send_request_base-silent_example :
    result_and_response silent
      (record {
        put = λ bs s. s;
        waited = λ s. suc s;
        write_lem = λ bs t s. refl;
        read_lem = λ n t s. refl;
      })
      (device_serial_send_request_base silent 1 (1 ∷ []) (6 ∷ 6 ∷ []) 0)
    ≡ some (xib_result_ok, 6 ∷ 6 ∷ [])
device_serial_send_request_base-silent_example =
    device_serial_send_request_base-silent silent
      (record {
        put = λ bs s. s;
        waited = λ s. suc s;
        write_lem = λ bs t s. refl;
        read_lem = λ n t s. refl;
      })
      0 (1 ∷ []) (6 ∷ 6 ∷ []) 0
