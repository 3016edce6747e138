-- ===== src/Tests/System.antt =====
-- The motor of Tests/Server behind a serial line, and requests that overlap.
use xibridge.Prelude.{
  ℕ, ◌≡◌, refl, true, false, List, [], ◌∷◌, Option, none, some, arith, replicate,
}
use xibridge.DevId.{DevId, dev_lt}
use xibridge.DeviceMap.{
  XibResult, xib_result_ok, xib_result_error, find_device, find_conn, same_key,
}
use xibridge.DeviceMap.Overlap.{
  Sys, Place, waiting, closing, inserting, queued, no_mutex, add_mutex, outside, waiting, inside,
  lost, answered, request, sending, thread, Reach, here, next,
}
use xibridge.DeviceMap.Overlap.Nothing.{free, busy, in_table, promised, opened_nothing}
use xibridge.Server.{World}
use xibridge.Client.{XibridgeClient}
use xibridge.Client.Calls.{request_response}
use xibridge.Client.Line.{line, joined}
use xibridge.Client.Whole.{server_peer}
use xibridge.Serial.{Outcome}
use xibridge.Serial.Request.{xib_com_device_send_request}
use xibridge.System.Command.{IsSerial, request_response-serial}
use xibridge.Tests.Devices.{motor}
use xibridge.Tests.Server.{lab, in_use, motor-IsDevId, motor_found}
use xibridge.Tests.Serial.{Queue, queue, queue_is_reliable}

-- The line of every handle has three bytes to come in.
abbrev plugged : ℕ → Queue
plugged h = (5 ∷ 6 ∷ 7 ∷ [], [])

abbrev told : List ℕ → Option (Outcome (Option Queue)) → XibResult × List ℕ
told response none = (xib_result_error, response)
told response (some (res, bytes, s)) = (res, bytes)

abbrev wired : World
wired = record lab {
  send = λ h request response.
      told response (xib_com_device_send_request queue 1 request response (some (plugged h)));
}

wired-IsSerial : IsSerial wired queue 1 plugged
wired-IsSerial = record { send_lem = λ h request response o e. rw e refl }

abbrev third : XibridgeClient
third = record {
  server_protocol_version = 3;
  conn_id = 0;
  dev_id = motor;
  recv_message = [];
  is_really_recv = false;
  last_error = 0;
}

request_response-serial_example :
    let (s, err, response) =
      request_response
        (line (server_peer wired 77))
        (1 ∷ 2 ∷ [])
        3
        (joined (server_peer wired 77) third 1 in_use) in
    let got : Queue = ([], 1 ∷ 2 ∷ []) in
    (err ≡ 0)
    × (response ≡ 5 ∷ 6 ∷ 7 ∷ [])
    × (s.net.state ≡ in_use)
    × (xib_com_device_send_request queue 1 (1 ∷ 2 ∷ []) (replicate 3 0) (some (plugged 7))
        ≡ some (xib_result_ok, 5 ∷ 6 ∷ 7 ∷ [], some got))
    × (got.0 ≡ [])
    × (got.1 ≡ 1 ∷ 2 ∷ [])
request_response-serial_example =
    request_response-serial queue queue_is_reliable 0 plugged wired 77 third 0 3 7 (1 ∷ 2 ∷ [])
      (5 ∷ 6 ∷ 7 ∷ []) [] in_use wired-IsSerial refl motor-IsDevId (omega arith) (omega arith) refl
      motor_found refl

-- Three threads at the motor, opened on connection 1.
abbrev three_threads : Sys
three_threads = free motor (in_table motor 7 1 2) (outside ∷ outside ∷ outside ∷ [])

abbrev opened_meanwhile : Sys
opened_meanwhile = free motor (promised motor 7 1 2) (lost motor ∷ outside ∷ answered true ∷ [])

opened_nothing_example :
    Reach (motor ∷ []) three_threads opened_meanwhile
    × (find_device opened_meanwhile.shared.table.devices motor ≡ some none)
    × (find_conn opened_meanwhile.shared.table.conns 2 ≡ some motor)
opened_nothing_example = opened_nothing motor 7 1 2 (omega arith)

-- A thread that sends a request while another one asks to close the device.
abbrev two_threads : Sys
two_threads = free motor (in_table motor 7 1 2) (outside ∷ outside ∷ [])

abbrev at_work : Sys
at_work = busy motor (in_table motor 7 1 2) (inside motor (sending (some 7)) ∷ outside ∷ [])

-- Two threads that both find no mutex for the motor come to wait for one.
abbrev racing : List DevId → Place → Place → Sys
racing pool p q = record {
  shared = record { table = in_table motor 7 1 2; pool = pool; locked = [] };
  threads = p ∷ q ∷ [];
}

one_for_both :
    Reach
      (motor ∷ [])
      (racing [] (waiting motor request) (waiting motor (closing 1 false)))
      (racing (motor ∷ []) (queued motor motor request) (queued motor motor (closing 1 false)))
unfolding same_key dev_lt
one_for_both =
    next
      (next
        (next
          (next here (
            thread [] (waiting motor (closing 1 false) ∷ []) (waiting motor request)
              (inserting motor request) (racing [] outside outside).shared refl
              (no_mutex motor request refl refl refl refl) refl))
          (thread (inserting motor request ∷ []) [] (waiting motor (closing 1 false))
            (inserting motor (closing 1 false)) (racing [] outside outside).shared refl
            (no_mutex motor (closing 1 false) refl refl refl refl) refl))
        (thread [] (inserting motor (closing 1 false) ∷ []) (inserting motor request)
          (queued motor motor request) (racing (motor ∷ []) outside outside).shared refl
          (add_mutex motor motor request refl refl refl refl) refl))
      (thread (queued motor motor request ∷ []) [] (inserting motor (closing 1 false))
        (queued motor motor (closing 1 false)) (racing (motor ∷ []) outside outside).shared refl
        (add_mutex motor motor (closing 1 false) refl refl refl refl) refl)
