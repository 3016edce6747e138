-- ===== src/Tests/Server.antt =====
-- A server with one port, and a client that opens, uses and closes the device on it.
use xibridge.Prelude.{
  ◌≢◌, ℕ, ◌≡◌, ◌↔◌, refl, true, false, List, [], ◌∷◌, Option, none, some, arith, if◌then◌else◌,
  ◌==◌,
}
use xibridge.MBuf.{mbuf_of}
use xibridge.DevId.{DevId, IsDevId, dev_lt}
use xibridge.DeviceMap.{
  MapDevIdPHandle, XibResult, xib_result_ok, xib_result_nodevice, find_device, same_key, created,
  open_if_not, remove_conn_or_remove_device,
}
use xibridge.DeviceMap.Keys.{is_ordered}
use xibridge.DeviceMap.Open.{Tells, open_if_not-Tells}
use xibridge.DeviceMap.Kept.{
  all_open, open_call, remove_call, send_call, serve_all, serve_all-all_open,
}
use xibridge.DeviceMap.Shared.{remove_keeps_shared}
use xibridge.Protocol.V3.{
  create_open_request, create_close_request, create_cmd_request, create_open_response,
  create_close_response, create_cmd_response,
}
use xibridge.Protocol.Dispatch.{protocol3, get_data_from_bindy_callback}
use xibridge.Protocol.Answers.V3.{client}
use xibridge.Server.{World, callback_data, uint_of}
use xibridge.Server.Exchange.{
  takes_for_opened, takes_for_closed, open_exchange, close_exchange, cmd_exchange,
}
use xibridge.Tests.Devices.{motor}

-- The port of the motor opens, with handle 7, and answers any request with three bytes.
abbrev plug : DevId → Option ℕ
plug d = if d.id == 9 then some 7 else none

abbrev answers : ℕ → List ℕ → List ℕ → XibResult × List ℕ
answers h request response = (xib_result_ok, 5 ∷ 6 ∷ 7 ∷ [])

abbrev unplugged : ℕ → List ℕ → List ℕ → XibResult × List ℕ
unplugged h request response = (xib_result_nodevice, response)

abbrev pub lab : World
lab = record {
  create = plug;
  send = answers;
  urpc_send = λ cid. answers;
  enumerate_dev = motor ∷ [];
}

abbrev pub empty : MapDevIdPHandle
empty = record { devices = []; conns = []; destroyed = [] }

-- The motor is open, on connection 1.
abbrev pub in_use : MapDevIdPHandle
in_use = record { devices = (motor, some 7) ∷ []; conns = (1, motor) ∷ []; destroyed = [] }

pub motor-IsDevId : IsDevId motor
motor-IsDevId = ground arith

pub motor_found : find_device in_use.devices motor ≡ some (some 7)
unfolding same_key dev_lt
motor_found = refl

opens : open_if_not plug 1 motor empty ≡ (in_use, true)
unfolding open_if_not created same_key dev_lt
opens = refl

open_if_not-Tells_example : Tells 1 motor (open_if_not plug 1 motor empty)
unfolding is_ordered dev_lt
open_if_not-Tells_example = open_if_not-Tells plug 1 motor empty refl refl

-- Another device of the same maker and model.
abbrev second_motor : DevId
second_motor = record motor { id = 10 }

serve_all-all_open_example :
    all_open
      (serve_all
        (open_call plug 2 second_motor
          ∷ send_call unplugged motor [] []
          ∷ remove_call 1 motor false
          ∷ [])
        in_use).devices
    ≡ true
unfolding is_ordered dev_lt
serve_all-all_open_example =
    serve_all-all_open
      (open_call plug 2 second_motor
        ∷ send_call unplugged motor [] []
        ∷ remove_call 1 motor false
        ∷ [])
      in_use refl refl

-- Three devices that `operator <` does not order: each of the first two is below the other.
unordered :
    is_ordered (
      record { id = 2; pid = 2; vid = 1; reserve = 0 }
      ∷ record { id = 3; pid = 3; vid = 1; reserve = 0 }
      ∷ record { id = 3; pid = 1; vid = 1; reserve = 0 }
      ∷ [])
    ≡ false
unfolding is_ordered dev_lt
unordered = refl

open_exchange_example :
    (callback_data lab 1 (create_open_request motor) 77 empty
      ≡ some (
        (open_if_not plug 1 motor empty).0,
        create_open_response motor (uint_of (open_if_not plug 1 motor empty).1) ∷ [],
      ))
    × ((takes_for_opened (create_open_response motor (uint_of (open_if_not plug 1 motor empty).1))
          ≡ true)
        ↔ ((open_if_not plug 1 motor empty).1 ≡ true))
open_exchange_example = open_exchange lab 1 77 motor empty motor-IsDevId

close_exchange_example :
    (callback_data lab 1 (create_close_request motor) 77 in_use
      ≡ some
          (remove_conn_or_remove_device 1 motor false in_use, create_close_response motor 0 ∷ []))
    × (takes_for_closed (create_close_response motor 0) ≡ false)
close_exchange_example = close_exchange lab 1 77 motor in_use motor-IsDevId

cmd_exchange_example :
    (callback_data lab 1 (create_cmd_request motor (some (1 ∷ 2 ∷ [])) 3) 77 in_use
      ≡ some (in_use, create_cmd_response motor (some (5 ∷ 6 ∷ 7 ∷ [])) ∷ []))
    × ((get_data_from_bindy_callback protocol3
          (mbuf_of (create_cmd_response motor (some (5 ∷ 6 ∷ 7 ∷ []))) true)
          (client 0 0)).data_out
        ≡ 5 ∷ 6 ∷ 7 ∷ [])
cmd_exchange_example =
    cmd_exchange lab 1 77 3 7 motor (1 ∷ 2 ∷ []) (5 ∷ 6 ∷ 7 ∷ []) in_use motor-IsDevId (omega arith)
      (omega arith) (omega arith) motor_found refl

-- The motor is open, on connections 1 and 2.
abbrev both_use : MapDevIdPHandle
both_use = record {
  devices = (motor, some 7) ∷ [];
  conns = (1, motor) ∷ (2, motor) ∷ [];
  destroyed = [];
}

one_not_two : ◌≢◌ {A = ℕ} 1 2
one_not_two = omega arith

remove_keeps_shared_example :
    remove_conn_or_remove_device 1 motor false both_use
    ≡ record both_use { conns = (2, motor) ∷ [] }
remove_keeps_shared_example = remove_keeps_shared both_use 1 2 motor (omega arith) one_not_two refl

-- The motor under another value of the field reserve.
abbrev twin : DevId
twin = record motor { reserve = 1 }

abbrev twins_use : MapDevIdPHandle
twins_use = record {
  devices = (motor, some 7) ∷ [];
  conns = (1, motor) ∷ (2, twin) ∷ [];
  destroyed = [];
}
