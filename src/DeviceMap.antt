-- ===== src/DeviceMap.antt =====
-- server/mapdevidphnd.h and server/mapdevidphnd.cpp: class MapDevIdPHandle, the server's open devices and the
-- connections that use them.
-- Each method runs here from its start to its end; DeviceMap.Overlap has the steps and the mutexes of methods that
-- overlap. The map searches for a key that `operator <` puts neither below nor above the wanted one, as a
-- std::map does where that operator orders the keys: DeviceMap.Keys says where it does. The serial library is a parameter: `create` opens a
-- port, `send` exchanges a request for an answer. A handle is a number, and `none` the null pointer.
pub mod Keys
pub mod Open
pub mod Kept
pub mod Lost
pub mod Shared
pub mod Overlap
use xibridge.Prelude.{
  ℕ, ◌-◌, ◌^◌, Bool, true, false, not, ◌&&◌, ◌||◌, List, [], ◌∷◌, ◌++◌, Option, none, some,
  if◌then◌else◌, ◌==◌,
}
use xibridge.DevId.{DevId, dev_eq, dev_lt}
pub use xibridge.Serial.{
  XibResult, xib_result_ok, xib_result_error, xib_result_value_error, xib_result_nodevice,
  xib_result_timeout,
}

abbrev pub is_nodevice : XibResult → Bool
is_nodevice xib_result_nodevice = true
is_nodevice _ = false

abbrev pub uint32_max : ℕ
uint32_max = 2 ^ 32 - 1

-- DevId(conn_id_invalid)
abbrev pub dev_invalid : DevId
dev_invalid = record { id = 0; pid = 0; vid = 0; reserve = 0 }

-- The entries of the map, `_conns`, and the handles given to xib_com_device_destroy, the latest first.
pub record MapDevIdPHandle : Type 0 where
  pub devices : List (DevId × Option ℕ)
  pub conns : List (ℕ × DevId)
  pub destroyed : List ℕ

unfoldable pub same_key : DevId → DevId → Bool
same_key d e = not (dev_lt d e) && not (dev_lt e d)

-- `find`, `operator []` with an assignment, and `erase`, on keys that `operator <` orders.
abbrev pub find_device : List (DevId × Option ℕ) → DevId → Option (Option ℕ)
find_device [] d = none
find_device ((k, h) ∷ devices) d = if same_key k d then some h else find_device devices d

abbrev pub put_device : List (DevId × Option ℕ) → DevId → Option ℕ → List (DevId × Option ℕ)
put_device [] d g = (d, g) ∷ []
put_device ((k, h) ∷ devices) d g =
    if same_key k d then (k, g) ∷ devices else (k, h) ∷ put_device devices d g

abbrev pub erase_device : List (DevId × Option ℕ) → DevId → List (DevId × Option ℕ)
erase_device [] d = []
erase_device ((k, h) ∷ devices) d =
    if same_key k d then erase_device devices d else (k, h) ∷ erase_device devices d

-- `_is_actual_connection`, with the device that it writes.
abbrev pub find_conn : List (ℕ × DevId) → ℕ → Option DevId
find_conn [] conn_id = none
find_conn ((c, d) ∷ conns) conn_id = if c == conn_id then some d else find_conn conns conn_id

abbrev pub erase_conn : List (ℕ × DevId) → ℕ → List (ℕ × DevId)
erase_conn [] conn_id = []
erase_conn ((c, d) ∷ conns) conn_id =
    if c == conn_id then conns else (c, d) ∷ erase_conn conns conn_id

abbrev pub find_serial : List (ℕ × DevId) → DevId → Bool
find_serial [] d = false
find_serial ((c, e) ∷ conns) d = if dev_eq e d then true else find_serial conns d

-- The keys of the entries.
abbrev pub map_keys : List (DevId × Option ℕ) → List DevId
map_keys [] = []
map_keys ((k, h) ∷ devices) = k ∷ map_keys devices

-- `open_if_not` from the insertion of the device on, with what `create_device_h` returned.
unfoldable pub created : Option ℕ → ℕ → DevId → MapDevIdPHandle → MapDevIdPHandle × Bool
created none conn_id d t =
    (record t { devices = erase_device (put_device t.devices d none) d }, false)
created (some h) conn_id d t = (
  record t {
    devices = put_device (put_device t.devices d none) d (some h);
    conns = t.conns ++ (conn_id, d) ∷ [];
  },
  true,
)

unfoldable pub open_if_not :
    (DevId → Option ℕ) → ℕ → DevId → MapDevIdPHandle → MapDevIdPHandle × Bool
open_if_not create conn_id d t = elim (find_conn t.conns conn_id) [
  | some e ↦ (t, true)
  | none ↦ elim (find_device t.devices d) [
    | some h ↦ (record t { conns = t.conns ++ (conn_id, d) ∷ [] }, true)
    | none ↦ created (create d) conn_id d t
  ]
]

abbrev pub destroy_device_h : Option ℕ → List ℕ → List ℕ
destroy_device_h none hs = hs
destroy_device_h (some h) hs = h ∷ hs

-- `remove_conn_or_remove_device` behind the removal of the connection.
unfoldable pub release : DevId → Bool → MapDevIdPHandle → MapDevIdPHandle
release d force t = elim (find_device t.devices d) [
  | none ↦ t
  | some h ↦
      if force || not (find_serial t.conns d)
      then record t {
        devices = erase_device t.devices d;
        destroyed = destroy_device_h h t.destroyed;
      }
      else t
]

-- The device meant: the one named, or that of the connection.
abbrev pub devid_known : MapDevIdPHandle → ℕ → DevId → DevId
devid_known t conn_id d =
    if d.id == uint32_max
    then elim (find_conn t.conns conn_id) [ none ↦ dev_invalid | some e ↦ e ]
    else d

unfoldable pub remove_conn_or_remove_device : ℕ → DevId → Bool → MapDevIdPHandle → MapDevIdPHandle
remove_conn_or_remove_device conn_id d force t =
    if (devid_known t conn_id d).id == uint32_max
    then t
    else release (devid_known t conn_id d) force (record t { conns = erase_conn t.conns conn_id })

-- `send_request` of a handle: the result, and what the response buffer holds.
abbrev pub send_request :
    (ℕ → List ℕ → List ℕ → XibResult × List ℕ) → Option ℕ → List ℕ → List ℕ → XibResult × List ℕ
send_request send none request response = (xib_result_nodevice, response)
send_request send (some h) request response = send h request response

-- What `operation_send_request` does with the outcome.
abbrev pub after_send : DevId → XibResult → MapDevIdPHandle → MapDevIdPHandle
after_send d res t = if is_nodevice res then remove_conn_or_remove_device uint32_max d true t else t

unfoldable pub operation_send_request :
    (ℕ → List ℕ → List ℕ → XibResult × List ℕ)
    → DevId
    → List ℕ
    → List ℕ
    → MapDevIdPHandle
    → MapDevIdPHandle × XibResult × List ℕ
operation_send_request send d request response t = elim (find_device t.devices d) [
  | none ↦ (t, xib_result_nodevice, response)
  | some h ↦
      let (res, answer) = send_request send h request response in (after_send d res t, res, answer)
]
