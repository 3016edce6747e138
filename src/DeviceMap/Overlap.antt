-- ===== src/DeviceMap/Overlap.antt =====
-- server/mapdevidphnd.cpp: the methods of MapDevIdPHandle as they overlap in several threads, in steps. A thread looks for
-- the mutex of its device in the pool and adds it where it is not there (`lock_create_device_mutex`), takes it, works, and
-- gives it back (`unlock_device_mutex`). A stretch under the lock of the table or of the pool is one step, and so are the
-- calls of the serial library. What that library gives is any `Outcome`. The two searches of `unlock_device_mutex` are one.
-- The table and the pool are maps on keys that `operator <` orders.
pub mod Mutex
pub mod Counting
pub mod Exclusion
pub mod Steady
pub mod Handle
pub mod Nothing
use xibridge.Prelude.{
  ℕ, ◌+◌, ◌≡◌, Bool, true, false, not, ◌||◌, List, [], ◌∷◌, ◌++◌, Option, none, some, if◌then◌else◌,
  ◌==◌,
}
use xibridge.DevId.{DevId, dev_eq}
use xibridge.DeviceMap.{
  MapDevIdPHandle, XibResult, xib_result_nodevice, is_nodevice, same_key, find_device, put_device,
  erase_device, find_conn, erase_conn, find_serial, devid_known, uint32_max, destroy_device_h,
}

-- The methods behind their first look at the table: `operation_send_request` (or `urpc_operation_send_request`),
-- `open_if_not` and `remove_conn_or_remove_device`.
pub data Job : Type 0 where
  request : Job
  opening : (conn_id : ℕ) → Job
  closing : (conn_id : ℕ) (force : Bool) → Job

-- How far a thread got that holds the mutex of a device.
pub data Work : Type 0 where
  start : Job → Work
  sending : Option ℕ → Work
  sent : XibResult → Work
  creating : (conn_id : ℕ) → Work
  recording : (conn_id : ℕ) → Option ℕ → Work
  opened : Bool → Work
  deciding : (force : Bool) → Work
  destroying : Work
  erasing : Work
  closed : Work

-- Where a thread stands. `lost` is behind a request that told that there is no device; `answered` is what `open_if_not`
-- returns. A thread that waits looks for the mutex of its device in the pool; where it found none it goes on to insert one,
-- and then it is queued at the mutex that it has, which is named by the key of its entry.
pub data Place : Type 0 where
  outside : Place
  waiting : DevId → Job → Place
  inserting : DevId → Job → Place
  queued : DevId → DevId → Job → Place
  inside : DevId → Work → Place
  lost : DevId → Place
  answered : Bool → Place

-- The table, the keys of `_mutex_pool`, and the mutexes that are locked.
pub record Shared : Type 0 where
  pub table : MapDevIdPHandle
  pub pool : List DevId
  pub locked : List DevId

pub record Sys : Type 0 where
  pub shared : Shared
  pub threads : List Place

-- What `send_request` and `create_device_h` give.
pub record Outcome : Type 0 where
  pub answer : XibResult
  pub handle : Option ℕ

-- Whether a thread is between taking the mutex of a device and giving it back.
abbrev pub holds : DevId → Place → Bool
holds d (inside e w) = same_key e d
holds d _ = false

abbrev pub holders : DevId → List Place → ℕ
holders d [] = 0
holders d (p ∷ ps) = (if holds d p then 1 else 0) + holders d ps

-- The pool's map: `find`, with the key of the entry found, and the insertion by `operator []`.
abbrev pub find_key : List DevId → DevId → Option DevId
find_key [] d = none
find_key (k ∷ pool) d = if same_key k d then some k else find_key pool d

abbrev pub with_key : Option DevId → DevId → List DevId → List DevId
with_key none d pool = pool ++ d ∷ []
with_key (some k) d pool = pool

-- The lock of a mutex: a thread waits while it is locked.
abbrev pub is_locked : DevId → List DevId → Bool
is_locked k [] = false
is_locked k (j ∷ locked) = same_key j k || is_locked k locked

abbrev pub taken : DevId → List DevId → List DevId
taken k locked = k ∷ locked

abbrev pub without : DevId → List DevId → List DevId
without k [] = []
without k (j ∷ locked) = let rest = without k locked in if same_key j k then rest else j ∷ rest

-- `unlock_device_mutex`, which does nothing for a device without a mutex.
abbrev pub given_back : Option DevId → List DevId → List DevId
given_back none locked = locked
given_back (some k) locked = without k locked

abbrev pub is_named : DevId → List DevId → Bool
is_named d [] = false
is_named d (e ∷ ds) = if dev_eq e d then true else is_named d ds

-- `(*this)[devid]`: a device that is not there gets an entry with a null handle.
abbrev pub handle_of : Option (Option ℕ) → Option ℕ
handle_of none = none
handle_of (some h) = h

abbrev pub touched : Option (Option ℕ) → DevId → MapDevIdPHandle → MapDevIdPHandle
touched none d t = record t { devices = put_device t.devices d none }
touched (some h) d t = t

abbrev pub with_conn : ℕ → DevId → MapDevIdPHandle → MapDevIdPHandle
with_conn conn_id d t = record t { conns = t.conns ++ (conn_id, d) ∷ [] }

-- `open_if_not` on what it found.
abbrev pub open_found : ℕ → DevId → Option (Option ℕ) → MapDevIdPHandle → Work × MapDevIdPHandle
open_found conn_id d (some h) t = (opened true, with_conn conn_id d t)
open_found conn_id d none t = (creating conn_id, record t { devices = put_device t.devices d none })

-- An entry that is left with a null handle is erased.
abbrev pub drop_null : Option ℕ → DevId → MapDevIdPHandle → MapDevIdPHandle
drop_null none d t = record t { devices = erase_device t.devices d }
drop_null (some h) d t = t

abbrev pub set_found : ℕ → DevId → ℕ → Option (Option ℕ) → MapDevIdPHandle → MapDevIdPHandle
set_found conn_id d h none t = t
set_found conn_id d h (some g) t =
    with_conn conn_id d (record t { devices = put_device t.devices d (some h) })

abbrev pub drop_if_null : DevId → MapDevIdPHandle → MapDevIdPHandle
drop_if_null d t = drop_null (handle_of (find_device t.devices d)) d t

abbrev pub decided : Bool → DevId → Option (Option ℕ) → MapDevIdPHandle → Work
decided force d none t = closed
decided force d (some h) t = if force || not (find_serial t.conns d) then destroying else closed

-- The next step of a thread that holds the mutex of device `d`. One that has come to the end stays there.
unfoldable pub work : Outcome → DevId → Work → MapDevIdPHandle → Work × MapDevIdPHandle
work o d (start request) t =
    (sending (handle_of (find_device t.devices d)), touched (find_device t.devices d) d t)
work o d (start (opening conn_id)) t = open_found conn_id d (find_device t.devices d) t
work o d (start (closing conn_id force)) t =
    (deciding force, record t { conns = erase_conn t.conns conn_id })
work o d (sending none) t = (sent xib_result_nodevice, t)
work o d (sending (some h)) t = (sent o.answer, t)
work o d (sent res) t = (sent res, t)
work o d (creating conn_id) t = (recording conn_id o.handle, t)
work o d (recording conn_id none) t = (opened false, drop_if_null d t)
work o d (recording conn_id (some h)) t =
    (opened true, drop_if_null d (set_found conn_id d h (find_device t.devices d) t))
work o d (opened b) t = (opened b, t)
work o d (deciding force) t = (decided force d (find_device t.devices d) t, t)
work o d destroying t = (
  erasing,
  record t {
    devices = put_device t.devices d none;
    destroyed = destroy_device_h (handle_of (find_device t.devices d)) t.destroyed;
  },
)
work o d erasing t = (closed, record t { devices = erase_device t.devices d })
work o d closed t = (closed, t)

-- Where a thread stands that gave the mutex back, if it was at the end.
abbrev pub left : DevId → Work → Option Place
left d (sent res) = some (if is_nodevice res then lost d else outside)
left d (opened b) = some (answered b)
left d closed = some outside
left d _ = none

-- A step of a thread, from `p` and `s` to `q` and `s'`. The devices that threads look for are those of `named`.
pub data Act (named : List DevId) (p : Place) (s : Shared) (q : Place) (s' : Shared) : Type 0 where
  ask_request :
      (d : DevId) (h : Option ℕ)
      → is_named d named ≡ true
      → find_device s.table.devices d ≡ some h
      → p ≡ outside
      → q ≡ waiting d request
      → s' ≡ s
      → Act named p s q s'
  ask_open :
      (conn_id : ℕ) (d : DevId)
      → is_named d named ≡ true
      → find_conn s.table.conns conn_id ≡ none
      → p ≡ outside
      → q ≡ waiting d (opening conn_id)
      → s' ≡ s
      → Act named p s q s'
  ask_close :
      (conn_id : ℕ) (d : DevId) (force : Bool)
      → is_named (devid_known s.table conn_id d) named ≡ true
      → ((devid_known s.table conn_id d).id == uint32_max) ≡ false
      → p ≡ outside
      → q ≡ waiting (devid_known s.table conn_id d) (closing conn_id force)
      → s' ≡ s
      → Act named p s q s'
  ask_removal :
      (d : DevId)
      → is_named (devid_known s.table uint32_max d) named ≡ true
      → ((devid_known s.table uint32_max d).id == uint32_max) ≡ false
      → p ≡ lost d
      → q ≡ waiting (devid_known s.table uint32_max d) (closing uint32_max true)
      → s' ≡ s
      → Act named p s q s'
  no_removal :
      (d : DevId)
      → ((devid_known s.table uint32_max d).id == uint32_max) ≡ true
      → p ≡ lost d
      → q ≡ outside
      → s' ≡ s
      → Act named p s q s'
  find_mutex :
      (d k : DevId) (job : Job)
      → find_key s.pool d ≡ some k
      → p ≡ waiting d job
      → q ≡ queued d k job
      → s' ≡ s
      → Act named p s q s'
  no_mutex :
      (d : DevId) (job : Job)
      → find_key s.pool d ≡ none
      → p ≡ waiting d job
      → q ≡ inserting d job
      → s' ≡ s
      → Act named p s q s'
  add_mutex :
      (d k : DevId) (job : Job)
      → find_key (with_key (find_key s.pool d) d s.pool) d ≡ some k
      → p ≡ inserting d job
      → q ≡ queued d k job
      → s' ≡ record s { pool = with_key (find_key s.pool d) d s.pool }
      → Act named p s q s'
  lock_mutex :
      (d k : DevId) (job : Job)
      → is_locked k s.locked ≡ false
      → p ≡ queued d k job
      → q ≡ inside d (start job)
      → s' ≡ record s { locked = taken k s.locked }
      → Act named p s q s'
  work_on :
      (o : Outcome) (d : DevId) (w : Work)
      → p ≡ inside d w
      → q ≡ inside d (work o d w s.table).0
      → s' ≡ record s { table = (work o d w s.table).1 }
      → Act named p s q s'
  unlock_mutex :
      (d : DevId) (w : Work)
      → left d w ≡ some q
      → p ≡ inside d w
      → s' ≡ record s { locked = given_back (find_key s.pool d) s.locked }
      → Act named p s q s'
  return : (b : Bool) → p ≡ answered b → q ≡ outside → s' ≡ s → Act named p s q s'

pub data Step (named : List DevId) (s s' : Sys) : Type 0 where
  thread :
      (xs ys : List Place) (p q : Place) (t' : Shared)
      → s.threads ≡ xs ++ p ∷ ys
      → Act named p s.shared q t'
      → s' ≡ record { shared = t'; threads = xs ++ q ∷ ys }
      → Step named s s'

pub data Reach (named : List DevId) (s : Sys) : Sys → Type 0 where
  here : Reach named s s
  next : {u v : Sys} → Reach named s u → Step named u v → Reach named s v
