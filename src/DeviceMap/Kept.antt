-- ===== src/DeviceMap/Kept.antt =====
-- What every operation keeps: handles are never null.
use xibridge.Prelude.{
  ℕ, ◌≡◌, refl, Bool, true, false, List, [], ◌∷◌, ◌++◌, Option, none, some, arith,
}
use xibridge.DevId.{DevId}
use xibridge.DeviceMap.{
  XibResult, MapDevIdPHandle, put_device, erase_device, erase_conn, created, open_if_not, release,
  dev_invalid, remove_conn_or_remove_device, operation_send_request, devid_known, uint32_max,
  map_keys,
}
use xibridge.DeviceMap.Keys.{is_ordered}
use xibridge.DeviceMap.Open.{same_key_refl}

-- No entry has a null handle.
abbrev pub all_open : List (DevId × Option ℕ) → Bool
all_open [] = true
all_open ((k, none) ∷ devices) = false
all_open ((k, some h) ∷ devices) = all_open devices

all_open-put_device :
    (devices : List (DevId × Option ℕ)) (d : DevId) (h : ℕ)
    → all_open devices ≡ true
    → all_open (put_device (put_device devices d none) d (some h)) ≡ true
all_open-put_device [] d h e = rw (same_key_refl d) refl
all_open-put_device ((k, none) ∷ devices) d h e = absurd cc
all_open-put_device ((k, some g) ∷ devices) d h e =
    ground (arith, all_open-put_device devices d h e)

all_open-erase_device :
    (devices : List (DevId × Option ℕ)) (d : DevId)
    → all_open devices ≡ true
    → all_open (erase_device devices d) ≡ true
all_open-erase_device [] d e = refl
all_open-erase_device ((k, none) ∷ devices) d e = absurd cc
all_open-erase_device ((k, some g) ∷ devices) d e =
    ground (arith, all_open-erase_device devices d e)

all_open-erase_put :
    (devices : List (DevId × Option ℕ)) (d : DevId)
    → all_open devices ≡ true
    → all_open (erase_device (put_device devices d none) d) ≡ true
all_open-erase_put [] d e = rw (same_key_refl d) refl
all_open-erase_put ((k, none) ∷ devices) d e = absurd cc
all_open-erase_put ((k, some g) ∷ devices) d e =
    ground (arith, all_open-erase_device devices d e, all_open-erase_put devices d e)

-- A call of one of the operations, with what the serial library answers.
pub data Call : Type 0 where
  open_call : (DevId → Option ℕ) → ℕ → DevId → Call
  remove_call : ℕ → DevId → Bool → Call
  send_call : (ℕ → List ℕ → List ℕ → XibResult × List ℕ) → DevId → List ℕ → List ℕ → Call

abbrev pub serve : Call → MapDevIdPHandle → MapDevIdPHandle
serve (open_call create conn_id d) t = (open_if_not create conn_id d t).0
serve (remove_call conn_id d force) t = remove_conn_or_remove_device conn_id d force t
serve (send_call send d request response) t = (operation_send_request send d request response t).0

abbrev pub serve_all : List Call → MapDevIdPHandle → MapDevIdPHandle
serve_all [] t = t
serve_all (c ∷ cs) t = serve_all cs (serve c t)

-- The devices that calls search the map for; a removal may search for that of a connection.
abbrev pub named : Call → List DevId
named (open_call create conn_id d) = d ∷ []
named (remove_call conn_id d force) = d ∷ []
named (send_call send d request response) = d ∷ []

abbrev pub all_named : List Call → List DevId
all_named [] = []
all_named (c ∷ cs) = named c ++ all_named cs

abbrev pub recorded : List (ℕ × DevId) → List DevId
recorded [] = []
recorded ((c, d) ∷ conns) = d ∷ recorded conns

created-all_open :
    (purpc : Option ℕ) (conn_id : ℕ) (d : DevId) (t : MapDevIdPHandle)
    → all_open t.devices ≡ true
    → all_open (created purpc conn_id d t).0.devices ≡ true
unfolding created
created-all_open none conn_id d t e = all_open-erase_put t.devices d e
created-all_open (some h) conn_id d t e = all_open-put_device t.devices d h e

open_if_not-all_open :
    (create : DevId → Option ℕ) (conn_id : ℕ) (d : DevId) (t : MapDevIdPHandle)
    → all_open t.devices ≡ true
    → all_open (open_if_not create conn_id d t).0.devices ≡ true
unfolding open_if_not
open_if_not-all_open create conn_id d t e =
    ground (arith, created-all_open (create d) conn_id d t e)

release-all_open :
    (d : DevId) (force : Bool) (t : MapDevIdPHandle)
    → all_open t.devices ≡ true
    → all_open (release d force t).devices ≡ true
unfolding release
release-all_open d force t e = ground (arith, all_open-erase_device t.devices d e)

remove-all_open :
    (conn_id : ℕ) (d : DevId) (force : Bool) (t : MapDevIdPHandle)
    → all_open t.devices ≡ true
    → all_open (remove_conn_or_remove_device conn_id d force t).devices ≡ true
unfolding remove_conn_or_remove_device
remove-all_open conn_id d force t e = ground (
  arith,
  release-all_open (devid_known t conn_id d) force (record t { conns = erase_conn t.conns conn_id })
      e,
)

send-all_open :
    (send : ℕ → List ℕ → List ℕ → XibResult × List ℕ) (d : DevId) (request response : List ℕ)
    (t : MapDevIdPHandle)
    → all_open t.devices ≡ true
    → all_open (operation_send_request send d request response t).0.devices ≡ true
unfolding operation_send_request
send-all_open send d request response t e = ground (arith, remove-all_open uint32_max d true t e)

serve-all_open :
    (c : Call) (t : MapDevIdPHandle)
    → all_open t.devices ≡ true
    → all_open (serve c t).devices ≡ true
serve-all_open (open_call create conn_id d) t e = open_if_not-all_open create conn_id d t e
serve-all_open (remove_call conn_id d force) t e = remove-all_open conn_id d force t e
serve-all_open (send_call send d request response) t e = send-all_open send d request response t e

serve_all-kept :
    (cs : List Call) (t : MapDevIdPHandle)
    → all_open t.devices ≡ true
    → all_open (serve_all cs t).devices ≡ true
serve_all-kept [] t e = e
serve_all-kept (c ∷ cs) t e = serve_all-kept cs (serve c t) (serve-all_open c t e)

-- No sequence of calls, whatever the serial library answers, leaves a null handle in a map that had none; where
-- `operator <` orders the devices that the calls name, the keys of the map, the devices of its connections and the
-- device with zeros alone, which a removal searches for where the connection is unknown.
pub serve_all-all_open :
    (cs : List Call) (t : MapDevIdPHandle)
    → is_ordered (all_named cs ++ map_keys t.devices ++ recorded t.conns ++ dev_invalid ∷ []) ≡ true
    → all_open t.devices ≡ true
    → all_open (serve_all cs t).devices ≡ true
serve_all-all_open cs t o e = serve_all-kept cs t e
