-- ===== src/DeviceMap/Open.antt =====
-- Opening a device.
use xibridge.Prelude.{
  ℕ, ◌≡◌, refl, ap, Bool, true, false, List, [], ◌∷◌, ◌++◌, Option, none, some, ==_refl, arith,
}
use xibridge.DevId.{DevId, dev_lt}
use xibridge.DeviceMap.{
  MapDevIdPHandle, same_key, find_device, put_device, erase_device, find_conn, created, open_if_not,
  map_keys,
}
use xibridge.DeviceMap.Keys.{is_ordered}

abbrev pub is_some {ℓ} : {A : Type ℓ} → Option A → Bool
is_some none = false
is_some (some x) = true

pub same_key_refl : (d : DevId) → same_key d d ≡ true
unfolding same_key dev_lt
same_key_refl d = ground arith

find_device-put_device :
    (devices : List (DevId × Option ℕ)) (d : DevId) (g : Option ℕ)
    → find_device (put_device devices d g) d ≡ some g
find_device-put_device [] d g = rw (same_key_refl d) refl
find_device-put_device ((k, h) ∷ devices) d g = ground (arith, find_device-put_device devices d g)

pub find_device-erase_device :
    (devices : List (DevId × Option ℕ)) (d : DevId) → find_device (erase_device devices d) d ≡ none
find_device-erase_device [] d = refl
find_device-erase_device ((k, h) ∷ devices) d = ground (arith, find_device-erase_device devices d)

find_conn-append :
    (conns : List (ℕ × DevId)) (c : ℕ) (d : DevId)
    → is_some (find_conn (conns ++ (c, d) ∷ []) c) ≡ true
find_conn-append [] c d = rw (==_refl c) refl
find_conn-append ((b, e) ∷ conns) c d = ground (arith, find_conn-append conns c d)

-- The three branches of `open_if_not`.
pub open_if_not-recorded :
    (create : DevId → Option ℕ) (conn_id : ℕ) (d e : DevId) (t : MapDevIdPHandle)
    → find_conn t.conns conn_id ≡ some e
    → open_if_not create conn_id d t ≡ (t, true)
unfolding open_if_not
open_if_not-recorded create conn_id d e t q = ground arith

open_if_not-shared :
    (create : DevId → Option ℕ) (conn_id : ℕ) (d : DevId) (h : Option ℕ) (t : MapDevIdPHandle)
    → find_conn t.conns conn_id ≡ none
    → find_device t.devices d ≡ some h
    → open_if_not create conn_id d t ≡ (record t { conns = t.conns ++ (conn_id, d) ∷ [] }, true)
unfolding open_if_not
open_if_not-shared create conn_id d h t e q = ground arith

open_if_not-created :
    (create : DevId → Option ℕ) (conn_id : ℕ) (d : DevId) (t : MapDevIdPHandle)
    → find_conn t.conns conn_id ≡ none
    → find_device t.devices d ≡ none
    → open_if_not create conn_id d t ≡ created (create d) conn_id d t
unfolding open_if_not
open_if_not-created create conn_id d t e q = ground arith

-- What a result says of the table left with it.
abbrev pub Tells : ℕ → DevId → MapDevIdPHandle × Bool → Type 0
Tells conn_id d (after, ok) =
    (is_some (find_device after.devices d) ≡ ok) × (is_some (find_conn after.conns conn_id) ≡ ok)

created-Tells :
    (purpc : Option ℕ) (conn_id : ℕ) (d : DevId) (t : MapDevIdPHandle)
    → find_conn t.conns conn_id ≡ none
    → Tells conn_id d (created purpc conn_id d t)
unfolding created
created-Tells none conn_id d t e =
    (ap is_some (find_device-erase_device (put_device t.devices d none) d), ap is_some e)
created-Tells (some g) conn_id d t e = (
  ap is_some (find_device-put_device (put_device t.devices d none) d (some g)),
  find_conn-append t.conns conn_id d,
)

-- On a connection that has no device yet, `open_if_not` returns true exactly if the device is then in the
-- map, and exactly if the connection is then recorded; where `operator <` orders the device and the keys of the map.
pub open_if_not-Tells :
    (create : DevId → Option ℕ) (conn_id : ℕ) (d : DevId) (t : MapDevIdPHandle)
    → is_ordered (d ∷ map_keys t.devices) ≡ true
    → find_conn t.conns conn_id ≡ none
    → Tells conn_id d (open_if_not create conn_id d t)
open_if_not-Tells create conn_id d t o e = go (find_device t.devices d) refl
  where
    go :
        (o : Option (Option ℕ))
        → find_device t.devices d ≡ o
        → Tells conn_id d (open_if_not create conn_id d t)
    go (some h) q =
        rw (open_if_not-shared create conn_id d h t e q)
          (ap is_some q, find_conn-append t.conns conn_id d)
    go none q =
        rw (open_if_not-created create conn_id d t e q) (created-Tells (create d) conn_id d t e)
