-- ===== src/DeviceMap/Shared.antt =====
-- A device that two connections use.
use xibridge.Prelude.{ℕ, ◌≡◌, ◌≢◌, refl, ◌∙◌, true, false, List, [], ◌∷◌, some, arith, ◌<◌}
use xibridge.DevId.{DevId, dev_eq}
use xibridge.DeviceMap.{
  MapDevIdPHandle, find_conn, erase_conn, find_serial, release, remove_conn_or_remove_device,
  uint32_max,
}
use xibridge.DeviceMap.Lost.{remove-known}

dev_eq_refl : (d : DevId) → dev_eq d d ≡ true
unfolding dev_eq
dev_eq_refl d = ground arith

find_conn-erase_conn_other :
    (conns : List (ℕ × DevId)) (a c : ℕ)
    → a ≢ c
    → find_conn (erase_conn conns a) c ≡ find_conn conns c
find_conn-erase_conn_other [] a c h = refl
find_conn-erase_conn_other ((b, d) ∷ conns) a c h =
    ground (arith, find_conn-erase_conn_other conns a c h)

-- A connection's device is found among the connections.
find_serial-find_conn :
    (conns : List (ℕ × DevId)) (c : ℕ) (d : DevId)
    → find_conn conns c ≡ some d
    → find_serial conns d ≡ true
find_serial-find_conn [] c d h = absurd cc
find_serial-find_conn ((b, e) ∷ conns) c d h =
    ground (arith, find_serial-find_conn conns c d, dev_eq_refl d)

release-used :
    (d : DevId) (t : MapDevIdPHandle) → find_serial t.conns d ≡ true → release d false t ≡ t
unfolding release
release-used d t h = ground arith

-- While another connection uses the device, its id below UINT32_MAX, closing it on one connection forgets
-- that connection and does nothing else.
pub remove_keeps_shared :
    (t : MapDevIdPHandle) (conn_id other : ℕ) (d : DevId)
    → d.id < uint32_max
    → conn_id ≢ other
    → find_conn t.conns other ≡ some d
    → remove_conn_or_remove_device conn_id d false t
      ≡ record t { conns = erase_conn t.conns conn_id }
remove_keeps_shared t conn_id other d l n e =
    remove-known conn_id d false t l
    ∙ release-used d (record t { conns = erase_conn t.conns conn_id })
        (find_serial-find_conn (erase_conn t.conns conn_id) other d
          (find_conn-erase_conn_other t.conns conn_id other n ∙ e))
