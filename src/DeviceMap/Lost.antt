-- ===== src/DeviceMap/Lost.antt =====
-- A device that was lost.
use xibridge.Prelude.{ℕ, ◌≡◌, Bool, arith, ◌<◌}
use xibridge.DevId.{DevId}
use xibridge.DeviceMap.{
  MapDevIdPHandle, erase_conn, release, remove_conn_or_remove_device, uint32_max,
}

pub remove-known :
    (conn_id : ℕ) (d : DevId) (force : Bool) (t : MapDevIdPHandle)
    → d.id < uint32_max
    → remove_conn_or_remove_device conn_id d force t
      ≡ release d force (record t { conns = erase_conn t.conns conn_id })
unfolding remove_conn_or_remove_device
remove-known conn_id d force t l = ground arith
