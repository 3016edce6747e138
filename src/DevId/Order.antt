-- ===== src/DevId/Order.antt =====
-- `DevId::operator <`, by which the server's maps are ordered.
use xibridge.Prelude.{◌<◌, ◌≡◌, ◌⊎◌, ◌↔◌, true, arith}
use xibridge.DevId.{DevId, dev_lt}

-- Among devices of one VID and one PID `operator <` is the order of the serial numbers.
pub dev_lt-same_kind :
    (d e : DevId) → d.vid ≡ e.vid → d.pid ≡ e.pid → (dev_lt d e ≡ true) ↔ (d.id < e.id)
unfolding dev_lt
dev_lt-same_kind d e hv hp = ground arith

-- Of two devices, the one with the smaller VID having the larger PID or the larger serial number, each
-- is below the other.
pub dev_lt_crossed :
    (d e : DevId)
    → d.vid < e.vid
    → (e.pid < d.pid) ⊎ (e.id < d.id)
    → (dev_lt d e ≡ true) × (dev_lt e d ≡ true)
unfolding dev_lt
dev_lt_crossed d e h k = ground arith
