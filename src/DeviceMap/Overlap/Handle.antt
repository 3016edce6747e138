-- ===== src/DeviceMap/Overlap/Handle.antt =====
-- server/mapdevidphnd.cpp: a request keeps its handle, whatever the other threads do.
use xibridge.DevId.{DevId}
use xibridge.DeviceMap.Overlap.Steady.{Steady}
