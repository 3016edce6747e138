-- ===== src/Serial/Opening.antt =====
-- server/xib-serial/devserial.c, server/xib-serial/xib_com.c and server/mapdevidphnd.cpp: a port is opened and closed.
use xibridge.Prelude.{ℕ, Bool, List, Option, none, some, if◌then◌else◌}
use xibridge.DevId.{DevId}
use xibridge.Ports.{PortLibrary, DevId2Usb, port_name_by_devid}
use xibridge.Serial.{XibResult, xib_result_ok, xib_result_error, xib_result_nodevice}

-- The functions of libserialport that make and free the structure of a port, open and close it, over a state
-- of their own. `none` and false are results other than `SP_OK`.
pub record PortSystem (H S : Type 0) : Type 0 where
  pub get_port_by_name : List ℕ → S → Option H × S
  pub open_port : H → S → Bool × S
  pub close_port : H → S → Bool × S
  pub free_port : H → S → S

module _ {H S : Type 0} (sys : PortSystem H S) where
  abbrev pub opened_or_freed : Option H → S → Option H × S
  opened_or_freed none s = (none, s)
  opened_or_freed (some psp) s =
      let (done, s₁) = sys.open_port psp s in
      if done then (some psp, s₁) else (none, sys.free_port psp s₁)

  unfoldable pub device_serial_create : List ℕ → S → Option H × S
  device_serial_create path s =
      let (psp, s₁) = sys.get_port_by_name path s in opened_or_freed psp s₁

  abbrev pub device_serial_destroy : Option H → S → XibResult × S
  device_serial_destroy none s = (xib_result_nodevice, s)
  device_serial_destroy (some device) s =
      let (done, s₁) = sys.close_port device s in
      (if done then xib_result_ok else xib_result_error, sys.free_port device s₁)

  -- The port of a device in the list of a scan, opened.
  unfoldable pub create_device_h :
      {P : Type 0} → PortLibrary P → DevId2Usb → Option (List P) → DevId → S → Option H × S
  create_device_h lib mode ports devid s =
      device_serial_create (port_name_by_devid lib mode devid ports) s
