-- ===== src/Ports.antt =====
-- server/devid2usb.h and server/devid2usb.cpp: class ADevId2UsbConfor and its four kinds, which tell the serial port of a device
-- identifier. The port list of libserialport and the reading of a port's location, which each platform does in its own
-- way, are a parameter, `PortLibrary`. The code for Windows is not modelled, and a port has a name.
pub mod Choice
pub mod Location
use xibridge.Prelude.{
  ℕ, ◌-◌, ◌%◌, ◌^◌, Bool, true, false, not, ◌&&◌, List, [], ◌∷◌, Option, none, some, if◌then◌else◌,
  ltb, length, drop, same_bytes, codes,
}
use xibridge.DevId.{DevId, dev_id, dev_eq}
use xibridge.Uri.Scan.{scan_hex}

-- What is asked of a port: its name, the serial number of its USB adapter, if it is one, the address on the bus, the
-- vendor and product identifiers, if they can be read, and the identifier made of its location.
pub record PortLibrary (P : Type 0) : Type 0 where
  pub port_name : P → List ℕ
  pub usb_serial : P → Option (List ℕ)
  pub usb_address : P → ℕ
  pub usb_vid_pid : P → Option (ℕ × ℕ)
  pub id_from_usb_location : List ℕ → Option ℕ

pub data DevId2Usb : Type 0 where
  dev_id2usb_bvvu : DevId2Usb
  dev_id2usb_by_com_or_addr : DevId2Usb
  dev_id2usb_by_serial : DevId2Usb
  dev_id2usb_by_serial_pid_vid : DevId2Usb

unfoldable pub create_appropriate_dev_id2usb_configurator : List ℕ → Option DevId2Usb
create_appropriate_dev_id2usb_configurator cmd_par =
    if same_bytes cmd_par (codes "bvvu")
    then some dev_id2usb_bvvu
    else if same_bytes cmd_par (codes "by_com_addr")
    then some dev_id2usb_by_com_or_addr
    else if same_bytes cmd_par (codes "by_serial")
    then some dev_id2usb_by_serial
    else if same_bytes cmd_par (codes "by_serialpidvid")
    then some dev_id2usb_by_serial_pid_vid
    else none

-- `sscanf(serial_s + pos - 4, "%4x", &id)`
abbrev pub serial_id : List ℕ → Option ℕ
serial_id serial_s =
    if ltb (length serial_s) 4
    then none
    else elim (scan_hex 4 (drop (length serial_s - 4) serial_s)) [
      | none ↦ none
      | some (id, rest) ↦ some id
    ]

abbrev pub plain_dev_id : Option ℕ → Option DevId
plain_dev_id none = none
plain_dev_id (some id) = some (dev_id id 0 0 0)

module _ {P : Type 0} (lib : PortLibrary P) where
  abbrev pub by_serial : P → Option ℕ
  by_serial psp = elim (lib.usb_serial psp) [ none ↦ none | some serial_s ↦ serial_id serial_s ]

  abbrev pub with_vid_pid : Option ℕ → Option (ℕ × ℕ) → Option DevId
  with_vid_pid (some id) (some (vid, pid)) = some (dev_id id (pid % 2 ^ 16) (vid % 2 ^ 16) 0)
  with_vid_pid _ _ = none

  -- `none` is `ok == false`.
  abbrev pub get_devid_from_sp_port : DevId2Usb → P → Option DevId
  get_devid_from_sp_port dev_id2usb_bvvu psp =
      plain_dev_id (lib.id_from_usb_location (lib.port_name psp))
  get_devid_from_sp_port dev_id2usb_by_com_or_addr psp = elim (lib.usb_serial psp) [
    | none ↦ none
    | some serial_s ↦ plain_dev_id (some (lib.usb_address psp))
  ]
  get_devid_from_sp_port dev_id2usb_by_serial psp = plain_dev_id (by_serial psp)
  get_devid_from_sp_port dev_id2usb_by_serial_pid_vid psp =
      with_vid_pid (by_serial psp) (lib.usb_vid_pid psp)

  abbrev pub is_this : DevId → Option DevId → Bool
  is_this devid none = false
  is_this devid (some did) = dev_eq devid did

  abbrev pub is_devid_matchs_sp_port : DevId2Usb → DevId → P → Bool
  is_devid_matchs_sp_port mode devid psp = is_this devid (get_devid_from_sp_port mode psp)

  -- The loop of `port_name_by_devid`, with `s` so far.
  abbrev pub name_loop : DevId2Usb → DevId → List P → List ℕ → List ℕ
  name_loop mode devid [] s = s
  name_loop mode devid (psp ∷ ports) s =
      name_loop mode devid ports
        (if is_devid_matchs_sp_port mode devid psp then lib.port_name psp else s)

  -- `none` is a null port list.
  unfoldable pub port_name_by_devid : DevId2Usb → DevId → Option (List P) → List ℕ
  port_name_by_devid mode devid none = []
  port_name_by_devid mode devid (some ports) = name_loop mode devid ports []

  abbrev pub push_back : Option DevId → List DevId → List DevId
  push_back none devids = devids
  push_back (some d) devids = d ∷ devids

  -- On a port list that is not null.
  abbrev pub list_to_dev_id_vector : DevId2Usb → List P → List DevId
  list_to_dev_id_vector mode [] = []
  list_to_dev_id_vector mode (psp ∷ ports) =
      push_back (get_devid_from_sp_port mode psp) (list_to_dev_id_vector mode ports)

  -- A scan gives a list or fails; it is left out while another one, or the destructor, asks for the lock.
  unfoldable pub list_sp_ports : Bool → Option (List P) → Option (List P) → Option (List P)
  list_sp_ports is_write_lock_requested scanned pport_list =
      if is_write_lock_requested then pport_list else scanned
