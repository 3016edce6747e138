-- ===== src/Tests/Watch.antt =====
-- The supervisor with one slot, and two ports with one serial number.
use xibridge.Prelude.{ℕ, ◌≡◌, refl, true, List, [], ◌∷◌, none, some, arith, codes, pos}
use xibridge.Supervisor.{Supervisor, find_resource, stoi, supervisor_round}
use xibridge.Supervisor.Holders.{enter, leave, run, counter_in, run-Refines}
use xibridge.Supervisor.Reload.{after_round, supervisor_round-leave}
use xibridge.DevId.{DevId, dev_eq}
use xibridge.Ports.{PortLibrary, dev_id2usb_by_serial, port_name_by_devid, list_to_dev_id_vector}
use xibridge.Ports.Choice.{has_dev, matching_names, last_or, is_some_name, port_name_by_devid-last}
use xibridge.Uri.Scan.{hex_value, scan_hex}

abbrev slot : List ℕ
slot = codes "3"

abbrev watching : Supervisor
watching = record { resources = []; work = true; limit = pos 30 }

run-Refines_example :
    counter_in slot (run (enter slot ∷ enter slot ∷ leave slot ∷ []) watching) ≡ some (some 0)
run-Refines_example =
    run-Refines (enter slot ∷ enter slot ∷ leave slot ∷ []) watching [] (slot ∷ []) (omega arith)
      refl (λ r. refl) refl slot

abbrev crowded : Supervisor
crowded = record { resources = (slot, 31) ∷ []; work = true; limit = pos 30 }

supervisor_round-leave_example :
    (supervisor_round crowded ≡ some (after_round crowded, pos 3 ∷ []))
    × (find_resource slot (after_round crowded).resources ≡ some 0)
    × (run (leave slot ∷ leave slot ∷ []) (after_round crowded) ≡ none)
unfolding stoi
supervisor_round-leave_example = supervisor_round-leave crowded slot 31 refl refl refl (omega arith)

-- Device ids that are no int end the round and, as nothing catches the exception, the program.
large_id : stoi (codes "2147483648") ≡ none
unfolding stoi
large_id = refl

thrown : supervisor_round (record crowded { resources = (codes "4294967295", 31) ∷ [] }) ≡ none
unfolding supervisor_round stoi
thrown = refl

-- A port is its name and its serial number.
abbrev usb : PortLibrary (List ℕ × List ℕ)
usb = record {
  port_name = λ p. p.0;
  usb_serial = λ p. some p.1;
  usb_address = λ p. 0;
  usb_vid_pid = λ p. none;
  id_from_usb_location = λ name. none;
}

abbrev first_port : List ℕ × List ℕ
first_port = (codes "ttyACM0", codes "00001A2B")

abbrev second_port : List ℕ × List ℕ
second_port = (codes "ttyACM1", codes "77771A2B")

abbrev wanted : DevId
wanted = record { id = 0x1A2B; pid = 0; vid = 0; reserve = 0 }

port_name_by_devid-last_example :
    (port_name_by_devid usb dev_id2usb_by_serial wanted (some (first_port ∷ second_port ∷ []))
      ≡ last_or [] (matching_names usb dev_id2usb_by_serial wanted (first_port ∷ second_port ∷ [])))
    × (has_dev wanted
          (list_to_dev_id_vector usb dev_id2usb_by_serial (first_port ∷ second_port ∷ []))
        ≡ is_some_name
            (matching_names usb dev_id2usb_by_serial wanted (first_port ∷ second_port ∷ [])))
port_name_by_devid-last_example =
    port_name_by_devid-last usb dev_id2usb_by_serial wanted (first_port ∷ second_port ∷ [])

both_match :
    matching_names usb dev_id2usb_by_serial wanted (first_port ∷ second_port ∷ [])
    ≡ codes "ttyACM0" ∷ codes "ttyACM1" ∷ []
unfolding hex_value scan_hex dev_eq
both_match = refl
