-- ===== src/Ports/Choice.antt =====
-- Which port belongs to a device identifier.
use xibridge.Prelude.{
  ℕ, ◌≡◌, refl, Bool, true, false, List, [], ◌∷◌, Option, none, some, if◌then◌else◌, Bool-cases,
  inl, inr,
}
use xibridge.DevId.{DevId, dev_eq}
use xibridge.Ports.{
  PortLibrary, DevId2Usb, get_devid_from_sp_port, is_this, is_devid_matchs_sp_port, name_loop,
  port_name_by_devid, push_back, list_to_dev_id_vector,
}

abbrev pub has_dev : DevId → List DevId → Bool
has_dev d [] = false
has_dev d (e ∷ ds) = if dev_eq d e then true else has_dev d ds

-- The last of some names, or `s`.
abbrev pub last_or : List ℕ → List (List ℕ) → List ℕ
last_or s [] = s
last_or s (name ∷ names) = last_or name names

abbrev pub is_some_name : List (List ℕ) → Bool
is_some_name [] = false
is_some_name (name ∷ names) = true

module _ {P : Type 0} (lib : PortLibrary P) (mode : DevId2Usb) (d : DevId) where
  -- The names of the ports that match, in the order of the list.
  abbrev pub matching_names : List P → List (List ℕ)
  matching_names [] = []
  matching_names (p ∷ ports) =
      if is_devid_matchs_sp_port lib mode d p
      then lib.port_name p ∷ matching_names ports
      else matching_names ports

  name_loop-last :
      (ports : List P) (s : List ℕ)
      → name_loop lib mode d ports s ≡ last_or s (matching_names ports)
  name_loop-last [] s = refl
  name_loop-last (p ∷ ports) s = elim (Bool-cases (is_devid_matchs_sp_port lib mode d p)) [
    | inl b ↦ rw b (name_loop-last ports (lib.port_name p))
    | inr b ↦ rw b (name_loop-last ports s)
  ]

  listed_match :
      (ports : List P)
      → has_dev d (list_to_dev_id_vector lib mode ports) ≡ is_some_name (matching_names ports)
  listed_match [] = refl
  listed_match (p ∷ ports) = go (get_devid_from_sp_port lib mode p) (listed_match ports)
    where
      go :
          (o : Option DevId)
          → has_dev d (list_to_dev_id_vector lib mode ports) ≡ is_some_name (matching_names ports)
          → has_dev d (push_back lib o (list_to_dev_id_vector lib mode ports))
            ≡ is_some_name (
                if is_this lib d o
                then lib.port_name p ∷ matching_names ports
                else matching_names ports)
      go none h = h
      go (some e) h = elim (Bool-cases (dev_eq d e)) [ inl b ↦ rw b refl | inr b ↦ rw b h ]

  -- On any list of ports, the name found for a device identifier is that of the last port that matches it, and the empty name
  -- if none does; and the identifier is among the devices found exactly if some port matches it.
  pub port_name_by_devid-last :
      (ports : List P)
      → (port_name_by_devid lib mode d (some ports) ≡ last_or [] (matching_names ports))
        × (has_dev d (list_to_dev_id_vector lib mode ports) ≡ is_some_name (matching_names ports))
  unfolding port_name_by_devid
  port_name_by_devid-last ports = (name_loop-last ports [], listed_match ports)
