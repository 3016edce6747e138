-- ===== src/Tests/Devices.antt =====
-- Device identifiers.
use xibridge.Prelude.{◌≡◌, refl, [], ◌∷◌}
use xibridge.DevId.{DevId}
use xibridge.DevId.Coding.{idev_bytes}

abbrev pub motor : DevId
motor = record { id = 9; pid = 0xbbbb; vid = 0xaaaa; reserve = 0 }

abbrev pub lamp : DevId
lamp = record { id = 70000; pid = 2; vid = 0xaaab; reserve = 5 }

motor_bytes : idev_bytes motor ≡ 0 ∷ 0 ∷ 0 ∷ 0 ∷ 0xaa ∷ 0xaa ∷ 0xbb ∷ 0xbb ∷ 0 ∷ 0 ∷ 0 ∷ 9 ∷ []
motor_bytes = refl
