-- ===== src/Serial/Crc.antt =====
-- server/xib-serial/devserial.c: get_crc, the check sum of a request and of a response.
pub mod Detection
pub mod Residue
use xibridge.Prelude.{ℕ, zero, suc, ◌+◌, ◌/◌, ◌%◌, List, [], ◌∷◌, if◌then◌else◌, ◌==◌, bit_xor}

-- A round of the inner loop: the carry flag, the shift, the polynomial.
unfoldable pub shift_crc : ℕ → ℕ
shift_crc crc = if crc % 2 == 1 then bit_xor (crc / 2) 0xA001 else crc / 2

-- The inner loop.
abbrev pub shifts : ℕ → ℕ → ℕ
shifts zero crc = crc
shifts (suc n) crc = shifts n (shift_crc crc)

-- A round of the outer loop.
unfoldable pub add_byte : ℕ → ℕ → ℕ
add_byte crc b = shifts 8 (bit_xor crc b)

abbrev pub add_bytes : ℕ → List ℕ → ℕ
add_bytes crc [] = crc
add_bytes crc (b ∷ bs) = add_bytes (add_byte crc b) bs

-- `get_crc(pbuf, n)` of the `n` bytes at `pbuf`.
unfoldable pub get_crc : List ℕ → ℕ
get_crc pbuf = add_bytes 0xffff pbuf

-- The two bytes of a check sum in the memory of a little-endian processor.
abbrev pub crc_bytes : ℕ → List ℕ
crc_bytes crc = crc % 256 ∷ crc / 256 % 256 ∷ []
