-- ===== src/Serial/Crc/Residue.antt =====
-- A message with its check sum behind it.
use xibridge.Prelude.{
  ℕ, zero, suc, ◌*◌, ◌/◌, ◌%◌, ◌^◌, ◌≡◌, ap, ◌∙◌, List, ◌++◌, arith, bit_xor, bit_xor-mod-two,
  bit_xor-div-two, bit_xor-div-pow, bit_xor-zero, bit_xor_self,
}
use native.Mathlib.Nat.{pow-suc}
use xibridge.Serial.Crc.{shift_crc, shifts, add_byte, get_crc, crc_bytes}
use xibridge.Serial.Crc.Detection.{AreBytes, shift_crc_even, add_bytes-append, get_crc_bound}

-- Equal low digits cancel: one digit, then twice as many each time.
low_one : (a b : ℕ) → a % 2 ≡ b % 2 → bit_xor a b % 2 ≡ 0
low_one a b e = omega (arith, bit_xor-mod-two a b)

low_two : (a b : ℕ) → a % 4 ≡ b % 4 → bit_xor a b % 4 ≡ 0
low_two a b e =
    omega (arith, bit_xor-mod-two a b, bit_xor-div-two a b, low_one (a / 2) (b / 2) (omega arith))

low_three : (a b : ℕ) → a % 8 ≡ b % 8 → bit_xor a b % 8 ≡ 0
low_three a b e =
    omega (arith, bit_xor-mod-two a b, bit_xor-div-two a b, low_two (a / 2) (b / 2) (omega arith))

low_four : (a b : ℕ) → a % 16 ≡ b % 16 → bit_xor a b % 16 ≡ 0
low_four a b e =
    omega (arith, bit_xor-mod-two a b, bit_xor-div-two a b, low_three (a / 2) (b / 2) (omega arith))

low_five : (a b : ℕ) → a % 32 ≡ b % 32 → bit_xor a b % 32 ≡ 0
low_five a b e =
    omega (arith, bit_xor-mod-two a b, bit_xor-div-two a b, low_four (a / 2) (b / 2) (omega arith))

low_six : (a b : ℕ) → a % 64 ≡ b % 64 → bit_xor a b % 64 ≡ 0
low_six a b e =
    omega (arith, bit_xor-mod-two a b, bit_xor-div-two a b, low_five (a / 2) (b / 2) (omega arith))

low_seven : (a b : ℕ) → a % 128 ≡ b % 128 → bit_xor a b % 128 ≡ 0
low_seven a b e =
    omega (arith, bit_xor-mod-two a b, bit_xor-div-two a b, low_six (a / 2) (b / 2) (omega arith))

low_eight : (a b : ℕ) → a % 256 ≡ b % 256 → bit_xor a b % 256 ≡ 0
low_eight a b e =
    omega (arith, bit_xor-mod-two a b, bit_xor-div-two a b, low_seven (a / 2) (b / 2) (omega arith))

mul-two-pow : (q k : ℕ) → q * 2 ^ suc k ≡ 2 * (q * 2 ^ k)
mul-two-pow q k = omega (arith, ap (λ (t : ℕ). q * t) (pow-suc 2 k))

-- A register whose low digits are 0 is shifted without a carry.
shifts-mul-pow : (n q : ℕ) → shifts n (q * 2 ^ n) ≡ q
shifts-mul-pow zero q = omega arith
shifts-mul-pow (suc n) q =
    ap (shifts n) (
      shift_crc_even (q * 2 ^ suc n) (omega (arith, mul-two-pow q n))
      ∙ omega (arith, mul-two-pow q n))
    ∙ shifts-mul-pow n q

-- The low byte of the register clears it, the high byte comes down.
add_byte-low : (c : ℕ) → add_byte c (c % 256) ≡ c / 256
unfolding add_byte
add_byte-low c = ap (shifts 8) cleared ∙ shifts-mul-pow 8 (c / 256)
  where
    nothing : c % 256 / 256 ≡ 0
    nothing = omega arith

    high : bit_xor c (c % 256) / 256 ≡ c / 256
    high = bit_xor-div-pow 8 c (c % 256) ∙ (ap (bit_xor (c / 256)) nothing ∙ bit_xor-zero (c / 256))

    cleared : bit_xor c (c % 256) ≡ c / 256 * 2 ^ 8
    cleared = omega (arith, high, low_eight c (c % 256) (omega arith))

-- The check sum of a message that is followed by its own check sum is 0.
pub get_crc_residue : (bs : List ℕ) → AreBytes bs → get_crc (bs ++ crc_bytes (get_crc bs)) ≡ 0
unfolding get_crc add_byte shift_crc
get_crc_residue bs v =
    add_bytes-append 0xffff bs (crc_bytes (get_crc bs))
    ∙ (ap (λ c. add_byte c (get_crc bs / 256 % 256)) (add_byte-low (get_crc bs))
        ∙ (ap (add_byte (get_crc bs / 256)) small
            ∙ ap (shifts 8) (bit_xor_self (get_crc bs / 256))))
  where
    small : get_crc bs / 256 % 256 ≡ get_crc bs / 256
    small = omega (arith, get_crc_bound bs v)
