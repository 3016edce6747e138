-- ===== src/Uri/Digits.antt =====
-- Hexadecimal numbers written and read again.
use xibridge.Prelude.{
  ℕ, zero, suc, ◌+◌, ◌*◌, ◌/◌, ◌%◌, ◌^◌, ◌<◌, ◌≡◌, refl, sym, ap, ◌∙◌, List, ◌∷◌, ◌++◌, some, arith,
}
use native.Mathlib.Nat.{pow-suc, div-add-mod, div-div-eq-div-mul}
use xibridge.Uri.Scan.{
  hex_value, scan_digits, scan_unsigned, scan_magnitude, scan_signed, scan_hex, skip_spaces,
  hex_digit, hex_text,
}

hex_value-hex_digit : (d : ℕ) → d < 16 → hex_value (hex_digit d) ≡ some d
unfolding hex_value hex_digit
hex_value-hex_digit d h = ground arith

mod-mul : (n p : ℕ) → n % (p * 16) ≡ n / p % 16 * p + n % p
mod-mul n p = omega (
  arith,
  div-add-mod n p,
  ap (λ q. p * q) (div-add-mod (n / p) 16),
  div-add-mod n (p * 16),
  ap (λ q. p * 16 * q) (div-div-eq-div-mul n p 16),
)

scan_digits-cons :
    (w acc c d : ℕ) (cs : List ℕ)
    → hex_value c ≡ some d
    → scan_digits (suc w) acc (c ∷ cs) ≡ scan_digits w (acc * 16 + d) cs
scan_digits-cons w acc c d cs h = rw (scan_digits, h) refl

scan_digits-hex_text :
    (w acc n : ℕ) (rest : List ℕ)
    → scan_digits w acc (hex_text w n ++ rest) ≡ (acc * 16 ^ w + n % 16 ^ w, rest)
scan_digits-hex_text zero acc n rest = ap (λ v. (v, rest)) (omega arith)
scan_digits-hex_text (suc w) acc n rest =
    scan_digits-cons w acc (hex_digit (n / 16 ^ w % 16)) (n / 16 ^ w % 16) (hex_text w n ++ rest)
      (hex_value-hex_digit (n / 16 ^ w % 16) (omega arith))
    ∙ (scan_digits-hex_text w (acc * 16 + n / 16 ^ w % 16) n rest
        ∙ ap (λ v. (v, rest))
            (omega (
              arith,
              mod-mul n (16 ^ w),
              ap (λ q. n % q) (pow-suc 16 w),
              ap (λ q. acc * q) (pow-suc 16 w),
            )))

-- A digit is neither blank nor a sign nor an x.
skip_spaces-digit :
    (d : ℕ) (cs : List ℕ) → d < 16 → skip_spaces (hex_digit d ∷ cs) ≡ hex_digit d ∷ cs
unfolding hex_digit
skip_spaces-digit d cs h = ground arith

scan_signed-digit :
    (w d : ℕ) (cs : List ℕ)
    → d < 16
    → scan_signed w (hex_digit d ∷ cs) ≡ scan_magnitude w (hex_digit d ∷ cs)
unfolding hex_digit
scan_signed-digit w d cs h = ground arith

scan_magnitude-digit :
    (w a d : ℕ) (cs : List ℕ)
    → d < 16
    → scan_magnitude (suc (suc w)) (a ∷ hex_digit d ∷ cs)
      ≡ scan_unsigned (suc (suc w)) (a ∷ hex_digit d ∷ cs)
unfolding hex_digit
scan_magnitude-digit w a d cs h = ground arith

scan_unsigned-cons :
    (w c d : ℕ) (cs : List ℕ)
    → hex_value c ≡ some d
    → scan_unsigned (suc w) (c ∷ cs) ≡ some (scan_digits w d cs)
scan_unsigned-cons w c d cs h = rw (scan_unsigned, h) refl

scan_unsigned-digit :
    (w d : ℕ) (cs : List ℕ)
    → d < 16
    → scan_unsigned (suc w) (hex_digit d ∷ cs) ≡ some (scan_digits (suc w) 0 (hex_digit d ∷ cs))
scan_unsigned-digit w d cs h =
    scan_unsigned-cons w (hex_digit d) d cs (hex_value-hex_digit d h)
    ∙ ap (λ r. some r)
        (ap (λ (v : ℕ). scan_digits w v cs) {y = 0 * 16 + d} (omega arith)
          ∙ sym (scan_digits-cons w 0 (hex_digit d) d cs (hex_value-hex_digit d h)))

-- A number written with `%08X` or `%04X` and read with the same width.
pub scan_hex-hex_text :
    (w n : ℕ) (rest : List ℕ)
    → scan_hex (suc (suc w)) (hex_text (suc (suc w)) n ++ rest) ≡ some (n % 16 ^ suc (suc w), rest)
unfolding scan_hex
scan_hex-hex_text w n rest =
    ap (scan_signed (suc (suc w))) (skip_spaces-digit high text (omega arith))
    ∙ scan_signed-digit (suc (suc w)) high text (omega arith)
    ∙ scan_magnitude-digit w (hex_digit high) low (hex_text w n ++ rest) (omega arith)
    ∙ scan_unsigned-digit (suc w) high text (omega arith)
    ∙ ap (λ r. some r)
        (scan_digits-hex_text (suc (suc w)) 0 n rest ∙ ap (λ v. (v, rest)) (omega arith))
  where
    high : ℕ
    high = n / 16 ^ suc w % 16

    low : ℕ
    low = n / 16 ^ w % 16

    text : List ℕ
    text = hex_digit low ∷ (hex_text w n ++ rest)
