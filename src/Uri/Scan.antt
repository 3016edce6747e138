-- ===== src/Uri/Scan.antt =====
-- Hexadecimal numbers in a text: `%8x` and `%4x` of sscanf, `%08X` and `%04X` of snprintf.
use xibridge.Prelude.{
  ℕ, zero, suc, ◌-◌, ◌+◌, ◌*◌, ◌/◌, ◌%◌, ◌^◌, ◌||◌, ◌&&◌, List, [], ◌∷◌, Option, none, some,
  if◌then◌else◌, ltb, leb, ◌==◌,
}

unfoldable pub hex_value : ℕ → Option ℕ
hex_value c =
    if leb 48 c && leb c 57
    then some (c - 48)
    else if leb 65 c && leb c 70
    then some (c - 55)
    else if leb 97 c && leb c 102
    then some (c - 87)
    else none

-- Digits as long as there are some, at most `w`.
abbrev pub scan_digits : ℕ → ℕ → List ℕ → ℕ × List ℕ
scan_digits zero acc cs = (acc, cs)
scan_digits (suc w) acc [] = (acc, [])
scan_digits (suc w) acc (c ∷ cs) = elim (hex_value c) [
  | none ↦ (acc, c ∷ cs)
  | some d ↦ scan_digits w (acc * 16 + d) cs
]

-- At least one digit.
abbrev pub scan_unsigned : ℕ → List ℕ → Option (ℕ × List ℕ)
scan_unsigned zero cs = none
scan_unsigned (suc w) [] = none
scan_unsigned (suc w) (c ∷ cs) = elim (hex_value c) [
  | none ↦ none
  | some d ↦ some (scan_digits w d cs)
]

-- An optional 0x.
abbrev pub scan_magnitude : ℕ → List ℕ → Option (ℕ × List ℕ)
scan_magnitude (suc (suc w)) (a ∷ b ∷ cs) =
    if a == 48 && (b == 120 || b == 88)
    then scan_unsigned w cs
    else scan_unsigned (suc (suc w)) (a ∷ b ∷ cs)
scan_magnitude w cs = scan_unsigned w cs

abbrev pub negated : Option (ℕ × List ℕ) → Option (ℕ × List ℕ)
negated none = none
negated (some (n, cs)) = some ((2 ^ 32 - n) % 2 ^ 32, cs)

-- An optional sign.
abbrev pub scan_signed : ℕ → List ℕ → Option (ℕ × List ℕ)
scan_signed w [] = none
scan_signed w (c ∷ cs) =
    if c == 43
    then scan_magnitude (w - 1) cs
    else if c == 45
    then negated (scan_magnitude (w - 1) cs)
    else scan_magnitude w (c ∷ cs)

abbrev pub skip_spaces : List ℕ → List ℕ
skip_spaces [] = []
skip_spaces (c ∷ cs) =
    let rest = skip_spaces cs in if c == 32 || (leb 9 c && leb c 13) then rest else c ∷ cs

-- A conversion of field width `w`: the number and the text behind it.
unfoldable pub scan_hex : ℕ → List ℕ → Option (ℕ × List ℕ)
scan_hex w cs = scan_signed w (skip_spaces cs)

unfoldable pub hex_digit : ℕ → ℕ
hex_digit d = if ltb d 10 then 48 + d else 55 + d

-- A number below 16 ^ w in `w` digits.
abbrev pub hex_text : ℕ → ℕ → List ℕ
hex_text zero n = []
hex_text (suc w) n = hex_digit (n / 16 ^ w % 16) ∷ hex_text w n
