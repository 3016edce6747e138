-- ===== src/Wire.antt =====
-- common/utils.h and common/utils.cpp: class AHex and its children, numbers of 1 to 4 bytes that
-- are written in a given byte order.
pub mod RoundTrip
pub mod Sizes
use xibridge.Prelude.{
  ℕ, zero, suc, ◌+◌, ◌-◌, ◌*◌, ◌/◌, ◌%◌, ◌^◌, Bool, true, false, List, [], ◌∷◌, if◌then◌else◌,
}
use mathlib.Core.List.{reverse}

-- A Hex8, Hex16, Hex24 or Hex32: what it holds, `_lend` and `_tsize`.
pub record Hex : Type 0 where
  pub value : ℕ
  pub lend : Bool
  pub tsize : ℕ

-- The constructors; the parameter's type truncates the value.
abbrev pub hex8 : ℕ → Hex
hex8 v = record { value = v % 2 ^ 8; lend = false; tsize = 1 }

abbrev pub hex16 : ℕ → Bool → Hex
hex16 v lit_end = record { value = v % 2 ^ 16; lend = lit_end; tsize = 2 }

-- Hex24 keeps all 32 bits of its argument.
abbrev pub hex24 : ℕ → Bool → Hex
hex24 v lit_end = record { value = v % 2 ^ 32; lend = lit_end; tsize = 3 }

abbrev pub hex32 : ℕ → Bool → Hex
hex32 v lit_end = record { value = v % 2 ^ 32; lend = lit_end; tsize = 4 }

-- The two loops of `put_stream1_4`, from round i on: `(val >> (i * 8)) & 0xFF`, and
-- `(val >> ((_tsize - 1 - i) * 8)) & 0xFF`.
put_little : ℕ → ℕ → ℕ → List ℕ
put_little zero i val = []
put_little (suc rounds) i val = val / 2 ^ (i * 8) % 256 ∷ put_little rounds (i + 1) val

put_big : ℕ → ℕ → ℕ → ℕ → List ℕ
put_big zero tsize i val = []
put_big (suc rounds) tsize i val =
    val / 2 ^ ((tsize - 1 - i) * 8) % 256 ∷ put_big rounds tsize (i + 1) val

-- The bytes that `put_stream1_4` stores at `*ptr`.
unfoldable pub put_stream1_4 : Hex → ℕ → List ℕ
unfolding put_little put_big
put_stream1_4 h val = if h.lend then put_little h.tsize 0 val else put_big h.tsize h.tsize 0 val

-- `val <<= 8; val += byte;` on a uint32_t
abbrev pub shift_in : ℕ → List ℕ → ℕ
shift_in val [] = val
shift_in val (b ∷ bs) = shift_in ((val * 256 % 2 ^ 32 + b) % 2 ^ 32) bs

-- `_get_stream1_4` on the `_tsize` bytes at `*ptr`: the little-endian loop walks back from their end.
unfoldable pub get_stream1_4 : Bool → List ℕ → ℕ
get_stream1_4 lend bytes = shift_in 0 (if lend then reverse bytes else bytes)

-- The four `_get_stream`: what the object holds afterwards. Hex24 drops what it has read.
unfoldable pub hex32_get_stream : Hex → List ℕ → Hex
unfolding get_stream1_4
hex32_get_stream h bytes = record h { value = get_stream1_4 h.lend bytes }

unfoldable pub hex16_get_stream : Hex → List ℕ → Hex
unfolding get_stream1_4
hex16_get_stream h bytes = record h { value = get_stream1_4 h.lend bytes % 2 ^ 16 }

unfoldable pub hex24_get_stream : Hex → List ℕ → Hex
hex24_get_stream h bytes = h

unfoldable pub hex8_get_stream : Hex → List ℕ → Hex
hex8_get_stream h [] = h
hex8_get_stream h (b ∷ bs) = record h { value = b }
