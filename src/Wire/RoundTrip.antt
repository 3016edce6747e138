-- ===== src/Wire/RoundTrip.antt =====
-- What AHex reads is what it wrote.
use xibridge.Prelude.{
  ℕ, zero, suc, ◌/◌, ◌%◌, ◌^◌, ◌≤◌, ◌<◌, ◌≡◌, Bool, true, false, List, [], ◌∷◌, arith,
}
use xibridge.Wire.{Hex, put_stream1_4, get_stream1_4}

abbrev sized : ℕ → Bool → Hex
sized n lend = record { value = 0; lend = lend; tsize = n }

-- The bytes of a 32-bit number in network order.
abbrev pub be32 : ℕ → List ℕ
be32 v = v / 2 ^ 24 % 256 ∷ v / 2 ^ 16 % 256 ∷ v / 2 ^ 8 % 256 ∷ v % 256 ∷ []

abbrev pub be16 : ℕ → List ℕ
be16 v = v / 2 ^ 8 % 256 ∷ v % 256 ∷ []

-- In either byte order and at any width of one to four bytes, `_get_stream1_4` reads back the number
-- that `put_stream1_4` stored, if it fits that width.
pub get_stream1_4-put_stream1_4 :
    (n v : ℕ) (lend : Bool)
    → n ≤ 4
    → v < 256 ^ n
    → get_stream1_4 lend (put_stream1_4 (sized n lend) v) ≡ v
unfolding get_stream1_4 put_stream1_4
get_stream1_4-put_stream1_4 zero v true h k = omega arith
get_stream1_4-put_stream1_4 (suc zero) v true h k = omega arith
get_stream1_4-put_stream1_4 (suc (suc zero)) v true h k = omega arith
get_stream1_4-put_stream1_4 (suc (suc (suc zero))) v true h k = omega arith
get_stream1_4-put_stream1_4 (suc (suc (suc (suc zero)))) v true h k = omega arith
get_stream1_4-put_stream1_4 (suc (suc (suc (suc (suc n))))) v lend h k = absurd (omega arith)
get_stream1_4-put_stream1_4 zero v false h k = omega arith
get_stream1_4-put_stream1_4 (suc zero) v false h k = omega arith
get_stream1_4-put_stream1_4 (suc (suc zero)) v false h k = omega arith
get_stream1_4-put_stream1_4 (suc (suc (suc zero))) v false h k = omega arith
get_stream1_4-put_stream1_4 (suc (suc (suc (suc zero)))) v false h k = omega arith
