-- ===== src/Wire/Sizes.antt =====
-- A number of `_tsize` bytes is stored as that many bytes.
use xibridge.Prelude.{ℕ, zero, suc, ◌+◌, ◌≡◌, refl, ap, Bool, true, false, length}
use xibridge.Wire.{Hex, put_little, put_big, put_stream1_4}

length-put_little : (rounds i v : ℕ) → length (put_little rounds i v) ≡ rounds
unfolding put_little
length-put_little zero i v = refl
length-put_little (suc rounds) i v = ap suc (length-put_little rounds (i + 1) v)

length-put_big : (rounds n i v : ℕ) → length (put_big rounds n i v) ≡ rounds
unfolding put_big
length-put_big zero n i v = refl
length-put_big (suc rounds) n i v = ap suc (length-put_big rounds n (i + 1) v)

length_by_order :
    (lend : Bool) (n value v : ℕ)
    → length (put_stream1_4 (record { value = value; lend = lend; tsize = n }) v) ≡ n
unfolding put_stream1_4
length_by_order true n value v = length-put_little n 0 v
length_by_order false n value v = length-put_big n n 0 v

pub length-put_stream1_4 : (h : Hex) (v : ℕ) → length (put_stream1_4 h v) ≡ h.tsize
length-put_stream1_4 h v = length_by_order h.lend h.tsize h.value v
