-- ===== src/MBuf/Reader.antt =====
-- Reading a packet: the buffer seen as the bytes read and the bytes to come.
use xibridge.Prelude.{
  ℕ, ◌+◌, ◌%◌, ◌^◌, ◌≤◌, ◌<◌, ◌≡◌, refl, sym, ap, ◌∙◌, true, false, List, ◌++◌, append_assoc, arith,
  length, length-append, take-append, drop-append, take-all, length_zero, lt→ltb, le→ltb, pos,
  negsuc,
}
use xibridge.Wire.{Hex, get_stream1_4, hex32_get_stream, hex16_get_stream}
use xibridge.Wire.RoundTrip.{be32, be16}
use xibridge.MBuf.{
  MBuf, dlen, room, bytes_at, overflowed, get32, get16, rest_of_size, mseek, to_vector,
}

abbrev pub reader : List ℕ → List ℕ → MBuf
reader done rest = record { buf = done ++ rest; cur = length done; ovrflow = 0; rdon = true }

room-reader : (done rest : List ℕ) → room (reader done rest) ≡ length rest
room-reader done rest = ground (arith, length-append done rest)

pub bytes_at-reader : (done bs rest : List ℕ) → bytes_at (length bs) (reader done (bs ++ rest)) ≡ bs
bytes_at-reader done bs rest = rw (drop-append done (bs ++ rest)) (take-append bs rest)

-- What stands behind `bs` once it has been read.
advance :
    (done bs rest : List ℕ)
    → ◌≡◌ {A = MBuf}
        (record (reader done (bs ++ rest)) { cur = length done + length bs })
        (reader (done ++ bs) rest)
advance done bs rest = λ i. record {
  buf = sym (append_assoc done bs rest) i;
  cur = sym (length-append done bs) i;
  ovrflow = 0;
  rdon = true;
}

-- A big-endian number that holds `old`.
abbrev pub big32 : ℕ → Hex
big32 old = record { value = old; lend = false; tsize = 4 }

abbrev pub big16 : ℕ → Hex
big16 old = record { value = old; lend = false; tsize = 2 }

value-be32 : (v : ℕ) → get_stream1_4 false (be32 v) ≡ v % 2 ^ 32
unfolding get_stream1_4
value-be32 v = omega arith

value-be16 : (v : ℕ) → get_stream1_4 false (be16 v) % 2 ^ 16 ≡ v % 2 ^ 16
unfolding get_stream1_4
value-be16 v = omega arith

pub get32-reader :
    (old v : ℕ) (done rest : List ℕ)
    → get32 (reader done (be32 v ++ rest)) (big32 old)
      ≡ (big32 (v % 2 ^ 32), reader (done ++ be32 v) rest)
unfolding get32 hex32_get_stream
get32-reader old v done rest =
    rw
      (
        room-reader done (be32 v ++ rest),
        le→ltb (length (be32 v ++ rest)) 4 (omega arith),
        bytes_at-reader done (be32 v) rest,
        value-be32,
      )
      λ i. (big32 (v % 2 ^ 32), advance done (be32 v) rest i)

pub get16-reader :
    (old v : ℕ) (done rest : List ℕ)
    → get16 (reader done (be16 v ++ rest)) (big16 old)
      ≡ (big16 (v % 2 ^ 16), reader (done ++ be16 v) rest)
unfolding get16 hex16_get_stream
get16-reader old v done rest =
    rw
      (
        room-reader done (be16 v ++ rest),
        le→ltb (length (be16 v ++ rest)) 2 (omega arith),
        bytes_at-reader done (be16 v) rest,
        value-be16,
      )
      λ i. (big16 (v % 2 ^ 16), advance done (be16 v) rest i)

-- A read of four bytes where fewer are left.
pub get32-reader_short :
    (h : Hex) (done rest : List ℕ)
    → length rest < 4
    → get32 (reader done rest) h ≡ (h, overflowed (reader done rest))
unfolding get32
get32-reader_short h done rest l = rw (room-reader done rest, lt→ltb (length rest) 4 l)

mseek_inside :
    (m : MBuf) (k : ℕ)
    → m.cur + k ≤ dlen m
    → dlen m < 2 ^ 31
    → m.ovrflow ≡ 0
    → mseek m (pos k) ≡ (record m { cur = m.cur + k }, false)
unfolding mseek
mseek_inside m k h l e = ground arith

pub mseek-reader :
    (done skip rest : List ℕ)
    → length done + length skip + length rest < 2 ^ 31
    → mseek (reader done (skip ++ rest)) (pos (length skip)) ≡ (reader (done ++ skip) rest, false)
mseek-reader done skip rest h =
    mseek_inside (reader done (skip ++ rest)) (length skip) (omega (arith, lengths))
      (omega (arith, lengths)) refl
    ∙ ap (λ m. (m, false)) (advance done skip rest)
  where
    lengths : length (done ++ (skip ++ rest)) ≡ length done + (length skip + length rest)
    lengths = omega (arith, length-append done (skip ++ rest), length-append skip rest)

pub rest_of_size-reader :
    (done rest : List ℕ)
    → length done + length rest < 2 ^ 31
    → rest_of_size (reader done rest) (negsuc 0) ≡ length rest
unfolding rest_of_size
rest_of_size-reader done rest h = ground (arith, length-append done rest)

pub to_vector-reader :
    (done rest : List ℕ)
    → length done + length rest < 2 ^ 31
    → to_vector (reader done rest) true ≡ rest
unfolding to_vector
to_vector-reader done rest h =
    rw (rest_of_size-reader done rest h, drop-append done rest)
      (ground (arith, length-append done rest, take-all rest, length_zero rest))
