-- ===== src/MBuf.antt =====
-- common/utils.h and common/utils.cpp: class MBuf, the buffer through which every packet is written
-- and read.
pub mod Valid
pub mod Reader
pub mod Writer
pub mod Copies
use xibridge.Prelude.{
  ℕ, zero, suc, ◌+◌, ◌-◌, ◌%◌, ◌^◌, Bool, true, false, not, ◌&&◌, ◌||◌, List, [], ◌∷◌, ◌++◌, Option,
  none, some, if◌then◌else◌, ltb, leb, ◌==◌, length, take, drop, replicate, ℤ, pos, negsuc, move,
  to_int, ltb_ℤ,
}
use xibridge.Wire.{
  Hex, hex8, put_stream1_4, hex32_get_stream, hex24_get_stream, hex16_get_stream, hex8_get_stream,
}

-- `buf` is what `origin_data` points to, so `dlen` is its length; `cur` is `pdata - origin_data`.
pub record MBuf : Type 0 where
  pub buf : List ℕ
  pub cur : ℕ
  pub ovrflow : ℕ
  pub rdon : Bool

abbrev pub dlen : MBuf → ℕ
dlen m = length m.buf

abbrev pub size_max : ℕ
size_max = 2 ^ 64 - 1

-- MBuf(readyd, size, readonly) and MBuf(size, readonly).
abbrev pub mbuf_of : List ℕ → Bool → MBuf
mbuf_of readyd readonly = record { buf = readyd; cur = 0; ovrflow = 0; rdon = readonly }

abbrev pub mbuf_new : ℕ → Bool → MBuf
mbuf_new size readonly = record { buf = replicate size 0; cur = 0; ovrflow = 0; rdon = readonly }

abbrev pub buffer_len : MBuf → ℕ
buffer_len m = dlen m

abbrev pub set_rd_only : MBuf → MBuf
set_rd_only m = record m { rdon = true }

-- `ovrflow++` on a uint8_t
abbrev pub overflowed : MBuf → MBuf
overflowed m = record m { ovrflow = (m.ovrflow + 1) % 256 }

abbrev pub was_broken : MBuf → Bool
was_broken m = not (m.ovrflow == 0)

-- `dlen - (pdata - origin_data)` on a size_t: it wraps if the pointer has left the buffer.
abbrev pub room : MBuf → ℕ
room m = if leb m.cur (dlen m) then dlen m - m.cur else dlen m + 2 ^ 64 - m.cur

-- The `n` bytes at `pdata`, and a store of bytes there.
abbrev pub bytes_at : ℕ → MBuf → List ℕ
bytes_at n m = take n (drop m.cur m.buf)

abbrev pub store : List ℕ → MBuf → MBuf
store bs m = record m {
  buf = take m.cur m.buf ++ (bs ++ drop (m.cur + length bs) m.buf);
  cur = m.cur + length bs;
}

-- `operator <<` of Hex32, Hex24 and Hex16, which differ in the size alone.
infixl 60 ◌<<◌
unfoldable pub ◌<<◌ : MBuf → Hex → MBuf
m << v =
    if m.rdon
    then m
    else if ltb (room m) v.tsize
    then overflowed m
    else store (put_stream1_4 v v.value) m

-- `operator <<` of Hex8
unfoldable pub put8 : MBuf → Hex → MBuf
put8 m v =
    if m.rdon then m else if ltb (room m) 1 then overflowed m else store (v.value % 256 ∷ []) m

-- `operator >>` of Hex32, Hex24, Hex16 and Hex8: a failed read leaves the number as it was.
unfoldable pub get32 : MBuf → Hex → Hex × MBuf
get32 m v =
    if ltb (room m) 4
    then (v, overflowed m)
    else (hex32_get_stream v (bytes_at 4 m), record m { cur = m.cur + v.tsize })

unfoldable pub get24 : MBuf → Hex → Hex × MBuf
get24 m v =
    if ltb (room m) 3
    then (v, overflowed m)
    else (hex24_get_stream v (bytes_at 3 m), record m { cur = m.cur + v.tsize })

unfoldable pub get16 : MBuf → Hex → Hex × MBuf
get16 m v =
    if ltb (room m) 2
    then (v, overflowed m)
    else (hex16_get_stream v (bytes_at 2 m), record m { cur = m.cur + v.tsize })

unfoldable pub get8 : MBuf → Hex → Hex × MBuf
get8 m v =
    if ltb (room m) 1
    then (v, overflowed m)
    else (hex8_get_stream v (bytes_at 1 m), record m { cur = m.cur + 1 })

-- `memwrite`, with the number of bytes written
unfoldable pub memwrite : MBuf → List ℕ → MBuf × ℕ
memwrite m bs =
    if m.rdon || length bs == size_max
    then (m, 0)
    else if ltb (room m) (length bs)
    then (overflowed m, 0)
    else (store bs m, length bs)

-- `restOfSize`; the argument -1 stands for the current position.
rest_from : ℤ → MBuf → ℕ
rest_from (pos f) m = if ltb_ℤ (to_int (dlen m)) (pos f) then size_max else dlen m - f
rest_from (negsuc k) m = size_max

unfoldable pub rest_of_size : MBuf → ℤ → ℕ
unfolding rest_from
rest_of_size m (negsuc zero) = rest_from (to_int m.cur) m
rest_of_size m from_pos = rest_from from_pos m

-- `memread` copies to a destination of `dest_len` bytes: the bytes copied, or none for SIZE_MAX.
unfoldable pub memread : MBuf → ℕ → ℕ → Option (List ℕ) × MBuf
memread m dest_len len =
    let rest = rest_of_size m (negsuc 0) in
    if ltb dest_len len || (ltb rest len || rest == size_max)
    then (none, m)
    else (some (bytes_at len m), record m { cur = m.cur + len })

-- `mseek` moves to `there`, and returns whether the buffer was broken before or now.
seek_to : ℤ → MBuf → MBuf
seek_to (pos there) m =
    if ltb_ℤ (to_int (dlen m)) (to_int there) then overflowed m else record m { cur = there }
seek_to (negsuc k) m = overflowed m

unfoldable pub mseek : MBuf → ℤ → MBuf × Bool
unfolding seek_to
mseek m offset = let m' = seek_to (move m.cur offset) m in (m', was_broken m')

unfoldable pub tot_seek : MBuf → ℤ → MBuf × Bool
tot_seek m (pos offset) =
    if ltb_ℤ (pos offset) (to_int (dlen m))
    then (record m { cur = offset }, not (was_broken m))
    else (overflowed m, not (was_broken (overflowed m)))
tot_seek m (negsuc k) = (overflowed m, not (was_broken (overflowed m)))

-- `to_vector(rest)`
unfoldable pub to_vector : MBuf → Bool → List ℕ
to_vector m true = if dlen m == 0 then [] else bytes_at (rest_of_size m (negsuc 0)) m
to_vector m false = if m.rdon && m.cur == 0 then m.buf else take m.cur m.buf

-- `meminsert_start(what, len)`: a new buffer with `what` in front; its writes are `memwrite`s.
unfoldable pub meminsert_start : MBuf → List ℕ → MBuf × Bool
unfolding memwrite
meminsert_start m what =
    if m.rdon || length what == size_max
    then (m, false)
    else let grown = record m { buf = replicate (dlen m + length what) 0; cur = 0 } in
      let (front, _) = memwrite grown what in
      let (whole, _) = memwrite front m.buf in (record whole { cur = m.cur + length what }, true)
