-- ===== src/MBuf/Valid.antt =====
-- MBuf never leaves its memory: the pointer stays inside the buffer, and the buffer keeps its size.
use xibridge.Prelude.{
  ℕ, ◌+◌, ◌%◌, ◌^◌, ◌≤◌, ◌<◌, ◌≡◌, refl, ◌∙◌, Bool, List, [], ◌∷◌, ◌++◌, arith, length, take, drop,
  length-append, length-take-le, length-drop, ℤ, pos, negsuc,
}
use xibridge.Wire.{Hex, hex8, hex32, hex24, hex16, put_stream1_4}
use xibridge.Wire.Sizes.{length-put_stream1_4}
use xibridge.MBuf.Copies.{put_mbuf}
use xibridge.MBuf.{
  MBuf, dlen, store, ◌<<◌, put8, get32, get24, get16, get8, memwrite, memread, mseek, tot_seek,
  rest_of_size,
}

pub record IsValid (m : MBuf) : Type 0 where
  pub inside : m.cur ≤ dlen m
  pub small : dlen m < 2 ^ 31

dlen-store : (m : MBuf) (bs : List ℕ) → m.cur + length bs ≤ dlen m → dlen (store bs m) ≡ dlen m
dlen-store m bs h = omega (
  arith,
  length-append (take m.cur m.buf) (bs ++ drop (m.cur + length bs) m.buf),
  length-append bs (drop (m.cur + length bs) m.buf),
  length-take-le m.cur m.buf,
  length-drop (m.cur + length bs) m.buf,
)

-- What every operation promises: the buffer stays valid, of the same size.
abbrev pub Keeps : MBuf → MBuf → Type 0
Keeps m m' = IsValid m' × (dlen m' ≡ dlen m)

store-Keeps :
    (m : MBuf) (bs : List ℕ) → IsValid m → m.cur + length bs ≤ dlen m → Keeps m (store bs m)
store-Keeps m bs v h = omega (arith, dlen-store m bs h)

pub <<-Keeps : (m : MBuf) (h : Hex) → IsValid m → Keeps m (m << h)
unfolding ◌<<◌
<<-Keeps m h v =
    ground (arith, store-Keeps m (put_stream1_4 h h.value) v, length-put_stream1_4 h h.value)

pub put8-Keeps : (m : MBuf) (h : Hex) → IsValid m → Keeps m (put8 m h)
unfolding put8
put8-Keeps m h v = ground (arith, store-Keeps m (h.value % 256 ∷ []) v)

pub memwrite-Keeps : (m : MBuf) (bs : List ℕ) → IsValid m → Keeps m (memwrite m bs).0
unfolding memwrite
memwrite-Keeps m bs v = ground (arith, store-Keeps m bs v)

pub get32-Keeps : (m : MBuf) (h : Hex) → h.tsize ≡ 4 → IsValid m → Keeps m (get32 m h).1
unfolding get32
get32-Keeps m h e v = ground arith

pub get16-Keeps : (m : MBuf) (h : Hex) → h.tsize ≡ 2 → IsValid m → Keeps m (get16 m h).1
unfolding get16
get16-Keeps m h e v = ground arith

pub get24-Keeps : (m : MBuf) (h : Hex) → h.tsize ≡ 3 → IsValid m → Keeps m (get24 m h).1
unfolding get24
get24-Keeps m h e v = ground arith

pub get8-Keeps : (m : MBuf) (h : Hex) → h.tsize ≡ 1 → IsValid m → Keeps m (get8 m h).1
unfolding get8
get8-Keeps m h e v = ground arith

pub mseek-Keeps_pos :
    (m : MBuf) (k : ℕ) → m.cur + k < 2 ^ 31 → IsValid m → Keeps m (mseek m (pos k)).0
unfolding mseek
mseek-Keeps_pos m k h v = ground arith

pub mseek-Keeps_neg : (m : MBuf) (k : ℕ) → IsValid m → Keeps m (mseek m (negsuc k)).0
unfolding mseek
mseek-Keeps_neg m k v = ground arith

-- If the int sum of the position and the offset overflows, `mseek` reports nothing and leaves the
-- buffer behind: the pointer is outside its memory.
pub mseek_escapes :
    (m : MBuf) (k : ℕ)
    → IsValid m
    → k < 2 ^ 31
    → 2 ^ 31 ≤ m.cur + k
    → ((mseek m (pos k)).0.ovrflow ≡ m.ovrflow) × (dlen m < (mseek m (pos k)).0.cur)
unfolding mseek
mseek_escapes m k v h e = ground arith

pub memread-Keeps : (m : MBuf) (dest_len len : ℕ) → IsValid m → Keeps m (memread m dest_len len).1
unfolding memread rest_of_size
memread-Keeps m dest_len len v = ground arith

pub tot_seek-Keeps : (m : MBuf) (offset : ℤ) → IsValid m → Keeps m (tot_seek m offset).0
unfolding tot_seek
tot_seek-Keeps m (pos k) v = ground arith
tot_seek-Keeps m (negsuc k) v = ground arith

pub put_mbuf-Keeps : (m src : MBuf) → IsValid src → IsValid m → Keeps m (put_mbuf m src)
unfolding put_mbuf rest_of_size
put_mbuf-Keeps m src s v =
    ground (arith, store-Keeps m (take src.cur src.buf) v, length-take-le src.cur src.buf)

-- A client's calls on one buffer. The seeks from the position are those whose sum fits an int.
pub data Call : Type 0 where
  put32 : ℕ → Bool → Call
  put16 : ℕ → Bool → Call
  put24 : ℕ → Bool → Call
  put_byte : ℕ → Call
  put_other : MBuf → Call
  read32 : Hex → Call
  read24 : Hex → Call
  read16 : Hex → Call
  read8 : Hex → Call
  read : ℕ → ℕ → Call
  write : List ℕ → Call
  seek : ℤ → Call
  total_seek : ℤ → Call

abbrev pub Fits : MBuf → Call → Type 0
Fits m (read32 h) = h.tsize ≡ 4
Fits m (read24 h) = h.tsize ≡ 3
Fits m (read16 h) = h.tsize ≡ 2
Fits m (read8 h) = h.tsize ≡ 1
Fits m (put_other src) = IsValid src
Fits m (seek (pos k)) = m.cur + k < 2 ^ 31
Fits m _ = Unit

unfoldable pub call : MBuf → Call → MBuf
call m (put32 v lend) = m << hex32 v lend
call m (put16 v lend) = m << hex16 v lend
call m (put24 v lend) = m << hex24 v lend
call m (put_other src) = put_mbuf m src
call m (put_byte v) = put8 m (hex8 v)
call m (read32 h) = (get32 m h).1
call m (read24 h) = (get24 m h).1
call m (read16 h) = (get16 m h).1
call m (read8 h) = (get8 m h).1
call m (read dest_len len) = (memread m dest_len len).1
call m (write bs) = (memwrite m bs).0
call m (seek offset) = (mseek m offset).0
call m (total_seek offset) = (tot_seek m offset).0

pub call-Keeps : (m : MBuf) (c : Call) → Fits m c → IsValid m → Keeps m (call m c)
unfolding call
call-Keeps m (put32 v lend) f h = <<-Keeps m (hex32 v lend) h
call-Keeps m (put16 v lend) f h = <<-Keeps m (hex16 v lend) h
call-Keeps m (put24 v lend) f h = <<-Keeps m (hex24 v lend) h
call-Keeps m (put_other src) f h = put_mbuf-Keeps m src f h
call-Keeps m (put_byte v) f h = put8-Keeps m (hex8 v) h
call-Keeps m (read32 g) f h = get32-Keeps m g f h
call-Keeps m (read24 g) f h = get24-Keeps m g f h
call-Keeps m (read16 g) f h = get16-Keeps m g f h
call-Keeps m (read8 g) f h = get8-Keeps m g f h
call-Keeps m (read dest_len len) f h = memread-Keeps m dest_len len h
call-Keeps m (write bs) f h = memwrite-Keeps m bs h
call-Keeps m (seek (pos k)) f h = mseek-Keeps_pos m k f h
call-Keeps m (seek (negsuc k)) f h = mseek-Keeps_neg m k h
call-Keeps m (total_seek offset) f h = tot_seek-Keeps m offset h

abbrev pub AllFit : MBuf → List Call → Type 0
AllFit m [] = Unit
AllFit m (c ∷ cs) = Fits m c × AllFit (call m c) cs

unfoldable pub calls : MBuf → List Call → MBuf
calls m [] = m
calls m (c ∷ cs) = calls (call m c) cs

-- Numbers of 8 to 32 bits, runs of bytes and valid other buffers written to a valid buffer, numbers and runs of
-- bytes read from it, and moves in it by mseek and tot_seek, in any order, leave the position inside the buffer and the
-- buffer of the same size. A number read has the size of its type, and the sum that mseek moves to fits an int.
-- The calls meminsert_start, which make the buffer longer, are not among them.
pub calls-Keeps : (m : MBuf) (cs : List Call) → AllFit m cs → IsValid m → Keeps m (calls m cs)
unfolding calls
calls-Keeps m [] f h = (h, refl)
calls-Keeps m (c ∷ cs) (f, fs) h =
    let (h', e) = call-Keeps m c f h in
    let (h'', e') = calls-Keeps (call m c) cs fs h' in (h'', e' ∙ e)
