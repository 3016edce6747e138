-- ===== src/Tests/Buffers.antt =====
-- A small buffer: writing, reading, seeking.
use xibridge.Prelude.{◌-◌, ◌^◌, ◌<◌, ◌≡◌, refl, true, false, List, [], ◌∷◌, arith, pos, negsuc}
use xibridge.Wire.{hex32, put_stream1_4}
use xibridge.MBuf.{MBuf, mbuf_new, mseek, to_vector, ◌<<◌}
use xibridge.MBuf.Valid.{
  Keeps, Call, put32, put_byte, seek, read, total_seek, write, calls, calls-Keeps, mseek_escapes,
}

abbrev small : MBuf
small = mbuf_new 10 false

abbrev script : List Call
script = put32 7 false ∷ seek (pos 2) ∷ put32 1 true ∷ write (1 ∷ 2 ∷ []) ∷ seek (negsuc 3) ∷ []

script_bytes : to_vector (small << hex32 258 false) false ≡ 0 ∷ 0 ∷ 1 ∷ 2 ∷ []
unfolding ◌<<◌ to_vector put_stream1_4
script_bytes = refl

calls-Keeps_example : Keeps small (
    calls small (
      put32 7 false
      ∷ put_byte 9
      ∷ write (1 ∷ 2 ∷ [])
      ∷ seek (negsuc 3)
      ∷ read 8 2
      ∷ total_seek (pos 1)
      ∷ []))
calls-Keeps_example =
    calls-Keeps small
      (put32 7 false
        ∷ put_byte 9
        ∷ write (1 ∷ 2 ∷ [])
        ∷ seek (negsuc 3)
        ∷ read 8 2
        ∷ total_seek (pos 1)
        ∷ [])
      (omega arith) (omega arith)

abbrev behind_header : MBuf
behind_header = record small { cur = 4 }

mseek_escapes_example :
    ((mseek behind_header (pos (2 ^ 31 - 1))).0.ovrflow ≡ 0)
    × (10 < (mseek behind_header (pos (2 ^ 31 - 1))).0.cur)
mseek_escapes_example =
    mseek_escapes behind_header (2 ^ 31 - 1) (omega arith) (omega arith) (omega arith)
