-- ===== src/DevId/Coding.antt =====
-- The twelve bytes of a device identifier: what HexIDev3 writes is what it reads.
use xibridge.Prelude.{
  ℕ, ◌-◌, ◌%◌, ◌^◌, ◌≤◌, ◌≡◌, ap, ◌∙◌, false, List, ◌++◌, append_assoc, arith, some,
}
use xibridge.Wire.{hex16, hex32, put_stream1_4}
use xibridge.Wire.RoundTrip.{be16, be32}
use xibridge.MBuf.{◌<<◌}
use xibridge.MBuf.Reader.{reader, big16, big32, get16-reader, get32-reader}
use xibridge.MBuf.Writer.{filled, <<-filled}
use xibridge.DevId.{
  DevId, IsDevId, HexIDev3, hex_idev3, put_idev3, get_idev3, to_dev_id, add_uint32_2_bvector,
  add_uint16_2_bvector, add_dev_id_bvector_net_order,
}

-- reserve, VID, PID and id, each in network order
abbrev pub idev_bytes : DevId → List ℕ
idev_bytes d = be32 d.reserve ++ (be16 d.vid ++ (be16 d.pid ++ be32 d.id))

-- A big-endian identifier that holds `d`.
abbrev pub big_idev3 : DevId → HexIDev3
big_idev3 d = record {
  id_value = big32 d.id;
  id_pid = big16 d.pid;
  id_vid = big16 d.vid;
  reserve = big32 d.reserve;
  lend = false;
}

-- The fields as their types hold them.
abbrev pub truncated : DevId → DevId
truncated d = record {
  id = d.id % 2 ^ 32;
  pid = d.pid % 2 ^ 16;
  vid = d.vid % 2 ^ 16;
  reserve = d.reserve % 2 ^ 32;
}

pub put32-bytes : (v : ℕ) → put_stream1_4 (hex32 v false) (v % 2 ^ 32) ≡ be32 v
unfolding put_stream1_4
put32-bytes v = ground arith

pub put16-bytes : (v : ℕ) → put_stream1_4 (hex16 v false) (v % 2 ^ 16) ≡ be16 v
unfolding put_stream1_4
put16-bytes v = ground arith

-- A 32-bit number in network order joins what is written.
pub <<-be32 :
    (bs : List ℕ) (k v : ℕ) → 4 ≤ k → filled bs k << hex32 v false ≡ filled (bs ++ be32 v) (k - 4)
<<-be32 bs k v h =
    <<-filled bs k (hex32 v false) h ∙ ap (λ b. filled (bs ++ b) (k - 4)) (put32-bytes v)

pub <<-be16 :
    (bs : List ℕ) (k v : ℕ) → 2 ≤ k → filled bs k << hex16 v false ≡ filled (bs ++ be16 v) (k - 2)
<<-be16 bs k v h =
    <<-filled bs k (hex16 v false) h ∙ ap (λ b. filled (bs ++ b) (k - 2)) (put16-bytes v)

pub put_idev3-filled :
    (bs : List ℕ) (k : ℕ) (d : DevId)
    → 12 ≤ k
    → put_idev3 (filled bs k) (hex_idev3 (some d) false) ≡ filled (bs ++ idev_bytes d) (k - 12)
unfolding put_idev3
put_idev3-filled bs k d h =
    rw
      (
        <<-be32 bs k d.reserve (omega arith),
        <<-be16 (bs ++ be32 d.reserve) (k - 4) d.vid (omega arith),
        <<-be16 ((bs ++ be32 d.reserve) ++ be16 d.vid) (k - 4 - 2) d.pid (omega arith),
        <<-be32 (((bs ++ be32 d.reserve) ++ be16 d.vid) ++ be16 d.pid) (k - 4 - 2 - 2) d.id
            (omega arith),
      )
      (simp append_assoc (rw spare))
  where
    spare : k - 4 - 2 - 2 - 4 ≡ k - 12
    spare = omega arith

-- Reading twelve bytes that HexIDev3 wrote.
pub get_idev3-reader :
    (old d : DevId) (done rest : List ℕ)
    → get_idev3 (reader done (idev_bytes d ++ rest)) (big_idev3 old)
      ≡ (big_idev3 (truncated d), reader (done ++ idev_bytes d) rest)
unfolding get_idev3
get_idev3-reader old d done rest =
    rw
      (
        get32-reader old.reserve d.reserve done (be16 d.vid ++ (be16 d.pid ++ (be32 d.id ++ rest))),
        get16-reader old.vid d.vid (done ++ be32 d.reserve) (be16 d.pid ++ (be32 d.id ++ rest)),
        get16-reader old.pid d.pid ((done ++ be32 d.reserve) ++ be16 d.vid) (be32 d.id ++ rest),
        get32-reader old.id d.id (((done ++ be32 d.reserve) ++ be16 d.vid) ++ be16 d.pid) rest,
      )
      (ap (λ front. (big_idev3 (truncated d), reader front rest)) (simp append_assoc))

pub add_uint32_2_bvector-be32 : (bv : List ℕ) (v : ℕ) → add_uint32_2_bvector bv v ≡ bv ++ be32 v
unfolding add_uint32_2_bvector
add_uint32_2_bvector-be32 bv v = simp append_assoc (ap (λ b. bv ++ b) (ground arith))

add_uint16_2_bvector-be16 : (bv : List ℕ) (v : ℕ) → add_uint16_2_bvector bv v ≡ bv ++ be16 v
unfolding add_uint16_2_bvector
add_uint16_2_bvector-be16 bv v = simp append_assoc (ap (λ b. bv ++ b) (ground arith))

-- `add_dev_id_bvector_net_order` appends the same twelve bytes that HexIDev3 writes.
pub add_dev_id_bvector_net_order-idev_bytes :
    (bv : List ℕ) (d : DevId) → add_dev_id_bvector_net_order bv d ≡ bv ++ idev_bytes d
unfolding add_dev_id_bvector_net_order
add_dev_id_bvector_net_order-idev_bytes bv d =
    simp (add_uint32_2_bvector-be32, add_uint16_2_bvector-be16, append_assoc)

-- The fields of a device identifier lose nothing.
pub to_dev_id-big_idev3 : (d : DevId) → IsDevId d → to_dev_id (big_idev3 (truncated d)) ≡ d
to_dev_id-big_idev3 d v = ground arith
