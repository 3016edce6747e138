-- ===== src/Protocol/Frame.antt =====
-- Words in network order, as a chain of `<<` lays them out.
use xibridge.Prelude.{
  ℕ, suc, ◌-◌, ◌*◌, ◌≤◌, ◌<◌, ◌≡◌, sym, false, List, [], ◌∷◌, ◌++◌, append-nil, append_assoc, arith,
  Option, none, some, length,
}
use xibridge.Wire.{hex32}
use xibridge.Wire.RoundTrip.{be32}
use xibridge.MBuf.{MBuf, size_max, ◌<<◌}
use xibridge.MBuf.Writer.{filled, memwrite-filled}
use xibridge.DevId.Coding.{<<-be32}
use xibridge.Protocol.V1.{size_of, write_data}

abbrev pub words : List ℕ → List ℕ
words [] = []
words (v ∷ vs) = be32 v ++ words vs

-- m << v₁ << v₂ << …
abbrev pub put_words : MBuf → List ℕ → MBuf
put_words m [] = m
put_words m (v ∷ vs) = put_words (m << hex32 v false) vs

pub put_words-filled :
    (vs bs : List ℕ) (k : ℕ)
    → 4 * length vs ≤ k
    → put_words (filled bs k) vs ≡ filled (bs ++ words vs) (k - 4 * length vs)
put_words-filled [] bs k h = λ i. filled (sym (append-nil bs) i) (spare i)
  where
    spare : k ≡ k - 4 * 0
    spare = omega arith
put_words-filled (v ∷ vs) bs k h =
    rw (<<-be32 bs k v (omega arith), put_words-filled vs (bs ++ be32 v) (k - 4) (omega arith))
      (λ i. filled (append_assoc bs (be32 v) (words vs) i) (spare i))
  where
    spare : k - 4 - 4 * length vs ≡ k - 4 * suc (length vs)
    spare = omega arith

-- The bytes of an optional vector.
abbrev pub bytes_of : Option (List ℕ) → List ℕ
bytes_of none = []
bytes_of (some bytes) = bytes

pub write_data-filled :
    (bs : List ℕ) (k : ℕ) (bytes : Option (List ℕ))
    → size_of bytes ≤ k
    → size_of bytes < size_max
    → write_data (filled bs k) bytes ≡ filled (bs ++ bytes_of bytes) (k - size_of bytes)
unfolding write_data
write_data-filled bs k none h l = λ i. filled (sym (append-nil bs) i) (spare i)
  where
    spare : k ≡ k - 0
    spare = omega arith
write_data-filled bs k (some bytes) h l = memwrite-filled bs bytes k h l
