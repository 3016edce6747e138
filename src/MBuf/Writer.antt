-- ===== src/MBuf/Writer.antt =====
-- Writing a packet: the buffer seen as the bytes written and the zeros to come.
use xibridge.Prelude.{
  ℕ, ◌+◌, ◌-◌, ◌≤◌, ◌<◌, ◌≡◌, sym, ap, ◌∙◌, false, List, ◌++◌, append_assoc, arith, length, take,
  drop, replicate, length-append, length-replicate, take-append, drop-append, drop-add,
  drop-replicate, le→ltb,
}
use xibridge.Wire.{Hex, put_stream1_4}
use xibridge.Wire.Sizes.{length-put_stream1_4}
use xibridge.MBuf.{MBuf, room, store, size_max, ◌<<◌, memwrite, to_vector}

abbrev pub filled : List ℕ → ℕ → MBuf
filled bs k = record { buf = bs ++ replicate k 0; cur = length bs; ovrflow = 0; rdon = false }

pub room-filled : (bs : List ℕ) (k : ℕ) → room (filled bs k) ≡ k
room-filled bs k = ground (arith, length-append bs (replicate k 0), length-replicate {A = ℕ} k 0)

pub store-filled :
    (bs xs : List ℕ) (k : ℕ)
    → length xs ≤ k
    → store xs (filled bs k) ≡ filled (bs ++ xs) (k - length xs)
store-filled bs xs k h =
    λ i. record { buf = whole i; cur = sym (length-append bs xs) i; ovrflow = 0; rdon = false }
  where
    whole :
        take (length bs) (bs ++ replicate k 0)
          ++ (xs ++ drop (length bs + length xs) (bs ++ replicate k 0))
        ≡ (bs ++ xs) ++ replicate (k - length xs) 0
    whole =
        rw (take-append bs (replicate k 0), drop-add (length bs) (length xs) (bs ++ replicate k 0))
          (rw (drop-append bs (replicate k 0), drop-replicate {A = ℕ} (length xs) k 0 h)
            (sym (append_assoc bs xs (replicate (k - length xs) 0))))

-- Any number that fits is appended in its byte order.
pub <<-filled :
    (bs : List ℕ) (k : ℕ) (h : Hex)
    → h.tsize ≤ k
    → filled bs k << h ≡ filled (bs ++ put_stream1_4 h h.value) (k - h.tsize)
unfolding ◌<<◌
<<-filled bs k h l =
    rw (room-filled bs k, le→ltb k h.tsize l)
      (store-filled bs (put_stream1_4 h h.value) k (omega (arith, length-put_stream1_4 h h.value))
        ∙ ap (λ n. filled (bs ++ put_stream1_4 h h.value) (k - n)) (length-put_stream1_4 h h.value))

pub memwrite-filled :
    (bs xs : List ℕ) (k : ℕ)
    → length xs ≤ k
    → length xs < size_max
    → (memwrite (filled bs k) xs).0 ≡ filled (bs ++ xs) (k - length xs)
unfolding memwrite
memwrite-filled bs xs k h l = ground (arith, room-filled bs k, store-filled bs xs k h)

pub to_vector-filled : (bs : List ℕ) (k : ℕ) → to_vector (filled bs k) false ≡ bs
unfolding to_vector
to_vector-filled bs k = take-append bs (replicate k 0)
