-- ===== src/MBuf/Copies.antt =====
-- common/utils.cpp: what else is written to an MBuf, the bytes written to another one, and two bytes in front. The
-- positions are taken to fit an int.
use xibridge.Prelude.{
  ℕ, suc, ◌+◌, ◌%◌, ◌<◌, ◌≡◌, refl, sym, ap, ◌∙◌, Bool, true, false, ◌||◌, List, [], ◌∷◌,
  if◌then◌else◌, ltb, ◌==◌, take, replicate, negsuc, arith, length-replicate,
}
use xibridge.Wire.{hex8}
use xibridge.MBuf.{
  MBuf, dlen, size_max, overflowed, room, store, put8, memwrite, rest_of_size, meminsert_start,
}

abbrev pub real_size : MBuf → ℕ
real_size m = m.cur

-- `operator <<` of an MBuf. It does not test whether the buffer is read-only.
unfoldable pub put_mbuf : MBuf → MBuf → MBuf
put_mbuf m src =
    let rest = rest_of_size m (negsuc 0) in
    if ltb rest (real_size src) || rest == size_max
    then overflowed m
    else store (take (real_size src) src.buf) m

-- `meminsert_start(num1, num2)`
unfoldable pub meminsert_start_two : MBuf → ℕ → ℕ → MBuf × Bool
meminsert_start_two m num1 num2 =
    if m.rdon
    then (m, false)
    else let grown = record m { buf = replicate (dlen m + 2) 0; cur = 0 } in
      let front = put8 (put8 grown (hex8 num1)) (hex8 num2) in
      let (whole, _) = memwrite front m.buf in (record whole { cur = m.cur + 2 }, true)

-- A byte that finds room.
put_byte :
    (buf : List ℕ) (cur o v : ℕ)
    → let m : MBuf = record { buf = buf; cur = cur; ovrflow = o; rdon = false } in
      ltb (room m) 1 ≡ false → v < 256 → put8 m (hex8 v) ≡ store (v ∷ []) m
unfolding put8
put_byte buf cur o v r h = rw r (
    ap (λ x. store (x ∷ []) (record { buf = buf; cur = cur; ovrflow = o; rdon = false }))
      (small v h))
  where
    small : (x : ℕ) → x < 256 → x % 256 % 256 ≡ x
    small x l = omega arith

-- The new buffer, long enough for both bytes.
abbrev grown : ℕ → ℕ → MBuf
grown n o = record { buf = 0 ∷ 0 ∷ replicate n 0; cur = 0; ovrflow = o; rdon = false }

two_bytes :
    (n o a b : ℕ)
    → a < 256
    → b < 256
    → put8 (put8 (grown n o) (hex8 a)) (hex8 b) ≡ (memwrite (grown n o) (a ∷ b ∷ [])).0
unfolding memwrite
two_bytes n o a b h i =
    ap (λ x. put8 x (hex8 b))
      (put_byte (0 ∷ 0 ∷ replicate n 0) 0 o a (ground (arith, length-replicate {A = ℕ} n 0)) h)
    ∙ put_byte (a ∷ 0 ∷ replicate n 0) 1 o b (ground (arith, length-replicate {A = ℕ} n 0)) i
    ∙ sym (ap chosen enough)
  where
    chosen : Bool → MBuf
    chosen c =
        let r : MBuf × ℕ =
          if c then (overflowed (grown n o), 0) else (store (a ∷ b ∷ []) (grown n o), 2) in
        r.0

    enough : ltb (room (grown n o)) 2 ≡ false
    enough = ground (arith, length-replicate {A = ℕ} n 0)

-- The old bytes behind what is in front.
abbrev behind_front : MBuf → MBuf → MBuf × Bool
behind_front m front =
    let (whole, _) = memwrite front m.buf in (record whole { cur = m.cur + 2 }, true)

empty_buffer : ℕ → ℕ → MBuf
empty_buffer n o = record { buf = replicate n 0; cur = 0; ovrflow = o; rdon = false }

empty_buffer-grown : (n o : ℕ) → empty_buffer (n + 2) o ≡ grown n o
unfolding empty_buffer
empty_buffer-grown n o = ap (λ (k : ℕ). empty_buffer k o) two_more
  where
    two_more : n + 2 ≡ suc (suc n)
    two_more = omega arith

as_text :
    (m : MBuf) (a b : ℕ)
    → m.rdon ≡ false
    → meminsert_start m (a ∷ b ∷ [])
      ≡ behind_front m (memwrite (empty_buffer (dlen m + 2) m.ovrflow) (a ∷ b ∷ [])).0
unfolding meminsert_start memwrite empty_buffer
as_text m a b e = rw e refl

one_by_one :
    (m : MBuf) (a b : ℕ)
    → m.rdon ≡ false
    → meminsert_start_two m a b
      ≡ behind_front m (put8 (put8 (empty_buffer (dlen m + 2) m.ovrflow) (hex8 a)) (hex8 b))
unfolding meminsert_start_two empty_buffer
one_by_one m a b e = rw e refl

-- Two bytes put in front one by one give the buffer that meminsert_start makes of them as one text.
pub meminsert_start_two-meminsert_start :
    (m : MBuf) (a b : ℕ)
    → a < 256
    → b < 256
    → m.rdon ≡ false
    → meminsert_start_two m a b ≡ meminsert_start m (a ∷ b ∷ [])
meminsert_start_two-meminsert_start m a b h i e =
    one_by_one m a b e
    ∙ ap (λ x. behind_front m (put8 (put8 x (hex8 a)) (hex8 b)))
        (empty_buffer-grown (dlen m) m.ovrflow)
    ∙ ap (behind_front m) (two_bytes (dlen m) m.ovrflow a b h i)
    ∙ sym (
        as_text m a b e
        ∙ ap (λ x. behind_front m (memwrite x (a ∷ b ∷ [])).0)
            (empty_buffer-grown (dlen m) m.ovrflow))
