-- ===== src/Serial/Crc/Detection.antt =====
-- What the check sum detects.
use xibridge.Prelude.{
  ℕ, zero, suc, ◌/◌, ◌%◌, ◌^◌, ◌<◌, ◌≡◌, ◌≢◌, refl, sym, ap, ◌∙◌, List, [], ◌∷◌, ◌++◌, arith,
  bit_xor, bit_xor_cancel, bit_xor_comm, bit_xor-div-pow, ◌⊎◌, inl, inr,
}
use xibridge.Serial.Crc.{shift_crc, shifts, add_byte, add_bytes, get_crc}

-- The polynomial sets the highest of sixteen digits.
poly_high : (x : ℕ) → x < 2 ^ 15 → bit_xor x 0xA001 / 2 ^ 15 ≡ 1
poly_high x h =
    let low : x / 2 ^ 15 ≡ 0 = omega arith in
    bit_xor-div-pow 15 x 0xA001 ∙ ap (λ y. bit_xor y (0xA001 / 2 ^ 15)) low

shift_crc_odd : (c : ℕ) → c % 2 ≡ 1 → shift_crc c ≡ bit_xor (c / 2) 0xA001
unfolding shift_crc
shift_crc_odd c h = ground arith

pub shift_crc_even : (c : ℕ) → c % 2 ≡ 0 → shift_crc c ≡ c / 2
unfolding shift_crc
shift_crc_even c h = ground arith

shift_crc_bound : (c : ℕ) → c < 2 ^ 16 → shift_crc c < 2 ^ 16
unfolding shift_crc
shift_crc_bound c h = ground (arith, poly_high (c / 2))

-- Different contents of the register stay different.
shift_crc_inj : (c d : ℕ) → c < 2 ^ 16 → d < 2 ^ 16 → shift_crc c ≡ shift_crc d → c ≡ d
shift_crc_inj c d h k e = go (parity c) (parity d)
  where
    parity : (x : ℕ) → (x % 2 ≡ 0) ⊎ (x % 2 ≡ 1)
    parity x = grind arith

    go : (c % 2 ≡ 0) ⊎ (c % 2 ≡ 1) → (d % 2 ≡ 0) ⊎ (d % 2 ≡ 1) → c ≡ d
    go (inl p) (inl q) = omega (arith, shift_crc_even c p, shift_crc_even d q, e)
    go (inl p) (inr q) =
        absurd
          (omega (arith, shift_crc_even c p, shift_crc_odd d q, poly_high (d / 2) (omega arith), e))
    go (inr p) (inl q) =
        absurd
          (omega (arith, shift_crc_odd c p, shift_crc_even d q, poly_high (c / 2) (omega arith), e))
    go (inr p) (inr q) = omega (
      arith,
      bit_xor_cancel (c / 2) 0xA001,
      bit_xor_cancel (d / 2) 0xA001,
      ap (λ (x : ℕ). bit_xor x 0xA001) (sym (shift_crc_odd c p) ∙ (e ∙ shift_crc_odd d q)),
    )

shifts_bound : (n c : ℕ) → c < 2 ^ 16 → shifts n c < 2 ^ 16
shifts_bound zero c h = h
shifts_bound (suc n) c h = shifts_bound n (shift_crc c) (shift_crc_bound c h)

shifts_inj : (n c d : ℕ) → c < 2 ^ 16 → d < 2 ^ 16 → shifts n c ≡ shifts n d → c ≡ d
shifts_inj zero c d h k e = e
shifts_inj (suc n) c d h k e =
    shift_crc_inj c d h k
      (shifts_inj n (shift_crc c) (shift_crc d) (shift_crc_bound c h) (shift_crc_bound d k) e)

xor_bound : (a b : ℕ) → a < 2 ^ 16 → b < 2 ^ 16 → bit_xor a b < 2 ^ 16
xor_bound a b h k =
    let e : a / 2 ^ 16 ≡ 0 = omega arith in
    let f : b / 2 ^ 16 ≡ 0 = omega arith in omega (arith, rw (e, f) at (bit_xor-div-pow 16 a b))

add_byte_bound : (c b : ℕ) → c < 2 ^ 16 → b < 256 → add_byte c b < 2 ^ 16
unfolding add_byte
add_byte_bound c b h k = shifts_bound 8 (bit_xor c b) (xor_bound c b h (omega arith))

-- A byte for a byte: another register, or another byte, gives another register.
add_byte_inj_left :
    (c d b : ℕ) → c < 2 ^ 16 → d < 2 ^ 16 → b < 256 → add_byte c b ≡ add_byte d b → c ≡ d
unfolding add_byte
add_byte_inj_left c d b h k l e =
    sym (bit_xor_cancel c b)
    ∙ (ap (λ (x : ℕ). bit_xor x b)
          (shifts_inj 8 (bit_xor c b) (bit_xor d b) (xor_bound c b h (omega arith))
            (xor_bound d b k (omega arith)) e)
        ∙ bit_xor_cancel d b)

add_byte_inj_right :
    (c b b' : ℕ) → c < 2 ^ 16 → b < 256 → b' < 256 → add_byte c b ≡ add_byte c b' → b ≡ b'
unfolding add_byte
add_byte_inj_right c b b' h k l e =
    sym (bit_xor_cancel b c)
    ∙ (ap (λ (x : ℕ). bit_xor x c)
          (bit_xor_comm b c
            ∙ (shifts_inj 8 (bit_xor c b) (bit_xor c b') (xor_bound c b h (omega arith))
                  (xor_bound c b' h (omega arith)) e
                ∙ bit_xor_comm c b'))
        ∙ bit_xor_cancel b' c)

abbrev pub AreBytes : List ℕ → Type 0
AreBytes [] = Unit {0}
AreBytes (b ∷ bs) = (b < 256) × AreBytes bs

add_bytes_bound : (c : ℕ) (bs : List ℕ) → c < 2 ^ 16 → AreBytes bs → add_bytes c bs < 2 ^ 16
add_bytes_bound c [] h v = h
add_bytes_bound c (b ∷ bs) h v = add_bytes_bound (add_byte c b) bs (add_byte_bound c b h v.0) v.1

add_bytes_inj :
    (c d : ℕ) (bs : List ℕ)
    → c < 2 ^ 16
    → d < 2 ^ 16
    → AreBytes bs
    → add_bytes c bs ≡ add_bytes d bs
    → c ≡ d
add_bytes_inj c d [] h k v e = e
add_bytes_inj c d (b ∷ bs) h k v e = add_byte_inj_left c d b h k v.0 (
    add_bytes_inj (add_byte c b) (add_byte d b) bs (add_byte_bound c b h v.0)
      (add_byte_bound d b k v.0) v.1 e)

pub add_bytes-append :
    (c : ℕ) (xs ys : List ℕ) → add_bytes c (xs ++ ys) ≡ add_bytes (add_bytes c xs) ys
add_bytes-append c [] ys = refl
add_bytes-append c (x ∷ xs) ys = add_bytes-append (add_byte c x) xs ys

-- The check sum is a number of sixteen digits.
pub get_crc_bound : (bs : List ℕ) → AreBytes bs → get_crc bs < 2 ^ 16
unfolding get_crc
get_crc_bound bs v = add_bytes_bound 0xffff bs (omega arith) v

-- Two messages of bytes that differ in one byte alone have different check sums.
pub get_crc_detects :
    (xs ys : List ℕ) (b b' : ℕ)
    → AreBytes xs
    → AreBytes ys
    → b < 256
    → b' < 256
    → b ≢ b'
    → get_crc (xs ++ b ∷ ys) ≢ get_crc (xs ++ b' ∷ ys)
unfolding get_crc
get_crc_detects xs ys b b' vx vy h k ne e = ne (
    add_byte_inj_right start b b' bound h k (
      add_bytes_inj (add_byte start b) (add_byte start b') ys (add_byte_bound start b bound h)
        (add_byte_bound start b' bound k) vy
        (sym (add_bytes-append 0xffff xs (b ∷ ys)) ∙ (e ∙ add_bytes-append 0xffff xs (b' ∷ ys)))))
  where
    start : ℕ
    start = add_bytes 0xffff xs

    bound : start < 2 ^ 16
    bound = add_bytes_bound 0xffff xs (omega arith) vx
