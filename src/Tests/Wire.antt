-- ===== src/Tests/Wire.antt =====
-- Numbers and byte order.
use xibridge.Prelude.{◌≡◌, refl, true, false, [], ◌∷◌}
use xibridge.Wire.{hex32, put_stream1_4}

big_word : put_stream1_4 (hex32 0 false) 0x0a0b0c0d ≡ 0x0a ∷ 0x0b ∷ 0x0c ∷ 0x0d ∷ []
unfolding put_stream1_4
big_word = refl

little_word : put_stream1_4 (hex32 0 true) 0x0a0b0c0d ≡ 0x0d ∷ 0x0c ∷ 0x0b ∷ 0x0a ∷ []
unfolding put_stream1_4
little_word = refl
