-- ===== src/Prelude/Bits.antt =====
-- Laws of the exclusive or at variables, from its lowest binary digit.
use Prim.Native.Nat.{
  ℕ, zero, suc, ◌+◌, ◌*◌, ◌/◌, ◌%◌, ◌≤◌, ◌<◌, ◌^◌, bit_xor, digits, differ, bit_xor-bitwise,
}
use mathlib.Core.Path.{◌≡◌, refl, sym, ap, ◌∙◌}
use native.Mathlib.Nat.{pow-suc, div-div-eq-div-mul}
use native.Mathlib.Omega.{arith}

abbrev xor_digits : ℕ → ℕ → ℕ → ℕ
xor_digits n a b = digits (λ b. b) differ n a b

xor_digits_fuel : (n m a b : ℕ) → a ≤ n → a ≤ m → xor_digits n a b ≡ xor_digits m a b
xor_digits_fuel zero zero a b p q = refl
xor_digits_fuel zero (suc m) zero b p q = refl
xor_digits_fuel zero (suc m) (suc a) b p q = absurd (omega arith)
xor_digits_fuel (suc n) zero zero b p q = refl
xor_digits_fuel (suc n) zero (suc a) b p q = absurd (omega arith)
xor_digits_fuel (suc n) (suc m) zero b p q = refl
xor_digits_fuel (suc n) (suc m) (suc a) b p q =
    omega (arith, xor_digits_fuel n m (suc a / 2) (b / 2) (omega arith) (omega arith))

pub zero-bit_xor : (b : ℕ) → bit_xor 0 b ≡ b
zero-bit_xor b = bit_xor-bitwise 0 b

-- The digits differ.
pub bit_xor_step : (a b : ℕ) → bit_xor a b ≡ bit_xor (a / 2) (b / 2) * 2 + differ (a % 2) (b % 2)
bit_xor_step zero b = omega (arith, zero-bit_xor b, zero-bit_xor (b / 2))
bit_xor_step (suc a) b = omega (
  arith,
  bit_xor-bitwise (suc a) b,
  bit_xor-bitwise (suc a / 2) (b / 2),
  xor_digits_fuel a (suc a / 2) (suc a / 2) (b / 2) (omega arith) (omega arith),
)

differ-eq : (x y : ℕ) → x < 2 → y < 2 → differ x y ≡ (x + y) % 2
differ-eq zero y h k = omega arith
differ-eq (suc zero) zero h k = omega arith
differ-eq (suc zero) (suc zero) h k = omega arith
differ-eq (suc zero) (suc (suc y)) h k = absurd (omega arith)
differ-eq (suc (suc x)) y h k = absurd (omega arith)

-- The lowest digit and the rest.
pub bit_xor-mod-two : (a b : ℕ) → bit_xor a b % 2 ≡ (a + b) % 2
bit_xor-mod-two a b =
    omega (arith, bit_xor_step a b, differ-eq (a % 2) (b % 2) (omega arith) (omega arith))

pub bit_xor-div-two : (a b : ℕ) → bit_xor a b / 2 ≡ bit_xor (a / 2) (b / 2)
bit_xor-div-two a b =
    omega (arith, bit_xor_step a b, differ-eq (a % 2) (b % 2) (omega arith) (omega arith))

-- What is crossed twice is as it was.
cancel_fuel : (n a b : ℕ) → a + b ≤ n → bit_xor (bit_xor a b) b ≡ a
cancel_fuel zero a b h =
    let e : a ≡ 0 = omega arith in let f : b ≡ 0 = omega arith in rw (e, f) refl
cancel_fuel (suc n) a b h = omega (
  arith,
  bit_xor-mod-two (bit_xor a b) b,
  bit_xor-mod-two a b,
  rw (bit_xor-div-two a b) at (bit_xor-div-two (bit_xor a b) b),
  cancel_fuel n (a / 2) (b / 2),
)

pub bit_xor_cancel : (a b : ℕ) → bit_xor (bit_xor a b) b ≡ a
bit_xor_cancel a b = cancel_fuel (a + b) a b (omega arith)

div-one : (a : ℕ) → a / 1 ≡ a
div-one a = omega arith

half_first : (a k : ℕ) → a / 2 ^ suc k ≡ a / 2 / 2 ^ k
half_first a k =
    ap (λ (d : ℕ). a / d) (omega (arith, pow-suc 2 k)) ∙ sym (div-div-eq-div-mul a 2 (2 ^ k))

-- The digits above the lowest k.
pub bit_xor-div-pow : (k a b : ℕ) → bit_xor a b / 2 ^ k ≡ bit_xor (a / 2 ^ k) (b / 2 ^ k)
bit_xor-div-pow zero a b = rw (div-one (bit_xor a b), div-one a, div-one b) refl
bit_xor-div-pow (suc k) a b =
    rw (half_first (bit_xor a b) k, half_first a k, half_first b k, bit_xor-div-two a b)
      (bit_xor-div-pow k (a / 2) (b / 2))

comm_fuel : (n a b : ℕ) → a + b ≤ n → bit_xor a b ≡ bit_xor b a
comm_fuel zero a b h = let e : a ≡ 0 = omega arith in let f : b ≡ 0 = omega arith in rw (e, f) refl
comm_fuel (suc n) a b h = omega (
  arith,
  bit_xor-mod-two a b,
  bit_xor-mod-two b a,
  bit_xor-div-two a b,
  bit_xor-div-two b a,
  comm_fuel n (a / 2) (b / 2),
)

pub bit_xor_comm : (a b : ℕ) → bit_xor a b ≡ bit_xor b a
bit_xor_comm a b = comm_fuel (a + b) a b (omega arith)

pub bit_xor-zero : (a : ℕ) → bit_xor a 0 ≡ a
bit_xor-zero a = bit_xor_comm a 0 ∙ zero-bit_xor a

-- Equal digits cancel.
pub bit_xor_self : (a : ℕ) → bit_xor a a ≡ 0
bit_xor_self a = ap (λ (x : ℕ). bit_xor x a) (sym (zero-bit_xor a)) ∙ bit_xor_cancel 0 a
