-- ===== src/Common/Bits.antt =====
-- The laws of `bit_xor` at every width, from the digit recursion that the native operation
-- stands for. Each law goes from the halves of its numbers to the numbers, on fuel.
use Prim.Native.Nat.{ℕ, zero, suc, ◌+◌, ◌*◌, ◌/◌, ◌%◌, ◌^◌, ◌≤◌, ◌<◌, bit_xor}
use Prim.Native.Nat.{digits, bit_xor-bitwise, differ}
use mathlib.Core.Path.{◌≡◌, refl}
use native.Mathlib.Nat.{pow-suc}
use native.Mathlib.Omega.{arith}

xor_digits : ℕ → ℕ → ℕ → ℕ
xor_digits n a b = digits (λ b. b) differ n a b

digits_enough : (k l x y : ℕ) → x ≤ l → x ≤ k → xor_digits l x y ≡ xor_digits k x y
unfolding xor_digits
digits_enough (suc k) (suc l) (suc x) y p q =
    omega (arith, digits_enough k l (suc x / 2) (y / 2) (omega arith) (omega arith))
digits_enough (suc k) (suc l) zero y p q = refl
digits_enough zero (suc l) zero y p q = refl
digits_enough zero l (suc x) y p q = absurd (omega arith)
digits_enough (suc k) zero zero y p q = refl
digits_enough (suc k) zero (suc x) y p q = absurd (omega arith)
digits_enough zero zero zero y p q = refl

differ-eq-mod : (x y : ℕ) → x < 2 → y < 2 → differ x y ≡ (x + y) % 2
differ-eq-mod zero zero p q = refl
differ-eq-mod zero (suc zero) p q = refl
differ-eq-mod (suc zero) zero p q = refl
differ-eq-mod (suc zero) (suc zero) p q = refl
differ-eq-mod (suc (suc x)) y p q = absurd (omega arith)
differ-eq-mod zero (suc (suc y)) p q = absurd (omega arith)
differ-eq-mod (suc zero) (suc (suc y)) p q = absurd (omega arith)

pub zero-xor : (b : ℕ) → bit_xor 0 b ≡ b
zero-xor b = bit_xor-bitwise 0 b

-- The lowest digit of an exclusive or, and its half.
pub xor_step : (a b : ℕ) → bit_xor a b ≡ bit_xor (a / 2) (b / 2) * 2 + (a % 2 + b % 2) % 2
unfolding xor_digits
xor_step zero b = omega (arith, zero-xor b, zero-xor (b / 2))
xor_step (suc a) b = omega (
  arith,
  bit_xor-bitwise (suc a) b,
  bit_xor-bitwise (suc a / 2) (b / 2),
  differ-eq-mod (suc a % 2) (b % 2) (omega arith) (omega arith),
  digits_enough a (suc a / 2) (suc a / 2) (b / 2) (omega arith) (omega arith),
)

xor_self_fuel : (n a : ℕ) → a ≤ n → bit_xor a a ≡ 0
xor_self_fuel n zero h = refl
xor_self_fuel zero (suc a) h = absurd (omega arith)
xor_self_fuel (suc n) (suc a) h =
    omega (arith, xor_step (suc a) (suc a), xor_self_fuel n (suc a / 2) (omega arith))

xor_comm_fuel : (n a b : ℕ) → a ≤ n → b ≤ n → bit_xor a b ≡ bit_xor b a
xor_comm_fuel zero zero zero p q = refl
xor_comm_fuel zero (suc a) b p q = absurd (omega arith)
xor_comm_fuel zero zero (suc b) p q = absurd (omega arith)
xor_comm_fuel (suc n) a b p q =
    omega (
      arith,
      xor_step a b,
      xor_step b a,
      xor_comm_fuel n (a / 2) (b / 2) (omega arith) (omega arith),
    )

xor_assoc_fuel :
    (n a b c : ℕ) → a ≤ n → b ≤ n → c ≤ n → bit_xor (bit_xor a b) c ≡ bit_xor a (bit_xor b c)
xor_assoc_fuel zero zero zero zero p q r = refl
xor_assoc_fuel zero (suc a) b c p q r = absurd (omega arith)
xor_assoc_fuel zero zero (suc b) c p q r = absurd (omega arith)
xor_assoc_fuel zero zero zero (suc c) p q r = absurd (omega arith)
xor_assoc_fuel (suc n) a b c p q r = ground (
  arith,
  xor_step a b,
  xor_step b c,
  xor_step (bit_xor a b) c,
  xor_step a (bit_xor b c),
  xor_assoc_fuel n (a / 2) (b / 2) (c / 2) (omega arith) (omega arith) (omega arith),
)

pub xor_self : (a : ℕ) → bit_xor a a ≡ 0
xor_self a = xor_self_fuel a a (omega arith)

pub xor_comm : (a b : ℕ) → bit_xor a b ≡ bit_xor b a
xor_comm a b = xor_comm_fuel (a + b) a b (omega arith) (omega arith)

pub xor_assoc : (a b c : ℕ) → bit_xor (bit_xor a b) c ≡ bit_xor a (bit_xor b c)
xor_assoc a b c = xor_assoc_fuel (a + b + c) a b c (omega arith) (omega arith) (omega arith)

pub xor-zero : (a : ℕ) → bit_xor a 0 ≡ a
xor-zero a = omega (arith, xor_comm a 0, zero-xor a)

-- An exclusive or needs no more digits than its arguments.
pub xor-lt : (k a b : ℕ) → a < 2 ^ k → b < 2 ^ k → bit_xor a b < 2 ^ k
xor-lt zero zero zero p q = omega arith
xor-lt zero (suc a) b p q = absurd (omega arith)
xor-lt zero zero (suc b) p q = absurd (omega arith)
xor-lt (suc k) a b p q = omega (
  arith,
  pow-suc 2 k,
  xor_step a b,
  xor-lt k (a / 2) (b / 2) (omega (arith, pow-suc 2 k)) (omega (arith, pow-suc 2 k)),
)
