-- ===== src/Common/Xor.antt =====
-- `^` at variables: the step by the lowest digit, and the laws of a group.
use Prim.Native.Nat.{
  ℕ, zero, suc, ◌+◌, ◌*◌, ◌/◌, ◌%◌, ◌^◌, ◌≤◌, ◌<◌, bit_xor, bit_xor-bitwise, differ,
}
use mathlib.Core.Path.{◌≡◌, refl, sym, ap, ◌∙◌}
use native.Mathlib.Nat.{pow-suc}
use native.Mathlib.Omega.{arith}
use mblue.Common.Bits.{enough, two_pow_step}

pub zero-bit_xor : (y : ℕ) → bit_xor 0 y ≡ y
zero-bit_xor = bit_xor-bitwise 0

differ_digit : (a b : ℕ) → a < 2 → b < 2 → differ a b ≡ (a + b) % 2
differ_digit zero b ha hb = omega arith
differ_digit (suc zero) zero ha hb = refl
differ_digit (suc zero) (suc zero) ha hb = refl
differ_digit (suc zero) (suc (suc b)) ha hb = absurd (omega arith)
differ_digit (suc (suc a)) b ha hb = absurd (omega arith)

differ_lem : (x y : ℕ) → differ (x % 2) (y % 2) ≡ (x + y) % 2
differ_lem x y = differ_digit (x % 2) (y % 2) (omega arith) (omega arith) ∙ omega arith

pub bit_xor_step : (x y : ℕ) → bit_xor x y ≡ (x + y) % 2 + 2 * bit_xor (x / 2) (y / 2)
bit_xor_step zero y = omega (zero-bit_xor y, zero-bit_xor (y / 2), arith)
bit_xor_step (suc x) y =
    let half = suc x / 2 in
    omega (
      enough (λ r. r) differ half (y / 2) x half (omega arith) (omega arith),
      bit_xor-bitwise half (y / 2),
      bit_xor-bitwise (suc x) y,
      differ_lem (suc x) y,
      arith,
    )

pub bit_xor-mod : (x y : ℕ) → bit_xor x y % 2 ≡ (x + y) % 2
bit_xor-mod x y = omega (arith, bit_xor_step x y)

pub bit_xor-half : (x y : ℕ) → bit_xor x y / 2 ≡ bit_xor (x / 2) (y / 2)
bit_xor-half x y = omega (arith, bit_xor_step x y)

zero_fuel : (n x : ℕ) → x ≤ n → bit_xor x 0 ≡ x
zero_fuel n zero h = refl
zero_fuel zero (suc x) h = absurd (omega arith)
zero_fuel (suc n) (suc x) h =
    omega (arith, bit_xor_step (suc x) 0, zero_fuel n (suc x / 2) (omega arith))

pub bit_xor-zero : (x : ℕ) → bit_xor x 0 ≡ x
bit_xor-zero x = zero_fuel x x (omega arith)

comm_fuel : (n x y : ℕ) → x ≤ n → bit_xor x y ≡ bit_xor y x
comm_fuel n zero y h = zero-bit_xor y ∙ sym (bit_xor-zero y)
comm_fuel zero (suc x) y h = absurd (omega arith)
comm_fuel (suc n) (suc x) y h = omega (
  arith,
  bit_xor_step (suc x) y,
  bit_xor_step y (suc x),
  comm_fuel n (suc x / 2) (y / 2) (omega arith),
)

pub bit_xor_comm : (x y : ℕ) → bit_xor x y ≡ bit_xor y x
bit_xor_comm x y = comm_fuel x x y (omega arith)

assoc_fuel : (n x y z : ℕ) → x ≤ n → bit_xor (bit_xor x y) z ≡ bit_xor x (bit_xor y z)
assoc_fuel n zero y z h =
    ap (λ (t : ℕ). bit_xor t z) (zero-bit_xor y) ∙ sym (zero-bit_xor (bit_xor y z))
assoc_fuel zero (suc x) y z h = absurd (omega arith)
assoc_fuel (suc n) (suc x) y z h = omega (
  arith,
  bit_xor_step (bit_xor (suc x) y) z,
  bit_xor_step (suc x) (bit_xor y z),
  bit_xor-mod (suc x) y,
  bit_xor-mod y z,
  ap (λ (t : ℕ). bit_xor t (z / 2)) (bit_xor-half (suc x) y),
  ap (bit_xor (suc x / 2)) (bit_xor-half y z),
  assoc_fuel n (suc x / 2) (y / 2) (z / 2) (omega arith),
)

pub bit_xor_assoc : (x y z : ℕ) → bit_xor (bit_xor x y) z ≡ bit_xor x (bit_xor y z)
bit_xor_assoc x y z = assoc_fuel x x y z (omega arith)

self_fuel : (n x : ℕ) → x ≤ n → bit_xor x x ≡ 0
self_fuel n zero h = refl
self_fuel zero (suc x) h = absurd (omega arith)
self_fuel (suc n) (suc x) h =
    omega (arith, bit_xor_step (suc x) (suc x), self_fuel n (suc x / 2) (omega arith))

pub bit_xor_self : (x : ℕ) → bit_xor x x ≡ 0
bit_xor_self x = self_fuel x x (omega arith)

-- The second operand stands beside what the first two share.
pub bit_xor_swap : (a b c : ℕ) → bit_xor (bit_xor a b) c ≡ bit_xor (bit_xor a c) b
bit_xor_swap a b c =
    bit_xor_assoc a b c ∙ ap (bit_xor a) (bit_xor_comm b c) ∙ sym (bit_xor_assoc a c b)

pub bit_xor_cancel : (a b c : ℕ) → bit_xor (bit_xor a c) (bit_xor b c) ≡ bit_xor a b
bit_xor_cancel a b c =
    sym (bit_xor_assoc (bit_xor a c) b c)
    ∙ ap (λ (t : ℕ). bit_xor t c) (bit_xor_swap a c b)
    ∙ bit_xor_assoc (bit_xor a b) c c
    ∙ ap (bit_xor (bit_xor a b)) (bit_xor_self c)
    ∙ bit_xor-zero (bit_xor a b)

-- A low part stands beside a multiple of a power of two.
pub bit_xor_low : (k q r : ℕ) → r < 2 ^ k → bit_xor (q * 2 ^ k) r ≡ q * 2 ^ k + r
bit_xor_low zero q r h =
    let none : r ≡ 0 = omega arith in
    ap (bit_xor (q * 1)) none ∙ omega (arith, bit_xor-zero (q * 1))
bit_xor_low (suc k) q r h = omega (
  arith,
  two_pow_step q k,
  pow-suc 2 k,
  bit_xor_step (q * 2 ^ suc k) r,
  ap (λ (t : ℕ). bit_xor t (r / 2)) half,
  bit_xor_low k q (r / 2) (omega (arith, pow-suc 2 k)),
)
  where
    half : q * 2 ^ suc k / 2 ≡ q * 2 ^ k
    half = omega (arith, two_pow_step q k)

pub bit_xor-lt : (n x y : ℕ) → x < 2 ^ n → y < 2 ^ n → bit_xor x y < 2 ^ n
bit_xor-lt zero x y hx hy =
    let ex : x ≡ 0 = omega arith in let ey : y ≡ 0 = omega arith in rw (ex, ey) (omega arith)
bit_xor-lt (suc n) x y hx hy = omega (
  arith,
  pow-suc 2 n,
  bit_xor_step x y,
  bit_xor-lt n (x / 2) (y / 2) (omega (arith, pow-suc 2 n)) (omega (arith, pow-suc 2 n)),
)
