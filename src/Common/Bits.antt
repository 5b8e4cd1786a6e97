-- ===== src/Common/Bits.antt =====
-- `|`, `&` and `^` at variables: the step by the lowest digit, the digits of a result, and the
-- forms that packed fields and low masks take as arithmetic.
use Prim.Native.Nat.{
  ℕ, zero, suc, ◌+◌, ◌-◌, ◌*◌, ◌/◌, ◌%◌, ◌^◌, ◌≤◌, ◌<◌, min, max, bit_and, bit_or, digits,
  bit_and-bitwise, bit_or-bitwise,
}
use mathlib.Core.Path.{◌≡◌, refl, sym, ap, ◌∙◌}
use native.Mathlib.Decide.{dec_le}
use native.Mathlib.Nat.{pow-suc, one-le-pow, mod-lt, div-add-mod'}
use native.Mathlib.Omega.{arith}

-- Fuel beyond the number of steps changes nothing, whatever a digit and a rest are.
pub enough :
    (rest : ℕ → ℕ) (digit : ℕ → ℕ → ℕ) (x y k l : ℕ)
    → x ≤ k
    → x ≤ l
    → digits rest digit k x y ≡ digits rest digit l x y
enough rest digit zero y zero zero hk hl = refl
enough rest digit zero y zero (suc l) hk hl = refl
enough rest digit zero y (suc k) zero hk hl = refl
enough rest digit zero y (suc k) (suc l) hk hl = refl
enough rest digit (suc x) y zero l hk hl = absurd (omega arith)
enough rest digit (suc x) y (suc k) zero hk hl = absurd (omega arith)
enough rest digit (suc x) y (suc k) (suc l) hk hl =
    omega (arith, enough rest digit (suc x / 2) (y / 2) k l (omega arith) (omega arith))

pub zero-bit_or : (y : ℕ) → bit_or 0 y ≡ y
zero-bit_or = bit_or-bitwise 0

-- The lowest digit, and what is left of the arguments.
pub bit_or_step : (x y : ℕ) → bit_or x y ≡ max (x % 2) (y % 2) + 2 * bit_or (x / 2) (y / 2)
bit_or_step zero y = omega (zero-bit_or y, zero-bit_or (y / 2), arith)
bit_or_step (suc x) y =
    let half = suc x / 2 in
    omega (
      enough (λ r. r) max half (y / 2) x half (omega arith) (omega arith),
      bit_or-bitwise half (y / 2),
      bit_or-bitwise (suc x) y,
      arith,
    )

pub zero-bit_and : (y : ℕ) → bit_and 0 y ≡ 0
zero-bit_and = bit_and-bitwise 0

pub bit_and_step : (x y : ℕ) → bit_and x y ≡ min (x % 2) (y % 2) + 2 * bit_and (x / 2) (y / 2)
bit_and_step zero y = omega (zero-bit_and y, zero-bit_and (y / 2), arith)
bit_and_step (suc x) y =
    let half = suc x / 2 in
    omega (
      enough (λ r. zero) min half (y / 2) x half (omega arith) (omega arith),
      bit_and-bitwise half (y / 2),
      bit_and-bitwise (suc x) y,
      arith,
    )

-- Digit `k` of a number.
abbrev pub bit : ℕ → ℕ → ℕ
bit zero x = x % 2
bit (suc k) x = bit k (x / 2)

pub bit-lt : (k x : ℕ) → bit k x < 2
bit-lt zero x = omega arith
bit-lt (suc k) x = bit-lt k (x / 2)

pub bit-zero : (k : ℕ) → bit k 0 ≡ 0
bit-zero zero = refl
bit-zero (suc k) = bit-zero k

pub bit-bit_or : (k a b : ℕ) → bit k (bit_or a b) ≡ max (bit k a) (bit k b)
bit-bit_or zero a b = omega (arith, bit_or_step a b)
bit-bit_or (suc k) a b = ap (bit k) (omega (arith, bit_or_step a b)) ∙ bit-bit_or k (a / 2) (b / 2)

pub bit-bit_and : (k a b : ℕ) → bit k (bit_and a b) ≡ min (bit k a) (bit k b)
bit-bit_and zero a b = omega (arith, bit_and_step a b)
bit-bit_and (suc k) a b =
    ap (bit k) (omega (arith, bit_and_step a b)) ∙ bit-bit_and k (a / 2) (b / 2)

half_or_fuel : (n a : ℕ) → a ≤ n → bit_or a 0 ≡ a
half_or_fuel n zero h = refl
half_or_fuel zero (suc a) h = absurd (omega arith)
half_or_fuel (suc n) (suc a) h =
    omega (arith, bit_or_step (suc a) 0, half_or_fuel n (suc a / 2) (omega arith))

pub bit_or-zero : (a : ℕ) → bit_or a 0 ≡ a
bit_or-zero a = half_or_fuel a a (omega arith)

half_and_fuel : (n a : ℕ) → a ≤ n → bit_and a 0 ≡ 0
half_and_fuel n zero h = refl
half_and_fuel zero (suc a) h = absurd (omega arith)
half_and_fuel (suc n) (suc a) h =
    omega (arith, bit_and_step (suc a) 0, half_and_fuel n (suc a / 2) (omega arith))

pub bit_and-zero : (a : ℕ) → bit_and a 0 ≡ 0
bit_and-zero a = half_and_fuel a a (omega arith)

pub two_pow_step : (q k : ℕ) → q * 2 ^ suc k ≡ (q * 2 ^ k) * 2
two_pow_step q k = omega (arith, ap (λ (t : ℕ). q * t) (pow-suc 2 k))

-- An operand that fits the low `k` digits leaves those above as they are.
pub bit_or_low :
    (k q r s : ℕ) → r < 2 ^ k → s < 2 ^ k → bit_or (q * 2 ^ k + r) s ≡ q * 2 ^ k + bit_or r s
bit_or_low zero q r s hr hs =
    let er : r ≡ 0 = omega arith in
    let es : s ≡ 0 = omega arith in rw (er, es) (bit_or-zero (q * 1 + 0))
bit_or_low (suc k) q r s hr hs = omega (
  arith,
  two_pow_step q k,
  pow-suc 2 k,
  bit_or_step r s,
  bit_or_step (q * 2 ^ suc k + r) s,
  ap (λ (t : ℕ). bit_or t (s / 2)) half,
  bit_or_low k q (r / 2) (s / 2) (omega (arith, pow-suc 2 k)) (omega (arith, pow-suc 2 k)),
)
  where
    half : (q * 2 ^ suc k + r) / 2 ≡ q * 2 ^ k + r / 2
    half = omega (arith, two_pow_step q k)

bit_and_low : (k q r : ℕ) → r < 2 ^ k → bit_and (q * 2 ^ k + r) (2 ^ k - 1) ≡ r
bit_and_low zero q r h = omega (arith, bit_and-zero (q * 1 + r))
bit_and_low (suc k) q r h = omega (
  arith,
  two_pow_step q k,
  pow-suc 2 k,
  one-le-pow k 2,
  bit_and_step (q * 2 ^ suc k + r) (2 ^ suc k - 1),
  ap (λ (t : ℕ). bit_and t ((2 ^ suc k - 1) / 2)) half,
  ap (λ (t : ℕ). bit_and (q * 2 ^ k + r / 2) t) mask,
  bit_and_low k q (r / 2) (omega (arith, pow-suc 2 k)),
)
  where
    half : (q * 2 ^ suc k + r) / 2 ≡ q * 2 ^ k + r / 2
    half = omega (arith, two_pow_step q k)

    mask : (2 ^ suc k - 1) / 2 ≡ 2 ^ k - 1
    mask = omega (arith, pow-suc 2 k, one-le-pow k 2)

-- A mask of `k` ones keeps the remainder by `2 ^ k`.
pub bit_and_mask : (k a : ℕ) → bit_and a (2 ^ k - 1) ≡ a % 2 ^ k
bit_and_mask k a =
    ap (λ (t : ℕ). bit_and t (2 ^ k - 1)) (sym (div-add-mod' a (2 ^ k)))
    ∙ bit_and_low k (a / 2 ^ k) (a % 2 ^ k) (mod-lt a (one-le-pow k 2 (omega arith)))

-- A mask of the one digit `k` keeps that digit.
pub bit_and_digit : (k a : ℕ) → bit_and a (2 ^ k) ≡ bit k a * 2 ^ k
bit_and_digit zero a = omega (arith, bit_and_step a 1, bit_and-zero (a / 2))
bit_and_digit (suc k) a = omega (
  arith,
  two_pow_step (bit k (a / 2)) k,
  pow-suc 2 k,
  bit_and_step a (2 ^ suc k),
  ap (λ (t : ℕ). bit_and (a / 2) t) half,
  bit_and_digit k (a / 2),
)
  where
    half : 2 ^ suc k / 2 ≡ 2 ^ k
    half = omega (arith, pow-suc 2 k)

-- A number whose every digit is 0 is 0.
pub eq_zero_of_bits : (a : ℕ) → ((k : ℕ) → bit k a ≡ 0) → a ≡ 0
eq_zero_of_bits a h = go a a (omega arith) h
  where
    zero_half : (n : ℕ) → n / 2 ≡ 0 → n % 2 ≡ 0 → n ≡ 0
    zero_half n p q = omega arith

    go : (n b : ℕ) → b ≤ n → ((k : ℕ) → bit k b ≡ 0) → b ≡ 0
    go zero b p h = omega arith
    go (suc n) b p h = elim (dec_le b 0) [
      | yes e ↦ omega arith
      | no e ↦ zero_half b (go n (b / 2) (omega arith) (λ k. h (suc k))) (h 0)
    ]

-- Digits above the width of a number are 0, and the complement within a width flips those below.
pub bit-lt_pow : (n k a : ℕ) → a < 2 ^ n → n ≤ k → bit k a ≡ 0
bit-lt_pow zero k a h le = rw (zero_of h) (bit-zero k)
  where
    zero_of : a < 2 ^ 0 → a ≡ 0
    zero_of p = omega arith
bit-lt_pow (suc n) zero a h le = absurd (omega arith)
bit-lt_pow (suc n) (suc k) a h le =
    bit-lt_pow n k (a / 2) (omega (arith, pow-suc 2 n)) (omega arith)

pub bit-complement : (n k a : ℕ) → a < 2 ^ n → k < n → bit k (2 ^ n - 1 - a) ≡ 1 - bit k a
bit-complement zero k a h lt = absurd (omega arith)
bit-complement (suc n) zero a h lt = omega (arith, pow-suc 2 n)
bit-complement (suc n) (suc k) a h lt =
    ap (bit k) (halved (2 ^ n) (omega (arith, pow-suc 2 n)))
    ∙ bit-complement n k (a / 2) (omega (arith, pow-suc 2 n)) (omega arith)
  where
    halved : (p : ℕ) → 2 ^ suc n ≡ p * 2 → (2 ^ suc n - 1 - a) / 2 ≡ p - 1 - a / 2
    halved p e = omega (arith, e)

and_le_fuel : (n a b : ℕ) → a ≤ n → bit_and a b ≤ a
and_le_fuel n zero b h = omega (arith, zero-bit_and b)
and_le_fuel zero (suc a) b h = absurd (omega arith)
and_le_fuel (suc n) (suc a) b h =
    omega (arith, bit_and_step (suc a) b, and_le_fuel n (suc a / 2) (b / 2) (omega arith))

pub bit_and-le : (a b : ℕ) → bit_and a b ≤ a
bit_and-le a b = and_le_fuel a a b (omega arith)

pub bit_or-lt : (n a b : ℕ) → a < 2 ^ n → b < 2 ^ n → bit_or a b < 2 ^ n
bit_or-lt zero a b ha hb =
    omega (arith, bit_or_step a b, zero-bit_or (b / 2), ap (λ (t : ℕ). bit_or t (b / 2)) half)
  where
    half : a / 2 ≡ 0
    half = omega arith
bit_or-lt (suc n) a b ha hb = omega (
  arith,
  pow-suc 2 n,
  bit_or_step a b,
  bit_or-lt n (a / 2) (b / 2) (omega (arith, pow-suc 2 n)) (omega (arith, pow-suc 2 n)),
)
