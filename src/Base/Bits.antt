-- ===== src/Base/Bits.antt =====
-- The bit operations at variables: exclusive or cancels, and a bitmap is read bit by bit.
use Prim.Native.Nat.{
  ℕ, zero, suc, ◌+◌, ◌*◌, ◌/◌, ◌%◌, ◌^◌, ◌≤◌, ◌<◌, min, max, bit_and, bit_or, bit_xor, digits,
  differ, bitwise, bit_and-bitwise, bit_or-bitwise, bit_xor-bitwise,
}
use mathlib.Core.Path.{◌≡◌, refl, ap}
use mathlib.Core.Logic.{◌≢◌}
use native.Mathlib.Omega.{arith}
use native.Mathlib.Nat.{le_refl, pow-suc, div-div-eq-div-mul, div-add-mod}

-- A bit operation by its lowest digit and the digits above it. `z` and `op` are the arguments with
-- which the native operation is defined: any count of digits that covers `x` gives the same number.
module _ (z : ℕ → ℕ) (op : ℕ → ℕ → ℕ) where
  digits_enough : (bound n x y : ℕ) → n ≤ bound → x ≤ n → digits z op n x y ≡ bitwise z op x y
  digits_enough bound zero zero y hn hx = refl
  digits_enough bound (suc n) zero y hn hx = refl
  digits_enough bound zero (suc x) y hn hx = absurd (omega arith)
  digits_enough zero (suc n) (suc x) y hn hx = absurd (omega arith)
  digits_enough (suc bound) (suc n) (suc x) y hn hx =
      let half = suc x / 2 in
      let outer = digits_enough bound n half (y / 2) (omega arith) (omega arith) in
      let inner = digits_enough bound x half (y / 2) (omega arith) (omega arith) in
      rw (outer, inner)

  lowest_digit :
      (x y : ℕ)
      → bitwise z op (suc x) y ≡ bitwise z op (suc x / 2) (y / 2) * 2 + op (suc x % 2) (y % 2)
  lowest_digit x y = rw (digits_enough x x (suc x / 2) (y / 2) (le_refl x) (omega arith))

abbrev ByLowestDigit : (ℕ → ℕ → ℕ) → (ℕ → ℕ → ℕ) → ℕ → ℕ → Type 0
ByLowestDigit bits op x y = bits x y ≡ bits (x / 2) (y / 2) * 2 + op (x % 2) (y % 2)

bit_or_step : (x y : ℕ) → ByLowestDigit bit_or max x y
bit_or_step zero y = rw (bit_or-bitwise zero y, bit_or-bitwise (zero / 2) (y / 2)) (omega arith)
bit_or_step (suc x) y =
    rw (bit_or-bitwise (suc x) y, bit_or-bitwise (suc x / 2) (y / 2)) (lowest_digit _ max x y)

bit_and_step : (x y : ℕ) → ByLowestDigit bit_and min x y
bit_and_step zero y = rw (bit_and-bitwise zero y, bit_and-bitwise (zero / 2) (y / 2)) (omega arith)
bit_and_step (suc x) y =
    rw (bit_and-bitwise (suc x) y, bit_and-bitwise (suc x / 2) (y / 2)) (lowest_digit _ min x y)

bit_xor_step : (x y : ℕ) → ByLowestDigit bit_xor differ x y
bit_xor_step zero y = rw (bit_xor-bitwise zero y, bit_xor-bitwise (zero / 2) (y / 2)) (omega arith)
bit_xor_step (suc x) y =
    rw (bit_xor-bitwise (suc x) y, bit_xor-bitwise (suc x / 2) (y / 2)) (lowest_digit _ differ x y)

-- The digit of exclusive or.
differ_digit : (x y : ℕ) → x < 2 → y < 2 → (differ x y < 2) × (differ (differ x y) y ≡ x)
differ_digit zero zero p q = (omega arith, refl)
differ_digit zero (suc zero) p q = (omega arith, refl)
differ_digit (suc zero) zero p q = (omega arith, refl)
differ_digit (suc zero) (suc zero) p q = (omega arith, refl)
differ_digit (suc (suc x)) y p q = absurd (omega arith)
differ_digit x (suc (suc y)) p q = absurd (omega arith)

xor_cancel_below : (n a b : ℕ) → a ≤ n → b ≤ n → bit_xor (bit_xor a b) b ≡ a
xor_cancel_below zero zero zero p q = refl
xor_cancel_below zero (suc a) b p q = absurd (omega arith)
xor_cancel_below zero a (suc b) p q = absurd (omega arith)
xor_cancel_below (suc n) a b p q = ground (
  arith,
  bit_xor_step (bit_xor a b) b,
  bit_xor_step a b,
  differ_digit (a % 2) (b % 2),
  xor_cancel_below n (a / 2) (b / 2),
)

-- A second exclusive or with the same number undoes the first.
pub bit_xor-cancel : (a b : ℕ) → bit_xor (bit_xor a b) b ≡ a
bit_xor-cancel a b = xor_cancel_below (a + b) a b (omega arith) (omega arith)

pub two-pow-suc : (k : ℕ) → 2 ^ suc k ≡ 2 * 2 ^ k
two-pow-suc k = omega (arith, pow-suc 2 k)

pub bit_xor-lt : (k a b : ℕ) → a < 2 ^ k → b < 2 ^ k → bit_xor a b < 2 ^ k
bit_xor-lt zero zero zero p q = omega arith
bit_xor-lt zero (suc a) b p q = absurd (omega arith)
bit_xor-lt zero a (suc b) p q = absurd (omega arith)
bit_xor-lt (suc k) a b p q = ground (
  arith,
  two-pow-suc k,
  bit_xor_step a b,
  differ_digit (a % 2) (b % 2),
  bit_xor-lt k (a / 2) (b / 2),
)

-- Bit `k` of a number.
abbrev pub test_bit : ℕ → ℕ → ℕ
test_bit zero x = x % 2
test_bit (suc k) x = test_bit k (x / 2)

pub test_bit-lt : (k x : ℕ) → test_bit k x < 2
test_bit-lt zero x = omega arith
test_bit-lt (suc k) x = test_bit-lt k (x / 2)

bit_and-zero_below : (n a : ℕ) → a ≤ n → bit_and a 0 ≡ 0
bit_and-zero_below zero zero h = refl
bit_and-zero_below zero (suc a) h = absurd (omega arith)
bit_and-zero_below (suc n) a h = ground (arith, bit_and_step a 0, bit_and-zero_below n (a / 2))

bit_or-zero_below : (n a : ℕ) → a ≤ n → bit_or a 0 ≡ a
bit_or-zero_below zero zero h = refl
bit_or-zero_below zero (suc a) h = absurd (omega arith)
bit_or-zero_below (suc n) a h = ground (arith, bit_or_step a 0, bit_or-zero_below n (a / 2))

-- The mask `1 << k` picks bit `k`.
pub bit_and-two_pow : (k x : ℕ) → bit_and x (2 ^ k) ≡ test_bit k x * 2 ^ k
bit_and-two_pow zero x =
    ground (arith, bit_and_step x 1, bit_and-zero_below (x / 2) (x / 2) (le_refl _))
bit_and-two_pow (suc k) x = ground (
  arith,
  two-pow-suc k,
  bit_and_step x (2 ^ suc k),
  bit_and-two_pow k (x / 2),
  ap (λ (t : ℕ). test_bit k (x / 2) * t) (two-pow-suc k),
)

or_mask :
    (k x : ℕ)
    → (bit_or x (2 ^ suc k) / 2 ≡ bit_or (x / 2) (2 ^ k)) × (bit_or x (2 ^ suc k) % 2 ≡ x % 2)
or_mask k x =
    let e : 2 ^ suc k / 2 ≡ 2 ^ k = omega (arith, two-pow-suc k) in
    let m : 2 ^ suc k % 2 ≡ 0 = omega (arith, two-pow-suc k) in
    ground (arith, bit_or_step x (2 ^ suc k))

or_one : (x : ℕ) → (bit_or x 1 / 2 ≡ x / 2) × (bit_or x 1 % 2 ≡ 1)
or_one x = ground (arith, bit_or_step x 1, bit_or-zero_below (x / 2) (x / 2))

-- Setting bit `k` sets that bit, and leaves every other.
pub test_bit-bit_or_self : (k x : ℕ) → test_bit k (bit_or x (2 ^ k)) ≡ 1
test_bit-bit_or_self zero x = (or_one x).1
test_bit-bit_or_self (suc k) x = rw ((or_mask k x).0) (test_bit-bit_or_self k (x / 2))

pub test_bit-bit_or_ne : (j k x : ℕ) → j ≢ k → test_bit j (bit_or x (2 ^ k)) ≡ test_bit j x
test_bit-bit_or_ne zero zero x h = absurd (h refl)
test_bit-bit_or_ne zero (suc k) x h = (or_mask k x).1
test_bit-bit_or_ne (suc j) zero x h = ap (test_bit j) (or_one x).0
test_bit-bit_or_ne (suc j) (suc k) x h =
    rw ((or_mask k x).0) (test_bit-bit_or_ne j k (x / 2) (λ e. h (ap suc e)))

-- Where the low `k` bits of a number are clear, the `or` with a number of `k` bits adds it.
pub bit_or-shifted : (k high low : ℕ) → low < 2 ^ k → bit_or (high * 2 ^ k) low ≡ high * 2 ^ k + low
bit_or-shifted zero high zero h = omega (arith, bit_or-zero_below high (high * 1))
bit_or-shifted zero high (suc low) h = absurd (omega arith)
bit_or-shifted (suc k) high low h =
    let shift = ap (λ (t : ℕ). high * t) (two-pow-suc k) in
    let above = bit_or-shifted k high (low / 2) (omega (arith, two-pow-suc k)) in
    ground (arith, shift, above, bit_or_step (high * 2 ^ suc k) low)

-- A left shift by `d` moves bit `j` to bit `d + j`.
pub test_bit-shl : (d i j x : ℕ) → i ≡ d + j → test_bit i (x * 2 ^ d) ≡ test_bit j x
test_bit-shl zero i j x e =
    let e' : i ≡ j = omega arith in let m : x * 1 ≡ x = omega arith in rw (e', m)
test_bit-shl (suc d) zero j x e = absurd (omega arith)
test_bit-shl (suc d) (suc i) j x e =
    let half : x * 2 ^ suc d / 2 ≡ x * 2 ^ d =
      omega (arith, ap (λ (t : ℕ). x * t) (two-pow-suc d)) in
    rw half (test_bit-shl d i j x (omega arith))

mod_two_pow : (w x : ℕ) → x % 2 ^ suc w ≡ x / 2 % 2 ^ w * 2 + x % 2
mod_two_pow w x = rw (two-pow-suc w) (
    omega (
      arith,
      div-div-eq-div-mul x 2 (2 ^ w),
      div-add-mod x (2 * 2 ^ w),
      div-add-mod (x / 2) (2 ^ w),
      ap (λ (t : ℕ). 2 ^ w * t) (div-div-eq-div-mul x 2 (2 ^ w)),
    ))

-- A reduction to `w` bits keeps the bits below `w`.
pub test_bit-mod : (j w x : ℕ) → j < w → test_bit j (x % 2 ^ w) ≡ test_bit j x
test_bit-mod zero zero x h = absurd (omega arith)
test_bit-mod (suc j) zero x h = absurd (omega arith)
test_bit-mod zero (suc w) x h = omega (arith, mod_two_pow w x)
test_bit-mod (suc j) (suc w) x h =
    let half : x % 2 ^ suc w / 2 ≡ x / 2 % 2 ^ w = omega (arith, mod_two_pow w x) in
    rw half (test_bit-mod j w (x / 2) (omega arith))

-- A left shift by `d` clears the bits below `d`.
pub test_bit-shl_low : (i d x : ℕ) → i < d → test_bit i (x * 2 ^ d) ≡ 0
test_bit-shl_low i zero x h = omega arith
test_bit-shl_low zero (suc d) x h = omega (arith, ap (λ (t : ℕ). x * t) (two-pow-suc d))
test_bit-shl_low (suc i) (suc d) x h =
    let half : x * 2 ^ suc d / 2 ≡ x * 2 ^ d =
      omega (arith, ap (λ (t : ℕ). x * t) (two-pow-suc d)) in
    rw half (test_bit-shl_low i d x (omega arith))

pub test_bit-zero : (i : ℕ) → test_bit i 0 ≡ 0
test_bit-zero zero = refl
test_bit-zero (suc i) = test_bit-zero i
