-- ===== src/Base/Bits.antt =====
-- `|`, `&` and `^` at variables. The native operations mean a recursion on binary digits; here are
-- one equation for the lowest digit of each, and what follows for disjoint fields and low masks.
use Prim.Native.Nat.{
  ℕ, zero, suc, ◌+◌, ◌-◌, ◌*◌, ◌/◌, ◌%◌, ◌^◌, ◌≤◌, ◌<◌, min, max, bit_and, bit_or, bit_xor, differ,
  digits, bitwise, bit_and-bitwise, bit_or-bitwise, bit_xor-bitwise,
}
use mathlib.Core.Path.{◌≡◌, refl, ap}
use mathlib.Core.WellFounded.{Acc, induction}
use native.Mathlib.Omega.{arith}
use native.Mathlib.Nat.{pow-suc, one-le-pow, le_refl}

-- Strong induction on the native order.
acc_below : (k n : ℕ) → n < k → Acc ◌<◌ n
acc_below zero n h = absurd (omega arith)
acc_below (suc k) n h = Acc.intro n (λ m hm. acc_below k m (omega arith))

pub halving_induction :
    (P : ℕ → Type 0) → P 0 → ((n : ℕ) → P (suc n / 2) → P (suc n)) → (n : ℕ) → P n
halving_induction P base step n =
    induction (record { apply = λ k. acc_below (suc k) k (omega arith) }) {C = P} n body
  where
    body : (k : ℕ) → ((m : ℕ) → m < k → P m) → P k
    body zero ih = base
    body (suc k) ih = step k (ih (suc k / 2) (omega arith))

module _ (right : ℕ → ℕ) (digit : ℕ → ℕ → ℕ) where
  -- More fuel than the number of digits changes nothing.
  enough_digits :
      (n m a b : ℕ) → a ≤ n → a ≤ m → digits right digit n a b ≡ digits right digit m a b
  enough_digits zero zero a b p q = refl
  enough_digits zero (suc m) zero b p q = refl
  enough_digits zero (suc m) (suc a) b p q = absurd (omega arith)
  enough_digits (suc n) zero zero b p q = refl
  enough_digits (suc n) zero (suc a) b p q = absurd (omega arith)
  enough_digits (suc n) (suc m) zero b p q = refl
  enough_digits (suc n) (suc m) (suc a) b p q =
      rw (enough_digits n m (suc a / 2) (b / 2) (omega arith) (omega arith))

  lowest_digit :
      (a b : ℕ)
      → bitwise right digit (suc a) b
        ≡ bitwise right digit (suc a / 2) (b / 2) * 2 + digit (suc a % 2) (b % 2)
  lowest_digit a b =
      omega (arith, enough_digits a (suc a / 2) (suc a / 2) (b / 2) (omega arith) (le_refl _))

pub bit_or_digit : (a b : ℕ) → bit_or a b ≡ bit_or (a / 2) (b / 2) * 2 + max (a % 2) (b % 2)
bit_or_digit zero b = simp bit_or-bitwise (omega arith)
bit_or_digit (suc a) b = simp bit_or-bitwise (lowest_digit (λ y. y) max a b)

pub bit_and_digit : (a b : ℕ) → bit_and a b ≡ bit_and (a / 2) (b / 2) * 2 + min (a % 2) (b % 2)
bit_and_digit zero b = simp bit_and-bitwise (omega arith)
bit_and_digit (suc a) b = simp bit_and-bitwise (lowest_digit (λ y. 0) min a b)

pub bit_xor_digit : (a b : ℕ) → bit_xor a b ≡ bit_xor (a / 2) (b / 2) * 2 + differ (a % 2) (b % 2)
bit_xor_digit zero b = simp bit_xor-bitwise (omega arith)
bit_xor_digit (suc a) b = simp bit_xor-bitwise (lowest_digit (λ y. y) differ a b)

differ_bits : (x y : ℕ) → x < 2 → y < 2 → differ x y ≡ (x + y) % 2
differ_bits zero zero p q = refl
differ_bits zero (suc zero) p q = refl
differ_bits zero (suc (suc y)) p q = absurd (omega arith)
differ_bits (suc zero) zero p q = refl
differ_bits (suc zero) (suc zero) p q = refl
differ_bits (suc zero) (suc (suc y)) p q = absurd (omega arith)
differ_bits (suc (suc x)) y p q = absurd (omega arith)

pub bit_or-zero : (a : ℕ) → bit_or a 0 ≡ a
bit_or-zero = halving_induction _ refl λ n ih. omega (arith, bit_or_digit (suc n) 0)

pub bit_and-zero : (a : ℕ) → bit_and a 0 ≡ 0
bit_and-zero = halving_induction _ refl λ n ih. omega (arith, bit_and_digit (suc n) 0)

shift-suc : (k q : ℕ) → q * 2 ^ suc k ≡ (q * 2 ^ k) * 2
shift-suc k q = omega (arith, ap (λ (power : ℕ). q * power) (pow-suc 2 k))

-- `(q << k) | r` and `r | (q << k)` are sums when `r` fits `k` bits.
pub bit_or_fields : (k q r : ℕ) → r < 2 ^ k → bit_or (q * 2 ^ k) r ≡ q * 2 ^ k + r
bit_or_fields zero q r fits = ground (arith, bit_or-zero q)
bit_or_fields (suc k) q r fits =
    ground (arith, bit_or_digit (q * 2 ^ suc k) r, shift-suc k q, bit_or_fields k q (r / 2))

-- Four fields: any number above three of six bits.
pub bit_or_quad :
    (a b c d : ℕ)
    → b < 64
    → c < 64
    → d < 64
    → bit_or (bit_or (bit_or (a * 2 ^ 18) (b * 2 ^ 12)) (c * 2 ^ 6)) d
      ≡ a * 2 ^ 18 + b * 2 ^ 12 + c * 2 ^ 6 + d
bit_or_quad a b c d hb hc hd =
    let e : a * 2 ^ 18 + b * 2 ^ 12 ≡ (a * 2 ^ 6 + b) * 2 ^ 12 = omega arith in
    let f : (a * 2 ^ 6 + b) * 2 ^ 12 + c * 2 ^ 6 ≡ ((a * 2 ^ 6 + b) * 2 ^ 6 + c) * 2 ^ 6 =
      omega arith in
    rw
      (
        bit_or_fields 18 a (b * 2 ^ 12) (omega arith),
        e,
        bit_or_fields 12 (a * 2 ^ 6 + b) (c * 2 ^ 6) (omega arith),
        f,
        bit_or_fields 6 ((a * 2 ^ 6 + b) * 2 ^ 6 + c) d hd,
      )
      refl

zero-bit_or : (b : ℕ) → bit_or 0 b ≡ b
zero-bit_or b = simp bit_or-bitwise refl

pub bit_or_low : (k q r : ℕ) → r < 2 ^ k → bit_or r (q * 2 ^ k) ≡ r + q * 2 ^ k
bit_or_low zero q r fits = let e : r ≡ 0 = omega arith in rw e (ground (arith, zero-bit_or (q * 1)))
bit_or_low (suc k) q r fits =
    ground (arith, bit_or_digit r (q * 2 ^ suc k), shift-suc k q, bit_or_low k q (r / 2))

mask_digits : (k q r : ℕ) → r < 2 ^ k → bit_and (q * 2 ^ k + r) (2 ^ k - 1) ≡ r
mask_digits zero q r fits = rw bit_and-zero (omega arith)
mask_digits (suc k) q r fits = ground (
  arith,
  bit_and_digit (q * 2 ^ suc k + r) (2 ^ suc k - 1),
  shift-suc k q,
  pow-suc 2 k,
  mask_digits k q (r / 2),
)

-- A mask of the `k` low bits is the remainder by `2 ^ k`.
pub bit_and_mask : (k a : ℕ) → bit_and a (2 ^ k - 1) ≡ a % 2 ^ k
bit_and_mask k a = ground (arith, one-le-pow k 2, mask_digits k (a / 2 ^ k) (a % 2 ^ k))

xor_parity : (a b : ℕ) → bit_xor a b ≡ bit_xor (a / 2) (b / 2) * 2 + (a % 2 + b % 2) % 2
xor_parity a b =
    omega (arith, bit_xor_digit a b, differ_bits (a % 2) (b % 2) (omega arith) (omega arith))

zero-bit_xor : (b : ℕ) → bit_xor 0 b ≡ b
zero-bit_xor b = simp bit_xor-bitwise refl

bit_xor_self : (a : ℕ) → bit_xor a a ≡ 0
bit_xor_self =
    halving_induction _ refl
      λ n ih. omega (arith, ih, bit_xor_digit (suc n) (suc n), differ_bits (suc n % 2) (suc n % 2))

-- `(a ^ b) ^ b` is `a`.
pub bit_xor-bit_xor : (a b : ℕ) → bit_xor (bit_xor a b) b ≡ a
bit_xor-bit_xor =
    halving_induction _ (λ b. rw zero-bit_xor (bit_xor_self b))
      λ n ih b. ground (arith, ih (b / 2), xor_parity (suc n) b, xor_parity (bit_xor (suc n) b) b)

-- `a ^ (2 ^ k - 1)` turns the `k` low bits round.
pub bit_xor-ones : (k a : ℕ) → a < 2 ^ k → bit_xor a (2 ^ k - 1) ≡ 2 ^ k - 1 - a
bit_xor-ones zero a h = let e : a ≡ 0 = omega arith in rw e (zero-bit_xor 0)
bit_xor-ones (suc k) a h =
    ground
      (arith, xor_parity a (2 ^ suc k - 1), pow-suc 2 k, one-le-pow k 2, bit_xor-ones k (a / 2))

-- `^` needs no more bits than its operands.
pub bit_xor-lt : (k a b : ℕ) → a < 2 ^ k → b < 2 ^ k → bit_xor a b < 2 ^ k
bit_xor-lt zero a b p q =
    let e : a ≡ 0 = omega arith in let f : b ≡ 0 = omega arith in rw (e, f) (omega arith)
bit_xor-lt (suc k) a b p q =
    let rest =
      bit_xor-lt k (a / 2) (b / 2) (omega (arith, pow-suc 2 k)) (omega (arith, pow-suc 2 k)) in
    omega (arith, xor_parity a b, pow-suc 2 k, rest)
