-- ===== src/Base/Int.antt =====
-- Signed integers over the native numbers, as far as the kernel's return codes and the VMs'
-- signed words need them.
use lardos.Base.Tests.{ltb, leb, ◌==◌, if◌then◌else◌}
use Prim.Native.Nat.{ℕ, zero, suc, ◌-◌, ◌/◌, ◌%◌, ◌^◌}
use mathlib.Core.Bool.{Bool, false, xor, ◌||◌, ◌&&◌}
use mathlib.Core.Option.{Option, none, some}

-- `negsuc n` is -(n + 1).
pub data ℤ : Type 0 where
  pos : ℕ → ℤ
  negsuc : ℕ → ℤ

-- -n
abbrev pub neg : ℕ → ℤ
neg zero = pos 0
neg (suc n) = negsuc n

-- The integer that a `w`-bit two's complement pattern stands for.
abbrev pub signed : ℕ → ℕ → ℤ
signed w x = if ltb x (2 ^ (w - 1)) then pos x else neg (2 ^ w - x)

-- the test of `rc != 0`
abbrev pub is_zero : ℤ → Bool
is_zero (pos n) = n == 0
is_zero (negsuc n) = false

-- Sign and magnitude of a pattern.
abbrev pub is_negative : ℕ → ℕ → Bool
is_negative w x = leb (2 ^ (w - 1)) x

abbrev pub magnitude : ℕ → ℕ → ℕ
magnitude w x = if is_negative w x then 2 ^ w - x else x

-- `a / b` on signed words, which rounds towards zero; `b` is not 0 here.
abbrev pub sdiv : ℕ → ℕ → ℕ → ℕ
sdiv w a b =
    let q = magnitude w a / magnitude w b in
    if xor (is_negative w a) (is_negative w b) then (2 ^ w - q) % 2 ^ w else q % 2 ^ w

-- The division instruction of the CPU on signed words: `none` is its trap, by a divisor of 0 or a
-- quotient that the word cannot hold.
unfoldable pub idiv : ℕ → ℕ → ℕ → Option ℕ
idiv w a b = if b == 0 || (a == 2 ^ (w - 1) && b == 2 ^ w - 1) then none else some (sdiv w a b)

-- `a < b` on signed words
abbrev pub signed_less : ℕ → ℕ → ℕ → Bool
signed_less w a b = if xor (is_negative w a) (is_negative w b) then is_negative w a else ltb a b

-- What a call returns beside its state: a value, or a negative code.
pub data Result {ℓ} (A : Type ℓ) : Type ℓ where
  ok : A → Result A
  error : ℤ → Result A
