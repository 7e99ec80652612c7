-- ===== src/Vm/Decimal.antt =====
-- Decimal text of signed words: out_i32 of os/kernel/os_vm.c and gasm_print_i64 of
-- os/kernel/gasm_vm.c, which differ in the width and in the size of the digit buffer.
use lardos.Base.Int.{is_negative, magnitude}
use mathlib.Core.List.{reverse, reverse-cons}
use lardos.Base.{
  ℕ, zero, suc, ◌+◌, ◌/◌, ◌%◌, ◌^◌, ◌<◌, ◌≡◌, ◌&&◌, Bool, true, List, [], ◌∷◌, ◌==◌, if◌then◌else◌,
  leb, refl, false, ◌++◌, arith,
}
use native.Mathlib.Decide.{dec_lt}
use native.Mathlib.Nat.{pow-suc}

-- The loop that fills `buf`, lowest digit first; `room` is the size of the buffer.
unfoldable pub digits : ℕ → ℕ → List ℕ
digits zero mag = []
digits (suc room) mag =
    let rest = digits room (mag / 10) in if mag == 0 then [] else (b'0' + mag % 10) ∷ rest

-- `out_i32` at 32 bits and 16 places, `gasm_print_i64` at 64 bits and 24 places
unfoldable pub print_signed : ℕ → ℕ → ℕ → List ℕ
unfolding digits
print_signed w room v =
    if v == 0
    then b'0' ∷ []
    else if is_negative w v
    then b'-' ∷ reverse (digits room (magnitude w v))
    else reverse (digits room (magnitude w v))

abbrev pub is_digit : ℕ → Bool
is_digit c = leb b'0' c && leb c b'9'

pub digits-zero : (room : ℕ) → digits room 0 ≡ []
unfolding digits
digits-zero zero = refl
digits-zero (suc room) = refl

pub digits-pos :
    (room mag : ℕ)
    → 0 < mag
    → reverse (digits (suc room) mag) ≡ reverse (digits room (mag / 10)) ++ ((b'0' + mag % 10) ∷ [])
unfolding digits
digits-pos room mag pos =
    rw (let e : (mag == 0) ≡ false = ground arith in e)
      (reverse-cons (b'0' + mag % 10) (digits room (mag / 10)))

-- The digits of a positive number are digits, and at least one.
pub digits_shape :
    (room mag : ℕ)
    → 0 < mag
    → mag < 10 ^ room
    → (c : ℕ) × (cs : List ℕ) × (reverse (digits room mag) ≡ c ∷ cs) × (is_digit c ≡ true)
digits_shape zero mag pos fits = absurd (omega arith)
digits_shape (suc room) mag pos fits = elim (dec_lt 0 (mag / 10)) [
  | yes more ↦
      let small : mag / 10 < 10 ^ room = omega (arith, pow-suc 10 room) in
      let (c, cs, e, d) = digits_shape room (mag / 10) more small in
      (c, cs ++ ((b'0' + mag % 10) ∷ []), rw (digits-pos room mag pos, e), d)
  | no last ↦
      let none_left : mag / 10 ≡ 0 = omega arith in
      (b'0' + mag % 10, [], rw (digits-pos room mag pos, none_left, digits-zero room), ground arith)
]
