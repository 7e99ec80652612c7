-- ===== src/OsVm/Parse.antt =====
-- parse_int of os/kernel/os_vm.c, the assembler's reader of numbers, against what out_i32 prints.
use lardos.Vm.Decimal.{digits, is_digit, digits-zero, print_signed, digits-pos, digits_shape}
use mathlib.Core.List.{reverse}
use lardos.Base.{
  ℕ, ◌+◌, ◌-◌, ◌*◌, ◌%◌, ◌^◌, ◌<◌, ◌≡◌, refl, ◌||◌, Bool, true, false, none, some, Option, List, [],
  ◌∷◌, ◌++◌, ◌==◌, if◌then◌else◌, zero, suc, ◌/◌, ◌∙◌, arith, append_assoc, inl, inr, Bool-cases,
  ap, ==→eq,
}
use lardos.Base.Words.{u32}
use native.Mathlib.Decide.{dec_lt}
use native.Mathlib.Nat.{pow-suc}
use lardos.Base.Int.{is_negative}

-- `v = v * 10 + (*p - '0')` on `int32_t`
abbrev pub next_value : ℕ → ℕ → ℕ
next_value v c = u32 (v * 10 + (c - b'0'))

-- the loop over the digits: the value and what is left of the text
unfoldable pub parse_digits : ℕ → List ℕ → ℕ × List ℕ
parse_digits v [] = (v, [])
parse_digits v (c ∷ cs) =
    let more = parse_digits (next_value v c) cs in if is_digit c then more else (v, c ∷ cs)

unfoldable pub skip_blanks : List ℕ → List ℕ
skip_blanks [] = []
skip_blanks (c ∷ cs) = let rest = skip_blanks cs in if c == b' ' || c == b'\t' then rest else c ∷ cs

abbrev negated : Bool → ℕ × List ℕ → ℕ × List ℕ
negated neg (v, rest) = (if neg then (2 ^ 32 - v) % 2 ^ 32 else v, rest)

-- behind the sign; `none` is -1
unfoldable pub parse_magnitude : Bool → List ℕ → Option (ℕ × List ℕ)
parse_magnitude neg [] = none
parse_magnitude neg (c ∷ cs) =
    if is_digit c then some (negated neg (parse_digits 0 (c ∷ cs))) else none

unfoldable pub parse_signed : List ℕ → Option (ℕ × List ℕ)
parse_signed [] = none
parse_signed (c ∷ cs) =
    if c == b'-' then parse_magnitude true cs else parse_magnitude false (c ∷ cs)

unfoldable pub parse_int : List ℕ → Option (ℕ × List ℕ)
parse_int text = parse_signed (skip_blanks text)

-- The text behind a number does not go on with a digit.
abbrev pub Ends : List ℕ → Type 0
Ends [] = Unit {0}
Ends (c ∷ cs) = is_digit c ≡ false

parse_digits-Ends : (v : ℕ) (rest : List ℕ) → Ends rest → parse_digits v rest ≡ (v, rest)
unfolding parse_digits
parse_digits-Ends v [] h = refl
parse_digits-Ends v (c ∷ cs) h = rw h

last_digit :
    (mag : ℕ) (rest : List ℕ)
    → mag < 2 ^ 32
    → parse_digits (mag / 10) ((b'0' + mag % 10) ∷ rest) ≡ parse_digits mag rest
unfolding parse_digits
last_digit mag rest small =
    let digit : is_digit (b'0' + mag % 10) ≡ true = ground arith in
    let value : next_value (mag / 10) (b'0' + mag % 10) ≡ mag = omega arith in rw (digit, value)

parse_digits-digits :
    (room mag : ℕ) (rest : List ℕ)
    → mag < 2 ^ 32
    → mag < 10 ^ room
    → parse_digits 0 (reverse (digits room mag) ++ rest) ≡ parse_digits mag rest
parse_digits-digits zero mag rest small fits =
    let e : mag ≡ 0 = omega arith in rw (e, digits-zero 0)
parse_digits-digits (suc room) mag rest small fits = elim (dec_lt 0 mag) [
  | yes pos ↦
      let ih =
        parse_digits-digits room (mag / 10) ((b'0' + mag % 10) ∷ rest) (omega arith)
          (omega (arith, pow-suc 10 room)) in
      rw (digits-pos room mag pos, append_assoc) (ih ∙ last_digit mag rest small)
  | no none_left ↦ let e : mag ≡ 0 = omega arith in rw (e, digits-zero (suc room))
]

module _ {text : List ℕ} {c : ℕ} where
  magnitude_reads :
      (neg : Bool) (cs : List ℕ) (r : ℕ × List ℕ)
      → text ≡ c ∷ cs
      → is_digit c ≡ true
      → parse_digits 0 text ≡ r
      → parse_magnitude neg text ≡ some (negated neg r)
  unfolding parse_magnitude
  magnitude_reads neg cs r e d p =
      let read : parse_digits 0 (c ∷ cs) ≡ r = rw e at p in rw (e, d, read)

  unsigned_reads :
      (cs : List ℕ) (r : ℕ × List ℕ)
      → text ≡ c ∷ cs
      → is_digit c ≡ true
      → parse_digits 0 text ≡ r
      → parse_int text ≡ some r
  unfolding parse_int skip_blanks parse_signed
  unsigned_reads cs r e d p =
      let blank : (c == b' ' || c == b'\t') ≡ false = ground arith in
      let minus : (c == b'-') ≡ false = ground arith in
      let read : parse_digits 0 (c ∷ cs) ≡ r = rw e at p in
      rw (e, blank, minus) (unfold parse_magnitude in rw (d, read))

-- Printed digits are read as a magnitude, under either sign.
module _ (mag : ℕ) (rest : List ℕ) (pos : 0 < mag) (small : mag < 2 ^ 32) (ends : Ends rest) where
  parse_printed : parse_digits 0 (reverse (digits 16 mag) ++ rest) ≡ (mag, rest)
  parse_printed =
      parse_digits-digits 16 mag rest small (omega arith) ∙ parse_digits-Ends mag rest ends

  -- what stands behind the sign, and an unsigned text as a whole
  parse_magnitude-digits :
      (neg : Bool)
      → parse_magnitude neg (reverse (digits 16 mag) ++ rest) ≡ some (negated neg (mag, rest))
  parse_magnitude-digits neg =
      let (c, cs, e, d) = digits_shape 16 mag pos (omega arith) in
      magnitude_reads neg (cs ++ rest) (mag, rest) (ap (λ l. l ++ rest) e) d parse_printed

  parse_int-digits : parse_int (reverse (digits 16 mag) ++ rest) ≡ some (mag, rest)
  parse_int-digits =
      let (c, cs, e, d) = digits_shape 16 mag pos (omega arith) in
      unsigned_reads (cs ++ rest) (mag, rest) (ap (λ l. l ++ rest) e) d parse_printed

  parse_int-negative :
      parse_int (b'-' ∷ (reverse (digits 16 mag) ++ rest)) ≡ some (negated true (mag, rest))
  unfolding parse_int skip_blanks parse_signed
  parse_int-negative = parse_magnitude-digits true

parse_int-zero : (rest : List ℕ) → Ends rest → parse_int (b'0' ∷ rest) ≡ some (0, rest)
parse_int-zero rest ends =
    unsigned_reads rest (0, rest) refl refl (unfold parse_digits in parse_digits-Ends 0 rest ends)

-- `out_i32` and `parse_int` are inverse: on every `int32_t`, with any text behind it that does not go
-- on with a digit, `parse_int` reads the printed number back, and stops behind it.
pub parse_int-print_signed :
    (v : ℕ) (rest : List ℕ)
    → v < 2 ^ 32
    → Ends rest
    → parse_int (print_signed 32 16 v ++ rest) ≡ some (v, rest)
unfolding print_signed
parse_int-print_signed v rest word ends = elim (Bool-cases (v == 0)) [
  | inl z ↦ let e : v ≡ 0 = ==→eq v 0 z in rw (z, e) (parse_int-zero rest ends)
  | inr nz ↦ elim (Bool-cases (is_negative 32 v)) [
    | inl minus ↦
        let back : (2 ^ 32 - (2 ^ 32 - v)) % 2 ^ 32 ≡ v = ground arith in
        rw (nz, minus)
          (parse_int-negative (2 ^ 32 - v) rest (ground arith) (ground arith) ends
            ∙ ap (λ x. some (x, rest)) back)
    | inr plus ↦ rw (nz, plus) (parse_int-digits v rest (ground arith) word ends)
  ]
]
