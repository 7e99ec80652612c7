-- ===== src/Unicode/Encode.antt =====
-- The encoding scheme of UTF-8, and that os/kernel/unicode.c reads it. The standard leaves out the
-- surrogates 0xD800 to 0xDFFF, which the scheme has bytes for and the reader accepts.
use lardos.Base.{
  ℕ, ◌+◌, ◌*◌, ◌/◌, ◌%◌, ◌^◌, ◌≤◌, ◌<◌, ◌≡◌, inl, inr, refl, ◌∙◌, Bool, List, [], ◌∷◌, ◌++◌, arith,
  ◌==◌, if◌then◌else◌, ltb, bit_and, tested_below, bit_or, ==→eq, length, tested_below-at,
  Bool-cases, drop-append,
}
use lardos.Unicode.{utf8_read, utf8_next}
use lardos.Base.Bits.{bit_and_mask, bit_or_fields, bit_or_quad}

-- The UTF-8 encoding of a code point.
unfoldable pub encode : ℕ → List ℕ
encode cp =
    if ltb cp 0x80
    then cp ∷ []
    else if ltb cp 0x800
    then (0xC0 + cp / 64) ∷ (0x80 + cp % 64) ∷ []
    else if ltb cp 0x10000
    then (0xE0 + cp / 4096) ∷ (0x80 + cp / 64 % 64) ∷ (0x80 + cp % 64) ∷ []
    else (0xF0 + cp / 262144)
      ∷ (0x80 + cp / 4096 % 64)
      ∷ (0x80 + cp / 64 % 64)
      ∷ (0x80 + cp % 64)
      ∷ []

-- The masks, at the bytes that an encoding has: checked at each of them.
masked : ℕ → ℕ → ℕ → ℕ → Bool
masked base mask value k = bit_and (base + k) mask == value

module _ (k : ℕ) where
  two_lead : k < 32 → bit_and (0xC0 + k) 0xE0 ≡ 0xC0
  unfolding masked tested_below
  two_lead h = ==→eq _ _ (tested_below-at 32 (masked 0xC0 0xE0 0xC0) k refl h)

  three_no_two : k < 16 → bit_and (0xE0 + k) 0xE0 ≡ 0xE0
  unfolding masked tested_below
  three_no_two h = ==→eq _ _ (tested_below-at 16 (masked 0xE0 0xE0 0xE0) k refl h)

  three_lead : k < 16 → bit_and (0xE0 + k) 0xF0 ≡ 0xE0
  unfolding masked tested_below
  three_lead h = ==→eq _ _ (tested_below-at 16 (masked 0xE0 0xF0 0xE0) k refl h)

  four_no_two : k < 8 → bit_and (0xF0 + k) 0xE0 ≡ 0xE0
  unfolding masked tested_below
  four_no_two h = ==→eq _ _ (tested_below-at 8 (masked 0xF0 0xE0 0xE0) k refl h)

  four_no_three : k < 8 → bit_and (0xF0 + k) 0xF0 ≡ 0xF0
  unfolding masked tested_below
  four_no_three h = ==→eq _ _ (tested_below-at 8 (masked 0xF0 0xF0 0xF0) k refl h)

  four_lead : k < 8 → bit_and (0xF0 + k) 0xF8 ≡ 0xF0
  unfolding masked tested_below
  four_lead h = ==→eq _ _ (tested_below-at 8 (masked 0xF0 0xF8 0xF0) k refl h)

  trail : k < 64 → bit_and (0x80 + k) 0xC0 ≡ 0x80
  unfolding masked tested_below
  trail h = ==→eq _ _ (tested_below-at 64 (masked 0x80 0xC0 0x80) k refl h)

  trail_bits : k < 64 → bit_and (0x80 + k) 0x3F ≡ k
  trail_bits h = bit_and_mask 6 (0x80 + k) ∙ omega arith

pub two_value :
    (a b : ℕ)
    → a < 32
    → b < 64
    → bit_or (bit_and (0xC0 + a) 0x1F * 2 ^ 6) (bit_and (0x80 + b) 0x3F) ≡ a * 64 + b
two_value a b ha hb =
    let e : bit_and (0xC0 + a) 0x1F ≡ a = bit_and_mask 5 (0xC0 + a) ∙ omega arith in
    rw (e, trail_bits b hb, bit_or_fields 6 a b hb) refl

pub three_value :
    (a b c : ℕ)
    → a < 16
    → b < 64
    → c < 64
    → bit_or
        (bit_or (bit_and (0xE0 + a) 0x0F * 2 ^ 12) (bit_and (0x80 + b) 0x3F * 2 ^ 6))
        (bit_and (0x80 + c) 0x3F)
      ≡ a * 4096 + b * 64 + c
three_value a b c ha hb hc =
    let e : bit_and (0xE0 + a) 0x0F ≡ a = bit_and_mask 4 (0xE0 + a) ∙ omega arith in
    let f : a * 2 ^ 12 + b * 2 ^ 6 ≡ (a * 2 ^ 6 + b) * 2 ^ 6 = omega arith in
    rw
      (
        e,
        trail_bits b hb,
        trail_bits c hc,
        bit_or_fields 12 a (b * 2 ^ 6) (omega arith),
        f,
        bit_or_fields 6 (a * 2 ^ 6 + b) c hc,
      )
      (omega arith)

pub four_value :
    (a b c d : ℕ)
    → a < 8
    → b < 64
    → c < 64
    → d < 64
    → bit_or
        (bit_or
          (bit_or (bit_and (0xF0 + a) 0x07 * 2 ^ 18) (bit_and (0x80 + b) 0x3F * 2 ^ 12))
          (bit_and (0x80 + c) 0x3F * 2 ^ 6))
        (bit_and (0x80 + d) 0x3F)
      ≡ a * 262144 + b * 4096 + c * 64 + d
four_value a b c d ha hb hc hd =
    let e : bit_and (0xF0 + a) 0x07 ≡ a = bit_and_mask 3 (0xF0 + a) ∙ omega arith in
    rw (e, trail_bits b hb, trail_bits c hc, trail_bits d hd)
      (bit_or_quad a b c d hb hc hd ∙ omega arith)

-- What is read in front of the encoding of a code point is that code point, and as many bytes as its
-- encoding has.
read_encode :
    (cp : ℕ) (rest : List ℕ)
    → 0 < cp
    → cp ≤ 0x10FFFF
    → utf8_read (encode cp ++ rest) ≡ (cp, length (encode cp))
unfolding encode utf8_read
read_encode cp rest pos bound = elim (Bool-cases (ltb cp 0x80)) [
  | inl e ↦ rw e (ground arith)
  | inr e ↦ elim (Bool-cases (ltb cp 0x800)) [
    | inl f ↦
        rw (e, f)
          (ground (arith, two_lead (cp / 64), trail (cp % 64), two_value (cp / 64) (cp % 64)))
    | inr f ↦ elim (Bool-cases (ltb cp 0x10000)) [
      | inl g ↦
          rw (e, f, g)
            (ground (
              arith,
              three_no_two (cp / 4096),
              three_lead (cp / 4096),
              trail (cp / 64 % 64),
              trail (cp % 64),
              three_value (cp / 4096) (cp / 64 % 64) (cp % 64),
            ))
      | inr g ↦
          rw (e, f, g)
            (ground (
              arith,
              four_no_two (cp / 262144),
              four_no_three (cp / 262144),
              four_lead (cp / 262144),
              trail (cp / 4096 % 64),
              trail (cp / 64 % 64),
              trail (cp % 64),
              four_value (cp / 262144) (cp / 4096 % 64) (cp / 64 % 64) (cp % 64),
            ))
    ]
  ]
]

-- Reading the encoding of a code point other than 0 gives the code point and stops behind it.
pub next_encode :
    (cp : ℕ) (rest : List ℕ) → 0 < cp → cp ≤ 0x10FFFF → utf8_next (encode cp ++ rest) ≡ (cp, rest)
unfolding utf8_next
next_encode cp rest pos bound =
    rw (read_encode cp rest pos bound) (rw (drop-append (encode cp) rest) refl)
