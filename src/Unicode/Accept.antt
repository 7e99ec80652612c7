-- ===== src/Unicode/Accept.antt =====
-- The UTF-8 reader of os/kernel/unicode.c accepts the encodings of code points and nothing else.
use lardos.Base.{
  ℕ, ◌+◌, ◌-◌, ◌*◌, ◌/◌, ◌%◌, ◌≤◌, ◌<◌, ◌≡◌, refl, ◌∙◌, ◌⊎◌, Bool, true, false, List, [], ◌∷◌, ◌++◌,
  arith, ◌==◌, ltb, leb, not, ◌||◌, ◌&&◌, bit_and, tested_below, tested_below-at, drop, ap, All,
  get_or-All, inl, inr, if◌then◌else◌, sym, Bool-cases,
}
use lardos.Base.Words.{byte_at, IsByte}
use lardos.Unicode.{
  utf8_next, replacement, two_bytes, starts_two, three_bytes, four_bytes, utf8_read, starts_three,
  starts_four,
}
use lardos.Unicode.Encode.{next_encode, encode, two_value, three_value, four_value}

-- The bytes that the masks of the reader accept.
in_range : ℕ → ℕ → ℕ → ℕ → ℕ → Bool
in_range mask value low high c = not (bit_and c mask == value) || (leb low c && ltb c high)

module _ (c : ℕ) (byte : c < 256) where
  is_two_lead : (bit_and c 0xE0 == 0xC0) ≡ true → (0xC0 ≤ c) × (c < 0xE0)
  unfolding in_range tested_below
  is_two_lead h =
      let e = tested_below-at 256 (in_range 0xE0 0xC0 0xC0 0xE0) c refl byte in ground (arith, e, h)

  is_three_lead : (bit_and c 0xF0 == 0xE0) ≡ true → (0xE0 ≤ c) × (c < 0xF0)
  unfolding in_range tested_below
  is_three_lead h =
      let e = tested_below-at 256 (in_range 0xF0 0xE0 0xE0 0xF0) c refl byte in ground (arith, e, h)

  is_four_lead : (bit_and c 0xF8 == 0xF0) ≡ true → (0xF0 ≤ c) × (c < 0xF8)
  unfolding in_range tested_below
  is_four_lead h =
      let e = tested_below-at 256 (in_range 0xF8 0xF0 0xF0 0xF8) c refl byte in ground (arith, e, h)

  is_trail : (bit_and c 0xC0 == 0x80) ≡ true → (0x80 ≤ c) × (c < 0xC0)
  unfolding in_range tested_below
  is_trail h =
      let e = tested_below-at 256 (in_range 0xC0 0x80 0x80 0xC0) c refl byte in ground (arith, e, h)

-- What stands in front of a place that is not the end.
front_one : (p : List ℕ) → (byte_at p 0 == 0) ≡ false → p ≡ byte_at p 0 ∷ drop 1 p
front_one [] h = absurd (ground (arith, h))
front_one (a ∷ p) h = refl

front_two : (p : List ℕ) → (byte_at p 1 == 0) ≡ false → p ≡ byte_at p 0 ∷ byte_at p 1 ∷ drop 2 p
front_two [] h = absurd (ground (arith, h))
front_two (a ∷ p) h = ap (λ q. a ∷ q) (front_one p h)

front_three :
    (p : List ℕ)
    → (byte_at p 2 == 0) ≡ false
    → p ≡ byte_at p 0 ∷ byte_at p 1 ∷ byte_at p 2 ∷ drop 3 p
front_three [] h = absurd (ground (arith, h))
front_three (a ∷ p) h = ap (λ q. a ∷ q) (front_two p h)

front_four :
    (p : List ℕ)
    → (byte_at p 3 == 0) ≡ false
    → p ≡ byte_at p 0 ∷ byte_at p 1 ∷ byte_at p 2 ∷ byte_at p 3 ∷ drop 4 p
front_four [] h = absurd (ground (arith, h))
front_four (a ∷ p) h = ap (λ q. a ∷ q) (front_three p h)

encode_two :
    (a b : ℕ) → 2 ≤ a → a < 32 → b < 64 → encode (a * 64 + b) ≡ (0xC0 + a) ∷ (0x80 + b) ∷ []
unfolding encode
encode_two a b low ha hb =
    let e : ltb (a * 64 + b) 0x80 ≡ false = ground arith in
    let f : ltb (a * 64 + b) 0x800 ≡ true = ground arith in
    let x : (a * 64 + b) / 64 ≡ a = omega arith in
    let y : (a * 64 + b) % 64 ≡ b = omega arith in rw (e, f, x, y) refl

encode_three :
    (a b c : ℕ)
    → a < 16
    → b < 64
    → c < 64
    → 0x800 ≤ a * 4096 + b * 64 + c
    → encode (a * 4096 + b * 64 + c) ≡ (0xE0 + a) ∷ (0x80 + b) ∷ (0x80 + c) ∷ []
unfolding encode
encode_three a b c ha hb hc low =
    let n = a * 4096 + b * 64 + c in
    let e : ltb n 0x80 ≡ false = ground arith in
    let f : ltb n 0x800 ≡ false = ground arith in
    let g : ltb n 0x10000 ≡ true = ground arith in
    let x : n / 4096 ≡ a = omega arith in
    let y : n / 64 % 64 ≡ b = omega arith in
    let z : n % 64 ≡ c = omega arith in rw (e, f, g, x, y, z) refl

encode_four :
    (a b c d : ℕ)
    → a < 8
    → b < 64
    → c < 64
    → d < 64
    → 0x10000 ≤ a * 262144 + b * 4096 + c * 64 + d
    → encode (a * 262144 + b * 4096 + c * 64 + d)
      ≡ (0xF0 + a) ∷ (0x80 + b) ∷ (0x80 + c) ∷ (0x80 + d) ∷ []
unfolding encode
encode_four a b c d ha hb hc hd low =
    let n = a * 262144 + b * 4096 + c * 64 + d in
    let e : ltb n 0x80 ≡ false = ground arith in
    let f : ltb n 0x800 ≡ false = ground arith in
    let g : ltb n 0x10000 ≡ false = ground arith in
    let w : n / 262144 ≡ a = omega arith in
    let x : n / 4096 % 64 ≡ b = omega arith in
    let y : n / 64 % 64 ≡ c = omega arith in
    let z : n % 64 ≡ d = omega arith in rw (e, f, g, w, x, y, z) refl

encode_one : (c : ℕ) → c < 0x80 → encode c ≡ c ∷ []
unfolding encode
encode_one c h = let e : ltb c 0x80 ≡ true = ground arith in rw e refl

-- The code points that the reader computes, and their encodings.
two_code :
    (c0 c1 a b : ℕ)
    → c0 ≡ 0xC0 + a
    → c1 ≡ 0x80 + b
    → a < 32
    → b < 64
    → ltb (two_bytes (c0 ∷ c1 ∷ [])) 0x80 ≡ false
    → (0 < two_bytes (c0 ∷ c1 ∷ []))
      × (two_bytes (c0 ∷ c1 ∷ []) ≤ 0x10FFFF)
      × (encode (two_bytes (c0 ∷ c1 ∷ [])) ≡ c0 ∷ c1 ∷ [])
two_code c0 c1 a b e f ha hb low =
    let v : two_bytes (c0 ∷ c1 ∷ []) ≡ a * 64 + b = rw (e, f) (two_value a b ha hb) in
    let large : 0x80 ≤ a * 64 + b = ground (arith, v, low) in
    (
      omega (arith, v),
      omega (arith, v),
      ap encode v ∙ encode_two a b (omega arith) ha hb ∙ rw (e, f) refl,
    )

three_code :
    (c0 c1 c2 a b c : ℕ)
    → c0 ≡ 0xE0 + a
    → c1 ≡ 0x80 + b
    → c2 ≡ 0x80 + c
    → a < 16
    → b < 64
    → c < 64
    → ltb (three_bytes (c0 ∷ c1 ∷ c2 ∷ [])) 0x800 ≡ false
    → (0 < three_bytes (c0 ∷ c1 ∷ c2 ∷ []))
      × (three_bytes (c0 ∷ c1 ∷ c2 ∷ []) ≤ 0x10FFFF)
      × (encode (three_bytes (c0 ∷ c1 ∷ c2 ∷ [])) ≡ c0 ∷ c1 ∷ c2 ∷ [])
three_code c0 c1 c2 a b c e f g ha hb hc low =
    let v : three_bytes (c0 ∷ c1 ∷ c2 ∷ []) ≡ a * 4096 + b * 64 + c =
      rw (e, f, g) (three_value a b c ha hb hc) in
    let large : 0x800 ≤ a * 4096 + b * 64 + c = ground (arith, v, low) in
    (
      omega (arith, v),
      omega (arith, v),
      ap encode v ∙ encode_three a b c ha hb hc large ∙ rw (e, f, g) refl,
    )

four_code :
    (c0 c1 c2 c3 a b c d : ℕ)
    → c0 ≡ 0xF0 + a
    → c1 ≡ 0x80 + b
    → c2 ≡ 0x80 + c
    → c3 ≡ 0x80 + d
    → a < 8
    → b < 64
    → c < 64
    → d < 64
    → (ltb (four_bytes (c0 ∷ c1 ∷ c2 ∷ c3 ∷ [])) 0x10000
        || ltb 0x10FFFF (four_bytes (c0 ∷ c1 ∷ c2 ∷ c3 ∷ [])))
      ≡ false
    → (0 < four_bytes (c0 ∷ c1 ∷ c2 ∷ c3 ∷ []))
      × (four_bytes (c0 ∷ c1 ∷ c2 ∷ c3 ∷ []) ≤ 0x10FFFF)
      × (encode (four_bytes (c0 ∷ c1 ∷ c2 ∷ c3 ∷ [])) ≡ c0 ∷ c1 ∷ c2 ∷ c3 ∷ [])
four_code c0 c1 c2 c3 a b c d e f g k ha hb hc hd low =
    let v : four_bytes (c0 ∷ c1 ∷ c2 ∷ c3 ∷ []) ≡ a * 262144 + b * 4096 + c * 64 + d =
      rw (e, f, g, k) (four_value a b c d ha hb hc hd) in
    let large : 0x10000 ≤ a * 262144 + b * 4096 + c * 64 + d = ground (arith, v, low) in
    let small : a * 262144 + b * 4096 + c * 64 + d ≤ 0x10FFFF = ground (arith, v, low) in
    (
      omega (arith, v, large),
      omega (arith, v, small),
      ap encode v ∙ encode_four a b c d ha hb hc hd large ∙ rw (e, f, g, k) refl,
    )

-- The outcomes of reading at `p`: the terminator; a code point whose encoding stands there; the
-- replacement character for one byte.
abbrev pub Accepted : List ℕ → Type 0
Accepted p =
    ((byte_at p 0 ≡ 0) × (utf8_next p ≡ (0, p)))
    ⊎ (((cp : ℕ) × (rest : List ℕ) × (0 < cp)
          × (cp ≤ 0x10FFFF)
          × (p ≡ encode cp ++ rest)
          × (utf8_next p ≡ (cp, rest)))
        ⊎ (utf8_next p ≡ (replacement, drop 1 p)))

module _ (p : List ℕ) (bytes : All IsByte p) where
  byte_of : (i : ℕ) → byte_at p i < 256
  byte_of i = get_or-All IsByte p i 0 bytes (omega arith)

  -- A code point whose encoding stands at `p`.
  accepts :
      (cp moved : ℕ) (front : List ℕ)
      → 0 < cp
      → cp ≤ 0x10FFFF
      → encode cp ≡ front
      → p ≡ front ++ drop moved p
      → utf8_read p ≡ (cp, moved)
      → Accepted p
  unfolding utf8_next
  accepts cp moved front pos bound e split r =
      inr
        (inl (cp, drop moved p, pos, bound, split ∙ ap (λ s. s ++ drop moved p) (sym e), rw r refl))

  refuses : utf8_read p ≡ (replacement, 1) → Accepted p
  unfolding utf8_next
  refuses r = inr (inr (rw r refl))

  accept_two :
      starts_two p ≡ true
      → utf8_read p ≡ (if ltb (two_bytes p) 0x80 then (replacement, 1) else (two_bytes p, 2))
      → Accepted p
  accept_two h r = elim (Bool-cases (ltb (two_bytes p) 0x80)) [
    | inl low ↦ refuses (r ∙ rw low refl)
    | inr low ↦
        let lead = is_two_lead (byte_at p 0) (byte_of 0) (ground (arith, h)) in
        let tail = is_trail (byte_at p 1) (byte_of 1) (ground (arith, h)) in
        let code =
          two_code (byte_at p 0) (byte_at p 1) (byte_at p 0 - 0xC0) (byte_at p 1 - 0x80)
            (omega (arith, lead)) (omega (arith, tail)) (omega (arith, lead)) (omega (arith, tail))
            low in
        accepts (two_bytes p) 2 (byte_at p 0 ∷ byte_at p 1 ∷ []) code.0 code.1 code.2
          (front_two p (ground (arith, h))) (r ∙ rw low refl)
  ]

  accept_three :
      starts_three p ≡ true
      → utf8_read p ≡ (if ltb (three_bytes p) 0x800 then (replacement, 1) else (three_bytes p, 3))
      → Accepted p
  accept_three h r = elim (Bool-cases (ltb (three_bytes p) 0x800)) [
    | inl low ↦ refuses (r ∙ rw low refl)
    | inr low ↦
        let lead = is_three_lead (byte_at p 0) (byte_of 0) (ground (arith, h)) in
        let t1 = is_trail (byte_at p 1) (byte_of 1) (ground (arith, h)) in
        let t2 = is_trail (byte_at p 2) (byte_of 2) (ground (arith, h)) in
        let code =
          three_code (byte_at p 0) (byte_at p 1) (byte_at p 2) (byte_at p 0 - 0xE0)
            (byte_at p 1 - 0x80) (byte_at p 2 - 0x80) (omega (arith, lead)) (omega (arith, t1))
            (omega (arith, t2)) (omega (arith, lead)) (omega (arith, t1)) (omega (arith, t2)) low in
        accepts (three_bytes p) 3 (byte_at p 0 ∷ byte_at p 1 ∷ byte_at p 2 ∷ []) code.0 code.1
          code.2 (front_three p (ground (arith, h))) (r ∙ rw low refl)
  ]

  accept_four :
      starts_four p ≡ true
      → utf8_read p ≡ (
          if ltb (four_bytes p) 0x10000 || ltb 0x10FFFF (four_bytes p)
          then (replacement, 1)
          else (four_bytes p, 4))
      → Accepted p
  accept_four h r = elim (Bool-cases (ltb (four_bytes p) 0x10000 || ltb 0x10FFFF (four_bytes p))) [
    | inl low ↦ refuses (r ∙ rw low refl)
    | inr low ↦
        let lead = is_four_lead (byte_at p 0) (byte_of 0) (ground (arith, h)) in
        let t1 = is_trail (byte_at p 1) (byte_of 1) (ground (arith, h)) in
        let t2 = is_trail (byte_at p 2) (byte_of 2) (ground (arith, h)) in
        let t3 = is_trail (byte_at p 3) (byte_of 3) (ground (arith, h)) in
        let code =
          four_code (byte_at p 0) (byte_at p 1) (byte_at p 2) (byte_at p 3) (byte_at p 0 - 0xF0)
            (byte_at p 1 - 0x80) (byte_at p 2 - 0x80) (byte_at p 3 - 0x80) (omega (arith, lead))
            (omega (arith, t1)) (omega (arith, t2)) (omega (arith, t3)) (omega (arith, lead))
            (omega (arith, t1)) (omega (arith, t2)) (omega (arith, t3)) low in
        accepts (four_bytes p) 4 (byte_at p 0 ∷ byte_at p 1 ∷ byte_at p 2 ∷ byte_at p 3 ∷ []) code.0
          code.1 code.2 (front_four p (ground (arith, h))) (r ∙ rw low refl)
  ]

  ends_at : byte_at p 0 ≡ 0 → utf8_next p ≡ (0, p)
  unfolding utf8_next utf8_read
  ends_at h = rw h refl

  accept : Accepted p
  unfolding utf8_read
  accept = elim (Bool-cases (byte_at p 0 == 0)) [
    | inl nul ↦ let zero : byte_at p 0 ≡ 0 = ground (arith, nul) in inl (zero, ends_at zero)
    | inr nul ↦ elim (Bool-cases (ltb (byte_at p 0) 0x80)) [
      | inl ascii ↦
          accepts (byte_at p 0) 1 (byte_at p 0 ∷ []) (ground (arith, nul)) (ground (arith, ascii))
            (encode_one (byte_at p 0) (ground (arith, ascii))) (front_one p nul)
            (rw (nul, ascii) refl)
      | inr ascii ↦ elim (Bool-cases (starts_two p)) [
        | inl two ↦ accept_two two (rw (nul, ascii, two) refl)
        | inr two ↦ elim (Bool-cases (starts_three p)) [
          | inl three ↦ accept_three three (rw (nul, ascii, two, three) refl)
          | inr three ↦ elim (Bool-cases (starts_four p)) [
            | inl four ↦ accept_four four (rw (nul, ascii, two, three, four) refl)
            | inr four ↦ refuses (rw (nul, ascii, two, three, four) refl)
          ]
        ]
      ]
    ]
  ]

-- The reader agrees with the encoding scheme both ways. In front of the encoding of a code point from 1
-- to 0x10FFFF it gives the code point and stops behind it. On any bytes `p` it stands at a terminator
-- and stays there, or at the encoding of the code point from 1 to 0x10FFFF that it gives, or it gives
-- the replacement character for one byte.
pub utf8_next-encode :
    (cp : ℕ) (rest p : List ℕ)
    → 0 < cp
    → cp ≤ 0x10FFFF
    → All IsByte p
    → (utf8_next (encode cp ++ rest) ≡ (cp, rest)) × Accepted p
utf8_next-encode cp rest p pos bound bytes = (next_encode cp rest pos bound, accept p bytes)
