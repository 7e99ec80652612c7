-- ===== src/Base64/Round.antt =====
-- Decoding what os/kernel/base64.c encodes.
use lardos.Base.{
  length, ltb, ℕ, ◌+◌, ◌*◌, ◌/◌, ◌%◌, ◌^◌, ◌<◌, ◌≡◌, refl, ◌&&◌, Bool, true, false, none, some,
  List, [], ◌∷◌, ◌++◌, arith, ◌==◌, tested_below, bit_or, get_or, All, not, tested_below-at, ◌∙◌,
}
use lardos.Base64.{
  base64_encode, base64_decode, encoded_size, b64_val, padded, digit, decode_loop, encode_loop,
  b64_chars, ungroup, group,
}
use lardos.Base.Words.{IsByte, u8}
use lardos.Base.Bits.{bit_or_fields, bit_and_mask, bit_or_quad}

-- The character of a digit is read back as the digit, and is no padding.
reads_back : ℕ → Bool
reads_back k =
    elim (b64_val (get_or b64_chars k 0)) [ none ↦ false | some v ↦ v == k ]
    && not (get_or b64_chars k 0 == b'=')

digit_table : tested_below 64 reads_back ≡ true
unfolding tested_below reads_back b64_val b64_chars
digit_table = refl

module _ (k : ℕ) (small : k < 64) where
  b64_val-digit : b64_val (get_or b64_chars k 0) ≡ some k
  unfolding reads_back
  b64_val-digit = ground (arith, tested_below-at 64 reads_back k digit_table small)

  padded-digit : padded (get_or b64_chars k 0) ≡ some k
  unfolding reads_back
  padded-digit = ground (arith, b64_val-digit, tested_below-at 64 reads_back k digit_table small)

digit_value : (v shift : ℕ) → digit v shift ≡ get_or b64_chars (v / 2 ^ shift % 64) 0
digit_value v shift = rw (bit_and_mask 6 (v / 2 ^ shift)) refl

triple_value :
    (a b c : ℕ)
    → IsByte b
    → IsByte c
    → bit_or (bit_or (a * 2 ^ 16) (b * 2 ^ 8)) c ≡ a * 2 ^ 16 + b * 2 ^ 8 + c
triple_value a b c hb hc =
    let e : a * 2 ^ 16 + b * 2 ^ 8 ≡ (a * 2 ^ 8 + b) * 2 ^ 8 = omega arith in
    rw (bit_or_fields 16 a (b * 2 ^ 8) (omega arith), e, bit_or_fields 8 (a * 2 ^ 8 + b) c hc) refl

-- Four digits and what stands behind them, read back.
module _ (v : ℕ) (rest behind : List ℕ) (tail : decode_loop rest ≡ some behind) where
  group_back :
      decode_loop (group v ++ rest) ≡ some (u8 (v / 2 ^ 16) ∷ u8 (v / 2 ^ 8) ∷ u8 v ∷ behind)
  unfolding decode_loop ungroup
  group_back =
      let a = v / 2 ^ 18 % 64 in
      let b = v / 2 ^ 12 % 64 in
      let c = v / 2 ^ 6 % 64 in
      let d = v / 2 ^ 0 % 64 in
      rw
        (
          digit_value v 18,
          digit_value v 12,
          digit_value v 6,
          digit_value v 0,
          b64_val-digit a (omega arith),
          b64_val-digit b (omega arith),
          padded-digit c (omega arith),
          padded-digit d (omega arith),
          tail,
          bit_or_quad a b c d (omega arith) (omega arith) (omega arith),
        )
        (ground arith)

two_back :
    (v : ℕ)
    → v % 2 ^ 8 ≡ 0
    → decode_loop (digit v 18 ∷ digit v 12 ∷ digit v 6 ∷ b'=' ∷ [])
      ≡ some (u8 (v / 2 ^ 16) ∷ u8 (v / 2 ^ 8) ∷ [])
unfolding decode_loop ungroup
two_back v low =
    let a = v / 2 ^ 18 % 64 in
    let b = v / 2 ^ 12 % 64 in
    let c = v / 2 ^ 6 % 64 in
    rw
      (
        digit_value v 18,
        digit_value v 12,
        digit_value v 6,
        b64_val-digit a (omega arith),
        b64_val-digit b (omega arith),
        padded-digit c (omega arith),
        bit_or_quad a b c 0 (omega arith) (omega arith) (omega arith),
      )
      (ground arith)

one_back :
    (v : ℕ)
    → v % 2 ^ 16 ≡ 0
    → decode_loop (digit v 18 ∷ digit v 12 ∷ b'=' ∷ b'=' ∷ []) ≡ some (u8 (v / 2 ^ 16) ∷ [])
unfolding decode_loop ungroup
one_back v low =
    let a = v / 2 ^ 18 % 64 in
    let b = v / 2 ^ 12 % 64 in
    rw
      (
        digit_value v 18,
        digit_value v 12,
        b64_val-digit a (omega arith),
        b64_val-digit b (omega arith),
        bit_or_quad a b 0 0 (omega arith) (omega arith) (omega arith),
      )
      (ground arith)

decode_loop_nil : decode_loop [] ≡ some []
unfolding decode_loop
decode_loop_nil = refl

loops_back : (bytes : List ℕ) → All IsByte bytes → decode_loop (encode_loop bytes) ≡ some bytes
unfolding encode_loop
loops_back (a ∷ b ∷ c ∷ rest) (ha, (hb, (hc, all))) =
    group_back _ (encode_loop rest) rest (loops_back rest all)
    ∙ rw (triple_value a b c hb hc) (ground arith)
loops_back (a ∷ b ∷ []) (ha, (hb, _)) =
    rw (bit_or_fields 16 a (b * 2 ^ 8) (omega arith))
      (two_back (a * 2 ^ 16 + b * 2 ^ 8) (omega arith) ∙ ground arith)
loops_back (a ∷ []) (ha, _) = one_back (a * 2 ^ 16) (omega arith) ∙ ground arith
loops_back [] all = decode_loop_nil

length-encode_loop : (bytes : List ℕ) → length (encode_loop bytes) ≡ encoded_size (length bytes)
unfolding encode_loop
length-encode_loop (a ∷ b ∷ c ∷ rest) = omega (arith, length-encode_loop rest)
length-encode_loop (a ∷ b ∷ []) = omega arith
length-encode_loop (a ∷ []) = omega arith
length-encode_loop [] = omega arith

-- Bytes whose encoding is shorter than 2 ^ 32 - 4 characters, so that no index wraps, are encoded, and
-- decoding the encoding gives them back.
pub decode-encode :
    (bytes : List ℕ)
    → All IsByte bytes
    → encoded_size (length bytes) + 4 < 2 ^ 32
    → (text : List ℕ) × (base64_encode bytes ≡ some text) × (base64_decode text ≡ some (some bytes))
unfolding base64_encode base64_decode
decode-encode bytes all h =
    let fits : ltb (encoded_size (length bytes)) (2 ^ 32) ≡ true = ground arith in
    let read : ltb (length (encode_loop bytes) + 4) (2 ^ 32) ≡ true =
      ground (arith, length-encode_loop bytes) in
    (encode_loop bytes, rw fits refl, rw (read, loops_back bytes all) refl)
