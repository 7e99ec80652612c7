-- ===== src/Lfs/Numbers.antt =====
-- The numbers of variable length of os/kernel/lfs.c: what the self test's writer writes is read back.
use lardos.Lfs.{add_chunk, varu_loop, lfs_rd_varu}
use native.Mathlib.Nat.{le-div_iff_mul-le, one-le-pow, mul-le-mul_right}
use native.Mathlib.Numerals.{towards_suc}
use lardos.Lfs.Reads.{ok, read, ◌>>=◌}
use lardos.Base.{
  ℕ, zero, suc, ◌+◌, ◌*◌, ◌/◌, ◌^◌, ◌≤◌, ◌<◌, ◌≡◌, refl, ◌&&◌, Bool, true, false, List, [], ◌∷◌,
  arith, ◌==◌, if◌then◌else◌, bit_and, tested_below, drop, bit_or, length, tested_below-at, ◌%◌,
  ◌⊎◌, inl, inr, ◌++◌, ap, Bool-cases, ◌∙◌, ltb, ==→eq, ◌-◌,
}
use lardos.Base.Bits.{bit_or_low, bit_and_mask}
use native.Mathlib.Numerals.{towards_suc}
use lardos.Base.Words.{IsU32}

-- `do … while (v)`; five rounds are enough for 32 bits.
unfoldable pub enc_loop : ℕ → ℕ → List ℕ
enc_loop zero v = []
enc_loop (suc fuel) v =
    let b = bit_and v 0x7F in
    let more = bit_or b 0x80 ∷ enc_loop fuel (v / 2 ^ 7) in if v / 2 ^ 7 == 0 then b ∷ [] else more

unfoldable pub enc_varu : ℕ → List ℕ
enc_varu v = enc_loop 5 v

group_bits : ℕ → Bool
group_bits c =
    bit_and c 0x80 == 0
    && bit_and (bit_or c 0x80) 0x80 == 0x80
    && bit_and (bit_or c 0x80) 0x7F == c
    && bit_and c 0x7F == c

group_table : tested_below 128 group_bits ≡ true
unfolding tested_below group_bits
group_table = refl

group_lem :
    (c : ℕ)
    → c < 128
    → (bit_and c 0x80 ≡ 0)
      × (bit_and (bit_or c 0x80) 0x80 ≡ 0x80)
      × (bit_and (bit_or c 0x80) 0x7F ≡ c)
      × (bit_and c 0x7F ≡ c)
unfolding group_bits
group_lem c h = ground (arith, tested_below-at 128 group_bits c group_table h)

add_chunk-room :
    (c value shift : ℕ)
    → shift < 32
    → value < 2 ^ shift
    → c ≤ 0xFFFFFFFF / 2 ^ shift
    → add_chunk c value shift false ≡ record { value = value + c * 2 ^ shift; overflow = false }
unfolding add_chunk
add_chunk-room c value shift h room fits = ground (arith, bit_or_low shift c value room)

pub read-drop :
    (image : List ℕ) (off b : ℕ) (rest : List ℕ)
    → drop off image ≡ b ∷ rest
    → (read image off ≡ ok b) × (drop (off + 1) image ≡ rest) × (off < length image)
unfolding read
read-drop [] zero b rest e = cc
read-drop [] (suc off) b rest e = cc
read-drop (x ∷ xs) zero b rest e = ground arith
read-drop (x ∷ xs) (suc off) b rest e =
    let h = read-drop xs off b rest e in
    let next : suc off + 1 ≡ suc (off + 1) = omega arith in (h.0, rw next h.1, omega (arith, h.2))

div_mod : (v : ℕ) → v ≡ 128 * (v / 128) + v % 128
div_mod v = omega arith

-- One round, at a group whose bits fit the word.
module _ (image : List ℕ) (left off value shift c : ℕ) (group : c < 128) (low : shift < 32)
    (room : value < 2 ^ shift) (fits : c ≤ 0xFFFFFFFF / 2 ^ shift) where
  round_last :
      read image off ≡ ok c
      → varu_loop image (suc left) off value shift false
        ≡ ok (record { value = value + c * 2 ^ shift; overflow = false }, off + 1)
  unfolding varu_loop
  round_last e =
      let bits = group_lem c group in
      rw (e, ◌>>=◌, bits.0, bits.3, add_chunk-room c value shift low room fits) refl

  round_more :
      read image off ≡ ok (bit_or c 0x80)
      → varu_loop image (suc left) off value shift false
        ≡ varu_loop image left (off + 1) (value + c * 2 ^ shift) (shift + 7) false
  unfolding varu_loop
  round_more e =
      let bits = group_lem c group in
      let more : ltb shift 32 ≡ true = ground arith in
      rw (e, ◌>>=◌, bits.1, bits.2, add_chunk-room c value shift low room fits, more) refl

module _ (fuel v : ℕ) where
  enc_last : (v / 128 == 0) ≡ true → enc_loop (suc fuel) v ≡ (v % 128) ∷ []
  unfolding enc_loop
  enc_last e = rw (e, bit_and_mask 7 v) refl

  enc_more :
      (v / 128 == 0) ≡ false
      → enc_loop (suc fuel) v ≡ bit_or (v % 128) 0x80 ∷ enc_loop fuel (v / 128)
  unfolding enc_loop
  enc_more e = rw (e, bit_and_mask 7 v) refl

  enc_long : 0 < length (enc_loop (suc fuel) v)
  enc_long = elim (Bool-cases (v / 128 == 0)) [
    | inl last ↦ rw (enc_last last) (omega arith)
    | inr more ↦ rw (enc_more more) (omega arith)
  ]

-- The rounds that read a number's groups, from the lowest.
module _ (image rest : List ℕ) where
  varu_loop-enc :
      (fuel left off value shift v : ℕ)
      → shift + 7 * fuel ≡ 35
      → value < 2 ^ shift
      → value + v * 2 ^ shift < 2 ^ 32
      → (shift ≡ 0) ⊎ (1 ≤ v)
      → drop off image ≡ enc_loop fuel v ++ rest
      → length (enc_loop fuel v) ≤ left
      → varu_loop image left off value shift false
        ≡ ok (
          record { value = value + v * 2 ^ shift; overflow = false },
          off + length (enc_loop fuel v),
        )
  varu_loop-enc zero left off value shift v depth room fits live there enough =
      let e : shift ≡ 35 = omega arith in absurd (omega (arith, ap (λ (s : ℕ). v * 2 ^ s) e))
  varu_loop-enc (suc fuel) zero off value shift v depth room fits live there enough =
      absurd (omega (arith, enc_long fuel v))
  varu_loop-enc (suc fuel) (suc left) off value shift v depth room fits live there enough =
      let c = v % 128 in
      let q = v / 128 in
      let p = 2 ^ shift in
      let whole : v * p ≡ 128 * (q * p) + c * p =
        omega (arith, ap (λ (t : ℕ). t * p) (div_mod v)) in
      let positive : 1 ≤ p = one-le-pow shift 2 (omega arith) in
      let small : c ≤ 0xFFFFFFFF / p = (le-div_iff_mul-le positive).1 (omega arith) in
      let low : c < 128 = omega arith in
      let early : shift < 32 = omega arith in
      elim (Bool-cases (q == 0)) [
        | inl last ↦
            let here =
              read-drop image off c rest
                (there ∙ ap (λ (l : List ℕ). l ++ rest) (enc_last fuel v last)) in
            let none_left : q ≡ 0 = ==→eq q 0 last in
            let same : value + c * p ≡ value + v * p =
              omega (arith, ap (λ (t : ℕ). t * p) none_left) in
            round_last image left off value shift c low early room small here.0
            ∙ rw (enc_last fuel v last, same) refl
        | inr more ↦
            let here =
              read-drop image off (bit_or c 0x80) (enc_loop fuel q ++ rest)
                (there ∙ ap (λ (l : List ℕ). l ++ rest) (enc_more fuel v more)) in
            let next : 2 ^ (shift + 7) ≡ 128 * p = simp towards_suc (omega arith) in
            let spread : q * 2 ^ (shift + 7) ≡ 128 * (q * p) =
              omega (arith, ap (λ (t : ℕ). q * t) next) in
            let top : c ≤ 127 = omega arith in
            let below : c * p ≤ 127 * p = mul-le-mul_right p top in
            let sum : value + c * p + q * 2 ^ (shift + 7) ≡ value + v * p = omega arith in
            let behind : off + 1 + length (enc_loop fuel q) ≡ off + suc (length (enc_loop fuel q)) =
              omega arith in
            let len = ap (length {A = ℕ}) (enc_more fuel v more) in
            round_more image left off value shift c low early room small here.0
            ∙ varu_loop-enc fuel left (off + 1) (value + c * p) (shift + 7) q (omega arith)
                (omega arith) (omega arith) (inr (ground (arith, more))) here.1 (omega arith)
            ∙ rw (enc_more fuel v more, sum, behind) refl
      ]

-- A 32-bit number that was written at an offset of an image is read back, with the offset behind it.
pub rd_varu-enc_varu :
    (image rest : List ℕ) (size off v : ℕ)
    → IsU32 v
    → drop off image ≡ enc_varu v ++ rest
    → off + length (enc_varu v) ≤ size
    → lfs_rd_varu image size off
      ≡ ok (record { value = v; overflow = false }, off + length (enc_varu v))
unfolding enc_varu lfs_rd_varu
rd_varu-enc_varu image rest size off v small there inside =
    let e : 0 + v * 2 ^ 0 ≡ v = omega arith in
    varu_loop-enc image rest 5 (size - off) off 0 0 v (omega arith) (omega arith) (omega arith)
      (inl refl) there (omega arith)
    ∙ rw e refl

pub enc_varu_long : (v : ℕ) → 0 < length (enc_varu v)
unfolding enc_varu
enc_varu_long v = enc_long 4 v
