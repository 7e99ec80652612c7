-- ===== src/Inflate/Bits.antt =====
-- What reading bits and symbols in os/kernel/lard_inflate.c does to the source: the bits that are left
-- become fewer, and a symbol takes one at least or sets `overflow`.
use native.Mathlib.Nat.{mod-lt, one-le-pow, pow-le-pow_right}
use lardos.Inflate.{
  Ctx, Huff, bits_left, refill, get_bits, get_bits_base, symbol, decode_loop, refill_bits,
  decode_sym,
}
use lardos.Inflate.Faults.{Ends, Ends->>=, read, read-Ends, Ends-weaken}
use lardos.Base.{
  ℕ, zero, suc, ◌+◌, ◌*◌, ◌^◌, ◌≤◌, ◌<◌, ◌≡◌, inl, inr, refl, ◌∙◌, true, false, List, [], ◌∷◌,
  arith, ◌==◌, length, bit_or, Bool-cases, leb, ◌-◌, ltb, ◌%◌, bit_and,
}
use lardos.Base.Words.{u32}
use lardos.Base.Bits.{bit_and_mask}

-- `c'` is a later context than `c`, with nothing written between them.
pub record Later (c c' : Ctx) : Type 0 where
  pub fewer : bits_left c' ≤ bits_left c
  pub sticky : c.overflow ≡ true → c'.overflow ≡ true
  pub same_out : c'.out ≡ c.out

pub Later-refl : (c : Ctx) → Later c c
Later-refl c = record { fewer = omega arith; sticky = λ e. e; same_out = refl }

pub Later-trans : (a b c : Ctx) → Later a b → Later b c → Later a c
Later-trans a b c p q = record {
  fewer = omega (arith, p.fewer, q.fewer);
  sticky = λ e. q.sticky (p.sticky e);
  same_out = q.same_out ∙ p.same_out;
}

refill_amount :
    (need : ℕ) (src : List ℕ) (bits bitcnt : ℕ)
    → 8 * length (refill need src bits bitcnt).0 + (refill need src bits bitcnt).2
      ≡ 8 * length src + bitcnt
unfolding refill
refill_amount need [] bits bitcnt = refl
refill_amount need (b ∷ src) bits bitcnt =
    ground (arith, refill_amount need src (bit_or bits (u32 (b * 2 ^ bitcnt))) (bitcnt + 8))

module _ (c : Ctx) (n : ℕ) where
  pub get_bits-Later : Later c (get_bits c n).1
  unfolding get_bits refill_bits
  get_bits-Later = ground (arith, refill_amount n c.src c.bits c.bitcnt)

  pub get_bits-spent :
      (get_bits c n).1.overflow ≡ false → bits_left (get_bits c n).1 + n ≡ bits_left c
  unfolding get_bits refill_bits
  get_bits-spent e = ground (arith, refill_amount n c.src c.bits c.bitcnt)

  pub get_bits_base-Later : (base : ℕ) → Later c (get_bits_base c n base).1
  unfolding get_bits_base
  get_bits_base-Later base = elim (Bool-cases (n == 0)) [
    | inl e ↦ rw e (Later-refl c)
    | inr e ↦ rw e get_bits-Later
  ]

-- What is read of `n` bits fits `n` bits.
pub get_bits_small : (c : Ctx) (n : ℕ) → (get_bits c n).0 < 2 ^ n
unfolding get_bits
get_bits_small c n =
    let c' = refill_bits c n in
    let positive : 0 < 2 ^ n = one-le-pow n 2 (omega arith) in
    let below : c'.bits % 2 ^ n < 2 ^ n = mod-lt _ positive in
    let value : bit_and c'.bits (2 ^ n - 1) < 2 ^ n = omega (arith, bit_and_mask n c'.bits) in
    elim (Bool-cases c'.overflow) [ inl e ↦ rw e positive | inr e ↦ rw e value ]

-- A base with few extra bits is not exceeded by more than they can hold, and does not wrap.
pub get_bits_base_range :
    (c : Ctx) (n base : ℕ)
    → n ≤ 13
    → base < 2 ^ 15
    → (base ≤ (get_bits_base c n base).0) × ((get_bits_base c n base).0 < base + 2 ^ n)
unfolding get_bits_base
get_bits_base_range c n base few small =
    let width : 2 ^ n ≤ 2 ^ 13 = pow-le-pow_right (omega arith) few in
    let positive : 0 < 2 ^ n = one-le-pow n 2 (omega arith) in ground (arith, get_bits_small c n)

-- The tables have the sizes of their arrays.
pub record IsHuff (t : Huff) : Type 0 where
  pub counts : length t.cnt ≡ 16
  pub symbols : length t.sym ≡ 288

-- A symbol was read: a bit at least is taken, or there was none left.
pub record Decoded (c c' : Ctx) : Type 0 where
  pub later : Later c c'
  pub spent : c'.overflow ≡ false → bits_left c' < bits_left c

pub Later-Decoded : (a b c : Ctx) → Later a b → Decoded b c → Decoded a c
Later-Decoded a b c p q = record {
  later = Later-trans a b c p q.later;
  spent = λ e. omega (arith, p.fewer, q.spent e);
}

one_bit : (c : Ctx) → Decoded c (get_bits c 1).1
one_bit c = record { later = get_bits-Later c 1; spent = λ e. omega (arith, get_bits-spent c 1 e) }

module _ (t : Huff) (v : IsHuff t) where
  symbol-Ends : (c c' : Ctx) (k : ℕ) → Decoded c c' → Ends (symbol c' t k) (λ r. Decoded c r.1)
  unfolding symbol
  symbol-Ends c c' k d = elim (Bool-cases (leb 288 k)) [
    | inl e ↦ rw (e, Ends) d
    | inr e ↦
        rw (e, Ends)
          (Ends->>= (read t.sym k) _ _ (λ r. Decoded c r.1)
            (read-Ends t.sym k (ground (arith, e, v.symbols))) λ s q. d)
  ]

  decode_loop-Ends :
      (left : ℕ) (c : Ctx) (base off len : ℕ)
      → left + len ≡ 16
      → Ends (decode_loop left c t base off len) (λ r. Decoded c r.1)
  unfolding decode_loop
  decode_loop-Ends zero c base off len h = one_bit c
  decode_loop-Ends (suc left) c base off len h =
      let c1 = (get_bits c 1).1 in
      let off1 = 2 * off + (get_bits c 1).0 in
      Ends->>= (read t.cnt len) _ _ (λ r. Decoded c r.1)
        (read-Ends t.cnt len (omega (arith, v.counts)))
        λ n q. elim (Bool-cases (ltb off1 n)) [
          | inl e ↦ rw (e, Ends) (symbol-Ends c c1 (base + off1) (one_bit c))
          | inr e ↦
              rw (e, Ends)
                (Ends-weaken _ (λ r. Decoded c1 r.1) (λ r. Decoded c r.1)
                  (decode_loop-Ends left c1 (base + n) (off1 - n) (len + 1) (omega arith))
                  λ r d. Later-Decoded c c1 r.1 (get_bits-Later c 1) d)
        ]

  pub decode_sym-Ends : (c : Ctx) → Ends (decode_sym c t) (λ r. Decoded c r.1)
  unfolding decode_sym
  decode_sym-Ends c = decode_loop-Ends 15 c 0 0 1 refl
