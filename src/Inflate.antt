-- ===== src/Inflate.antt =====
-- os/kernel/lard_inflate.c: the DEFLATE decoder. The source is the list of the bytes that are left, and
-- `out` the bytes written so far; `cap` is the size of the destination. Inflate/Tree.antt holds the
-- Huffman tables. Memory that the C code leaves uninitialised is taken as 0; it is written before it is
-- read.
pub mod Faults
pub mod Tree
pub mod Blocks
pub mod Dynamic
pub mod Bits
pub mod Counts
pub mod Tables
pub mod Data
pub mod Lengths
pub mod Trees
pub mod Total
pub mod Stored
mod Tests
use lardos.Inflate.Faults.{Run, ok, ◌>>=◌, read}
use lardos.Base.{
  ℕ, zero, suc, ◌+◌, ◌-◌, ◌*◌, ◌/◌, ◌^◌, ◌||◌, Bool, true, false, none, some, Option, List, [], ◌∷◌,
  ◌==◌, if◌then◌else◌, ltb, bit_and, leb, bit_or, length,
}
use lardos.Base.Words.{u32}

-- the part of `lard_inf_ctx_t` that changes
pub record Ctx : Type 0 where
  pub src : List ℕ
  pub bits : ℕ
  pub bitcnt : ℕ
  pub overflow : Bool
  pub out : List ℕ

-- the bits that are left to read
abbrev pub bits_left : Ctx → ℕ
bits_left c = 8 * length c.src + c.bitcnt

-- `while (c->bitcnt < need && c->src < c->src_end)`: what is left of the source, the bits and their
-- number
unfoldable pub refill : ℕ → List ℕ → ℕ → ℕ → List ℕ × ℕ × ℕ
refill need [] bits bitcnt = ([], bits, bitcnt)
refill need (b ∷ src) bits bitcnt =
    if ltb bitcnt need
    then refill need src (bit_or bits (u32 (b * 2 ^ bitcnt))) (bitcnt + 8)
    else (b ∷ src, bits, bitcnt)

unfoldable pub refill_bits : Ctx → ℕ → Ctx
refill_bits c need =
    let (src, bits, bitcnt) = refill need c.src c.bits c.bitcnt in
    record c { src = src; bits = bits; bitcnt = bitcnt; overflow = c.overflow || ltb bitcnt need }

unfoldable pub get_bits : Ctx → ℕ → ℕ × Ctx
get_bits c n =
    let c' = refill_bits c n in
    if c'.overflow
    then (0, c')
    else (bit_and c'.bits (2 ^ n - 1), record c' { bits = c'.bits / 2 ^ n; bitcnt = c'.bitcnt - n })

unfoldable pub get_bits_base : Ctx → ℕ → ℕ → ℕ × Ctx
get_bits_base c n base =
    if n == 0 then (base, c) else (let (v, c') = get_bits c n in (u32 (base + v), c'))

-- `lard_huff_t`; a `max_sym` of -1 is `none`
pub record Huff : Type 0 where
  pub cnt : List ℕ
  pub sym : List ℕ
  pub max_sym : Option ℕ

-- `s > t->max_sym`
abbrev pub above : ℕ → Option ℕ → Bool
above s none = true
above s (some m) = ltb m s

-- `if (base + off >= 288) return -1; return (int)t->sym[base + off];`
unfoldable pub symbol : Ctx → Huff → ℕ → Run (Option ℕ × Ctx)
symbol c t k = if leb 288 k then ok (none, c) else do s ← read t.sym k; ok (some s, c)

-- The loop, with the lengths that are left; a symbol of -1 is `none`.
unfoldable pub decode_loop : ℕ → Ctx → Huff → ℕ → ℕ → ℕ → Run (Option ℕ × Ctx)
decode_loop zero c t base off len = let (b, c') = get_bits c 1 in ok (none, c')
decode_loop (suc left) c t base off len =
    let (b, c') = get_bits c 1 in
    let off' = 2 * off + b in
    read t.cnt len >>= λ n. elim (ltb off' n) [
      | true ↦ symbol c' t (base + off')
      | false ↦ decode_loop left c' t (base + n) (off' - n) (len + 1)
    ]

unfoldable pub decode_sym : Ctx → Huff → Run (Option ℕ × Ctx)
decode_sym c t = decode_loop 15 c t 0 0 1
