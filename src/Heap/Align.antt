-- ===== src/Heap/Align.antt =====
-- `align_up` and `split_block` of os/kernel/mem.c in plain arithmetic.
use lardos.Base.{ℕ, ◌+◌, ◌-◌, ◌*◌, ◌/◌, ◌%◌, ◌^◌, ◌≤◌, ◌<◌, ◌≡◌, true, arith, bit_and, ◌∙◌, ap}
use lardos.Heap.{align_up, Memory, Header, header_sz, split_block, alignment, write_header}
use lardos.Base.Bits.{bit_and_digit, bit_and_mask}
use lardos.Base.Words.{u32, IsU32}

high_mask : (x : ℕ) → x < 2 ^ 32 → bit_and x 0xFFFFFFF0 ≡ x / 16 * 16
high_mask x h = omega (
  arith,
  bit_and_digit x 0xFFFFFFF0,
  bit_and_digit (x / 2) 0x7FFFFFF8,
  bit_and_digit (x / 2 / 2) 0x3FFFFFFC,
  bit_and_digit (x / 2 / 2 / 2) 0x1FFFFFFE,
  bit_and_mask 28 (x / 2 / 2 / 2 / 2),
)

pub align_up_lem : (v : ℕ) → v + 15 < 2 ^ 32 → align_up v 16 ≡ (v + 15) / 16 * 16
unfolding align_up
align_up_lem v h = omega (arith, high_mask (u32 (v + 15)) (omega arith))

-- A size whose sum with 15 wraps is rounded to nothing.
pub align_up_wraps : (v : ℕ) → IsU32 v → 2 ^ 32 ≤ v + 15 → align_up v 16 ≡ 0
unfolding align_up
align_up_wraps v small h = omega (arith, high_mask (u32 (v + 15)) (omega arith))

module _ (mem : Memory) (a want : ℕ) (h : Header) (even : want % 16 ≡ 0) (at : a % 16 ≡ 0)
    (words : a + 12 + h.size < 2 ^ 32) where
  next_addr :
      want ≤ h.size
      → a + want + 27 < 2 ^ 32
      → align_up (u32 (u32 (a + header_sz) + want)) alignment ≡ a + want + 16
  next_addr le short =
      let e : u32 (u32 (a + header_sz) + want) ≡ a + 12 + want = omega arith in
      ap (λ v. align_up v alignment) e ∙ align_up_lem (a + 12 + want) (omega arith) ∙ omega arith

  pub split_small : h.size < want + 28 → want + 28 < 2 ^ 32 → split_block mem a h want ≡ mem
  unfolding split_block
  split_small few short = ground arith

  pub split_large :
      want + 28 ≤ h.size
      → split_block mem a h want
        ≡ write_header
            (write_header mem
              (a + want + 16)
              (record { size = h.size - want - 16; next = h.next; free = true }))
            a
            (record { size = want + 4; next = a + want + 16; free = h.free })
  unfolding split_block
  split_large le = rw (next_addr (omega arith) (omega arith)) (ground arith)
