-- ===== src/Inflate/Lengths.antt =====
-- The tables of a dynamic block of os/kernel/lard_inflate.c: the loops over the code lengths end and
-- stay inside their arrays.
use lardos.Inflate.{Ctx, get_bits}
use lardos.Inflate.Faults.{
  Ends, Ends->>=, Ends-weaken, Ends-guard, read, read-Ends, write, write-Ends,
}
use lardos.Inflate.Bits.{
  Later, Later-refl, Later-trans, get_bits_base_range, get_bits_base-Later, get_bits-Later,
}
use lardos.Inflate.Blocks.{data_err}
use lardos.Base.{
  ℕ, zero, suc, ◌+◌, ◌-◌, ◌≤◌, ◌<◌, ◌≡◌, inl, inr, refl, ◌∙◌, Bool, true, List, arith, ◌==◌, ltb,
  tested_below, length, get_or, Bool-cases, tested_below-at,
}
use lardos.Inflate.Dynamic.{clcidx, clens_loop, repeat_loop, repetition}
use lardos.Base.Words.{u8}

index_small : ℕ → Bool
index_small i = ltb (get_or clcidx i 0) 19

index_table : tested_below 19 index_small ≡ true
unfolding tested_below index_small clcidx
index_table = refl

clcidx_long : length clcidx ≡ 19
unfolding clcidx
clcidx_long = refl

-- a later context, with the array of lengths whole
abbrev pub Lengths : Ctx → Ctx × List ℕ → Type 0
Lengths c r = Later c r.0 × (length r.1 ≡ 320)

pub clens_loop-Ends :
    (left i : ℕ) (c : Ctx) (len_buf : List ℕ)
    → i + left ≤ 19
    → length len_buf ≡ 320
    → Ends (clens_loop left i c len_buf) (Lengths c)
unfolding clens_loop index_small
clens_loop-Ends zero i c len_buf h sized = (Later-refl c, sized)
clens_loop-Ends (suc left) i c len_buf h sized =
    let c1 = (get_bits c 3).1 in
    let v = (get_bits c 3).0 in
    let inside : i < length clcidx = omega (arith, clcidx_long) in
    Ends->>= (read clcidx i) _ (λ k. k ≡ get_or clcidx i 0) (Lengths c) (read-Ends clcidx i inside)
      λ k e.
        let small : k < 19 = ground (arith, e, tested_below-at 19 index_small i index_table) in
        Ends->>= (write len_buf k (u8 v)) _ _ (Lengths c)
          (write-Ends len_buf k (u8 v) (omega arith))
          λ buf f.
            Ends-weaken _ (Lengths c1) (Lengths c)
              (clens_loop-Ends left (i + 1) c1 buf (omega arith) (f ∙ sized))
              λ r q. (Later-trans c c1 r.0 (get_bits-Later c 3) q.0, q.1)

pub repeat_loop-Ends :
    (rep num val : ℕ) (len_buf : List ℕ)
    → num + rep ≤ length len_buf
    → Ends (repeat_loop rep num val len_buf) (λ b. length b ≡ length len_buf)
unfolding repeat_loop
repeat_loop-Ends zero num val len_buf h = refl
repeat_loop-Ends (suc rep) num val len_buf h =
    Ends->>= (write len_buf num val) _ _ (λ b. length b ≡ length len_buf)
      (write-Ends len_buf num val (omega arith))
      λ buf e.
        Ends-weaken _ (λ b. length b ≡ length buf) (λ b. length b ≡ length len_buf)
          (repeat_loop-Ends rep (num + 1) val buf (omega (arith, e))) λ b f. f ∙ e

-- at least one repetition, and a later context
abbrev pub Repeats : Ctx → ℕ × ℕ × Ctx → Type 0
Repeats c r = (0 < r.1) × Later c r.2

pub repetition-Ends :
    (c : Ctx) (s num : ℕ) (len_buf : List ℕ)
    → num < length len_buf
    → Ends (repetition c s num len_buf) (Repeats c)
unfolding repetition
repetition-Ends c s num len_buf h = elim (Bool-cases (s == 16)) [
  | inl e ↦
      rw (e, Ends)
        (Ends-guard (num == 0) data_err _ (Repeats c) λ some_before.
          Ends->>= (read len_buf (num - 1)) _ _ (Repeats c)
            (read-Ends len_buf (num - 1) (omega arith))
            λ val f. (
              omega (arith, (get_bits_base_range c 2 3 (omega arith) (omega arith)).0),
              get_bits_base-Later c 2 3,
            ))
  | inr e ↦ elim (Bool-cases (s == 17)) [
    | inl f ↦
        rw (e, f, Ends)
          (
            omega (arith, (get_bits_base_range c 3 3 (omega arith) (omega arith)).0),
            get_bits_base-Later c 3 3,
          )
    | inr f ↦ elim (Bool-cases (s == 18)) [
      | inl g ↦
          rw (e, f, g, Ends)
            (
              omega (arith, (get_bits_base_range c 7 11 (omega arith) (omega arith)).0),
              get_bits_base-Later c 7 11,
            )
      | inr g ↦ rw (e, f, g, Ends) (omega arith, Later-refl c)
    ]
  ]
]
