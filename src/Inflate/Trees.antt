-- ===== src/Inflate/Trees.antt =====
-- A dynamic block of os/kernel/lard_inflate.c gets two tables that fill their arrays, or an error.
use lardos.Inflate.{Ctx, Huff, decode_sym, get_bits_base}
use lardos.Inflate.Faults.{Ends, Ends->>=, Ends-weaken, Ends-guard, read, read-Ends}
use lardos.Inflate.Bits.{
  IsHuff, Later, Later-refl, Later-trans, Decoded, decode_sym-Ends, get_bits_base_range,
  get_bits_base-Later,
}
use lardos.Inflate.Blocks.{data_err, or_zero, is_none}
use lardos.Inflate.Tables.{build_tree-Ends}
use lardos.Base.{
  ℕ, zero, suc, ◌+◌, ◌-◌, ◌≤◌, ◌<◌, ◌≡◌, inl, inr, refl, ◌∙◌, ◌||◌, List, arith, ◌==◌, length,
  Bool-cases, ltb, ltb→lt, drop, replicate, length-replicate,
}
use lardos.Inflate.Dynamic.{
  lengths_round, lengths_loop, two_trees, decode_dyn_trees, bad_symbol, repetition, fresh,
  clens_loop, repeat_loop,
}
use lardos.Inflate.Lengths.{Lengths, Repeats, repetition-Ends, clens_loop-Ends, repeat_loop-Ends}
use lardos.Inflate.Tree.{build_tree}

-- more lengths than before, a later context, the array whole
abbrev Written : ℕ → ℕ → Ctx → ℕ × Ctx × List ℕ → Type 0
Written total num c r = (num < r.0) × (r.0 ≤ total) × Later c r.1 × (length r.2 ≡ 320)

module _ (lt : Huff) (v : IsHuff lt) (total : ℕ) (bounded : total ≤ 320) where
  lengths_round-Ends :
      (num : ℕ) (c : Ctx) (len_buf : List ℕ)
      → num < total
      → length len_buf ≡ 320
      → Ends (lengths_round total num c lt len_buf) (Written total num c)
  unfolding lengths_round
  lengths_round-Ends num c len_buf h sized =
      Ends->>= (decode_sym c lt) _ (λ r. Decoded c r.1) (Written total num c)
        (decode_sym-Ends lt v c)
        λ r q. Ends-guard (bad_symbol r.0 lt.max_sym) data_err _ (Written total num c) λ good.
          Ends->>= (repetition r.1 (or_zero r.0) num len_buf) _ (Repeats r.1) (Written total num c)
            (repetition-Ends r.1 (or_zero r.0) num len_buf (omega arith))
            λ t k. Ends-guard (ltb (total - num) t.1) data_err _ (Written total num c) λ fits.
              let room : num + t.1 ≤ total = ground (arith, fits) in
              Ends->>= (repeat_loop t.1 num t.0 len_buf) _ (λ b. length b ≡ length len_buf)
                (Written total num c) (repeat_loop-Ends t.1 num t.0 len_buf (omega arith))
                λ buf e. (omega (arith, k.0), room, Later-trans c r.1 t.2 q.later k.1, e ∙ sized)

  lengths_loop-Ends :
      (fuel num : ℕ) (c : Ctx) (len_buf : List ℕ)
      → num ≤ total
      → total < num + fuel
      → length len_buf ≡ 320
      → Ends (lengths_loop fuel total num c lt len_buf) (Lengths c)
  unfolding lengths_loop
  lengths_loop-Ends zero num c len_buf le enough sized = absurd (omega arith)
  lengths_loop-Ends (suc fuel) num c len_buf le enough sized = elim (Bool-cases (ltb num total)) [
    | inr e ↦ rw (e, Ends) (Later-refl c, sized)
    | inl e ↦
        rw (e, Ends)
          (Ends->>= (lengths_round total num c lt len_buf) _ (Written total num c) (Lengths c)
            (lengths_round-Ends num c len_buf (ltb→lt num total e) sized)
            λ r q.
              Ends-weaken _ (Lengths r.1) (Lengths c)
                (lengths_loop-Ends fuel r.0 r.1 r.2 q.1 (omega (arith, q.0)) q.3)
                λ t k. (Later-trans c r.1 t.0 q.2 k.0, k.1))
  ]

-- two tables, and a later context
abbrev pub TwoTrees : Ctx → Huff × Huff × Ctx → Type 0
TwoTrees c r = IsHuff r.0 × IsHuff r.1 × Later c r.2

two_trees-Ends :
    (lt : Huff) (len_buf : List ℕ) (hlit hdist : ℕ) (c : Ctx)
    → IsHuff lt
    → length len_buf ≡ 320
    → Ends (two_trees lt len_buf hlit hdist c) (TwoTrees c)
unfolding two_trees
two_trees-Ends lt len_buf hlit hdist c v sized =
    Ends->>= (read len_buf 256) _ _ (TwoTrees c) (read-Ends len_buf 256 (omega arith)) λ last e.
      Ends-guard (last == 0) data_err _ (TwoTrees c) λ used.
        Ends->>= (build_tree lt len_buf hlit) _ IsHuff (TwoTrees c)
          (build_tree-Ends lt len_buf hlit v.symbols)
          λ lt' vl.
            Ends->>= (build_tree fresh (drop hlit len_buf) hdist) _ IsHuff (TwoTrees c)
              (build_tree-Ends fresh (drop hlit len_buf) hdist refl) λ dt vd. (vl, vd, Later-refl c)

pub decode_dyn_trees-Ends : (c : Ctx) → Ends (decode_dyn_trees c) (TwoTrees c)
unfolding decode_dyn_trees
decode_dyn_trees-Ends c =
    let (hlit, c1) = get_bits_base c 5 257 in
    let (hdist, c2) = get_bits_base c1 5 1 in
    let (hclen, c3) = get_bits_base c2 4 4 in
    let few : hclen ≤ 19 =
      omega (arith, (get_bits_base_range c2 4 4 (omega arith) (omega arith)).1) in
    let to3 =
      Later-trans c c1 c3 (get_bits_base-Later c 5 257)
        (Later-trans c1 c2 c3 (get_bits_base-Later c1 5 1) (get_bits_base-Later c2 4 4)) in
    Ends-guard (ltb 286 hlit || ltb 30 hdist) data_err _ (TwoTrees c) λ sizes.
      let bounded : hlit + hdist ≤ 320 = ground (arith, sizes) in
      Ends->>= (clens_loop hclen 0 c3 (replicate 320 0)) _ (Lengths c3) (TwoTrees c)
        (clens_loop-Ends hclen 0 c3 (replicate 320 0) (omega arith)
          (length-replicate {A = ℕ} 320 0))
        λ r q.
          Ends->>= (build_tree fresh r.1 19) _ IsHuff (TwoTrees c)
            (build_tree-Ends fresh r.1 19 refl)
            λ lt v. Ends-guard (is_none lt.max_sym) data_err _ (TwoTrees c) λ some_code.
              Ends->>= (lengths_loop (suc (hlit + hdist)) (hlit + hdist) 0 r.0 lt r.1) _
                (Lengths r.0) (TwoTrees c)
                (lengths_loop-Ends lt v (hlit + hdist) bounded (suc (hlit + hdist)) 0 r.0 r.1
                  (omega arith) (omega arith) q.1)
                λ t k.
                  Ends-weaken _ (TwoTrees t.0) (TwoTrees c)
                    (two_trees-Ends lt t.1 hlit hdist t.0 v k.1)
                    λ trees w. (
                      w.0,
                      w.1,
                      Later-trans c t.0 trees.2
                          (Later-trans c r.0 t.0 (Later-trans c c3 r.0 to3 q.0) k.0) w.2,
                    )
