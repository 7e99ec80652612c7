-- ===== src/Inflate/Data.antt =====
-- A compressed block of os/kernel/lard_inflate.c comes to an end, and writes within the destination.
use lardos.Inflate.{Ctx, bits_left, get_bits_base, Huff, above, decode_sym}
use lardos.Inflate.Faults.{Ends, Ends->>=, Ends-weaken, read, read-Ends, Ends-guard}
use lardos.Base.{
  ℕ, zero, suc, ◌+◌, ◌-◌, ◌^◌, ◌≤◌, ◌<◌, ◌≡◌, refl, ◌&&◌, true, false, List, [], ◌∷◌, ◌++◌, arith,
  tested_below, length, ltb, length-append, leb, get_or, inl, inr, ◌||◌, Bool, tested_below-at,
  Bool-cases, none, some, Option, ap, ◌==◌, Option-cases,
}
use lardos.Inflate.Blocks.{
  copy_loop, dist_bits, dist_base, copy_match, data_err, inflate_match, buf_err, is_none, len_bits,
  len_base, bad_dist, or_zero, match_from, put_byte, block_round, inflate_block_data, literal,
}
use lardos.Inflate.Bits.{
  get_bits_base_range, Later-trans, IsHuff, get_bits_base-Later, Decoded, decode_sym-Ends,
}

copy_loop-Ends :
    (n dist : ℕ) (out : List ℕ)
    → 0 < dist
    → dist ≤ length out
    → Ends (copy_loop n dist out) (λ out'. length out' ≡ length out + n)
unfolding copy_loop
copy_loop-Ends zero dist out pos h = omega arith
copy_loop-Ends (suc n) dist out pos h =
    let here : ltb (length out) dist ≡ false = ground arith in
    rw (here, Ends)
      (Ends->>= (read out (length out - dist)) _ _ (λ out'. length out' ≡ length out + suc n)
        (read-Ends out (length out - dist) (omega arith))
        λ b e.
          let longer = length-append out (b ∷ []) in
          Ends-weaken _ (λ out'. length out' ≡ length (out ++ b ∷ []) + n)
            (λ out'. length out' ≡ length out + suc n)
            (copy_loop-Ends n dist (out ++ b ∷ []) pos (omega arith)) λ out' q. omega arith)

dist_row : ℕ → Bool
dist_row d =
    leb (get_or dist_bits d 0) 13
    && ltb 0 (get_or dist_base d 0)
    && ltb (get_or dist_base d 0) 32768

dist_table : tested_below 30 dist_row ≡ true
unfolding tested_below dist_row dist_bits dist_base
dist_table = refl

dist_entry :
    (d : ℕ)
    → d < 30
    → (get_or dist_bits d 0 ≤ 13) × (0 < get_or dist_base d 0) × (get_or dist_base d 0 < 2 ^ 15)
unfolding dist_row
dist_entry d h = ground (arith, tested_below-at 30 dist_row d dist_table h)

copy_match-Ends :
    (cap : ℕ) (c : Ctx) (ln dist : ℕ)
    → 0 < dist
    → length c.out ≤ cap
    → Ends (copy_match cap c ln dist) (λ c'. (bits_left c' ≡ bits_left c) × (length c'.out ≤ cap))
unfolding copy_match
copy_match-Ends cap c ln dist pos h =
    let Good = λ (c' : Ctx). (bits_left c' ≡ bits_left c) × (length c'.out ≤ cap) in
    Ends-guard (ltb (length c.out) dist) data_err _ Good λ near.
      Ends-guard (ltb (cap - length c.out) ln) buf_err _ Good λ fits.
        Ends->>= (copy_loop ln dist c.out) _ _ Good
          (copy_loop-Ends ln dist c.out pos (ground (arith, near)))
          λ out e. (refl, ground (arith, fits, e))

dist_small : (d max_sym : Option ℕ) → bad_dist d max_sym ≡ false → or_zero d < 30
dist_small none max_sym e = cc
dist_small (some d) max_sym e = ground (arith, e)

tables_long :
    (length len_bits ≡ 30)
    × (length len_base ≡ 30)
    × (length dist_bits ≡ 30)
    × (length dist_base ≡ 30)
unfolding len_bits len_base dist_bits dist_base
tables_long = (refl, refl, refl, refl)

-- what a match leaves: no more bits, and no more output than there is room for
abbrev Kept : ℕ → Ctx → Ctx → Type 0
Kept cap c c' = (bits_left c' ≤ bits_left c) × (length c'.out ≤ cap)

match_from-Ends :
    (cap : ℕ) (c : Ctx) (d max_sym : Option ℕ) (ln : ℕ)
    → length c.out ≤ cap
    → Ends (match_from cap c d max_sym ln) (Kept cap c)
unfolding match_from
match_from-Ends cap c d max_sym ln h =
    let k = or_zero d in
    Ends-guard (bad_dist d max_sym) data_err _ (Kept cap c) λ near.
      let small : k < 30 = dist_small d max_sym near in
      let in_bits : k < length dist_bits = omega (arith, tables_long.2) in
      let in_base : k < length dist_base = omega (arith, tables_long.3) in
      Ends->>= (read dist_bits k) _ _ (Kept cap c) (read-Ends dist_bits k in_bits) λ dbits e.
        Ends->>= (read dist_base k) _ _ (Kept cap c) (read-Ends dist_base k in_base) λ dbase e'.
          let entry = dist_entry k small in
          let later = get_bits_base-Later c dbits dbase in
          let c' = (get_bits_base c dbits dbase).1 in
          let range =
            get_bits_base_range c dbits dbase (omega (arith, entry.0)) (omega (arith, entry.2)) in
          let pos : 0 < (get_bits_base c dbits dbase).0 = omega (arith, entry.1, range.0) in
          Ends-weaken _ (λ c''. (bits_left c'' ≡ bits_left c') × (length c''.out ≤ cap))
            (Kept cap c)
            (copy_match-Ends cap c' ln (get_bits_base c dbits dbase).0 pos
              (omega (arith, h, ap (length {A = ℕ}) later.same_out)))
            λ c'' q. (omega (arith, q.0, later.fewer), q.1)

module _ (cap : ℕ) (lt dt : Huff) (vl : IsHuff lt) (vd : IsHuff dt) where
  inflate_match-Ends :
      (c : Ctx) (s : ℕ) → length c.out ≤ cap → Ends (inflate_match cap c lt dt s) (Kept cap c)
  unfolding inflate_match
  inflate_match-Ends c s h =
      Ends-guard (above s lt.max_sym || ltb 28 (s - 257) || is_none dt.max_sym) data_err _
        (Kept cap c)
        λ good.
          let in_bits : s - 257 < length len_bits = ground (arith, good, tables_long.0) in
          let in_base : s - 257 < length len_base = ground (arith, good, tables_long.1) in
          Ends->>= (read len_bits (s - 257)) _ _ (Kept cap c) (read-Ends len_bits (s - 257) in_bits)
            λ lbits e.
              Ends->>= (read len_base (s - 257)) _ _ (Kept cap c)
                (read-Ends len_base (s - 257) in_base)
                λ lbase e'.
                  let c1 = (get_bits_base c lbits lbase).1 in
                  let ln = (get_bits_base c lbits lbase).0 in
                  let to1 = get_bits_base-Later c lbits lbase in
                  Ends->>= (decode_sym c1 dt) _ (λ r. Decoded c1 r.1) (Kept cap c)
                    (decode_sym-Ends dt vd c1)
                    λ r q.
                      let to2 = Later-trans c c1 r.1 to1 q.later in
                      Ends-weaken _ (Kept cap r.1) (Kept cap c)
                        (match_from-Ends cap r.1 r.0 dt.max_sym ln
                          (omega (arith, h, ap (length {A = ℕ}) to2.same_out)))
                        λ c' k. (omega (arith, k.0, to2.fewer), k.1)

  -- a round that goes on took a bit at least; no round writes beyond the destination
  abbrev Round : Ctx → Bool × Ctx → Type 0
  Round c r = (bits_left r.1 < bits_left c) × (length r.1.out ≤ cap)

  put_byte-Ends :
      (c : Ctx) (b : ℕ)
      → Ends (put_byte cap c b) (λ c'. (bits_left c' ≡ bits_left c) × (length c'.out ≤ cap))
  unfolding put_byte
  put_byte-Ends c b =
      Ends-guard (leb cap (length c.out)) buf_err _
        (λ c'. (bits_left c' ≡ bits_left c) × (length c'.out ≤ cap))
        λ e. (refl, ground (arith, e, length-append c.out (b ∷ [])))

  block_round-Ends : (c : Ctx) → length c.out ≤ cap → Ends (block_round cap c lt dt) (Round c)
  unfolding block_round
  block_round-Ends c h =
      Ends->>= (decode_sym c lt) _ (λ r. Decoded c r.1) (Round c) (decode_sym-Ends lt vl c)
        λ r q. Ends-guard r.1.overflow data_err _ (Round c) λ running.
          let fewer = q.spent running in
          let room : length r.1.out ≤ cap =
            omega (arith, h, ap (length {A = ℕ}) q.later.same_out) in
          elim (Option-cases (literal r.0)) [
            | inr (b, lit) ↦
                rw (lit, Ends)
                  (Ends->>= (put_byte cap r.1 b) _ _ (Round c) (put_byte-Ends r.1 b)
                    λ c' k. (omega (arith, k.0), k.1))
            | inl no_lit ↦ elim (Bool-cases (or_zero r.0 == 256)) [
              | inl stop ↦ rw (no_lit, stop, Ends) (fewer, room)
              | inr go_on ↦
                  rw (no_lit, go_on, Ends)
                    (Ends->>= (inflate_match cap r.1 lt dt (or_zero r.0)) _ (Kept cap r.1) (Round c)
                      (inflate_match-Ends r.1 (or_zero r.0) room) λ c' k. (omega (arith, k.0), k.1))
            ]
          ]

  -- With more fuel than bits the block ends, with fewer bits left.
  pub inflate_block_data-Ends :
      (fuel : ℕ) (c : Ctx)
      → bits_left c < fuel
      → length c.out ≤ cap
      → Ends
          (inflate_block_data fuel cap c lt dt)
          (λ c'. (bits_left c' < bits_left c) × (length c'.out ≤ cap))
  unfolding inflate_block_data
  inflate_block_data-Ends zero c enough h = absurd (omega arith)
  inflate_block_data-Ends (suc fuel) c enough h =
      let Good = λ (c' : Ctx). (bits_left c' < bits_left c) × (length c'.out ≤ cap) in
      Ends->>= (block_round cap c lt dt) _ (Round c) Good (block_round-Ends c h) λ r q.
        elim (Bool-cases r.0) [
          | inr stop ↦ rw (stop, Ends) q
          | inl more ↦
              rw (more, Ends)
                (Ends-weaken _ (λ c'. (bits_left c' < bits_left r.1) × (length c'.out ≤ cap)) Good
                  (inflate_block_data-Ends fuel r.1 (omega (arith, q.0)) q.1)
                  λ c' k. (omega (arith, k.0, q.0), k.1))
        ]
