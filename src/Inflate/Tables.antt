-- ===== src/Inflate/Tables.antt =====
-- The Huffman tables that os/kernel/lard_inflate.c decodes with fill their arrays.
use lardos.Inflate.{Huff}
use lardos.Inflate.Tree.{
  count_loop, place_loop, lone_code, build_tree, fixed_lt, fixed_dt, offsets_loop, place_symbols,
}
use lardos.Inflate.Bits.{IsHuff}
use lardos.Inflate.Faults.{Ends, Ends-guard, Ends->>=}
use lardos.Base.{
  ℕ, ◌+◌, ◌≡◌, inl, inr, refl, ◌∙◌, none, some, Option, List, [], ◌∷◌, arith, ◌==◌, length, set,
  get_or, Bool-cases, length-set, ◌&&◌, ◌||◌, ltb, Option-cases, take, replicate, not, zero, suc,
  ◌≤◌, ◌<◌, tests, ==→eq, length-take, get_or-set_self, get_or-set_ne, ==→ne,
}
use lardos.Base.Words.{u16}
use lardos.Inflate.Counts.{
  occurrences, write_inside, get_or_inside, Counted, read_inside, offsets_loop_room,
  count_loop-Ends, total,
}
use lardos.Inflate.Blocks.{data_err}

-- Every code that is left finds its place among the symbols.
abbrev Room : List ℕ → List ℕ → Type 0
Room off len = (l : ℕ) → get_or off (suc l) 288 + occurrences (suc l) len ≤ 288

place_loop-Ends :
    (len : List ℕ) (i : ℕ) (off sym : List ℕ)
    → length sym ≡ 288
    → Room off len
    → Ends (place_loop len i off sym) (λ s. length s ≡ 288)
unfolding place_loop occurrences
place_loop-Ends [] i off sym sized room = sized
place_loop-Ends (zero ∷ len) i off sym sized room =
    place_loop-Ends len (i + 1) off sym sized λ l. ground (arith, room l)
place_loop-Ends (suc l ∷ len) i off sym sized room =
    let o = get_or off (suc l) 288 in
    let here : o + 1 ≤ 288 = ground (arith, room l) in
    let inside : suc l < length off = get_or_inside off (suc l) 288 (omega arith) in
    let off' = set off (suc l) (u16 (o + 1)) in
    rw
      (
        read_inside off (suc l) 288 inside,
        write_inside off (suc l) (u16 (o + 1)) inside,
        write_inside sym o (u16 i) (omega arith),
      )
      (place_loop-Ends len (i + 1) off' (set sym o (u16 i)) (length-set sym o (u16 i) ∙ sized) λ k.
        elim (Bool-cases (l == k)) [
          | inl same ↦
              ground (
                arith,
                room l,
                ==→eq l k same,
                get_or-set_self off (suc l) (u16 (o + 1)) 288 inside,
              )
          | inr other ↦ ground (
            arith,
            room k,
            get_or-set_ne off (suc l) (suc k) (u16 (o + 1)) 288
                (λ e. ==→ne l k other (omega arith)),
          )
        ])

lone_code-Ends :
    (nc : ℕ) (cnt sym : List ℕ) (m : Option ℕ)
    → length cnt ≡ 16
    → length sym ≡ 288
    → Ends (lone_code nc cnt sym m) IsHuff
unfolding lone_code
lone_code-Ends nc cnt sym m p q =
    let second = elim m as (λ _. ℕ) [ none ↦ 0 | some k ↦ u16 (k + 1) ] in
    elim (Bool-cases (nc == 1)) [
      | inl e ↦
          rw (e, write_inside cnt 1 2 (omega arith), write_inside sym 1 second (omega arith))
            (record { counts = length-set cnt 1 2 ∙ p; symbols = length-set sym 1 second ∙ q })
      | inr e ↦ rw e (record { counts = p; symbols = q })
    ]

-- The symbols are placed inside the table once the counts are right.
place_symbols-Ends :
    (t : Huff) (len cnt : List ℕ) (m : Option ℕ)
    → length len ≤ 288
    → length t.sym ≡ 288
    → Counted (replicate 16 0) len cnt
    → Ends (place_symbols t len cnt m) IsHuff
unfolding place_symbols total
place_symbols-Ends t len cnt m few sized c = elim (Option-cases (offsets_loop cnt 1 0)) [
  | inl f ↦ rw f tt
  | inr ((off, avail, nc), f) ↦
      let room : Room off len = λ l. omega (
        arith,
        c.counted l,
        offsets_loop_room cnt 1 0 off avail nc f (omega (arith, c.small)) (suc l),
      ) in
      rw f (
        Ends-guard ((ltb 1 nc && ltb 0 avail) || (nc == 1 && not (get_or cnt 1 0 == 1))) data_err _
          IsHuff
          λ _.
            Ends->>= (place_loop len 0 off t.sym) _ (λ s. length s ≡ 288) IsHuff
              (place_loop-Ends len 0 off t.sym sized room)
              λ sym s. lone_code-Ends nc cnt sym m c.kept_size s)
]

-- Building a table faults nowhere, and a table that is built has its sizes.
pub build_tree-Ends :
    (t : Huff) (lens : List ℕ) (n : ℕ) → length t.sym ≡ 288 → Ends (build_tree t lens n) IsHuff
unfolding build_tree total
build_tree-Ends t lens n sized = Ends-guard (ltb 288 n) data_err _ IsHuff λ fits.
    let few : length (take n lens) ≤ 288 = omega (tests, length-take n lens) in
    Ends->>= (count_loop (take n lens) 0 (replicate 16 0) none) _
      (λ r. Counted (replicate 16 0) (take n lens) r.0) IsHuff
      (count_loop-Ends (take n lens) 0 (replicate 16 0) none refl (omega arith))
      λ r c. place_symbols-Ends t (take n lens) r.0 r.1 few sized c

pub fixed_lt-IsHuff : IsHuff fixed_lt
unfolding fixed_lt
fixed_lt-IsHuff = record { counts = refl; symbols = refl }

pub fixed_dt-IsHuff : IsHuff fixed_dt
unfolding fixed_dt
fixed_dt-IsHuff = record { counts = refl; symbols = refl }
