-- ===== src/Gc/Ends.antt =====
-- The marking of os/kernel/gc.c ends when no block is so large that the counter of the scan wraps, and then
-- it computes the flags of Gc/Pure.antt.
use lardos.Gc.{
  Memory, Block, is_marked, no_block, block_payload, is_heap_ptr, find_block, visit_word, scan,
  mark, mark_root, mark_roots, mark_phase,
}
use lardos.Gc.Pure
use lardos.Base.{
  ℕ, zero, suc, ◌+◌, ◌-◌, ◌*◌, ◌/◌, ◌^◌, ◌≤◌, ◌<◌, ◌≡◌, inl, inr, refl, ◌||◌, Bool, true, false,
  some, Option, List, [], ◌∷◌, arith, ◌==◌, Bool-cases, leb, get_or, Option-cases, set, replicate,
  length, ◌∙◌, ap, sym,
}
use lardos.Base.Words.{u32}

module _ (mem : Memory) (lo hi : ℕ) (head : List Block) where
  module _ (visit : ℕ → List Bool → Option (List Bool)) (pure_visit : ℕ → List Bool → List Bool)
      (agree : (j : ℕ) (m : List Bool) → visit j m ≡ some (pure_visit j m)) where
    visit_word_ends :
        (word : ℕ) (m : List Bool)
        → visit_word mem lo hi head visit word m
          ≡ some (Pure.visit_word mem lo hi head pure_visit word m)
    unfolding visit_word Pure.visit_word
    visit_word_ends word m = elim (Bool-cases (is_heap_ptr lo hi word)) [
      | inr e ↦ rw (visit_word, e) refl
      | inl e ↦ elim (Option-cases (find_block head word)) [
        | inl f ↦ rw (visit_word, e, f) refl
        | inr (j, f) ↦ rw (visit_word, e, f) (agree j m)
      ]
    ]

    scan_step :
        (at n fuel i j : ℕ) (m m' : List Bool)
        → leb (u32 (i + 8)) n ≡ true
        → visit_word mem lo hi head visit (mem (at + i)) m ≡ some m'
        → u32 (i + 8) ≡ j
        → scan mem lo hi head visit at n (suc fuel) i m ≡ scan mem lo hi head visit at n fuel j m'
    unfolding scan
    scan_step at n fuel i j m m' more word next =
        rw (scan, more, word) (ap (λ k. scan mem lo hi head visit at n fuel k m') next)

    -- `left` words are left at `i`.
    scan_ends :
        (at n left i : ℕ) (m : List Bool)
        → n < 2 ^ 32 - 8
        → i + 8 * left ≤ n
        → n < i + 8 * left + 8
        → scan mem lo hi head visit at n (suc left) i m
          ≡ some (Pure.scan mem lo hi head pure_visit (at + i) left m)
    unfolding scan Pure.scan
    scan_ends at n zero i m small here over =
        let done : leb (u32 (i + 8)) n ≡ false = ground arith in rw (scan, done) refl
    scan_ends at n (suc left) i m small here over =
        let more : leb (u32 (i + 8)) n ≡ true = ground arith in
        let next : u32 (i + 8) ≡ i + 8 = omega arith in
        let along : at + (i + 8) ≡ at + i + 8 = omega arith in
        let m' = Pure.visit_word mem lo hi head pure_visit (mem (at + i)) m in
        scan_step at n (suc left) i (i + 8) m m' more (visit_word_ends (mem (at + i)) m) next
        ∙ scan_ends at n left (i + 8) m' small (omega arith) (omega arith)
        ∙ ap (λ k. some (Pure.scan mem lo hi head pure_visit k left m')) along

  module _ (fuel j : ℕ) (m : List Bool) (e : is_marked m j ≡ false) where
    mark_new :
        mark mem lo hi head (suc fuel) j m
        ≡ scan mem lo hi head
            (mark mem lo hi head fuel)
            (block_payload (get_or head j no_block))
            (get_or head j no_block).size
            (suc ((get_or head j no_block).size / 8))
            0
            (set m j true)
    unfolding mark
    mark_new = rw (mark, e) refl

    mark_new_pure :
        Pure.mark mem lo hi head (suc fuel) j m
        ≡ Pure.scan mem lo hi head
            (Pure.mark mem lo hi head fuel)
            (block_payload (get_or head j no_block))
            ((get_or head j no_block).size / 8)
            (set m j true)
    unfolding Pure.mark
    mark_new_pure = rw (Pure.mark, e) refl

  module _ (small : (j : ℕ) → (get_or head j no_block).size < 2 ^ 32 - 8) where
    mark_ends :
        (fuel j : ℕ) (m : List Bool)
        → mark mem lo hi head fuel j m ≡ some (Pure.mark mem lo hi head fuel j m)
    unfolding mark Pure.mark
    mark_ends zero j m = refl
    mark_ends (suc fuel) j m = elim (Bool-cases (is_marked m j)) [
      | inl e ↦ rw (mark, Pure.mark, e) refl
      | inr e ↦
          let b = get_or head j no_block in
          let start : block_payload b + 0 ≡ block_payload b = omega arith in
          let m' = set m j true in
          mark_new fuel j m e
          ∙ scan_ends (mark mem lo hi head fuel) (Pure.mark mem lo hi head fuel) (mark_ends fuel)
              (block_payload b) b.size (b.size / 8) 0 m' (small j) (omega arith) (omega arith)
          ∙ ap
              (λ k.
                some (Pure.scan mem lo hi head (Pure.mark mem lo hi head fuel) k (b.size / 8) m'))
              start
          ∙ ap some (sym (mark_new_pure fuel j m e))
    ]

    mark_root_ends :
        (root : ℕ) (m : List Bool)
        → mark_root mem lo hi head root m ≡ some (Pure.mark_root mem lo hi head root m)
    unfolding mark_root Pure.mark_root
    mark_root_ends root m = elim (Bool-cases (root == 0 || mem root == 0)) [
      | inl e ↦ rw e refl
      | inr e ↦ elim (Option-cases (find_block head (mem root))) [
        | inl f ↦ rw (e, f) refl
        | inr (j, f) ↦ rw (e, f) (mark_ends (suc (length head)) j m)
      ]
    ]

    mark_roots_ends :
        (roots : List ℕ) (m : List Bool)
        → mark_roots mem lo hi head roots m ≡ some (Pure.mark_roots mem lo hi head roots m)
    unfolding mark_roots Pure.mark_roots
    mark_roots_ends [] m = refl
    mark_roots_ends (r ∷ rs) m =
        rw (mark_roots, mark_root_ends r m) (mark_roots_ends rs (Pure.mark_root mem lo hi head r m))

    pub mark_phase_ends :
        (roots : List ℕ)
        → mark_phase mem lo hi head roots ≡ some (Pure.mark_phase mem lo hi head roots)
    unfolding mark_phase Pure.mark_phase
    mark_phase_ends roots = mark_roots_ends roots (replicate (length head) false)
