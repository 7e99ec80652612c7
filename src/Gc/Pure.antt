-- ===== src/Gc/Pure.antt =====
-- The marking of os/kernel/gc.c for payloads whose counter `i` does not wrap: every loop ends, and the flags
-- are computed without a test for that.
use lardos.Base.{
  ℕ, zero, suc, ◌+◌, ◌/◌, ◌||◌, Bool, true, false, none, some, List, [], ◌∷◌, ◌==◌, if◌then◌else◌,
  replicate, get_or, length, set,
}
use lardos.Gc.{Memory, Block, is_heap_ptr, is_marked, find_block, no_block, block_payload}

module _ (mem : Memory) (lo hi : ℕ) (head : List Block) where
  -- `if (other) mark(other);` for a word of a payload
  unfoldable pub visit_word : (ℕ → List Bool → List Bool) → ℕ → List Bool → List Bool
  visit_word visit word marks =
      if is_heap_ptr lo hi word
      then elim (find_block head word) [ none ↦ marks | some j ↦ visit j marks ]
      else marks

  -- the loop over the words of a payload, with those that are left
  unfoldable pub scan : (ℕ → List Bool → List Bool) → ℕ → ℕ → List Bool → List Bool
  scan visit at zero marks = marks
  scan visit at (suc left) marks = scan visit (at + 8) left (visit_word visit (mem at) marks)

  -- `mark` of the block at place `i`. Fuel beyond the number of blocks without a mark is enough: each
  -- nested call stands behind a new mark.
  unfoldable pub mark : ℕ → ℕ → List Bool → List Bool
  mark zero i marks = marks
  mark (suc fuel) i marks = elim (is_marked marks i) [
    | true ↦ marks
    | false ↦
        let b = get_or head i no_block in
        scan (mark fuel) (block_payload b) (b.size / 8) (set marks i true)
  ]

  -- `void* p = g_roots[i] ? *g_roots[i] : 0; if (p) { … }`
  unfoldable pub mark_root : ℕ → List Bool → List Bool
  mark_root root marks =
      if root == 0 || mem root == 0 then marks else elim (find_block head (mem root)) [
        | none ↦ marks
        | some j ↦ mark (suc (length head)) j marks
      ]

  unfoldable pub mark_roots : List ℕ → List Bool → List Bool
  mark_roots [] marks = marks
  mark_roots (r ∷ rs) marks = mark_roots rs (mark_root r marks)

  unfoldable pub mark_phase : List ℕ → List Bool
  mark_phase roots = mark_roots roots (replicate (length head) false)
