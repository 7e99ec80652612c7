-- ===== src/Gc.antt =====
-- os/kernel/gc.c: the mark-and-sweep collector over the kernel heap. The blocks are the list from `g_head`
-- on, and a block is named by its place in it; the `marked` flags are a list by the same places. Memory
-- is a function from addresses to 64-bit words, which a collection does not change; blocks lie below
-- 2 ^ 32, so no address wraps.
pub mod Pure
pub mod Marks
pub mod Ends
pub mod Trace
pub mod Collect
pub mod Sweep
mod Tests
use lardos.Base.{
  ℕ, zero, suc, ◌+◌, ◌-◌, ◌/◌, ◌&&◌, ◌||◌, Bool, true, false, none, some, Option, List, [], ◌∷◌,
  ◌++◌, ◌==◌, if◌then◌else◌, leb, get_or, length, replicate, take, ltb, set, not,
}
use lardos.Base.Words.{u32}

abbrev pub Memory : Type 0
Memory = ℕ → ℕ

-- `gc_block_t`, at its address and without its links and its flag
pub record Block : Type 0 where
  pub addr : ℕ
  pub size : ℕ

-- the static variables; `roots` are the first `g_nroots` entries of `g_roots`
pub record Gc : Type 0 where
  pub head : List Block
  pub roots : List ℕ
  pub inited : Bool
  pub live_count : ℕ
  pub live_bytes : ℕ

abbrev pub gc_hdr : ℕ
gc_hdr = 16

abbrev pub block_payload : Block → ℕ
block_payload b = b.addr + gc_hdr

-- `is_heap_ptr`, between what `mem_heap_start` and `mem_heap_end` return
abbrev pub is_heap_ptr : ℕ → ℕ → ℕ → Bool
is_heap_ptr lo hi v = leb lo (u32 v) && ltb (u32 v) hi

unfoldable pub find_from : List Block → ℕ → ℕ → Option ℕ
find_from [] i p = none
find_from (b ∷ bs) i p =
    if leb (block_payload b) p && ltb p (block_payload b + b.size)
    then some i
    else find_from bs (i + 1) p

unfoldable pub find_block : List Block → ℕ → Option ℕ
find_block head p = find_from head 0 p

abbrev pub is_marked : List Bool → ℕ → Bool
is_marked marks i = get_or marks i false

abbrev pub no_block : Block
no_block = record { addr = 0; size = 0 }

module _ (mem : Memory) (lo hi : ℕ) (head : List Block) where
  -- `if (other) mark(other);` for a word of a payload
  unfoldable pub visit_word :
      (ℕ → List Bool → Option (List Bool)) → ℕ → List Bool → Option (List Bool)
  visit_word visit word marks = elim (is_heap_ptr lo hi word) [
    | false ↦ some marks
    | true ↦ elim (find_block head word) [ none ↦ some marks | some j ↦ visit j marks ]
  ]

  -- the loop over the words of a payload of `n` bytes at `at`, with the 32-bit counter `i`; `none` when
  -- it has not ended within the fuel. The counter that wraps comes back to 0, and the loop never ends.
  unfoldable pub scan :
      (ℕ → List Bool → Option (List Bool)) → ℕ → ℕ → ℕ → ℕ → List Bool → Option (List Bool)
  scan visit at n zero i marks = none
  scan visit at n (suc fuel) i marks = elim (leb (u32 (i + 8)) n) [
    | false ↦ some marks
    | true ↦ elim (visit_word visit (mem (at + i)) marks) [
      | none ↦ none
      | some marks' ↦ scan visit at n fuel (u32 (i + 8)) marks'
    ]
  ]

  -- `mark` of the block at place `i`. Fuel beyond the number of blocks without a mark is enough: each
  -- nested call stands behind a new mark.
  unfoldable pub mark : ℕ → ℕ → List Bool → Option (List Bool)
  mark zero i marks = some marks
  mark (suc fuel) i marks = elim (is_marked marks i) [
    | true ↦ some marks
    | false ↦
        let b = get_or head i no_block in
        scan (mark fuel) (block_payload b) b.size (suc (b.size / 8)) 0 (set marks i true)
  ]

  -- `void* p = g_roots[i] ? *g_roots[i] : 0; if (p) { … }`
  unfoldable pub mark_root : ℕ → List Bool → Option (List Bool)
  mark_root root marks =
      if root == 0 || mem root == 0 then some marks else elim (find_block head (mem root)) [
        | none ↦ some marks
        | some j ↦ mark (suc (length head)) j marks
      ]

  unfoldable pub mark_roots : List ℕ → List Bool → Option (List Bool)
  mark_roots [] marks = some marks
  mark_roots (r ∷ rs) marks = elim (mark_root r marks) [
    | none ↦ none
    | some marks' ↦ mark_roots rs marks'
  ]

  unfoldable pub mark_phase : List ℕ → Option (List Bool)
  mark_phase roots = mark_roots roots (replicate (length head) false)

-- the blocks that stay, and the addresses handed to `kfree`, in their order
unfoldable pub sweep_loop : List Block → List Bool → List Block × List ℕ
sweep_loop [] marks = ([], [])
sweep_loop (b ∷ bs) [] = ([], [])
sweep_loop (b ∷ bs) (m ∷ marks) =
    let (kept, freed) = sweep_loop bs marks in
    if m then (b ∷ kept, freed) else (kept, b.addr ∷ freed)

abbrev pub sum_sizes : List Block → ℕ
sum_sizes [] = 0
sum_sizes (b ∷ bs) = b.size + sum_sizes bs

-- The collector after the run, and what it freed.
unfoldable pub sweep_phase : Gc → List Bool → Gc × List ℕ
sweep_phase s marks =
    let (kept, freed) = sweep_loop s.head marks in
    (
      record s { head = kept; live_count = u32 (length kept); live_bytes = u32 (sum_sizes kept) },
      freed,
    )

abbrev pub is_empty : List Block → Bool
is_empty [] = true
is_empty (b ∷ bs) = false

-- `none` when the marking does not end
unfoldable pub gc_run : Memory → ℕ → ℕ → Gc → Option (Gc × List ℕ)
gc_run mem lo hi s =
    if not s.inited || is_empty s.head
    then some (s, [])
    else elim (mark_phase mem lo hi s.head s.roots) [
      | none ↦ none
      | some marks ↦ some (sweep_phase s marks)
    ]

unfoldable pub gc_init : Gc → Gc
gc_init s =
    if s.inited
    then s
    else record { head = []; roots = []; inited = true; live_count = 0; live_bytes = 0 }

-- `gc_alloc`, where `kmalloc` answers a size with an address or null. The payload is returned.
unfoldable pub gc_alloc : (ℕ → Option ℕ) → Gc → ℕ → Gc × Option ℕ
gc_alloc kmalloc s size =
    let s' = gc_init s in
    if size == 0 then (s', none) else elim (kmalloc (u32 (gc_hdr + size))) [
      | none ↦ (s', none)
      | some addr ↦
          (record s' { head = record { addr = addr; size = size } ∷ s'.head }, some (addr + gc_hdr))
    ]

abbrev pub member : ℕ → List ℕ → Bool
member x [] = false
member x (y ∷ ys) = y == x || member x ys

unfoldable pub gc_add_root : Gc → ℕ → Gc
gc_add_root s root =
    if root == 0 || leb 64 (length s.roots) || member root s.roots
    then s
    else record s { roots = s.roots ++ root ∷ [] }

-- `g_roots[i] = g_roots[--g_nroots]` at the first place that holds the root: the last one moves there.
unfoldable pub remove_loop : List ℕ → ℕ → List ℕ → List ℕ
remove_loop all root [] = all
remove_loop all root (r ∷ rs) =
    if r == root
    then take (length all - 1)
        (set all (length all - length (r ∷ rs)) (get_or all (length all - 1) 0))
    else remove_loop all root rs

unfoldable pub gc_remove_root : Gc → ℕ → Gc
gc_remove_root s root = record s { roots = remove_loop s.roots root s.roots }
