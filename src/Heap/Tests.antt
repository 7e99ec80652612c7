-- ===== src/Heap/Tests.antt =====
-- Runs of os/kernel/mem.c, and its theorems on a small heap.
use mathlib.Core.Option
use lardos.Base.{
  ℕ, ◌-◌, ◌<◌, ◌≡◌, ◌≢◌, refl, true, false, none, some, Option, List, [], ◌∷◌, arith, ltb→lt,
}
use lardos.Heap.{
  Heap, read_header, kmalloc, mem_bytes_free, Memory, mem_init, free_loop, kfree, find_fit,
  split_block, align_up, set_free, Header,
}
use lardos.Heap.Blocks.{Block, merge_pass, used_at}
use lardos.Heap.Refine.{Answer, IsValid, kmalloc_lem, kmalloc_wraps, kfree_lem}
use lardos.Heap.Laws.{NoFit}
use lardos.Heap.Alloc.{hdr}
use lardos.Heap.Free.{IsMerged, coalesce_lem}

-- A heap of two blocks, 20 bytes that are allocated and 100 that are free.
abbrev small_heap : Heap
small_heap = record {
  mem = (0x10000, hdr 20 0x10020 false) ∷ (0x10020, hdr 100 0 true) ∷ [];
  heap_start = 0x10000;
  heap_end = 0x10090;
  free_list = 0x10000;
  initialized = true;
}

abbrev small_blocks : List Block
small_blocks = record { size = 20; free = false } ∷ record { size = 100; free = true } ∷ []

small_heap-IsValid : IsValid small_heap small_blocks
unfolding read_header
small_heap-IsValid = record {
  ready = refl;
  heap = record {
    linked = (refl, (refl, tt));
    aligned = (refl, (refl, tt));
    begins = omega arith;
    in_words = omega arith;
  };
  first = refl;
  tiles = refl;
}

shown : ℕ × Heap → ℕ × Option Header × Option Header
shown r = (r.0, read_header r.1.mem 0x10020, read_header r.1.mem 0x10050)

-- 30 bytes are rounded to 32, and the free block is split.
splits :
    Option.map shown (kmalloc 3 0 small_heap 30)
    ≡ some (0x1002C, some (hdr 36 0x10050 false), some (hdr 52 0 true))
unfolding shown kmalloc mem_init find_fit split_block align_up set_free read_header
splits = refl

gives_up : Option.map (λ (r : ℕ × Heap). r.0) (kmalloc 3 0 small_heap 200) ≡ some 0
unfolding kmalloc mem_init find_fit split_block align_up set_free read_header
gives_up = refl

counts_free : mem_bytes_free 3 small_heap ≡ some 100
unfolding mem_bytes_free free_loop read_header
counts_free = refl

-- Of three free blocks in a row one pass merges the first two.
three_free :
    merge_pass (
      record { size = 20; free = true }
      ∷ record { size = 36; free = true }
      ∷ record { size = 52; free = true }
      ∷ [])
    ≡ record { size = 68; free = true } ∷ record { size = 52; free = true } ∷ []
unfolding merge_pass
three_free = refl

kmalloc_lem_example : Answer 3 0 small_heap small_blocks 30 32
kmalloc_lem_example =
    kmalloc_lem 3 0 small_heap small_blocks small_heap-IsValid 30 (omega arith) (omega arith)
      (omega arith)

owned_block : used_at 0x10000 small_blocks 0x10000 ≡ some 20
unfolding used_at
owned_block = refl

kfree_lem_example :
    (g' : Heap) × (bs' : List Block) × (kfree 3 small_heap 0x1000C ≡ some g')
    × IsValid g' bs'
    × (used_at 0x10000 bs' 0x10000 ≡ none)
    × ((y : ℕ) → 0x10000 ≢ y → used_at 0x10000 bs' y ≡ used_at 0x10000 small_blocks y)
kfree_lem_example =
    kfree_lem 3 small_heap small_blocks 0x10000 20 small_heap-IsValid owned_block (omega arith)

has_room : ¬ NoFit 0 small_blocks
has_room all = omega (arith, ltb→lt 100 0 all.1.0)

kmalloc_wraps_example :
    (p : ℕ) × (g' : Heap) × (bs' : List Block) × (n : ℕ) × (kmalloc 3 0 small_heap 0xFFFFFFFF
      ≡ some (p, g'))
    × (12 < p)
    × (used_at 0x10000 bs' (p - 12) ≡ some n)
    × (n < 0xFFFFFFFF)
kmalloc_wraps_example =
    kmalloc_wraps 3 0 small_heap small_blocks small_heap-IsValid 0xFFFFFFFF (omega arith)
      (omega arith) has_room (omega arith)

coalesce_lem_example : (mem' : Memory) × IsMerged small_heap.mem mem' 3 0x10000 small_blocks
coalesce_lem_example =
    coalesce_lem 3 small_heap.mem 0x10000 small_blocks small_heap-IsValid.heap (omega arith)
