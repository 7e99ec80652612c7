-- ===== src/Heap/Blocks.antt =====
-- The blocks of the heap as a list in address order, and how the list represents the headers of
-- os/kernel/mem.c: each block starts where the one before it ends.

use lardos.Base.{
  ℕ, ◌+◌, ◌-◌, ◌%◌, ◌^◌, ◌<◌, ◌≡◌, ◌&&◌, Bool, true, false, none, some, Option, List, [], ◌∷◌,
  arith, ◌==◌, if◌then◌else◌, All, ltb,
}
use lardos.Heap.{Memory, read_header, Header, write_header}

-- A block: the bytes behind its header.
pub record Block : Type 0 where
  pub size : ℕ
  pub free : Bool

-- the address of the first block of a list that starts at `a`, 0 when there is none
abbrev pub link : ℕ → List Block → ℕ
link a [] = 0
link a (b ∷ bs) = a

abbrev pub behind : ℕ → Block → ℕ
behind a b = a + 12 + b.size

-- The headers from `a` on are those of the blocks.
abbrev pub Linked : Memory → ℕ → List Block → Type 0
Linked mem a [] = Unit
Linked mem a (b ∷ bs) =
    (read_header mem a
      ≡ some (record { size = b.size; next = link (behind a b) bs; free = b.free }))
    × Linked mem (behind a b) bs

abbrev pub span : List Block → ℕ
span [] = 0
span (b ∷ bs) = 12 + b.size + span bs

-- Sizes leave the next header on a multiple of 16.
abbrev pub Aligned : List Block → Type 0
Aligned bs = All (λ (b : Block). b.size % 16 ≡ 4) bs

-- The blocks tile the addresses from `a` up to `stop`, which are words.
pub record Tiles (mem : Memory) (a stop : ℕ) (bs : List Block) : Type 0 where
  pub linked : Linked mem a bs
  pub aligned : Aligned bs
  pub begins : (0 < a) × (a % 16 ≡ 0)
  pub ends : a + span bs ≡ stop
  pub in_words : stop < 2 ^ 32

-- The size of the allocated block whose header is at `x`, if there is one.
unfoldable pub used_at : ℕ → List Block → ℕ → Option ℕ
used_at a [] x = none
used_at a (b ∷ bs) x =
    let rest = used_at (behind a b) bs x in
    if a == x then (if b.free then none else some b.size) else rest

-- What the allocator makes of a free block: it is taken whole, or split if there is room for another.
abbrev pub taken : Block → ℕ → List Block
taken b want =
    if ltb b.size (want + 28)
    then record { size = b.size; free = false } ∷ []
    else record { size = want + 4; free = false }
      ∷ record { size = b.size - want - 16; free = true }
      ∷ []

-- One pass of coalescing: a free block takes in the free block behind it, and the pass goes on with
-- what follows that one.
unfoldable pub merge_pass : List Block → List Block
merge_pass [] = []
merge_pass (b ∷ []) = b ∷ []
merge_pass (b ∷ c ∷ bs) = elim (b.free && c.free) [
  | true ↦ record { size = b.size + 12 + c.size; free = true } ∷ merge_pass bs
  | false ↦ b ∷ merge_pass (c ∷ bs)
]

-- A header written below the blocks leaves them.
pub Linked-above :
    (mem : Memory) (x : ℕ) (h : Header) (a : ℕ) (bs : List Block)
    → x < a
    → Linked mem a bs
    → Linked (write_header mem x h) a bs
unfolding read_header
Linked-above mem x h a [] lt l = tt
Linked-above mem x h a (b ∷ bs) lt l =
    let other : (x == a) ≡ false = ground arith in
    (rw other l.0, Linked-above mem x h (behind a b) bs (omega arith) l.1)
