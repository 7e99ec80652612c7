-- ===== src/Heap/Refine.antt =====
-- `mem_init`, `kmalloc` and `kfree` of os/kernel/mem.c on a heap whose headers tile it.
use lardos.Base.{
  sym, ℕ, ◌+◌, ◌-◌, ◌*◌, ◌/◌, ◌%◌, ◌^◌, ◌≤◌, ◌<◌, ◌≡◌, ◌≢◌, refl, ◌∙◌, true, false, none, some,
  List, arith, ◌==◌, length, ◌||◌, not, ltb, leb, sym, Bool, ap,
}
use lardos.Heap.{Heap, kmalloc, mem_init, align_up, alignment, kfree, header_sz, coalesce_loop}
use lardos.Heap.Blocks.{Block, used_at, link, span, merge_pass}
use lardos.Heap.Alloc.{fit, full, IsHeap, find_fit_lem}
use lardos.Base.Words.{IsU32, u32, sub32}
use lardos.Heap.Laws.{NoFit}
use lardos.Heap.Align.{align_up_lem, align_up_wraps}
use lardos.Heap.Release.{used_bounds, release_lem}
use lardos.Heap.Free.{coalesce_lem, merge-Keeps}

pub record IsValid (g : Heap) (bs : List Block) : Type 0 where
  pub ready : g.initialized ≡ true
  pub heap : IsHeap g.mem g.heap_start bs
  pub first : g.free_list ≡ link g.heap_start bs
  pub tiles : g.heap_start + span bs ≡ g.heap_end

-- A block of at least `least` bytes inside the heap was handed out at `p`: its header stands where no allocated block
-- was, and every other allocated block is left as it was.
pub record IsHandedOut (g : Heap) (bs bs' : List Block) (p least : ℕ) : Type 0 where
  pub above : g.heap_start + 12 ≤ p
  pub size : ℕ
  pub large : least ≤ size
  pub within : p + size ≤ g.heap_end
  pub owned : used_at g.heap_start bs' (p - 12) ≡ some size
  pub was_free : used_at g.heap_start bs (p - 12) ≡ none
  pub others : (y : ℕ) → y + 12 ≢ p → used_at g.heap_start bs' y ≡ used_at g.heap_start bs y

-- How `kmalloc` of `size` bytes ends, for a request that is rounded to `want`.
pub data Answer (fuel kernel_end : ℕ) (g : Heap) (bs : List Block) (size want : ℕ) : Type 0 where
  refuses :
      kmalloc fuel kernel_end g size ≡ some (0, g)
      → NoFit want bs
      → Answer fuel kernel_end g bs size want
  hands_out :
      (p : ℕ) (g' : Heap) (bs' : List Block)
      → kmalloc fuel kernel_end g size ≡ some (p, g')
      → IsValid g' bs'
      → IsHandedOut g bs bs' p want
      → Answer fuel kernel_end g bs size want

module _ (fuel kernel_end : ℕ) (g : Heap) (bs : List Block) (v : IsValid g bs) where
  ready_init : mem_init kernel_end g ≡ g
  unfolding mem_init
  ready_init = rw v.ready refl

  answer_of :
      (size want : ℕ)
      → 0 < size
      → align_up size alignment ≡ want
      → want % 16 ≡ 0
      → length bs < fuel
      → Answer fuel kernel_end g bs size want
  unfolding kmalloc
  answer_of size want some_bytes rounded even enough =
      let nonzero : (size == 0) ≡ false = ground arith in
      elim (find_fit_lem want even fuel g.mem g.heap_start bs v.heap enough) [
        | full found none_fits ↦
            refuses (rw (ready_init, kmalloc, nonzero, rounded, v.first, found) refl) none_fits
        | fit x bs' mem' found linked untouched made ↦
            hands_out (x + 12) (record g { mem = mem' }) bs'
              (rw (ready_init, kmalloc, nonzero, rounded, v.first, found) refl)
              record {
                ready = v.ready;
                heap = record {
                  linked = linked;
                  aligned = made.aligned;
                  begins = v.heap.begins;
                  in_words = omega (arith, made.same_span, v.heap.in_words);
                };
                first = v.first ∙ sym made.same_link;
                tiles = omega (arith, made.same_span, v.tiles);
              }
              record {
                above = omega (arith, made.above);
                size = made.size;
                large = made.large;
                within = omega (
                  arith,
                  used_bounds g.heap_start x made.size bs' made.aligned made.taken_here,
                  made.same_span,
                  v.tiles,
                );
                owned = ap (λ y. used_at g.heap_start bs' y) (omega arith) ∙ made.taken_here;
                was_free = ap (λ y. used_at g.heap_start bs y) (omega arith) ∙ made.was_free;
                others = λ y ne. made.others y (λ e. ne (omega (arith, e)));
              }
      ]

  -- On a valid heap, a request of at least one byte whose rounding does not wrap either gets null,
  -- with the heap unchanged, and then no free block has the rounded size; or it gets the address
  -- behind a header where no allocated block was, of a block of at least the rounded size, with the
  -- other allocated blocks unchanged and the heap valid. Fuel beyond the number of blocks is enough.
  pub kmalloc_lem :
      (size : ℕ)
      → 0 < size
      → size + 15 < 2 ^ 32
      → length bs < fuel
      → Answer fuel kernel_end g bs size ((size + 15) / 16 * 16)
  kmalloc_lem size some_bytes short enough =
      answer_of size ((size + 15) / 16 * 16) some_bytes (align_up_lem size short) (omega arith)
        enough

  -- On a valid heap with a free block, a request so close to 2 ^ 32 that its rounding wraps succeeds,
  -- with a block that has fewer bytes than were asked for.
  pub kmalloc_wraps :
      (size : ℕ)
      → IsU32 size
      → 2 ^ 32 ≤ size + 15
      → ¬ NoFit 0 bs
      → length bs < fuel
      → (p : ℕ) × (g' : Heap) × (bs' : List Block) × (n : ℕ) × (kmalloc fuel kernel_end g size
          ≡ some (p, g'))
        × (12 < p)
        × (used_at g.heap_start bs' (p - 12) ≡ some n)
        × (n < size)
  kmalloc_wraps size word wraps room enough =
      elim (answer_of size 0 (omega arith) (align_up_wraps size word wraps) (omega arith) enough) [
        | refuses got none_fits ↦ absurd (room none_fits)
        | hands_out p g' bs' got v' made ↦ (
          p,
          g',
          bs',
          made.size,
          got,
          omega (arith, made.above, v.heap.begins),
          made.owned,
          omega (arith, made.above, made.within, v.tiles, v.heap.begins, v.heap.in_words),
        )
      ]

passes_checks :
    {ready : Bool} {stop' : ℕ} (start stop x n : ℕ)
    → ready ≡ true
    → (start ≤ x) × (x + 12 + n ≤ stop') × (4 ≤ n)
    → stop' ≡ stop
    → stop < 2 ^ 32
    → (x + 12 == 0 || not ready || ltb (x + 12) (u32 (start + header_sz)) || leb stop (x + 12))
      ≡ false
passes_checks start stop x n on bounds same words = rw on (ground arith)

-- On a valid heap, freeing the address that stands behind the header of an allocated block succeeds
-- and leaves a valid heap: that block is allocated no more, and every other allocated block is as it
-- was. Fuel beyond the number of blocks is enough.
pub kfree_lem :
    (fuel : ℕ) (g : Heap) (bs : List Block) (x n : ℕ)
    → IsValid g bs
    → used_at g.heap_start bs x ≡ some n
    → length bs < fuel
    → (g' : Heap) × (bs' : List Block) × (kfree fuel g (x + 12) ≡ some g')
      × IsValid g' bs'
      × (used_at g.heap_start bs' x ≡ none)
      × ((y : ℕ) → x ≢ y → used_at g.heap_start bs' y ≡ used_at g.heap_start bs y)
unfolding kfree
kfree_lem fuel g bs x n v owned enough =
    let bounds = used_bounds g.heap_start x n bs v.heap.aligned owned in
    let (mem1, bs1, r) = release_lem g.mem g.heap_start x n bs v.heap.linked v.heap.aligned owned in
    let heap1 : IsHeap mem1 g.heap_start bs1 = record {
      linked = r.linked;
      aligned = r.aligned;
      begins = v.heap.begins;
      in_words = omega (arith, r.same_span, v.heap.in_words);
    } in
    let (mem2, m) = coalesce_lem fuel mem1 g.heap_start bs1 heap1 (omega (arith, r.same_length)) in
    let k = merge-Keeps g.heap_start bs1 r.aligned in
    let passes : (x + 12 == 0
          || not g.initialized
          || ltb (x + 12) (u32 (g.heap_start + header_sz))
          || leb g.heap_end (x + 12))
        ≡ false =
      passes_checks g.heap_start g.heap_end x n v.ready bounds (omega (arith, v.tiles))
        (omega (arith, v.tiles, v.heap.in_words)) in
    let walk : coalesce_loop fuel mem1 g.free_list ≡ some mem2 =
      ap (λ l. coalesce_loop fuel mem1 l) (v.first ∙ sym r.same_link) ∙ m.walked in
    let behind_header : sub32 (x + 12) header_sz ≡ x =
      omega (arith, bounds, v.tiles, v.heap.in_words) in
    (
      record g { mem = mem2 },
      merge_pass bs1,
      rw (passes, kfree, behind_header, r.answer, walk) refl,
      record {
        ready = v.ready;
        heap = record {
          linked = m.linked;
          aligned = k.aligned;
          begins = v.heap.begins;
          in_words = omega (arith, k.same_span, r.same_span, v.heap.in_words);
        };
        first = v.first ∙ sym r.same_link ∙ sym k.same_link;
        tiles = omega (arith, k.same_span, r.same_span, v.tiles);
      },
      k.used x ∙ r.gone,
      λ y ne. k.used y ∙ r.others y ne,
    )
