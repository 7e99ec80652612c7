-- ===== src/Heap/Init.antt =====
-- The heap that `mem_init` of os/kernel/mem.c sets up: one free block.
use lardos.Base.{ℕ, ◌+◌, ◌-◌, ◌^◌, ◌<◌, refl, ◌∙◌, true, false, [], ◌∷◌, arith, some, ap}
use lardos.Heap.{Heap, mem_init, heap_default_size}
use lardos.Heap.Blocks.{Block}
use lardos.Heap.Refine.{IsValid}
use lardos.Heap.Align.{align_up_lem}
use lardos.Heap.Alloc.{read_here, hdr}

abbrev pub cold : Heap
cold = record { mem = []; heap_start = 0; heap_end = 0; free_list = 0; initialized = false }

abbrev pub whole : Block
whole = record { size = heap_default_size - 12; free = true }

-- On a kernel that ends at an address other than 0 and leaves 4 MiB and 15 bytes below 2 ^ 32, the
-- first `mem_init` makes a valid heap of one free block.
pub mem_init-IsValid :
    (kernel_end : ℕ)
    → 0 < kernel_end
    → kernel_end + 15 + heap_default_size < 2 ^ 32
    → IsValid (mem_init kernel_end cold) (whole ∷ [])
unfolding mem_init
mem_init-IsValid kernel_end pos short =
    let e = align_up_lem kernel_end (omega arith) in
    rw e record {
      ready = refl;
      heap = record {
        linked = (read_here _ _ _ ∙ ap (λ n. some (hdr n 0 true)) (omega arith), tt);
        aligned = (omega arith, tt);
        begins = omega arith;
        in_words = omega arith;
      };
      first = refl;
      tiles = omega arith;
    }
