-- ===== src/Gc/Tests.antt =====
-- Runs of os/kernel/gc.c, and its theorem at a concrete heap.
use lardos.Gc.{
  Memory, Block, Gc, gc_run, gc_add_root, gc_remove_root, gc_alloc, mark_phase, remove_loop,
  gc_init, mark_roots, mark_root, mark, scan, visit_word, find_block, find_from, sweep_phase,
  sweep_loop,
}
use lardos.Gc.Sweep.{gc_run_lem, Collects, Counts}
use lardos.Base.{◌≡◌, refl, true, none, some, List, [], ◌∷◌, ◌==◌, if◌then◌else◌, ℕ, arith}

-- Three blocks; the first holds the address of the second, and the variable at 50 that of the first.
abbrev blocks : List Block
blocks =
    record { addr = 1000; size = 16 }
    ∷ record { addr = 2000; size = 8 }
    ∷ record { addr = 3000; size = 8 }
    ∷ []

abbrev mem : Memory
mem a = if a == 50 then 1016 else if a == 1024 then 2020 else 0

abbrev state : Gc
state = record {
  head = blocks;
  roots = 50 ∷ 60 ∷ [];
  inited = true;
  live_count = 0;
  live_bytes = 0;
}

frees_third :
    gc_run mem 900 4000 state
    ≡ some (
      record state {
        head = record { addr = 1000; size = 16 } ∷ record { addr = 2000; size = 8 } ∷ [];
        live_count = 2;
        live_bytes = 24;
      },
      3000 ∷ [],
    )
unfolding gc_run mark_phase mark_roots mark_root mark scan visit_word find_block find_from
    sweep_phase sweep_loop
frees_third = refl

-- the last root moves to the place of the one that is removed
roots_change :
    ((gc_add_root state 70).roots ≡ 50 ∷ 60 ∷ 70 ∷ [])
    × ((gc_remove_root (gc_add_root state 70) 50).roots ≡ 70 ∷ 60 ∷ [])
    × ((gc_add_root state 60).roots ≡ 50 ∷ 60 ∷ [])
unfolding gc_add_root gc_remove_root remove_loop
roots_change = (refl, refl, refl)

-- The size with the header wraps: the allocator is asked for 8 bytes for a block of 2 ^ 32 - 8.
size_wraps :
    gc_alloc (λ n. if n == 8 then some 5000 else none) state 4294967288
    ≡ (record state { head = record { addr = 5000; size = 4294967288 } ∷ blocks }, some 5016)
unfolding gc_alloc gc_init
size_wraps = refl

gc_run_lem_example :
    (s' : Gc) × (freed : List ℕ) × (gc_run mem 900 4000 state ≡ some (s', freed))
    × Collects mem 900 4000 blocks (50 ∷ 60 ∷ []) s'.head freed
    × (s'.roots ≡ 50 ∷ 60 ∷ [])
    × Counts blocks s'
gc_run_lem_example =
    gc_run_lem mem 900 4000 state refl (omega arith, (omega arith, (omega arith, tt)))
