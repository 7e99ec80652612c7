-- ===== src/Gc/Sweep.antt =====
-- A collection of os/kernel/gc.c keeps exactly the blocks that can be reached from the roots, and frees
-- the others.
use lardos.Gc.{
  mark_phase, Memory, Block, Gc, is_marked, no_block, sweep_loop, sweep_phase, gc_run, sum_sizes,
  is_empty,
}
use lardos.Gc.Pure
use lardos.Gc.Ends.{mark_phase_ends}
use lardos.Gc.Collect.{Reach, mark_phase_lem}
use mathlib.Core.List.{Memᴰ}
use mathlib.Core.List.Memᴰ
use lardos.Base.{
  ℕ, zero, suc, ◌<◌, ◌≡◌, ◌≢◌, inl, inr, refl, ◌∙◌, Bool, true, false, List, [], ◌∷◌, arith, length,
  sym, Bool-cases, get_or, ap, ◌-◌, ◌^◌, some, All, get_or-All,
}
use lardos.Base.Words.{u32}

-- a block at a place with or without a mark
record At (head : List Block) (marks : List Bool) (m : Bool) (b : Block) : Type 0 where
  place : ℕ
  inside : place < length head
  flag : is_marked marks place ≡ m
  here : get_or head place no_block ≡ b

At-suc :
    (head : List Block) (marks : List Bool) (m : Bool) (b c : Block) (n : Bool)
    → At head marks m b
    → At (c ∷ head) (n ∷ marks) m b
At-suc head marks m b c n p = record {
  place = suc p.place;
  inside = omega (arith, p.inside);
  flag = p.flag;
  here = p.here;
}

kept_place :
    (head : List Block) (marks : List Bool) (b : Block)
    → Memᴰ b (sweep_loop head marks).0
    → At head marks true b
unfolding sweep_loop
kept_place [] marks b mem = absurd (Memᴰ.not-nil mem)
kept_place (c ∷ head) [] b mem = absurd (Memᴰ.not-nil mem)
kept_place (c ∷ head) (true ∷ marks) b mem = elim (Memᴰ.cases_cons mem) [
  | inl e ↦ record { place = 0; inside = omega arith; flag = refl; here = sym e }
  | inr later ↦ At-suc head marks true b c true (kept_place head marks b later)
]
kept_place (c ∷ head) (false ∷ marks) b mem =
    At-suc head marks true b c false (kept_place head marks b mem)

place_kept :
    (head : List Block) (marks : List Bool) (j : ℕ)
    → j < length head
    → is_marked marks j ≡ true
    → Memᴰ (get_or head j no_block) (sweep_loop head marks).0
unfolding sweep_loop
place_kept [] marks j inside e = absurd (omega arith)
place_kept (c ∷ head) [] j inside e = cc
place_kept (c ∷ head) (true ∷ marks) zero inside e = Memᴰ.head refl
place_kept (c ∷ head) (false ∷ marks) zero inside e = cc
place_kept (c ∷ head) (true ∷ marks) (suc j) inside e =
    Memᴰ.tail (place_kept head marks j (omega arith) e)
place_kept (c ∷ head) (false ∷ marks) (suc j) inside e = place_kept head marks j (omega arith) e

freed_place :
    (head : List Block) (marks : List Bool) (a : ℕ)
    → Memᴰ a (sweep_loop head marks).1
    → (b : Block) × (b.addr ≡ a) × At head marks false b
unfolding sweep_loop
freed_place [] marks a mem = absurd (Memᴰ.not-nil mem)
freed_place (c ∷ head) [] a mem = absurd (Memᴰ.not-nil mem)
freed_place (c ∷ head) (false ∷ marks) a mem = elim (Memᴰ.cases_cons mem) [
  | inl e ↦ (c, sym e, record { place = 0; inside = omega arith; flag = refl; here = refl })
  | inr later ↦
      let (b, same, p) = freed_place head marks a later in
      (b, same, At-suc head marks false b c false p)
]
freed_place (c ∷ head) (true ∷ marks) a mem =
    let (b, same, p) = freed_place head marks a mem in (b, same, At-suc head marks false b c true p)

place_freed :
    (head : List Block) (marks : List Bool) (j : ℕ)
    → j < length head
    → length marks ≡ length head
    → is_marked marks j ≡ false
    → Memᴰ (get_or head j no_block).addr (sweep_loop head marks).1
unfolding sweep_loop
place_freed [] marks j inside sized e = absurd (omega arith)
place_freed (c ∷ head) [] j inside sized e = absurd (omega arith)
place_freed (c ∷ head) (false ∷ marks) zero inside sized e = Memᴰ.head refl
place_freed (c ∷ head) (true ∷ marks) zero inside sized e = cc
place_freed (c ∷ head) (false ∷ marks) (suc j) inside sized e =
    Memᴰ.tail (place_freed head marks j (omega arith) (omega arith) e)
place_freed (c ∷ head) (true ∷ marks) (suc j) inside sized e =
    place_freed head marks j (omega arith) (omega arith) e

-- what a collection does to the blocks of a list
abbrev pub Collects : Memory → ℕ → ℕ → List Block → List ℕ → List Block → List ℕ → Type 0
Collects mem lo hi head roots kept freed =
    ((j : ℕ) → j < length head → Reach mem lo hi head roots j → Memᴰ (get_or head j no_block) kept)
    × ((b : Block)
        → Memᴰ b kept
        → (j : ℕ) × (get_or head j no_block ≡ b) × Reach mem lo hi head roots j)
    × ((j : ℕ)
        → j < length head
        → ¬ Reach mem lo hi head roots j
        → Memᴰ (get_or head j no_block).addr freed)
    × ((a : ℕ)
        → Memᴰ a freed
        → (j : ℕ) × (j < length head)
          × ((get_or head j no_block).addr ≡ a)
          × (¬ Reach mem lo hi head roots j))

sweep-Collects :
    (mem : Memory) (lo hi : ℕ) (head : List Block) (roots : List ℕ)
    → Collects mem lo hi head roots
        (sweep_loop head (Pure.mark_phase mem lo hi head roots)).0
        (sweep_loop head (Pure.mark_phase mem lo hi head roots)).1
sweep-Collects mem lo hi head roots =
    let marks = Pure.mark_phase mem lo hi head roots in
    let (complete, sound, sized) = mark_phase_lem mem lo hi head roots in
    (
      λ j inside reached. place_kept head marks j inside (complete j reached),
      λ b there. let p = kept_place head marks b there in (p.place, p.here, sound p.place p.flag),
      λ j inside lost.
          place_freed head marks j inside sized (elim (Bool-cases (is_marked marks j)) [
            | inr e ↦ e
            | inl e ↦ absurd (lost (sound j e))
          ]),
      λ a there.
          let (b, same, p) = freed_place head marks a there in
          (
            p.place,
            p.inside,
            ap (λ (c : Block). c.addr) p.here ∙ same,
            λ reached. cc (complete p.place reached, p.flag),
          ),
    )

empty_nil : (head : List Block) → is_empty head ≡ true → head ≡ []
empty_nil [] e = refl
empty_nil (b ∷ bs) e = cc

empty-Collects :
    (mem : Memory) (lo hi : ℕ) (head : List Block) (roots : List ℕ)
    → is_empty head ≡ true
    → Collects mem lo hi head roots head []
empty-Collects mem lo hi [] roots e = (
  λ j inside reached. absurd (omega arith),
  λ b there. absurd (Memᴰ.not-nil there),
  λ j inside lost. absurd (omega arith),
  λ a there. absurd (Memᴰ.not-nil there),
)
empty-Collects mem lo hi (b ∷ bs) roots e = cc

-- the counters after a collection, which leaves them alone when there was no block
abbrev pub Counts : List Block → Gc → Type 0
Counts head s =
    head ≢ [] → (s.live_count ≡ u32 (length s.head)) × (s.live_bytes ≡ u32 (sum_sizes s.head))

module _ (mem : Memory) (lo hi : ℕ) (s : Gc) (ready : s.inited ≡ true) where
  run_rests : is_empty s.head ≡ true → gc_run mem lo hi s ≡ some (s, [])
  unfolding gc_run
  run_rests e = rw (gc_run, ready, e) refl

  run_sweeps :
      (marks : List Bool)
      → is_empty s.head ≡ false
      → mark_phase mem lo hi s.head s.roots ≡ some marks
      → gc_run mem lo hi s ≡ some (sweep_phase s marks)
  unfolding gc_run
  run_sweeps marks e ends = simp (gc_run, ready, e, ends)

-- A run of an initialised collector, none of whose blocks has 2 ^ 32 - 8 bytes or more, ends with every
-- block that can be reached from a root kept, no other kept, the address of every other block freed and
-- no other address; the roots stay, and with a block in the list the counters are the number and the size
-- of the blocks that are kept, as 32-bit words.
pub gc_run_lem :
    (mem : Memory) (lo hi : ℕ) (s : Gc)
    → s.inited ≡ true
    → All (λ b. b.size < 2 ^ 32 - 8) s.head
    → (s' : Gc) × (freed : List ℕ) × (gc_run mem lo hi s ≡ some (s', freed))
      × Collects mem lo hi s.head s.roots s'.head freed
      × (s'.roots ≡ s.roots)
      × Counts s.head s'
unfolding sweep_phase
gc_run_lem mem lo hi s ready small = elim (Bool-cases (is_empty s.head)) [
  | inl e ↦ (
    s,
    [],
    run_rests mem lo hi s ready e,
    empty-Collects mem lo hi s.head s.roots e,
    refl,
    λ some_block. absurd (some_block (empty_nil s.head e)),
  )
  | inr e ↦
      let marks = Pure.mark_phase mem lo hi s.head s.roots in
      let swept = sweep_phase s marks in
      let ends =
        mark_phase_ends mem lo hi s.head
          (λ j. get_or-All (λ b. b.size < 2 ^ 32 - 8) s.head j no_block small (omega arith))
          s.roots in
      (
        swept.0,
        swept.1,
        run_sweeps mem lo hi s ready marks e ends,
        sweep-Collects mem lo hi s.head s.roots,
        refl,
        λ some_block. (refl, refl),
      )
]
