-- ===== src/Gc/Trace.antt =====
-- Marking in os/kernel/gc.c follows every word that points into a block: what is marked anew has all
-- that it points to marked, and belongs to every set of blocks that is closed in this way.
use lardos.Gc.{
  Memory, Block, is_marked, no_block, block_payload, is_heap_ptr, find_block, find_from,
}
use lardos.Gc.Pure.{visit_word, scan, mark}
use lardos.Gc.Marks.{unmarked, unmarked-set, is_marked-set_kept, is_marked-set, is_marked-set_self}
use lardos.Base.{
  ℕ, ◌+◌, ◌*◌, ◌/◌, ◌≤◌, ◌<◌, ◌≡◌, ◌⊎◌, inl, inr, refl, ◌∙◌, Bool, true, false, some, List, arith,
  get_or, length, Bool-cases, [], ◌∷◌, Option-cases, zero, suc, Option, ◌==◌, ==→eq, set,
  length-set, sym,
}
use mathlib.Core.Path.{subst}

module _ (mem : Memory) (lo hi : ℕ) (head : List Block) where
  -- the `k`-th word of the payload of the block at place `i`
  abbrev pub word_of : ℕ → ℕ → ℕ
  word_of i k = mem (block_payload (get_or head i no_block) + 8 * k)

  -- Block `i` holds a word that points into block `j`.
  pub record Edge (i j : ℕ) : Type 0 where
    pub place : ℕ
    pub inside : place < (get_or head i no_block).size / 8
    pub pointer : is_heap_ptr lo hi (word_of i place) ≡ true
    pub target : find_block head (word_of i place) ≡ some j

  -- a step of marking: from flags `m` to flags `m'`
  pub record Marked (Good : ℕ → Type 0) (m m' : List Bool) : Type 0 where
    pub same_length : length m' ≡ length m
    pub fewer : unmarked m' ≤ unmarked m
    pub kept : (i : ℕ) → is_marked m i ≡ true → is_marked m' i ≡ true
    pub closed :
        (i : ℕ)
        → is_marked m i ≡ false
        → is_marked m' i ≡ true
        → (j : ℕ) → Edge i j
        → is_marked m' j ≡ true
    pub sound : (i : ℕ) → is_marked m' i ≡ true → (is_marked m i ≡ true) ⊎ Good i

  module _ (Good : ℕ → Type 0) where
    pub Marked-refl : (m : List Bool) → Marked Good m m
    Marked-refl m = record {
      same_length = refl;
      fewer = omega arith;
      kept = λ i e. e;
      closed = λ i e f j g. cc;
      sound = λ i e. inl e;
    }

    pub Marked-trans : (a b c : List Bool) → Marked Good a b → Marked Good b c → Marked Good a c
    Marked-trans a b c p q = record {
      same_length = q.same_length ∙ p.same_length;
      fewer = omega (arith, p.fewer, q.fewer);
      kept = λ i e. q.kept i (p.kept i e);
      closed = λ i e f j g. elim (Bool-cases (is_marked b i)) [
        | inl here ↦ q.kept j (p.closed i e here j g)
        | inr later ↦ q.closed i later f j g
      ];
      sound = λ i e. elim (q.sound i e) [ inl before ↦ p.sound i before | inr good ↦ inr good ];
    }

pub same_place : (j j' : ℕ) → ◌≡◌ {A = Option ℕ} (some j) (some j') → j ≡ j'
same_place j j' e = cc

find_from-inside : (bs : List Block) (i p j : ℕ) → find_from bs i p ≡ some j → j < i + length bs
unfolding find_from
find_from-inside [] i p j e = cc
find_from-inside (b ∷ bs) i p j e = ground (arith, find_from-inside bs (i + 1) p j)

pub find_block-inside : (bs : List Block) (p j : ℕ) → find_block bs p ≡ some j → j < length bs
unfolding find_block
find_block-inside bs p j e = omega (arith, find_from-inside bs 0 p j e)

module _ (mem : Memory) (lo hi : ℕ) (head : List Block) (Good : ℕ → Type 0)
    (follows : (i j : ℕ) → Good i → Edge mem lo hi head i j → Good j) where
  -- what a visit of a block does when `fuel` is more than the marks that are missing
  abbrev Visits : ℕ → (ℕ → List Bool → List Bool) → Type 0
  Visits fuel visit =
      (j : ℕ) (m : List Bool)
      → j < length head
      → length m ≡ length head
      → unmarked m < fuel
      → Good j
      → Marked mem lo hi head Good m (visit j m) × (is_marked (visit j m) j ≡ true)

  module _ (fuel : ℕ) (visit : ℕ → List Bool → List Bool) (visits : Visits fuel visit) (i : ℕ)
      (good : Good i) where
    visit_word_lem :
        (k : ℕ) (m : List Bool)
        → k < (get_or head i no_block).size / 8
        → length m ≡ length head
        → unmarked m < fuel
        → Marked mem lo hi head Good m
            (visit_word mem lo hi head visit (word_of mem lo hi head i k) m)
          × ((j : ℕ)
              → is_heap_ptr lo hi (word_of mem lo hi head i k) ≡ true
              → find_block head (word_of mem lo hi head i k) ≡ some j
              → is_marked (visit_word mem lo hi head visit (word_of mem lo hi head i k) m) j ≡ true)
    unfolding visit_word
    visit_word_lem k m inside sized enough =
        let word = word_of mem lo hi head i k in
        elim (Bool-cases (is_heap_ptr lo hi word)) [
          | inr e ↦ rw e (Marked-refl mem lo hi head Good m, λ j f g. cc)
          | inl e ↦ elim (Option-cases (find_block head word)) [
            | inl none_there ↦ rw (e, none_there) (Marked-refl mem lo hi head Good m, λ j f g. cc)
            | inr (j, there) ↦
                let edge : Edge mem lo hi head i j = record {
                  place = k;
                  inside = inside;
                  pointer = e;
                  target = there;
                } in
                let done =
                  visits j m (find_block-inside head word j there) sized enough
                    (follows i j good edge) in
                rw (e, there)
                  (
                    done.0,
                    λ j' f g.
                        subst (λ t. is_marked (visit j m) t ≡ true) (same_place j j' g) done.1,
                  )
          ]
        ]

    scan_lem :
        (left k : ℕ) (m : List Bool)
        → k + left ≡ (get_or head i no_block).size / 8
        → length m ≡ length head
        → unmarked m < fuel
        → Marked mem lo hi head Good m
            (scan mem lo hi head visit (block_payload (get_or head i no_block) + 8 * k) left m)
          × ((place j : ℕ)
              → k ≤ place
              → place < (get_or head i no_block).size / 8
              → is_heap_ptr lo hi (word_of mem lo hi head i place) ≡ true
              → find_block head (word_of mem lo hi head i place) ≡ some j
              → is_marked
                  (scan mem lo hi head visit
                    (block_payload (get_or head i no_block) + 8 * k)
                    left
                    m)
                  j
                ≡ true)
    unfolding scan
    scan_lem zero k m span sized enough =
        (Marked-refl mem lo hi head Good m, λ place j low high f g. absurd (omega arith))
    scan_lem (suc left) k m span sized enough =
        let at = block_payload (get_or head i no_block) in
        let word = word_of mem lo hi head i k in
        let m1 = visit_word mem lo hi head visit word m in
        let here = visit_word_lem k m (omega arith) sized enough in
        let along : at + 8 * k + 8 ≡ at + 8 * (k + 1) = omega arith in
        let rest =
          scan_lem left (k + 1) m1 (omega arith) (here.0.same_length ∙ sized)
            (omega (arith, here.0.fewer)) in
        rw along (
          Marked-trans mem lo hi head Good m m1 _ here.0 rest.0,
          λ place j low high f g. elim (Bool-cases (place == k)) [
            | inr later ↦ rest.1 place j (ground (arith, later)) high f g
            | inl first ↦
                let same : place ≡ k = ==→eq place k first in
                rest.0.kept j (
                  here.1 j
                    (subst (λ p. is_heap_ptr lo hi (word_of mem lo hi head i p) ≡ true) same f)
                    (subst (λ p. find_block head (word_of mem lo hi head i p) ≡ some j) same g))
          ],
        )

  module _ (fuel j : ℕ) (m : List Bool) where
    mark_seen : is_marked m j ≡ true → mark mem lo hi head (suc fuel) j m ≡ m
    unfolding mark
    mark_seen e = rw (mark, e) refl

    mark_new :
        is_marked m j ≡ false
        → mark mem lo hi head (suc fuel) j m
          ≡ scan mem lo hi head
              (mark mem lo hi head fuel)
              (block_payload (get_or head j no_block) + 8 * 0)
              ((get_or head j no_block).size / 8)
              (set m j true)
    unfolding mark
    mark_new e =
        let at = block_payload (get_or head j no_block) in
        let zero_off : at + 8 * 0 ≡ at = omega arith in rw (mark, e, zero_off) refl

  -- A block that had no mark gets one, and what was marked anew by the scan of its words follows.
  after_new_mark :
      (j : ℕ) (m m' : List Bool)
      → j < length m
      → is_marked m j ≡ false
      → Good j
      → Marked mem lo hi head Good (set m j true) m'
      → ((place j' : ℕ)
          → 0 ≤ place
          → place < (get_or head j no_block).size / 8
          → is_heap_ptr lo hi (word_of mem lo hi head j place) ≡ true
          → find_block head (word_of mem lo hi head j place) ≡ some j'
          → is_marked m' j' ≡ true)
      → Marked mem lo hi head Good m m' × (is_marked m' j ≡ true)
  after_new_mark j m m' at e good run words = (
    record {
      same_length = run.same_length ∙ length-set m j true;
      fewer = omega (arith, run.fewer, unmarked-set m j at e);
      kept = λ i f. run.kept i (is_marked-set_kept m j at i f);
      closed = λ i f g j' edge. elim (Bool-cases (is_marked (set m j true) i)) [
        | inr later ↦ run.closed i later g j' edge
        | inl now ↦ elim (is_marked-set m j at i now) [
          | inr before ↦ cc
          | inl here ↦
              let moved : Edge mem lo hi head j j' =
                subst (λ k. Edge mem lo hi head k j') here edge in
              words moved.place j' (omega arith) moved.inside moved.pointer moved.target
        ]
      ];
      sound = λ i f. elim (run.sound i f) [
        | inr good_i ↦ inr good_i
        | inl now ↦ elim (is_marked-set m j at i now) [
          | inr before ↦ inl before
          | inl here ↦ inr (subst Good (sym here) good)
        ]
      ];
    },
    run.kept j (is_marked-set_self m j at),
  )

  -- With more fuel than missing marks, marking a block marks it and all that it reaches.
  pub mark_lem : (fuel : ℕ) → Visits fuel (mark mem lo hi head fuel)
  mark_lem zero j m inside sized enough good = absurd (omega arith)
  mark_lem (suc fuel) j m inside sized enough good = elim (Bool-cases (is_marked m j)) [
    | inl e ↦ rw (mark_seen fuel j m e) (Marked-refl mem lo hi head Good m, e)
    | inr e ↦
        let m1 = set m j true in
        let at : j < length m = omega (arith, sized) in
        let count = unmarked-set m j at e in
        let run =
          scan_lem fuel (mark mem lo hi head fuel) (mark_lem fuel) j good
            ((get_or head j no_block).size / 8) 0 m1 (omega arith) (length-set m j true ∙ sized)
            (omega arith) in
        rw (mark_new fuel j m e) (after_new_mark j m _ at e good run.0 run.1)
  ]
