-- ===== src/Heap/Release.antt =====
-- Marking one allocated block free, as `kfree` of os/kernel/mem.c does first.
use lardos.Base.{
  ℕ, ◌+◌, ◌≤◌, ◌<◌, ◌≡◌, ◌≢◌, inl, inr, refl, ◌∙◌, true, none, some, List, [], ◌∷◌, arith, ◌==◌,
  Bool-cases, ==→eq, length, ap, sym, ==→ne,
}
use lardos.Heap.Blocks.{used_at, Block, Aligned, Linked, span, behind, link, Linked-above}
use lardos.Heap.{Memory, set_free, read_header, write_header}
use mathlib.Core.Option.{none-ne-some}
use lardos.Heap.Alloc.{header_of, read_here, read_elsewhere, hdr}
use lardos.Heap.Laws.{used_skip, free_here, used_skip, used_cong}

-- Where an allocated block can stand.
pub used_bounds :
    (a x n : ℕ) (bs : List Block)
    → Aligned bs
    → used_at a bs x ≡ some n
    → (a ≤ x) × (x + 12 + n ≤ a + span bs) × (4 ≤ n)
unfolding used_at
used_bounds a x n [] al e = absurd (none-ne-some n e)
used_bounds a x n (b ∷ bs) al e = elim (Bool-cases (a == x)) [
  | inl at ↦ ground arith
  | inr past ↦ ground (arith, used_bounds (behind a b) x n bs al.1)
]

-- What releasing the block at `x` does.
pub record IsReleased (mem mem' : Memory) (a x : ℕ) (bs bs' : List Block) : Type 0 where
  pub answer : set_free mem x true ≡ some mem'
  pub linked : Linked mem' a bs'
  pub untouched : (y : ℕ) → y < a → read_header mem' y ≡ read_header mem y
  pub aligned : Aligned bs'
  pub same_span : span bs' ≡ span bs
  pub same_link : link a bs' ≡ link a bs
  pub same_length : length bs' ≡ length bs
  pub gone : used_at a bs' x ≡ none
  pub others : (y : ℕ) → x ≢ y → used_at a bs' y ≡ used_at a bs y

nothing_used : (a x n : ℕ) → used_at a [] x ≢ some n
unfolding used_at
nothing_used a x n e = none-ne-some n e

freed_here :
    (mem : Memory) (a : ℕ) (b : Block) (bs : List Block)
    → read_header mem a ≡ some (header_of a b bs)
    → set_free mem a true
      ≡ some (write_header mem a (header_of a (record { size = b.size; free = true }) bs))
unfolding set_free
freed_here mem a b bs e = rw e refl

pub release_lem :
    (mem : Memory) (a x n : ℕ) (bs : List Block)
    → Linked mem a bs
    → Aligned bs
    → used_at a bs x ≡ some n
    → (mem' : Memory) × (bs' : List Block) × IsReleased mem mem' a x bs bs'
release_lem mem a x n [] l al e = absurd (nothing_used a x n e)
release_lem mem a x n (b ∷ bs) l al e = elim (Bool-cases (a == x)) [
  | inl at ↦
      let spot : a ≡ x = ==→eq a x at in
      let opened : Block = record { size = b.size; free = true } in
      let after = write_header mem a (header_of a opened bs) in
      (
        after,
        opened ∷ bs,
        record {
          answer = ap (λ y. set_free mem y true) (sym spot) ∙ freed_here mem a b bs l.0;
          linked = (
            read_here mem a (header_of a opened bs),
            Linked-above mem a (header_of a opened bs) (behind a b) bs (omega arith) l.1,
          );
          untouched = λ y below. read_elsewhere mem a y (header_of a opened bs) (omega arith);
          aligned = al;
          same_span = refl;
          same_link = refl;
          same_length = refl;
          gone = ap (λ y. used_at a (opened ∷ bs) y) (sym spot) ∙ free_here a opened bs refl;
          others = λ y other.
              let ne : a ≢ y = omega (arith, spot, other) in
              used_skip a y opened bs ne ∙ sym (used_skip a y b bs ne);
        },
      )
  | inr past ↦
      let ne : a ≢ x = ==→ne a x past in
      let later : used_at (behind a b) bs x ≡ some n = sym (used_skip a x b bs ne) ∙ e in
      let bound = used_bounds (behind a b) x n bs al.1 later in
      let (mem', bs', r) = release_lem mem (behind a b) x n bs l.1 al.1 later in
      (
        mem',
        b ∷ bs',
        record {
          answer = r.answer;
          linked = (
            r.untouched a (omega arith)
                ∙ l.0
                ∙ ap (λ k. some (hdr b.size k b.free)) (sym r.same_link),
            r.linked,
          );
          untouched = λ y below. r.untouched y (omega arith);
          aligned = (al.0, r.aligned);
          same_span = omega (arith, r.same_span);
          same_link = refl;
          same_length = omega (arith, r.same_length);
          gone = used_skip a x b bs' ne ∙ r.gone;
          others = λ y other. used_cong a y b bs bs' (r.others y other);
        },
      )
]
