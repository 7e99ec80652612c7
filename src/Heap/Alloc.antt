-- ===== src/Heap/Alloc.antt =====
-- `kmalloc` of os/kernel/mem.c walks the headers as an allocation walks the blocks.
use lardos.Base.{
  ℕ, ◌+◌, ◌%◌, ◌^◌, ◌≤◌, ◌<◌, ◌≡◌, ◌≢◌, refl, true, false, some, List, ◌∷◌, ◌++◌, arith, ltb,
  ==-refl, tests, ◌-◌, ◌∙◌, zero, suc, inl, inr, ◌||◌, Bool, [], ◌==◌, ap, Bool-cases, length, sym,
  not,
}
use lardos.Heap.{Memory, read_header, Header, set_free, write_header, split_block, find_fit}
use lardos.Heap.Blocks.{Block, Linked, behind, Aligned, link, span, taken, Linked-above}
use lardos.Heap.Align.{split_small, split_large}
use lardos.Heap.Laws.{NoFit, Allocated, allocates_later, allocates_here}
use mathlib.Core.Path.{subst}

-- What stands from `a` on before an operation.
pub record IsHeap (mem : Memory) (a : ℕ) (bs : List Block) : Type 0 where
  pub linked : Linked mem a bs
  pub aligned : Aligned bs
  pub begins : (0 < a) × (a % 16 ≡ 0)
  pub in_words : a + span bs < 2 ^ 32

pub tail-IsHeap :
    {mem : Memory} {a : ℕ} {b : Block} {bs : List Block}
    → IsHeap mem a (b ∷ bs)
    → IsHeap mem (behind a b) bs
tail-IsHeap {b = b} h = record {
  linked = h.linked.1;
  aligned = h.aligned.1;
  begins = omega (arith, h.begins, h.aligned.0);
  in_words = omega (arith, h.in_words);
}

abbrev pub hdr : ℕ → ℕ → Bool → Header
hdr size next free = record { size = size; next = next; free = free }

abbrev pub header_of : ℕ → Block → List Block → Header
header_of a b bs = record { size = b.size; next = link (behind a b) bs; free = b.free }

pub read_here : (mem : Memory) (a : ℕ) (h : Header) → read_header (write_header mem a h) a ≡ some h
unfolding read_header
read_here mem a h = rw (==-refl a) refl

pub read_elsewhere :
    (mem : Memory) (a y : ℕ) (h : Header)
    → a ≢ y
    → read_header (write_header mem a h) y ≡ read_header mem y
unfolding read_header
read_elsewhere mem a y h ne = ground arith

-- The memory after the free block `b` at `a` has been taken for `want` bytes.
pub record IsTaken (mem mem' : Memory) (a want : ℕ) (b : Block) (bs : List Block) : Type 0 where
  pub answer : set_free (split_block mem a (header_of a b bs) want) a false ≡ some mem'
  pub linked : Linked mem' a (taken b want ++ bs)
  pub untouched : (y : ℕ) → y < a → read_header mem' y ≡ read_header mem y

module _ (mem : Memory) (a want : ℕ) (b : Block) (bs : List Block) (h : IsHeap mem a (b ∷ bs))
    (even : want % 16 ≡ 0) (fits : want ≤ b.size) where
  whole-IsTaken : ltb b.size (want + 28) ≡ true → (mem' : Memory) × IsTaken mem mem' a want b bs
  unfolding set_free
  whole-IsTaken e = (
    write_header mem a (record (header_of a b bs) { free = false }),
    record {
      answer =
          rw
            (
              split_small mem a want (header_of a b bs) even h.begins.1 (omega (arith, h.in_words))
                  (omega (tests, e)) (omega (arith, h.begins, h.in_words)),
              h.linked.0,
            )
            refl;
      linked =
          rw e (read_here _ a _, Linked-above mem a _ (behind a b) bs (omega arith) h.linked.1);
      untouched = λ y lt. read_elsewhere mem a y _ (omega arith);
    },
  )

  split-IsTaken : ltb b.size (want + 28) ≡ false → (mem' : Memory) × IsTaken mem mem' a want b bs
  unfolding set_free
  split-IsTaken e =
      let large : want + 28 ≤ b.size = omega (tests, e) in
      let rest : Header = hdr (b.size - want - 16) (link (behind a b) bs) true in
      let shut : Header = hdr (want + 4) (a + want + 16) b.free in
      let used : Header = hdr (want + 4) (a + want + 16) false in
      let mem1 = write_header mem (a + want + 16) rest in
      let mem2 = write_header mem1 a shut in
      let mem3 = write_header mem2 a used in
      let place : a + 12 + (want + 4) ≡ a + want + 16 = omega arith in
      let place2 : behind a b ≡ a + 12 + (want + 4) + 12 + (b.size - want - 16) = omega arith in
      (
        mem3,
        record {
          answer =
              rw
                (
                  split_large mem a want (header_of a b bs) even h.begins.1
                      (omega (arith, h.in_words)) large,
                  read_here mem1 a shut,
                )
                refl;
          linked = rw e (
            read_here mem2 a used ∙ ap (λ n. some (hdr (want + 4) n false)) (sym place),
            (
              ap (λ y. read_header mem3 y) place
                  ∙ read_elsewhere mem2 a (a + want + 16) used (omega arith)
                  ∙ read_elsewhere mem1 a (a + want + 16) shut (omega arith)
                  ∙ read_here mem (a + want + 16) rest
                  ∙ ap (λ c. some (hdr (b.size - want - 16) (link c bs) true)) place2,
              subst (λ c. Linked mem3 c bs) place2
                  (Linked-above mem2 a used (behind a b) bs (omega arith) (
                    Linked-above mem1 a shut (behind a b) bs (omega arith) (
                      Linked-above mem (a + want + 16) rest (behind a b) bs (omega arith)
                        h.linked.1))),
            ),
          );
          untouched = λ y lt.
              read_elsewhere mem2 a y used (omega arith)
              ∙ read_elsewhere mem1 a y shut (omega arith)
              ∙ read_elsewhere mem (a + want + 16) y rest (omega arith);
        },
      )

  block-IsTaken : (mem' : Memory) × IsTaken mem mem' a want b bs
  block-IsTaken = elim (Bool-cases (ltb b.size (want + 28))) [
    | inl e ↦ whole-IsTaken e
    | inr e ↦ split-IsTaken e
  ]

pub data Fit (want fuel : ℕ) (mem : Memory) (a : ℕ) (bs : List Block) : Type 0 where
  full : find_fit fuel mem (link a bs) want ≡ some (0, mem) → NoFit want bs → Fit want fuel mem a bs
  fit :
      (x : ℕ) (bs' : List Block) (mem' : Memory)
      → find_fit fuel mem (link a bs) want ≡ some (x + 12, mem')
      → Linked mem' a bs'
      → ((y : ℕ) → y < a → read_header mem' y ≡ read_header mem y)
      → Allocated want a bs bs' x
      → Fit want fuel mem a bs

module _ (want : ℕ) (even : want % 16 ≡ 0) where
  pub find_fit_lem :
      (fuel : ℕ) (mem : Memory) (a : ℕ) (bs : List Block)
      → IsHeap mem a bs
      → length bs < fuel
      → Fit want fuel mem a bs
  unfolding find_fit
  find_fit_lem zero mem a bs h lt = absurd (omega arith)
  find_fit_lem (suc fuel) mem a [] h lt = full refl tt
  find_fit_lem (suc fuel) mem a (b ∷ bs) h lt =
      let here : (a == 0) ≡ false = ground (arith, h.begins) in
      elim (Bool-cases (not b.free || ltb b.size want)) [
        | inl e ↦ elim (find_fit_lem fuel mem (behind a b) bs (tail-IsHeap h) (omega arith)) [
          | full found none_fits ↦ full (rw (here, h.linked.0, e, find_fit) found) (e, none_fits)
          | fit x bs' mem' found linked untouched allocated ↦
              fit x (b ∷ bs') mem' (rw (here, h.linked.0, e, find_fit) found)
                (
                  untouched a (omega arith)
                      ∙ h.linked.0
                      ∙ ap (λ n. some (hdr b.size n b.free)) (sym allocated.same_link),
                  linked,
                )
                (λ y below. untouched y (omega arith))
                (allocates_later want a x b bs bs' h.aligned allocated)
        ]
        | inr e ↦
            let fits : want ≤ b.size = ground arith in
            let (mem', t) = block-IsTaken mem a want b bs h even fits in
            fit a (taken b want ++ bs) mem'
              (rw (here, h.linked.0, e, find_fit, t.answer)
                (ap (λ p. some (p, mem')) (omega (arith, h.in_words))))
              t.linked t.untouched (allocates_here want a b bs even h.aligned e)
      ]
