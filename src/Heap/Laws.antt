-- ===== src/Heap/Laws.antt =====
-- What allocation and coalescing do to the list of blocks: the tiling stays, and so do the allocated
-- blocks.
use lardos.Base.{
  ℕ, ◌+◌, ◌%◌, ◌≤◌, ◌<◌, ◌≡◌, ◌≢◌, refl, true, none, some, List, [], ◌∷◌, ◌++◌, arith, ◌-◌, inl,
  inr, ◌∙◌, ◌||◌, false, Bool-cases, All, not, ltb, ap, tests, ◌==◌, if◌then◌else◌, ==-refl, sym,
}
use lardos.Heap.Blocks.{used_at, Block, behind, span, Aligned, taken, link}

-- No block stands below the first one.
pub used_below : (a y : ℕ) (bs : List Block) → y < a → used_at a bs y ≡ none
unfolding used_at
used_below a y [] lt = refl
used_below a y (b ∷ bs) lt = ground (arith, used_below (behind a b) y bs)

pub used_free :
    (a m y : ℕ) (bs : List Block)
    → used_at a (record { size = m; free = true } ∷ bs) y ≡ used_at (a + 12 + m) bs y
unfolding used_at
used_free a m y bs = ground (arith, used_below (a + 12 + m) y bs)

span-taken :
    (b : Block) (want : ℕ) (bs : List Block)
    → want ≤ b.size
    → span (taken b want ++ bs) ≡ 12 + b.size + span bs
span-taken b want bs le = ground arith

taken-Aligned :
    (b : Block) (want : ℕ) (bs : List Block)
    → b.size % 16 ≡ 4
    → want % 16 ≡ 0
    → want ≤ b.size
    → Aligned bs
    → Aligned (taken b want ++ bs)
taken-Aligned b want bs hb hw le al = ground arith

pub used_skip :
    (a y : ℕ) (b : Block) (bs : List Block)
    → a ≢ y
    → used_at a (b ∷ bs) y ≡ used_at (behind a b) bs y
unfolding used_at
used_skip a y b bs ne = ground arith

taken_used :
    (a y : ℕ) (b : Block) (want : ℕ) (bs : List Block)
    → want ≤ b.size
    → a ≢ y
    → used_at a (taken b want ++ bs) y ≡ used_at (behind a b) bs y
taken_used a y b want bs le ne = elim (Bool-cases (ltb b.size (want + 28))) [
  | inl e ↦ rw e (used_skip a y (record { size = b.size; free = false }) bs ne)
  | inr e ↦ rw e (
      used_skip a y (record { size = want + 4; free = false })
        (record { size = b.size - want - 16; free = true } ∷ bs) ne
      ∙ used_free (a + 12 + (want + 4)) (b.size - want - 16) y bs
      ∙ ap (λ c. used_at c bs y) (omega (tests, e)))
]

-- What an allocation of `want` bytes does to the blocks: `x` is the place of the header.
pub record Allocated (want a : ℕ) (bs bs' : List Block) (x : ℕ) : Type 0 where
  pub same_span : span bs' ≡ span bs
  pub aligned : Aligned bs'
  pub same_link : link a bs' ≡ link a bs
  pub above : a ≤ x
  pub inside : x + 12 ≤ a + span bs
  pub size : ℕ
  pub large : want ≤ size
  pub taken_here : used_at a bs' x ≡ some size
  pub was_free : used_at a bs x ≡ none
  pub others : (y : ℕ) → x ≢ y → used_at a bs' y ≡ used_at a bs y

-- No free block is large enough.
abbrev pub NoFit : ℕ → List Block → Type 0
NoFit want bs = All (λ (b : Block). (not b.free || ltb b.size want) ≡ true) bs

fitting :
    (b : Block) (want : ℕ)
    → (not b.free || ltb b.size want) ≡ false
    → (b.free ≡ true) × (want ≤ b.size)
fitting b want h = ground arith

pub free_here : (a : ℕ) (b : Block) (bs : List Block) → b.free ≡ true → used_at a (b ∷ bs) a ≡ none
unfolding used_at
free_here a b bs e = rw (==-refl a, e) refl

abbrev taken_size : Block → ℕ → ℕ
taken_size b want = if ltb b.size (want + 28) then b.size else want + 4

taken_large : (b : Block) (want : ℕ) → want ≤ b.size → want ≤ taken_size b want
taken_large b want le = ground arith

link-taken : (a : ℕ) (b : Block) (want : ℕ) (bs : List Block) → link a (taken b want ++ bs) ≡ a
link-taken a b want bs = elim (Bool-cases (ltb b.size (want + 28))) [
  | inl e ↦ rw e refl
  | inr e ↦ rw e refl
]

taken_used_here :
    (a : ℕ) (b : Block) (want : ℕ) (bs : List Block)
    → used_at a (taken b want ++ bs) a ≡ some (taken_size b want)
unfolding used_at
taken_used_here a b want bs = elim (Bool-cases (ltb b.size (want + 28))) [
  | inl e ↦ rw (e, ==-refl a) refl
  | inr e ↦ rw (e, ==-refl a) refl
]

pub used_cong :
    (a y : ℕ) (b : Block) (bs bs' : List Block)
    → used_at (behind a b) bs' y ≡ used_at (behind a b) bs y
    → used_at a (b ∷ bs') y ≡ used_at a (b ∷ bs) y
unfolding used_at
used_cong a y b bs bs' e = ap (λ o. if a == y then (if b.free then none else some b.size) else o) e

pub allocates_here :
    (want a : ℕ) (b : Block) (bs : List Block)
    → want % 16 ≡ 0
    → Aligned (b ∷ bs)
    → (not b.free || ltb b.size want) ≡ false
    → Allocated want a (b ∷ bs) (taken b want ++ bs) a
allocates_here want a b bs even al fits =
    let n = fitting b want fits in
    record {
      same_span = span-taken b want bs n.1;
      aligned = taken-Aligned b want bs al.0 even n.1 al.1;
      same_link = link-taken a b want bs;
      above = omega arith;
      inside = omega arith;
      size = taken_size b want;
      large = taken_large b want n.1;
      taken_here = taken_used_here a b want bs;
      was_free = free_here a b bs n.0;
      others = λ y ne. taken_used a y b want bs n.1 ne ∙ sym (used_skip a y b bs ne);
    }

pub allocates_later :
    (want a x : ℕ) (b : Block) (bs bs' : List Block)
    → Aligned (b ∷ bs)
    → Allocated want (behind a b) bs bs' x
    → Allocated want a (b ∷ bs) (b ∷ bs') x
allocates_later want a x b bs bs' al r =
    let ne : a ≢ x = omega (arith, r.above) in
    record {
      same_span = omega (arith, r.same_span);
      aligned = (al.0, r.aligned);
      same_link = refl;
      above = omega (arith, r.above);
      inside = omega (arith, r.inside);
      size = r.size;
      large = r.large;
      taken_here = used_skip a x b bs' ne ∙ r.taken_here;
      was_free = used_skip a x b bs ne ∙ r.was_free;
      others = λ y other. used_cong a y b bs bs' (r.others y other);
    }
