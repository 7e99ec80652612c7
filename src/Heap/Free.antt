-- ===== src/Heap/Free.antt =====
-- `kfree` of os/kernel/mem.c: the block is released, and one pass merges free neighbours.
use lardos.Base.{
  ℕ, zero, suc, ◌+◌, ◌<◌, ◌≡◌, inl, inr, refl, ◌&&◌, true, some, List, [], ◌∷◌, arith, Bool-cases,
  length, &&-left, &&-right, ◌∙◌, false, ◌==◌, ap, sym, ◌^◌, ==-refl,
}
use lardos.Heap.Blocks.{
  Block, merge_pass, span, used_at, Aligned, link, behind, Linked, Linked-above,
}
use lardos.Heap.{Memory, coalesce_loop, read_header, write_header, header_sz, Header}
use lardos.Heap.Alloc.{IsHeap, tail-IsHeap, hdr, read_here, read_elsewhere}
use lardos.Heap.Laws.{used_cong, used_free}
use lardos.Base.Words.{u32}
use mathlib.Core.Path.{subst}

-- What freeing and merging keep: the extent, the alignment, and the other allocated blocks.
pub record Keeps (a : ℕ) (bs bs' : List Block) : Type 0 where
  pub same_span : span bs' ≡ span bs
  pub aligned : Aligned bs'
  pub same_link : link a bs' ≡ link a bs
  pub used : (y : ℕ) → used_at a bs' y ≡ used_at a bs y

merge_last : (b : Block) → merge_pass (b ∷ []) ≡ b ∷ []
unfolding merge_pass
merge_last b = refl

used_past :
    (a y : ℕ) (b : Block) (bs : List Block)
    → b.free ≡ true
    → used_at a (b ∷ bs) y ≡ used_at (behind a b) bs y
used_past a y b bs e =
    ap (λ f. used_at a (record { size = b.size; free = f } ∷ bs) y) e ∙ used_free a b.size y bs

merged_used :
    (a y : ℕ) (b c : Block) (bs bs' : List Block)
    → b.free ≡ true
    → c.free ≡ true
    → used_at (behind (behind a b) c) bs' y ≡ used_at (behind (behind a b) c) bs y
    → used_at a (record { size = b.size + 12 + c.size; free = true } ∷ bs') y
      ≡ used_at a (b ∷ c ∷ bs) y
merged_used a y b c bs bs' fb fc e =
    used_free a (b.size + 12 + c.size) y bs'
    ∙ ap (λ x. used_at x bs' y) (omega arith)
    ∙ e
    ∙ sym (used_past (behind a b) y c bs fc)
    ∙ sym (used_past a y b (c ∷ bs) fb)

pub merge-Keeps : (a : ℕ) (bs : List Block) → Aligned bs → Keeps a bs (merge_pass bs)
unfolding merge_pass
merge-Keeps a [] al = record { same_span = refl; aligned = al; same_link = refl; used = λ y. refl }
merge-Keeps a (b ∷ []) al = record {
  same_span = refl;
  aligned = al;
  same_link = refl;
  used = λ y. refl;
}
merge-Keeps a (b ∷ c ∷ bs) al = elim (Bool-cases (b.free && c.free)) [
  | inl e ↦
      let r = merge-Keeps (behind (behind a b) c) bs al.1.1 in
      rw (e, merge_pass)
        record {
          same_span = omega (arith, r.same_span);
          aligned = (omega (arith, al.0, al.1.0), r.aligned);
          same_link = refl;
          used = λ y.
              merged_used a y b c bs (merge_pass bs) (&&-left _ _ e) (&&-right _ _ e) (r.used y);
        }
  | inr e ↦
      let r = merge-Keeps (behind a b) (c ∷ bs) al.1 in
      rw (e, merge_pass)
        record {
          same_span = omega (arith, r.same_span);
          aligned = (al.0, r.aligned);
          same_link = refl;
          used = λ y. used_cong a y b (c ∷ bs) (merge_pass (c ∷ bs)) (r.used y);
        }
]

-- What a walk of `coalesce` leaves.
pub record IsMerged (mem mem' : Memory) (fuel a : ℕ) (bs : List Block) : Type 0 where
  pub walked : coalesce_loop fuel mem (link a bs) ≡ some mem'
  pub linked : Linked mem' a (merge_pass bs)
  pub untouched : (y : ℕ) → y < a → read_header mem' y ≡ read_header mem y

coalesce_end : (fuel : ℕ) (mem : Memory) → 0 < fuel → coalesce_loop fuel mem 0 ≡ some mem
unfolding coalesce_loop
coalesce_end zero mem h = absurd (omega arith)
coalesce_end (suc fuel) mem h = refl

not_null : (a : ℕ) → 0 < a → (a == 0) ≡ false
not_null a h = ground arith

end_of_block :
    (a : ℕ) (b c : Block) (bs : List Block)
    → a + span (b ∷ c ∷ bs) < 2 ^ 32
    → u32 (u32 (a + header_sz) + b.size) ≡ behind a b
end_of_block a b c bs h = omega arith

-- The step of the walk at a block that is followed by another.
coalesce_step :
    (fuel : ℕ) (mem : Memory) (a : ℕ) (b c : Block) (bs : List Block)
    → IsHeap mem a (b ∷ c ∷ bs)
    → coalesce_loop (suc fuel) mem a ≡ elim (b.free && c.free) [
      | true ↦
          coalesce_loop fuel
            (write_header mem a (hdr (b.size + 12 + c.size) (link (behind (behind a b) c) bs) true))
            (link (behind (behind a b) c) bs)
      | false ↦ coalesce_loop fuel mem (behind a b)
    ]
unfolding coalesce_loop
coalesce_step fuel mem a b c bs h =
    let here = not_null a h.begins.0 in
    let there = not_null (behind a b) (omega arith) in
    let meets : (u32 (u32 (a + header_sz) + b.size) == behind a b) ≡ true =
      rw (end_of_block a b c bs h.in_words) (==-refl (behind a b)) in
    let total : u32 (b.size + u32 (header_sz + c.size)) ≡ b.size + 12 + c.size =
      omega (arith, h.in_words) in
    elim (Bool-cases b.free) [
      | inr fb ↦ rw (here, h.linked.0, coalesce_loop, fb) refl
      | inl fb ↦ elim (Bool-cases c.free) [
        | inr fc ↦ rw (here, h.linked.0, coalesce_loop, fb, there, h.linked.1.0, fc) refl
        | inl fc ↦
            rw (here, h.linked.0, coalesce_loop, fb, there, h.linked.1.0, fc, meets, total, fb) refl
      ]
    ]

coalesce_alone :
    (fuel : ℕ) (mem : Memory) (a : ℕ) (b : Block)
    → IsHeap mem a (b ∷ [])
    → 0 < fuel
    → coalesce_loop (suc fuel) mem a ≡ some mem
unfolding coalesce_loop
coalesce_alone fuel mem a b h lt =
    let here = not_null a h.begins.0 in
    elim (Bool-cases b.free) [
      | inr fb ↦ rw (here, h.linked.0, coalesce_loop, fb) (coalesce_end fuel mem lt)
      | inl fb ↦ rw (here, h.linked.0, coalesce_loop, fb) (coalesce_end fuel mem lt)
    ]

-- The heap in which the first two blocks have become one.
merged-IsHeap :
    (mem : Memory) (a : ℕ) (b c : Block) (bs : List Block) (x : Header)
    → IsHeap mem a (b ∷ c ∷ bs)
    → IsHeap (write_header mem a x) (behind (behind a b) c) bs
merged-IsHeap mem a b c bs x h =
    let t = tail-IsHeap (tail-IsHeap h) in
    record {
      linked = Linked-above mem a x (behind (behind a b) c) bs (omega arith) t.linked;
      aligned = t.aligned;
      begins = t.begins;
      in_words = t.in_words;
    }

-- Over headers that are those of a list of blocks, aligned and within 32-bit addresses, and with more
-- fuel than there are blocks, the walk of `coalesce` ends. It leaves the headers of the list after one
-- merging pass, and the headers below the first block as they were.
pub coalesce_lem :
    (fuel : ℕ) (mem : Memory) (a : ℕ) (bs : List Block)
    → IsHeap mem a bs
    → length bs < fuel
    → (mem' : Memory) × IsMerged mem mem' fuel a bs
unfolding merge_pass
coalesce_lem zero mem a bs h lt = absurd (omega arith)
coalesce_lem (suc fuel) mem a [] h lt = (
  mem,
  record {
    walked = coalesce_end (suc fuel) mem (omega arith);
    linked = tt;
    untouched = λ y lt. refl;
  },
)
coalesce_lem (suc fuel) mem a (b ∷ []) h lt = (
  mem,
  record {
    walked = coalesce_alone fuel mem a b h (omega arith);
    linked = h.linked;
    untouched = λ y below. refl;
  },
)
coalesce_lem (suc fuel) mem a (b ∷ c ∷ bs) h lt = elim (Bool-cases (b.free && c.free)) [
  | inl e ↦
      let end = behind (behind a b) c in
      let joined : Header = hdr (b.size + 12 + c.size) (link end bs) true in
      let place : end ≡ a + 12 + (b.size + 12 + c.size) = omega arith in
      let (mem', r) =
        coalesce_lem fuel (write_header mem a joined) end bs (merged-IsHeap mem a b c bs joined h)
          (omega arith) in
      (
        mem',
        record {
          walked = coalesce_step fuel mem a b c bs h ∙ rw e r.walked;
          linked =
              rw (e, merge_pass)
                (
                  r.untouched a (omega arith)
                      ∙ read_here mem a joined
                      ∙ ap (λ n. some (hdr (b.size + 12 + c.size) n true))
                          (sym (merge-Keeps end bs h.aligned.1.1).same_link
                            ∙ ap (λ p. link p (merge_pass bs)) place),
                  subst (λ p. Linked mem' p (merge_pass bs)) place r.linked,
                );
          untouched =
              λ y below. r.untouched y (omega arith) ∙ read_elsewhere mem a y joined (omega arith);
        },
      )
  | inr e ↦
      let (mem', r) = coalesce_lem fuel mem (behind a b) (c ∷ bs) (tail-IsHeap h) (omega arith) in
      (
        mem',
        record {
          walked = coalesce_step fuel mem a b c bs h ∙ rw e r.walked;
          linked =
              rw (e, merge_pass)
                (
                  r.untouched a (omega arith)
                      ∙ h.linked.0
                      ∙ ap (λ n. some (hdr b.size n b.free))
                          (sym (merge-Keeps (behind a b) (c ∷ bs) h.aligned.1).same_link),
                  r.linked,
                );
          untouched = λ y below. r.untouched y (omega arith);
        },
      )
]
