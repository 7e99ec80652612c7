-- ===== src/Gc/Collect.antt =====
-- The marking phase of os/kernel/gc.c gives a mark to exactly the blocks that can be reached from the
-- roots.
use lardos.Gc.{Memory, Block, is_marked, find_block}
use lardos.Gc.Pure.{mark, mark_root, mark_roots, mark_phase}
use lardos.Gc.Marks.{unmarked-le, unmarked_replicate}
use lardos.Gc.Trace.{
  Edge, Marked, Marked-refl, mark_lem, find_block-inside, same_place, Marked-trans,
}
use mathlib.Core.List.{Memᴰ}
use mathlib.Core.List.Memᴰ
use mathlib.Core.Path.{subst}
use lardos.Base.{
  ℕ, suc, ◌≡◌, inl, inr, ◌||◌, Bool, true, false, some, List, [], ◌∷◌, arith, ◌==◌, length,
  Bool-cases, Option-cases, refl, ◌∙◌, replicate, length-replicate,
}

module _ (mem : Memory) (lo hi : ℕ) (head : List Block) where
  -- a root whose variable points into block `j`
  pub record RootOf (roots : List ℕ) (j : ℕ) : Type 0 where
    pub root : ℕ
    pub listed : Memᴰ root roots
    pub set_up : (root == 0 || mem root == 0) ≡ false
    pub target : find_block head (mem root) ≡ some j

  -- the blocks that can be reached from the roots
  pub data Reach (roots : List ℕ) : ℕ → Type 0 where
    from_root : {j : ℕ} → RootOf roots j → Reach roots j
    step : {i j : ℕ} → Reach roots i → Edge mem lo hi head i j → Reach roots j

  module _ (Good : ℕ → Type 0)
      (follows : (i j : ℕ) → Good i → Edge mem lo hi head i j → Good j) where
    mark_root_lem :
        (r : ℕ) (m : List Bool)
        → length m ≡ length head
        → ((j : ℕ) → (r == 0 || mem r == 0) ≡ false → find_block head (mem r) ≡ some j → Good j)
        → Marked mem lo hi head Good m (mark_root mem lo hi head r m)
          × ((j : ℕ)
              → (r == 0 || mem r == 0) ≡ false
              → find_block head (mem r) ≡ some j
              → is_marked (mark_root mem lo hi head r m) j ≡ true)
    unfolding mark_root
    mark_root_lem r m sized good = elim (Bool-cases (r == 0 || mem r == 0)) [
      | inl e ↦ rw e (Marked-refl mem lo hi head Good m, λ j f g. cc)
      | inr e ↦ elim (Option-cases (find_block head (mem r))) [
        | inl f ↦ rw (e, f) (Marked-refl mem lo hi head Good m, λ j g h. cc)
        | inr (j, f) ↦
            let done =
              mark_lem mem lo hi head Good follows (suc (length head)) j m
                (find_block-inside head (mem r) j f) sized (omega (arith, unmarked-le m))
                (good j e f) in
            rw (e, f)
              (
                done.0,
                λ j' g h.
                    subst (λ t. is_marked (mark mem lo hi head (suc (length head)) j m) t ≡ true)
                      (same_place j j' h) done.1,
              )
      ]
    ]

    mark_roots_lem :
        (rs : List ℕ) (m : List Bool)
        → length m ≡ length head
        → ((j : ℕ) → RootOf rs j → Good j)
        → Marked mem lo hi head Good m (mark_roots mem lo hi head rs m)
          × ((j : ℕ) → RootOf rs j → is_marked (mark_roots mem lo hi head rs m) j ≡ true)
    unfolding mark_roots
    mark_roots_lem [] m sized good =
        (Marked-refl mem lo hi head Good m, λ j root. absurd (Memᴰ.not-nil root.listed))
    mark_roots_lem (r ∷ rs) m sized good =
        let m1 = mark_root mem lo hi head r m in
        let one =
          mark_root_lem r m sized λ j f g.
            good j (record { root = r; listed = Memᴰ.head refl; set_up = f; target = g }) in
        let rest = mark_roots_lem rs m1 (one.0.same_length ∙ sized) λ j root. good j (record {
          root = root.root;
          listed = Memᴰ.tail root.listed;
          set_up = root.set_up;
          target = root.target;
        }) in
        (
          Marked-trans mem lo hi head Good m m1 _ one.0 rest.0,
          λ j root. elim (Memᴰ.cases_cons root.listed) [
            | inr later ↦ rest.1 j (record {
              root = root.root;
              listed = later;
              set_up = root.set_up;
              target = root.target;
            })
            | inl first ↦ rest.0.kept j (
                one.1 j (subst (λ t. (t == 0 || mem t == 0) ≡ false) first root.set_up)
                  (subst (λ t. find_block head (mem t) ≡ some j) first root.target))
          ],
        )

  -- By induction on how a block is reached.
  every_reached :
      (roots : List ℕ) {m : List Bool}
      → Marked mem lo hi head (Reach roots) (replicate (length head) false) m
      → ((j : ℕ) → RootOf roots j → is_marked m j ≡ true)
      → (j : ℕ) → Reach roots j
      → is_marked m j ≡ true
  every_reached roots run seen j (Reach.from_root root) = seen j root
  every_reached roots run seen j (Reach.step {i} before edge) =
      run.closed i (unmarked_replicate (length head) i) (every_reached roots run seen i before) j
        edge

  -- The flags after the marking are those of the blocks that can be reached.
  pub mark_phase_lem :
      (roots : List ℕ)
      → ((j : ℕ) → Reach roots j → is_marked (mark_phase mem lo hi head roots) j ≡ true)
        × ((j : ℕ) → is_marked (mark_phase mem lo hi head roots) j ≡ true → Reach roots j)
        × (length (mark_phase mem lo hi head roots) ≡ length head)
  unfolding mark_phase
  mark_phase_lem roots =
      let none_set = replicate (length head) false in
      let run =
        mark_roots_lem (Reach roots) (λ i j reached edge. Reach.step reached edge) roots none_set
          (length-replicate (length head) false) (λ j root. Reach.from_root root) in
      (
        every_reached roots run.0 run.1,
        λ j e. elim (run.0.sound j e) [
          | inr reached ↦ reached
          | inl before ↦ cc (unmarked_replicate (length head) j)
        ],
        run.0.same_length ∙ length-replicate (length head) false,
      )
