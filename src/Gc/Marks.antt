-- ===== src/Gc/Marks.antt =====
-- The flags of the blocks in os/kernel/gc.c: how many are missing, and how a mark changes them.
use lardos.Gc.{is_marked}
use lardos.Base.{
  ℕ, zero, suc, ◌≤◌, ◌<◌, ◌≡◌, ◌⊎◌, inl, inr, refl, ◌∙◌, Bool, true, false, List, [], ◌∷◌, arith,
  ◌==◌, length, replicate, set, get_or-set_self, Bool-cases, ap, sym, ==→eq, get_or-set_ne, ==→ne,
}
use mathlib.Core.Path.{subst}

abbrev pub unmarked : List Bool → ℕ
unmarked [] = 0
unmarked (true ∷ marks) = unmarked marks
unmarked (false ∷ marks) = suc (unmarked marks)

-- a new mark at a place of the list
module _ (marks : List Bool) (i : ℕ) (inside : i < length marks) where
  pub is_marked-set_self : is_marked (set marks i true) i ≡ true
  is_marked-set_self = get_or-set_self marks i true false inside

  pub is_marked-set :
      (j : ℕ) → is_marked (set marks i true) j ≡ true → (j ≡ i) ⊎ (is_marked marks j ≡ true)
  is_marked-set j e = elim (Bool-cases (i == j)) [
    | inl same ↦ inl (sym (==→eq i j same))
    | inr other ↦ inr (sym (get_or-set_ne marks i j true false (==→ne i j other)) ∙ e)
  ]

  pub is_marked-set_kept :
      (j : ℕ) → is_marked marks j ≡ true → is_marked (set marks i true) j ≡ true
  is_marked-set_kept j e = elim (Bool-cases (i == j)) [
    | inl same ↦
        subst (λ k. is_marked (set marks i true) k ≡ true) (==→eq i j same) is_marked-set_self
    | inr other ↦ get_or-set_ne marks i j true false (==→ne i j other) ∙ e
  ]

pub unmarked-set :
    (marks : List Bool) (i : ℕ)
    → i < length marks
    → is_marked marks i ≡ false
    → suc (unmarked (set marks i true)) ≡ unmarked marks
unmarked-set [] i inside e = absurd (omega arith)
unmarked-set (true ∷ marks) zero inside e = cc
unmarked-set (false ∷ marks) zero inside e = refl
unmarked-set (true ∷ marks) (suc i) inside e = unmarked-set marks i (omega arith) e
unmarked-set (false ∷ marks) (suc i) inside e = ap suc (unmarked-set marks i (omega arith) e)

pub unmarked-le : (marks : List Bool) → unmarked marks ≤ length marks
unmarked-le [] = omega arith
unmarked-le (true ∷ marks) = omega (arith, unmarked-le marks)
unmarked-le (false ∷ marks) = omega (arith, unmarked-le marks)

pub unmarked_replicate : (n i : ℕ) → is_marked (replicate n false) i ≡ false
unmarked_replicate zero i = refl
unmarked_replicate (suc n) zero = refl
unmarked_replicate (suc n) (suc i) = unmarked_replicate n i
