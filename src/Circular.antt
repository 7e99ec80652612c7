-- ===== src/Circular.antt =====
-- The queue held by a circular array: the `n` elements from index `h` on, going round at `cap`.
-- It is the abstract view that os/kernel/ringbuf.c and os/kernel/lipc.c share.
use lardos.Base.{
  ℕ, zero, suc, ◌+◌, ◌-◌, ◌%◌, ◌≤◌, ◌<◌, ◌≡◌, ◌≢◌, ◌⊎◌, inl, inr, refl, sym, ap, ap₂, ◌∙◌, List, [],
  ◌∷◌, ◌++◌, arith, length, drop, get_or, set, get_or-set_self, get_or-set_ne,
}
use native.Mathlib.Nat.{mod-add-mod, mod-eq_of_lt, mod-eq-sub-mod, add-zero}
use native.Mathlib.Decide.{dec_lt}

-- One step round the ring.
pub next_cases :
    (h cap : ℕ)
    → h < cap
    → ((h + 1 < cap) × ((h + 1) % cap ≡ h + 1)) ⊎ ((h + 1 ≡ cap) × ((h + 1) % cap ≡ 0))
next_cases h cap p = elim (dec_lt (h + 1) cap) [
  | yes q ↦ inl (q, mod-eq_of_lt q)
  | no q ↦ inr (omega arith, grind arith)
]

-- Two summands below `cap` go round at most once.
pub add-mod_cases :
    (a b cap : ℕ)
    → a < cap
    → b < cap
    → ((a + b < cap) × ((a + b) % cap ≡ a + b)) ⊎ ((cap ≤ a + b) × ((a + b) % cap ≡ a + b - cap))
add-mod_cases a b cap p q = elim (dec_lt (a + b) cap) [
  | yes r ↦ inl (r, mod-eq_of_lt r)
  | no r ↦ inr (
    omega arith,
    mod-eq-sub-mod {n = a + b} {m = cap} (omega arith)
        ∙ mod-eq_of_lt {n = a + b - cap} {m = cap} (omega arith),
  )
]

go_round : (h k cap : ℕ) → ((h + 1) % cap + k) % cap ≡ (h + suc k) % cap
go_round h k cap = rw mod-add-mod (ap (λ t. t % cap) (omega arith))

-- Fewer than `cap` steps round the ring do not come back to the start.
add-mod-ne : {cap h k : ℕ} → h < cap → suc k < cap → (h + suc k) % cap ≢ h
add-mod-ne {cap} {h} {k} hh hk = elim (add-mod_cases h (suc k) cap hh hk) [
  | inl c ↦ omega (arith, c)
  | inr c ↦ omega (arith, c)
]

module _ {ℓ} {A : Type ℓ} (d : A) (buf : List A) (cap : ℕ) where
  abbrev pub window : ℕ → ℕ → List A
  window h zero = []
  window h (suc n) = get_or buf h d ∷ window ((h + 1) % cap) n

  pub length-window : (h n : ℕ) → length (window h n) ≡ n
  length-window h zero = refl
  length-window h (suc n) = ap suc (length-window ((h + 1) % cap) n)

  pub drop-window :
      (k h n : ℕ) → h < cap → k ≤ n → drop k (window h n) ≡ window ((h + k) % cap) (n - k)
  drop-window zero h n hh le = rw (add-zero, mod-eq_of_lt hh) (ap (window h) (omega arith))
  drop-window (suc k) h zero hh le = absurd (omega arith)
  drop-window (suc k) h (suc n) hh le =
      drop-window k ((h + 1) % cap) n (omega arith) (omega arith)
      ∙ ap₂ window (go_round h k cap) (omega arith)

module _ {ℓ} {A : Type ℓ} (d : A) (cap : ℕ) where
  -- Writing just past a window extends it by that element.
  pub window-set :
      (buf : List A) (x : A) (n h i : ℕ)
      → cap ≤ length buf
      → h < cap
      → n < cap
      → i ≡ (h + n) % cap
      → window d (set buf i x) cap h (suc n) ≡ window d buf cap h n ++ (x ∷ [])
  window-set buf x zero h i hs hh hn e =
      rw (e, add-zero, mod-eq_of_lt hh, get_or-set_self buf h x d (omega arith))
  window-set buf x (suc n) h i hs hh hn e =
      ap₂ ◌∷◌ (get_or-set_ne buf i h x d (rw e (add-mod-ne hh hn))) (
        window-set buf x n ((h + 1) % cap) i hs (omega arith) (omega arith)
          (e ∙ sym (go_round h n cap)))
