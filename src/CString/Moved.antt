-- ===== src/CString/Moved.antt =====
-- What os/kernel/string.c's copies leave in memory.
use lardos.Base.{
  ℕ, zero, suc, ◌+◌, ◌%◌, ◌^◌, ◌≤◌, ◌<◌, ◌≡◌, ◌≢◌, ◌⊎◌, inl, inr, refl, arith, ◌∙◌, ◌||◌, ◌==◌,
}
use lardos.Base.{leb, ◌==◌, Bool-cases, ◌||◌}
use lardos.CString.{Memory, put, copy_up, copy_down, memmove}

put_self : (m : Memory) (a v : ℕ) → put m a v a ≡ v
put_self m a v = ground arith

put_other : (m : Memory) (a v x : ℕ) → x ≢ a → put m a v x ≡ m x
put_other m a v x h = ground arith

copy_up_outside :
    (m : Memory) (d s i k x : ℕ) → (x < d + i) ⊎ (d + i + k ≤ x) → copy_up m d s i k x ≡ m x
copy_up_outside m d s i zero x h = refl
copy_up_outside m d s i (suc k) x h =
    copy_up_outside (put m (d + i) (m (s + i))) d s (suc i) k x (omega arith)
    ∙ put_other m (d + i) (m (s + i)) x (omega arith)

copy_down_outside : (m : Memory) (d s i x : ℕ) → (x < d) ⊎ (d + i ≤ x) → copy_down m d s i x ≡ m x
copy_down_outside m d s zero x h = refl
copy_down_outside m d s (suc i) x h =
    copy_down_outside (put m (d + i) (m (s + i))) d s i x (omega arith)
    ∙ put_other m (d + i) (m (s + i)) x (omega arith)

copy_up_inside :
    (m : Memory) (d s i k j : ℕ)
    → i ≤ j
    → j < i + k
    → (d ≤ s) ⊎ (s + i + k ≤ d)
    → copy_up m d s i k (d + j) ≡ m (s + j)
copy_up_inside m d s i zero j l h apart = absurd (omega arith)
copy_up_inside m d s i (suc k) j l h apart = elim (Bool-cases (j == i)) [
  | inl e ↦
      let here : j ≡ i = ground (arith, e) in
      rw here (
        copy_up_outside (put m (d + i) (m (s + i))) d s (suc i) k (d + i) (omega arith)
        ∙ put_self m (d + i) (m (s + i)))
  | inr e ↦
      let away : j ≢ i = ground (arith, e) in
      copy_up_inside (put m (d + i) (m (s + i))) d s (suc i) k j (omega arith) (omega arith)
        (omega arith)
      ∙ put_other m (d + i) (m (s + i)) (s + j) (omega arith)
]

copy_down_inside :
    (m : Memory) (d s i j : ℕ) → j < i → s < d → copy_down m d s i (d + j) ≡ m (s + j)
copy_down_inside m d s zero j h above = absurd (omega arith)
copy_down_inside m d s (suc i) j h above = elim (Bool-cases (j == i)) [
  | inl e ↦
      let here : j ≡ i = ground (arith, e) in
      rw here (
        copy_down_outside (put m (d + i) (m (s + i))) d s i (d + i) (omega arith)
        ∙ put_self m (d + i) (m (s + i)))
  | inr e ↦
      let away : j ≢ i = ground (arith, e) in
      copy_down_inside (put m (d + i) (m (s + i))) d s i j (omega arith) above
      ∙ put_other m (d + i) (m (s + i)) (s + j) (omega arith)
]

-- When the source does not run past the end of the address space, memmove leaves at each place of the
-- destination the byte that stood at that place of the source before, also when the two overlap, and
-- every byte outside the destination as it was.
pub memmove_moves :
    (m : Memory) (d s n : ℕ)
    → s + n < 2 ^ 64
    → ((j : ℕ) → j < n → memmove m d s n (d + j) ≡ m (s + j))
      × ((x : ℕ) → (x < d) ⊎ (d + n ≤ x) → memmove m d s n x ≡ m x)
unfolding memmove
memmove_moves m d s n fits = elim (Bool-cases (leb d s || leb ((s + n) % 2 ^ 64) d)) [
  | inl e ↦
      let apart : (d ≤ s) ⊎ (s + 0 + n ≤ d) = ground (arith, e) in
      rw e (
        λ j h. copy_up_inside m d s 0 n j (omega arith) (omega arith) apart,
        λ x h. copy_up_outside m d s 0 n x (omega arith),
      )
  | inr e ↦
      let above : s < d = ground (arith, e) in
      rw e (λ j h. copy_down_inside m d s n j h above, λ x h. copy_down_outside m d s n x h)
]
