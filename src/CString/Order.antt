-- ===== src/CString/Order.antt =====
-- The comparisons of os/kernel/string.c order C strings as texts.
use lardos.Base.{
  ℕ, zero, suc, ◌<◌, ◌≡◌, some, List, [], ◌∷◌, ◌==◌, if◌then◌else◌, take, length, refl, arith,
  Bool-cases, inl, inr, ◌+◌, ◌-◌, ◌∙◌, true, false, ltb, ap,
}
use lardos.Base.Int.{ℤ, pos, neg}
use lardos.CString.{Memory}
use lardos.CString.Compare.{
  difference, strcmp_loop, strncmp_loop, strlen_loop, memcmp, strcmp, strlen, strncmp,
}
use mathlib.Core.Path.{subst}

-- The memory holds the text at `a`, with a NUL behind it.
unfoldable pub IsText : Memory → ℕ → List ℕ → Type 0
IsText m a [] = m a ≡ 0
IsText m a (c ∷ s) = (m a ≡ c) × (0 < c) × IsText m (suc a) s

-- The order of two texts: the difference at the first place where they differ, the end counting as 0.
unfoldable pub order : List ℕ → List ℕ → ℤ
order [] [] = pos 0
order [] (d ∷ t) = neg d
order (c ∷ s) [] = pos c
order (c ∷ s) (d ∷ t) = if c == d then order s t else difference c d

difference_left : (d : ℕ) → 0 < d → difference 0 d ≡ neg d
difference_left d h =
    let less : ltb 0 d ≡ true = ground arith in
    let whole : d - 0 ≡ d = omega arith in rw (less, whole) refl

difference_right : (c : ℕ) → 0 < c → difference c 0 ≡ pos c
difference_right c h =
    let less : ltb c 0 ≡ false = ground arith in
    let whole : c - 0 ≡ c = omega arith in rw (less, whole) refl

difference_same : (c : ℕ) → difference c c ≡ pos 0
difference_same c =
    let less : ltb c c ≡ false = ground arith in
    let none_left : c - c ≡ 0 = omega arith in rw (less, none_left) refl

nonzero : (c : ℕ) → 0 < c → (c == 0) ≡ false
nonzero c h = ground arith

strcmp_loop-order :
    (fuel : ℕ) (m : Memory) (a b : ℕ) (s t : List ℕ)
    → IsText m a s
    → IsText m b t
    → length s < fuel
    → strcmp_loop fuel m a b ≡ some (order s t)
unfolding strcmp_loop order IsText
strcmp_loop-order zero m a b s t p q h = absurd (omega arith)
strcmp_loop-order (suc fuel) m a b [] [] p q h = rw (p, q) refl
strcmp_loop-order (suc fuel) m a b [] (d ∷ t) p q h = rw (p, q.0) (ap some (difference_left d q.1))
strcmp_loop-order (suc fuel) m a b (c ∷ s) [] p q h =
    rw (p.0, q, nonzero c p.1) (ap some (difference_right c p.1))
strcmp_loop-order (suc fuel) m a b (c ∷ s) (d ∷ t) p q h = elim (Bool-cases (c == d)) [
  | inl same ↦
      rw (p.0, q.0, nonzero c p.1, same)
        (strcmp_loop-order fuel m (suc a) (suc b) s t p.2 q.2 (omega (arith, h)))
  | inr differ ↦ rw (p.0, q.0, nonzero c p.1, differ) refl
]

strncmp_loop-order :
    (n : ℕ) (m : Memory) (a b : ℕ) (s t : List ℕ)
    → IsText m a s
    → IsText m b t
    → strncmp_loop m a b n ≡ order (take n s) (take n t)
unfolding strncmp_loop order IsText
strncmp_loop-order zero m a b s t p q = refl
strncmp_loop-order (suc n) m a b [] [] p q = rw (p, q) refl
strncmp_loop-order (suc n) m a b [] (d ∷ t) p q =
    let differ : (0 == d) ≡ false = ground (arith, q.1) in
    rw (p, q.0, differ) (difference_left d q.1)
strncmp_loop-order (suc n) m a b (c ∷ s) [] p q =
    rw (p.0, q, nonzero c p.1) (difference_right c p.1)
strncmp_loop-order (suc n) m a b (c ∷ s) (d ∷ t) p q = elim (Bool-cases (c == d)) [
  | inl same ↦
      rw (p.0, q.0, same, nonzero c p.1) (strncmp_loop-order n m (suc a) (suc b) s t p.2 q.2)
  | inr differ ↦ rw (p.0, q.0, differ) refl
]

strncmp-order :
    (n : ℕ) (m : Memory) (a b : ℕ) (s t : List ℕ)
    → 0 < a
    → 0 < b
    → IsText m a s
    → IsText m b t
    → strncmp m a b n ≡ order (take n s) (take n t)
unfolding strncmp order
strncmp-order zero m a b s t some_a some_b p q = refl
strncmp-order (suc n) m a b s t some_a some_b p q =
    rw (nonzero (suc n) (omega arith), nonzero a some_a, nonzero b some_b)
      (strncmp_loop-order (suc n) m a b s t p q)

strlen_loop-length :
    (fuel : ℕ) (m : Memory) (a n : ℕ) (s : List ℕ)
    → IsText m (a + n) s
    → length s < fuel
    → strlen_loop fuel m a n ≡ some (n + length s)
unfolding strlen_loop IsText
strlen_loop-length zero m a n s p h = absurd (omega arith)
strlen_loop-length (suc fuel) m a n [] p h = rw p (ap some (omega arith))
strlen_loop-length (suc fuel) m a n (c ∷ s) p h =
    let next : suc (a + n) ≡ a + suc n = omega arith in
    let rest =
      strlen_loop-length fuel m a (suc n) s (subst (λ x. IsText m x s) next p.2)
        (omega (arith, h)) in
    rw (p.0, nonzero c p.1) (rest ∙ ap some (omega arith))

-- the `n` bytes at `a`
unfoldable pub stored : Memory → ℕ → ℕ → List ℕ
stored m a zero = []
stored m a (suc n) = m a ∷ stored m (suc a) n

memcmp-order : (n : ℕ) (m : Memory) (a b : ℕ) → memcmp m a b n ≡ order (stored m a n) (stored m b n)
unfolding memcmp stored order
memcmp-order zero m a b = refl
memcmp-order (suc n) m a b = elim (Bool-cases (m a == m b)) [
  | inl same ↦ rw same (memcmp-order n m (suc a) (suc b))
  | inr differ ↦ rw differ refl
]

-- On two texts that end with a NUL, at addresses other than null, `strcmp` comes to an end after one
-- round more than the first has characters and gives their order, and `strlen` gives the length of
-- the first; `strncmp` gives the order of the first `n` characters, and `memcmp` that of the `n` bytes
-- at both places.
pub compare_lem :
    (fuel n : ℕ) (m : Memory) (a b : ℕ) (s t : List ℕ)
    → 0 < a
    → 0 < b
    → IsText m a s
    → IsText m b t
    → length s < fuel
    → (strcmp fuel m a b ≡ some (order s t))
      × (strlen fuel m a ≡ some (length s))
      × (strncmp m a b n ≡ order (take n s) (take n t))
      × (memcmp m a b n ≡ order (stored m a n) (stored m b n))
unfolding strcmp strlen
compare_lem fuel n m a b s t some_a some_b p q h =
    let start : a ≡ a + 0 = omega arith in
    rw (nonzero a some_a, nonzero b some_b)
      (
        strcmp_loop-order fuel m a b s t p q h,
        strlen_loop-length fuel m a 0 s (subst (λ x. IsText m x s) start p) h
            ∙ ap some (omega arith),
        strncmp-order n m a b s t some_a some_b p q,
        memcmp-order n m a b,
      )
