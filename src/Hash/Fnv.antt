-- ===== src/Hash/Fnv.antt =====
-- The FNV-1a half of os/kernel/hash.c: the shifts are the product by the prime, and the two
-- functions agree on C strings.
use lardos.Base.{
  ℕ, ◌*◌, ◌≡◌, ◌≢◌, refl, some, List, [], ◌∷◌, ◌++◌, arith, All, bit_xor, inl, inr, ◌==◌,
  Bool-cases, ==→eq,
}
use lardos.Hash.{spread, fnv_loop, hash_fnv1a_str, hash_fnv1a, fnv_str_loop, fnv_basis}
use lardos.Base.Words.{u32}

pub spread-eq : (h : ℕ) → spread h ≡ u32 (h * 16777619)
spread-eq h = omega arith

str_loop_lem :
    (h : ℕ) (s rest : List ℕ)
    → All (λ c. c ≢ 0) s
    → fnv_str_loop h (s ++ (0 ∷ rest)) ≡ some (fnv_loop h s)
unfolding fnv_loop fnv_str_loop
str_loop_lem h [] rest ok = refl
str_loop_lem h (c ∷ s) rest ok = elim (Bool-cases (c == 0)) [
  | inl e ↦ absurd (ok.0 (==→eq c 0 e))
  | inr e ↦ rw e (str_loop_lem (spread (bit_xor h c)) s rest ok.1)
]

-- On a string that ends with a NUL, whatever follows it, `hash_fnv1a_str` returns the
-- `hash_fnv1a` of the characters before the NUL, provided that none of them is a NUL.
pub str_lem :
    (s rest : List ℕ) → All (λ c. c ≢ 0) s → hash_fnv1a_str (s ++ (0 ∷ rest)) ≡ some (hash_fnv1a s)
unfolding hash_fnv1a_str hash_fnv1a
str_lem s rest ok = str_loop_lem fnv_basis s rest ok
