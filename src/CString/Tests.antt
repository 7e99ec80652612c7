-- ===== src/CString/Tests.antt =====
-- Runs of os/kernel/string.c, and its theorem at a concrete overlap.
use lardos.Base.{ℕ, ◌+◌, ◌≤◌, ◌<◌, ◌≡◌, ◌⊎◌, refl, arith, ◌*◌, some, [], ◌∷◌}
use lardos.CString.{Memory, memmove, memset}
use lardos.Base.{get_or, some, [], ◌∷◌}
use lardos.Base.Int.{negsuc, pos}
use lardos.CString.Compare.{strcmp, strncmp, strcmp_loop, strlen, memcmp}
use lardos.CString.Order.{IsText, order, stored, compare_lem}
use lardos.CString.Moved.{memmove_moves}

abbrev squares : Memory
squares x = x * x

overlapping : memmove squares 12 10 4 15 ≡ 169
unfolding memmove
overlapping = refl

filled : memset squares 5 300 3 7 ≡ 44
filled = refl

memmove_moves_example :
    ((j : ℕ) → j < 4 → memmove squares 12 10 4 (12 + j) ≡ squares (10 + j))
    × ((x : ℕ) → (x < 12) ⊎ (12 + 4 ≤ x) → memmove squares 12 10 4 x ≡ squares x)
memmove_moves_example = memmove_moves squares 12 10 4 (omega arith)

-- the texts "ab" at 1 and "ad" at 4
abbrev two_texts : Memory
two_texts x = get_or (7 ∷ b'a' ∷ b'b' ∷ 0 ∷ b'a' ∷ b'd' ∷ 0 ∷ []) x 7

compared : (strcmp 9 two_texts 1 4 ≡ some (negsuc 1)) × (strncmp two_texts 4 0 3 ≡ pos 1)
unfolding strcmp strcmp_loop strncmp
compared = (refl, refl)

first_text : IsText two_texts 1 (b'a' ∷ b'b' ∷ [])
unfolding IsText
first_text = (refl, omega arith, (refl, omega arith, refl))

second_text : IsText two_texts 4 (b'a' ∷ b'd' ∷ [])
unfolding IsText
second_text = (refl, omega arith, (refl, omega arith, refl))

compare_lem_example :
    (strcmp 3 two_texts 1 4 ≡ some (order (b'a' ∷ b'b' ∷ []) (b'a' ∷ b'd' ∷ [])))
    × (strlen 3 two_texts 1 ≡ some 2)
    × (strncmp two_texts 1 4 1 ≡ order (b'a' ∷ []) (b'a' ∷ []))
    × (memcmp two_texts 1 4 1 ≡ order (stored two_texts 1 1) (stored two_texts 4 1))
compare_lem_example =
    compare_lem 3 1 two_texts 1 4 (b'a' ∷ b'b' ∷ []) (b'a' ∷ b'd' ∷ []) (omega arith) (omega arith)
      first_text second_text (omega arith)
