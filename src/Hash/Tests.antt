-- ===== src/Hash/Tests.antt =====
-- Runs of os/kernel/hash.c, and its theorems at concrete data.
use lardos.Base.{ℕ, ◌≡◌, refl, false, List, [], ◌∷◌, arith, ◌==◌}
use lardos.Hash.{hash_crc32, hash_fnv1a, crc32_entry, hash_crc32_continue, crc32_loop, fnv_loop}
use lardos.Hash.Crc.{ieee_entry, leading_zeros, table_lem}

-- "123456789", whose CRC-32-IEEE is 0xCBF43926
abbrev digits_text : List ℕ
digits_text = 49 ∷ 50 ∷ 51 ∷ 52 ∷ 53 ∷ 54 ∷ 55 ∷ 56 ∷ 57 ∷ []

crc_of_digits :
    (hash_crc32_continue 0 digits_text ≡ 0xCBF43926) × (hash_crc32 digits_text ≡ 0x2DFD2D88)
unfolding hash_crc32 hash_crc32_continue crc32_loop crc32_entry
crc_of_digits = (refl, refl)

fnv_of_a : hash_fnv1a (b'a' ∷ []) ≡ 0xE40C292C
unfolding hash_fnv1a fnv_loop
fnv_of_a = refl

table_lem_example : (crc32_entry 171 == ieee_entry 171) ≡ false
table_lem_example = table_lem 171 (omega arith)

leading_zeros_example : hash_crc32 (0 ∷ 0 ∷ 7 ∷ []) ≡ hash_crc32 (7 ∷ [])
leading_zeros_example = leading_zeros 2 (7 ∷ [])
