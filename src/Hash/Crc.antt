-- ===== src/Hash/Crc.antt =====
-- The CRC-32 half of os/kernel/hash.c: the table, and what the two functions compute.
use lardos.Base.{
  ℕ, zero, suc, ◌≡◌, refl, bit_xor, ◌/◌, ◌%◌, ◌&&◌, ◌||◌, Bool, true, false, ◌==◌, if◌then◌else◌,
  not, ◌+◌, ◌≤◌, ◌<◌, ◌∙◌, List, [], ◌∷◌, ◌++◌, arith, sym, replicate, inl, inr, Bool-cases, ==→eq,
  &&-left, ==→ne, &&-right,
}
use lardos.Hash.{crc32_entry, crc32_loop, hash_crc32_continue, hash_crc32, crc32_step, all_ones}
use lardos.Base.Words.{IsByte}
use lardos.Base.Bits.{bit_xor-bit_xor}

-- One bit of the division by the reflected polynomial 0xEDB88320.
abbrev pub crc_bit : ℕ → ℕ
crc_bit c = if c % 2 == 1 then bit_xor (c / 2) 0xEDB88320 else c / 2

-- The table's entry at `i` as CRC-32-IEEE defines it.
unfoldable pub ieee_entry : ℕ → ℕ
ieee_entry i = crc_bit (crc_bit (crc_bit (crc_bit (crc_bit (crc_bit (crc_bit (crc_bit i)))))))

-- where the two differ
abbrev pub misprint : ℕ → Bool
misprint i = i == 163 || i == 171 || i == 193

-- The indices from `i` on, `n` of them, at which the tables agree exactly off the misprints.
unfoldable agree_from : ℕ → ℕ → Bool
agree_from zero i = true
agree_from (suc n) i =
    elim (crc32_entry i == ieee_entry i) [ true ↦ not (misprint i) | false ↦ misprint i ]
    && agree_from n (suc i)

agree : agree_from 256 0 ≡ true
unfolding agree_from crc32_entry ieee_entry
agree = refl

entry_verdict : (b m : Bool) → elim b [ true ↦ not m | false ↦ m ] ≡ true → b ≡ not m
entry_verdict true m h = sym h
entry_verdict false true h = refl
entry_verdict false false h = h

agree_from_sound :
    (n i j : ℕ)
    → agree_from n i ≡ true
    → i ≤ j
    → j < i + n
    → (crc32_entry j == ieee_entry j) ≡ not (misprint j)
unfolding agree_from
agree_from_sound zero i j h le lt = absurd (omega arith)
agree_from_sound (suc n) i j h le lt = elim (Bool-cases (i == j)) [
  | inl e ↦ let e' : i ≡ j = ==→eq i j e in rw (sym e') (entry_verdict _ _ (&&-left _ _ h))
  | inr e ↦
      let ne = ==→ne i j e in
      agree_from_sound n (suc i) j (&&-right _ _ h) (omega arith) (omega arith)
]

-- For every byte `i`, entry `i` of `crc32_table` is the remainder that the polynomial of CRC-32-IEEE
-- gives, if and only if `i` is none of 163, 171 and 193.
pub table_lem : (i : ℕ) → IsByte i → (crc32_entry i == ieee_entry i) ≡ not (misprint i)
table_lem i h = agree_from_sound 256 0 i agree (omega arith) (omega arith)

loop_append :
    (crc : ℕ) (xs ys : List ℕ) → crc32_loop crc (xs ++ ys) ≡ crc32_loop (crc32_loop crc xs) ys
unfolding crc32_loop
loop_append crc [] ys = refl
loop_append crc (x ∷ xs) ys = loop_append (crc32_step crc x) xs ys

-- Continuing the checksum of a first part with a second part gives the checksum of both in a row.
pub continue_append :
    (crc : ℕ) (xs ys : List ℕ)
    → hash_crc32_continue (hash_crc32_continue crc xs) ys ≡ hash_crc32_continue crc (xs ++ ys)
unfolding hash_crc32_continue
continue_append crc xs ys =
    rw (bit_xor-bit_xor (crc32_loop (bit_xor crc all_ones) xs) all_ones, loop_append) refl

-- The two masks of `hash_crc32` meet those of `hash_crc32_continue`, and nothing is left of them.
pub hash_crc32-unmasked : (bytes : List ℕ) → hash_crc32 bytes ≡ crc32_loop 0 bytes
unfolding hash_crc32 hash_crc32_continue
hash_crc32-unmasked bytes = bit_xor-bit_xor (crc32_loop 0 bytes) all_ones

loop-zeros : (n : ℕ) (bytes : List ℕ) → crc32_loop 0 (replicate n 0 ++ bytes) ≡ crc32_loop 0 bytes
unfolding crc32_loop crc32_entry
loop-zeros zero bytes = refl
loop-zeros (suc n) bytes = loop-zeros n bytes

-- `hash_crc32` does not see leading zero bytes: data with any number of them in front has the
-- checksum of the data.
pub leading_zeros :
    (n : ℕ) (bytes : List ℕ) → hash_crc32 (replicate n 0 ++ bytes) ≡ hash_crc32 bytes
leading_zeros n bytes =
    hash_crc32-unmasked (replicate n 0 ++ bytes)
    ∙ loop-zeros n bytes
    ∙ sym (hash_crc32-unmasked bytes)
