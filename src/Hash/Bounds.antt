-- ===== src/Hash/Bounds.antt =====
-- The results of os/kernel/hash.c are 32-bit words, whatever the bytes are.
use lardos.Base.{
  ℕ, zero, suc, ◌/◌, ◌^◌, ◌<◌, ◌≡◌, Bool, true, List, [], ◌∷◌, arith, refl, get_or, ltb, ◌&&◌,
  bit_xor, bit_and,
}
use lardos.Base.Bits.{bit_xor-lt}
use lardos.Hash.{
  crc32_table, crc32_entry, crc32_step, crc32_loop, hash_crc32_continue, hash_crc32, all_ones,
  fnv_loop, hash_fnv1a, spread, fnv_basis,
}

-- Each entry fits a `uint32_t`.
unfoldable all_words : List ℕ → Bool
all_words [] = true
all_words (w ∷ ws) = ltb w (2 ^ 32) && all_words ws

word_of : (ws : List ℕ) (i : ℕ) → all_words ws ≡ true → get_or ws i 0 < 2 ^ 32
unfolding all_words
word_of [] i e = omega arith
word_of (w ∷ ws) zero e = ground arith
word_of (w ∷ ws) (suc i) e = word_of ws i (ground arith)

crc32_entry-lt : (i : ℕ) → crc32_entry i < 2 ^ 32
unfolding crc32_entry all_words
crc32_entry-lt i = word_of crc32_table i refl

crc32_step-lt : (crc b : ℕ) → crc < 2 ^ 32 → crc32_step crc b < 2 ^ 32
crc32_step-lt crc b h =
    bit_xor-lt 32 (crc32_entry (bit_and (bit_xor crc b) 0xFF)) (crc / 2 ^ 8)
      (crc32_entry-lt (bit_and (bit_xor crc b) 0xFF)) (omega arith)

crc32_loop-lt : (crc : ℕ) (bytes : List ℕ) → crc < 2 ^ 32 → crc32_loop crc bytes < 2 ^ 32
unfolding crc32_loop
crc32_loop-lt crc [] h = h
crc32_loop-lt crc (b ∷ bytes) h = crc32_loop-lt (crc32_step crc b) bytes (crc32_step-lt crc b h)

pub hash_crc32-lt : (bytes : List ℕ) → hash_crc32 bytes < 2 ^ 32
unfolding hash_crc32 hash_crc32_continue
hash_crc32-lt bytes =
    let started = bit_xor-lt 32 all_ones all_ones (omega arith) (omega arith) in
    let looped = crc32_loop-lt (bit_xor all_ones all_ones) bytes started in
    let closed =
      bit_xor-lt 32 (crc32_loop (bit_xor all_ones all_ones) bytes) all_ones looped (omega arith) in
    bit_xor-lt 32 (bit_xor (crc32_loop (bit_xor all_ones all_ones) bytes) all_ones) all_ones closed
      (omega arith)

fnv_loop-lt : (h : ℕ) (bytes : List ℕ) → h < 2 ^ 32 → fnv_loop h bytes < 2 ^ 32
unfolding fnv_loop
fnv_loop-lt h [] l = l
fnv_loop-lt h (b ∷ bytes) l = fnv_loop-lt (spread (bit_xor h b)) bytes (omega arith)

pub hash_fnv1a-lt : (bytes : List ℕ) → hash_fnv1a bytes < 2 ^ 32
unfolding hash_fnv1a
hash_fnv1a-lt bytes = fnv_loop-lt fnv_basis bytes (omega arith)
