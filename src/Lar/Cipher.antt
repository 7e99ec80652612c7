-- ===== src/Lar/Cipher.antt =====
-- The password method of os/kernel/lar.c: the key, the block cipher, and the stream that the payload
-- is combined with.
use lardos.Base.{
  ℕ, zero, suc, ◌+◌, ◌*◌, ◌/◌, ◌^◌, ◌≡◌, refl, List, [], ◌∷◌, ◌==◌, if◌then◌else◌, bit_xor, get_or,
  ap₂, length, bit_and, ap,
}
use lardos.Base.Words.{u32, u8}
use lardos.Hash.{hash_fnv1a}
use lardos.Base.Bits.{bit_xor-bit_xor}

-- `>>` and `<<` on `uint32_t`
abbrev shr : ℕ → ℕ → ℕ
shr h k = h / 2 ^ k

abbrev shl : ℕ → ℕ → ℕ
shl h k = u32 (h * 2 ^ k)

abbrev pub Key : Type 0
Key = List ℕ

-- the loops of `pass_mix_str` and `pass_mix_name`, which shift by 13 and by 11
unfoldable pub pass_mix : ℕ → ℕ → List ℕ → ℕ
pass_mix k h [] = h
pass_mix k h (c ∷ s) = let h1 = u32 (bit_xor h c * 16777619) in pass_mix k (bit_xor h1 (shr h1 k)) s

abbrev pub key_of : ℕ → ℕ → Key
key_of base salt =
    bit_xor base 0x4C415231
    ∷ bit_xor (bit_xor (bit_xor (shl base 7) (shr base 3)) 0x50415353) salt
    ∷ bit_xor (bit_xor (bit_xor (shl base 13) (shr base 5)) 0x55534552) (shl salt 1)
    ∷ bit_xor (bit_xor (bit_xor (shl base 17) (shr base 7)) 0x4F574E44) (shr salt 1)
    ∷ []

-- `pass_key`
unfoldable pub pass_key : List ℕ → List ℕ → ℕ → Key
pass_key password name salt =
    key_of (pass_mix 11 (pass_mix 13 (bit_xor 2166136261 salt) password) name) salt

-- `(((v << 4) ^ (v >> 5)) + v) ^ (sum + word)`
abbrev pub feistel : ℕ → ℕ → ℕ
feistel v mixed = bit_xor (u32 (bit_xor (shl v 4) (shr v 5) + v)) mixed

abbrev pub key_word : Key → ℕ → ℕ
key_word key i = get_or key (bit_and i 3) 0

-- The rounds of `xtea_encipher`.
unfoldable pub xtea_rounds : ℕ → Key → ℕ → ℕ → ℕ → ℕ × ℕ
xtea_rounds zero key v0 v1 sum = (v0, v1)
xtea_rounds (suc n) key v0 v1 sum =
    let w0 = u32 (v0 + feistel v1 (u32 (sum + key_word key sum))) in
    let sum' = u32 (sum + 0x9E3779B9) in
    let w1 = u32 (v1 + feistel w0 (u32 (sum' + key_word key (shr sum' 11)))) in
    xtea_rounds n key w0 w1 sum'

abbrev pub xtea_encipher : Key → ℕ → ℕ → ℕ × ℕ
xtea_encipher key v0 v1 = xtea_rounds 32 key v0 v1 0

unfoldable pub pass_stream_byte : Key → ℕ → ℕ → ℕ
pass_stream_byte key salt index =
    let block = shr index 3 in
    let v =
      xtea_encipher key (bit_xor (bit_xor salt block) 0x4C415250)
        (bit_xor (bit_xor (get_or key 0 0) (get_or key 2 0)) (u32 (block * 0x9E3779B9))) in
    let word = if bit_and index 4 == 0 then v.0 else v.1 in
    u8 (bit_and (shr word (bit_and index 3 * 8)) 0xFF)

-- `payload[i] ^ pass_stream_byte(key, salt, i)` from place `i` on
unfoldable pub stream_xor : Key → ℕ → ℕ → List ℕ → List ℕ
stream_xor key salt i [] = []
stream_xor key salt i (b ∷ bytes) =
    bit_xor b (pass_stream_byte key salt i) ∷ stream_xor key salt (suc i) bytes

-- `lar_public_salt`
unfoldable pub public_salt : List ℕ → ℕ → ℕ → ℕ
public_salt name payload_len crc =
    let s0 = bit_xor (bit_xor (bit_xor crc (hash_fnv1a name)) payload_len) 0x4C415250 in
    let s1 = bit_xor s0 (shl s0 13) in
    let s2 = bit_xor s1 (shr s1 17) in
    let s3 = bit_xor s2 (shl s2 5) in if s3 == 0 then 0x4C415250 else s3

-- Combining with the same stream twice gives the bytes back, whatever the key, the salt and the place.
pub stream_xor-stream_xor :
    (key : Key) (salt i : ℕ) (bytes : List ℕ)
    → stream_xor key salt i (stream_xor key salt i bytes) ≡ bytes
unfolding stream_xor
stream_xor-stream_xor key salt i [] = refl
stream_xor-stream_xor key salt i (b ∷ bytes) =
    ap₂ ◌∷◌ (bit_xor-bit_xor b (pass_stream_byte key salt i))
      (stream_xor-stream_xor key salt (suc i) bytes)

pub length-stream_xor :
    (key : Key) (salt i : ℕ) (bytes : List ℕ) → length (stream_xor key salt i bytes) ≡ length bytes
unfolding stream_xor
length-stream_xor key salt i [] = refl
length-stream_xor key salt i (b ∷ bytes) = ap suc (length-stream_xor key salt (suc i) bytes)
