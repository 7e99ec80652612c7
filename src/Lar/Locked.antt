-- ===== src/Lar/Locked.antt =====
-- The password method of os/kernel/lar.c: a locked archive opens with the word that locked it.
use lardos.Base.{
  ℕ, zero, suc, ◌+◌, ◌-◌, ◌*◌, ◌/◌, ◌^◌, ◌≤◌, ◌<◌, ◌≡◌, ◌∙◌, none, some, List, [], ◌∷◌, arith,
  length, true, false, take, drop, take_all, refl, ap, ==-refl, ltb, ◌==◌, bit_xor, get_elem?,
}
use lardos.Base.Words.{u32, rd_u32, le_word-le_bytes}
use lardos.Base.Bits.{bit_xor-lt}
use lardos.Base.Int.{neg, ok, error}
use lardos.Hash.{hash_crc32, hash_fnv1a}
use lardos.Hash.Bounds.{hash_crc32-lt, hash_fnv1a-lt}
use lardos.Lar.{slice, name_eq, method_pass_store, pass_overhead}
use lardos.Lar.Cipher.{public_salt, stream_xor, pass_key, length-stream_xor, stream_xor-stream_xor}
use lardos.Lar.Create.{lar_create_single, valid_member_name, body_bytes, locked_bytes}
use lardos.Lar.Extract.{lar_extract_password, extract_entry, extract_locked, decrypt}
use lardos.Lar.Round.{archive, entry, body_read, behind_head, extract_read, name_sizes}

get_elem?-drop : (n k : ℕ) (xs : List ℕ) → get_elem? xs (n + k) ≡ get_elem? (drop n xs) k
get_elem?-drop zero k xs = let e : 0 + k ≡ k = omega arith in rw e refl
get_elem?-drop (suc n) k [] = refl
get_elem?-drop (suc n) k (x ∷ xs) =
    let e : suc n + k ≡ suc (n + k) = omega arith in rw e (get_elem?-drop n k xs)

rd_u32-drop : (n : ℕ) (xs : List ℕ) → rd_u32 xs n ≡ rd_u32 (drop n xs) 0
unfolding rd_u32
rd_u32-drop n xs =
    let e : get_elem? xs n ≡ get_elem? (drop n xs) 0 =
      ap (get_elem? xs) (omega arith) ∙ get_elem?-drop n 0 xs in
    rw (e, get_elem?-drop n 1 xs, get_elem?-drop n 2 xs, get_elem?-drop n 3 xs) refl

public_salt-lt :
    (name : List ℕ) (len crc : ℕ) → len < 2 ^ 32 → crc < 2 ^ 32 → public_salt name len crc < 2 ^ 32
unfolding public_salt
public_salt-lt name len crc short word =
    let s0 = bit_xor (bit_xor (bit_xor crc (hash_fnv1a name)) len) 0x4C415250 in
    let s1 = bit_xor s0 (u32 (s0 * 2 ^ 13)) in
    let s2 = bit_xor s1 (s1 / 2 ^ 17) in
    let h0 : s0 < 2 ^ 32 =
      bit_xor-lt 32 (bit_xor (bit_xor crc (hash_fnv1a name)) len) 0x4C415250
        (bit_xor-lt 32 (bit_xor crc (hash_fnv1a name)) len
          (bit_xor-lt 32 crc (hash_fnv1a name) word (hash_fnv1a-lt name)) short)
        (omega arith) in
    let h1 : s1 < 2 ^ 32 = bit_xor-lt 32 s0 (u32 (s0 * 2 ^ 13)) h0 (omega arith) in
    let h2 : s2 < 2 ^ 32 = bit_xor-lt 32 s1 (s1 / 2 ^ 17) h1 (omega arith) in
    let h3 : bit_xor s2 (u32 (s2 * 2 ^ 5)) < 2 ^ 32 =
      bit_xor-lt 32 s2 (u32 (s2 * 2 ^ 5)) h2 (omega arith) in
    ground arith

module _ (member payload : List ℕ) (c : ℕ) (cs : List ℕ) (named : 0 < length member)
    (short : length member ≤ 63) (words : 40 + length member + length payload < 2 ^ 32) where
  abbrev crc : ℕ
  crc = hash_crc32 payload

  abbrev salt : ℕ
  salt = public_salt member (length payload) crc

  abbrev body : List ℕ
  body = locked_bytes (c ∷ cs) member payload (length payload)

  abbrev made : List ℕ
  made = archive member method_pass_store (16 + length payload) (length payload) body

  salt_word : salt < 2 ^ 32
  salt_word = public_salt-lt member (length payload) crc (omega arith) (hash_crc32-lt payload)

  body_size : 16 + length payload ≡ length body
  body_size = omega (arith, length-stream_xor (pass_key (c ∷ cs) member salt) salt 0 payload)

  locked_created :
      (room : ℕ)
      → valid_member_name member ≡ true
      → 40 + length member + length payload ≤ room
      → lar_create_single (some room) member payload (some (c ∷ cs)) ≡ ok made
  unfolding lar_create_single body_bytes
  locked_created room valid fits = rw valid (ground arith)

  word_read : (off : ℕ) → rd_u32 made (8 + (16 + length member) + off) ≡ rd_u32 (drop off body) 0
  word_read off =
      rd_u32-drop (8 + (16 + length member) + off) made
      ∙ ap (λ l. rd_u32 l 0)
          (ap (λ k. drop k made) {x = 8 + (16 + length member) + off} {y = 24 + length member + off}
              (omega arith)
            ∙ behind_head member body method_pass_store (16 + length payload) (length payload) named
                short body_size (omega arith) (omega arith) off)

  salt_read : rd_u32 made (8 + (16 + length member) + 4) ≡ some salt
  unfolding rd_u32
  salt_read = word_read 4 ∙ ap some (le_word-le_bytes salt salt_word)

  crc_read : rd_u32 made (8 + (16 + length member) + 8) ≡ some crc
  unfolding rd_u32
  crc_read = word_read 8 ∙ ap some (le_word-le_bytes crc (hash_crc32-lt payload))

  part_read :
      (off n : ℕ)
      → off + n ≤ 16 + length payload
      → slice made (8 + (16 + length member) + off) n ≡ some (take n (drop off body))
  part_read off n h =
      ap (λ k. slice made k n) (omega arith)
      ∙ body_read member body method_pass_store (16 + length payload) (length payload) named short
          body_size (omega arith) (omega arith) off n h

  decrypted :
      decrypt made (c ∷ cs) (entry member method_pass_store (16 + length payload) (length payload))
      ≡ some (ok payload)
  unfolding decrypt
  decrypted =
      let key = pass_key (c ∷ cs) member salt in
      let locked = stream_xor key salt 0 payload in
      let whole : take (length payload) locked ≡ locked =
        take_all locked (length payload) (omega (arith, length-stream_xor key salt 0 payload)) in
      rw
        (
          salt_read,
          crc_read,
          part_read 16 (length payload) (omega arith),
          whole,
          stream_xor-stream_xor key salt 0 payload,
          ==-refl crc,
        )
        refl

  locked_read :
      (cap : ℕ)
      → length payload ≤ cap
      → extract_entry made
          (some (c ∷ cs))
          (entry member method_pass_store (16 + length payload) (length payload))
          cap
        ≡ some (ok payload)
  unfolding extract_entry extract_locked name_eq
  locked_read cap enough =
      let mark : slice made (8 + (16 + length member)) 4 ≡ some (b'L' ∷ b'P' ∷ b'1' ∷ 0 ∷ []) =
        ap (λ k. slice made k 4) (omega arith) ∙ part_read 0 4 (omega arith) in
      let sized : (16 + length payload - 16 == length payload) ≡ true = ground arith in
      let room : ltb cap (length payload) ≡ false = ground arith in
      let long : ltb (16 + length payload) pass_overhead ≡ false = ground arith in
      rw (long, sized, mark, room) decrypted

-- Archiving a payload with a password that is not empty, under a valid name, succeeds when the output
-- has room for it and the sizes are 32-bit words; extracting that name with the same password into an
-- output with room for it gives the payload back, and without a password or with an empty one it
-- fails with -12.
pub create_extract_locked :
    (member payload : List ℕ) (c : ℕ) (cs : List ℕ) (room cap : ℕ)
    → valid_member_name member ≡ true
    → 40 + length member + length payload < 2 ^ 32
    → 40 + length member + length payload ≤ room
    → length payload ≤ cap
    → (archived : List ℕ) × (lar_create_single (some room) member payload (some (c ∷ cs))
        ≡ ok archived)
      × (lar_extract_password
            (some archived)
            (length archived)
            (some member)
            (some (c ∷ cs))
            (some cap)
          ≡ some (ok payload))
      × (lar_extract_password (some archived) (length archived) (some member) none (some cap)
          ≡ some (error (neg 12)))
      × (lar_extract_password (some archived) (length archived) (some member) (some []) (some cap)
          ≡ some (error (neg 12)))
unfolding extract_entry
create_extract_locked member payload c cs room cap valid words fits enough =
    let sizes = name_sizes member valid in
    let read =
      extract_read member (body member payload c cs sizes.0 sizes.1 words) method_pass_store
        (16 + length payload) (length payload) sizes.0 sizes.1
        (body_size member payload c cs sizes.0 sizes.1 words) (omega arith) (omega arith) in
    (
      made member payload c cs sizes.0 sizes.1 words,
      locked_created member payload c cs sizes.0 sizes.1 words room valid fits,
      read (some (c ∷ cs)) cap ∙ locked_read member payload c cs sizes.0 sizes.1 words cap enough,
      read none cap,
      read (some []) cap,
    )
