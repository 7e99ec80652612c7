-- ===== src/Lar/Create.antt =====
-- `lar_create_single` of os/kernel/lar.c: an archive of one member. The bytes are written one behind
-- the other, so the archive is a list that grows.
use lardos.Base.{
  ℕ, ◌+◌, ◌/◌, ◌^◌, ◌&&◌, ◌||◌, Bool, true, false, none, some, Option, List, [], ◌∷◌, ◌++◌, ◌==◌,
  if◌then◌else◌, ltb, not, length,
}
use lardos.Base.Words.{u8, le_bytes, u32}
use lardos.Hash.{hash_crc32}
use lardos.Base.Int.{Result, error, neg, ok}
use lardos.Lar.{magic, method_store, method_pass_store, pass_overhead}
use lardos.Lar.Cipher.{public_salt, stream_xor, pass_key}

-- `c == '/' || c == '\\' || c == ':' || c < 33 || c > 126`, `c` being a signed char
abbrev pub bad_char : ℕ → Bool
bad_char c = c == b'/' || c == 92 || c == b':' || ltb c 33 || ltb 126 c

unfoldable pub good_chars : List ℕ → Bool
good_chars [] = true
good_chars (c ∷ s) = not (bad_char c) && good_chars s

-- `lar_valid_member_name`
unfoldable pub valid_member_name : List ℕ → Bool
valid_member_name member = not (length member == 0 || ltb 63 (length member)) && good_chars member

-- `wr16` and, as `le_bytes`, `wr32`
abbrev pub wr16 : ℕ → List ℕ
wr16 v = u8 v ∷ u8 (v / 2 ^ 8) ∷ []

-- the archive's header, for a directory of one entry
abbrev pub header_bytes : ℕ → List ℕ
header_bytes dir_size = le_bytes magic ++ (wr16 1 ++ wr16 dir_size)

abbrev pub entry_bytes : List ℕ → ℕ → ℕ → ℕ → ℕ → List ℕ
entry_bytes member method data_off packed_size payload_len =
    length member
    ∷ method
    ∷ 0
    ∷ 0
    ∷ (le_bytes data_off ++ (le_bytes packed_size ++ (le_bytes payload_len ++ member)))

-- the payload with a password
abbrev pub locked_bytes : List ℕ → List ℕ → List ℕ → ℕ → List ℕ
locked_bytes password member payload payload_len =
    let crc = hash_crc32 payload in
    let salt = public_salt member payload_len crc in
    b'L'
    ∷ b'P'
    ∷ b'1'
    ∷ 0
    ∷ (le_bytes salt
        ++ (le_bytes crc
            ++ (le_bytes payload_len ++ stream_xor (pass_key password member salt) salt 0 payload)))

abbrev pub no_password : Option (List ℕ) → Bool
no_password none = true
no_password (some []) = true
no_password (some (c ∷ cs)) = false

-- The member's bytes in the archive: those of `payload`, or the locked ones.
unfoldable pub body_bytes : Option (List ℕ) → List ℕ → List ℕ → ℕ → List ℕ
body_bytes none member payload payload_len = payload
body_bytes (some []) member payload payload_len = payload
body_bytes (some (c ∷ cs)) member payload payload_len =
    locked_bytes (c ∷ cs) member payload payload_len

-- `lar_create_single`: the value is what is stored to `out`, its length is stored to `*out_len`. `cap`
-- is `*out_len` before the call, `none` where a pointer is null; `payload` has `payload_len` bytes.
unfoldable pub lar_create_single : Option ℕ → List ℕ → List ℕ → Option (List ℕ) → Result (List ℕ)
lar_create_single none member payload password = error (neg 1)
lar_create_single (some cap) member payload password =
    if not (valid_member_name member)
    then error (neg 2)
    else let payload_len = length payload in
      let method = if no_password password then method_store else method_pass_store in
      let packed_size =
        if no_password password then payload_len else u32 (payload_len + pass_overhead) in
      let dir_size = 16 + length member in
      let data_off = 8 + dir_size in
      let total = u32 (data_off + packed_size) in
      if ltb 0xFFFF dir_size || ltb cap total || ltb packed_size payload_len
      then error (neg 3)
      else ok (
          header_bytes dir_size
          ++ (entry_bytes member method data_off packed_size payload_len
              ++ body_bytes password member payload payload_len))
