-- ===== src/Lar/Tests.antt =====
-- Runs of os/kernel/lar.c, and its theorems at concrete archives.
use lardos.Base.{ℕ, arith, ◌≡◌, ◌≢◌, refl, true, none, some, Option, List, [], ◌∷◌, length}
use lardos.Lar.Create.{lar_create_single, valid_member_name, good_chars, body_bytes}
use lardos.Base.Int.{ok, error, Result, neg}
use lardos.Lar.{lar_list, validate_header, rd16, read_entry, slice, name_eq}
use lardos.Lar.Extract.{
  extract_stored, extract_locked, lar_extract_password, extract_loop, extract_entry, extract_stored,
  extract_locked, decrypt,
}
use lardos.Lar.Cipher.{stream_xor, pass_stream_byte, xtea_rounds, pass_key, pass_mix, public_salt}
use lardos.Lar.Safe.{lar_list_inside}
use lardos.Lar.Inside.{extract_inside}
use lardos.Lar.Round.{create_extract}
use lardos.Lar.Locked.{create_extract_locked}
use lardos.Base.Words.{rd_u32}
use lardos.Hash.{
  fnv_loop, hash_crc32, hash_crc32_continue, crc32_loop, crc32_entry, hash_fnv1a, fnv_loop,
}

abbrev member : List ℕ
member = b'a' ∷ b'.' ∷ b't' ∷ []

abbrev payload : List ℕ
payload = 5 ∷ 250 ∷ 7 ∷ []

abbrev open_word : Option (List ℕ)
open_word = some (b'o' ∷ b'p' ∷ b'e' ∷ b'n' ∷ [])

abbrev bad_word : Option (List ℕ)
bad_word = some (b'b' ∷ b'a' ∷ b'd' ∷ [])

abbrev made : Option (List ℕ) → List ℕ
made password = elim (lar_create_single (some 128) member payload password) [
  | ok archive ↦ archive
  | error r ↦ []
]

-- What is extracted with `asked` from an archive made with `set`.
abbrev extracted : Option (List ℕ) → Option (List ℕ) → Option (Result (List ℕ))
extracted set asked =
    lar_extract_password (some (made set)) (length (made set)) (some member) asked (some 32)

plain_round_trip : extracted none none ≡ some (ok payload)
unfolding lar_create_single valid_member_name good_chars body_bytes lar_extract_password
    validate_header rd16 rd_u32 read_entry slice extract_loop extract_entry extract_stored name_eq
plain_round_trip = refl

locked_round_trip :
    (extracted open_word open_word ≡ some (ok payload))
    × (extracted open_word bad_word ≡ some (error (neg 13)))
    × (extracted open_word none ≡ some (error (neg 12)))
unfolding lar_create_single valid_member_name good_chars body_bytes lar_extract_password
    validate_header rd16 rd_u32 read_entry slice extract_loop extract_entry extract_locked decrypt
    name_eq stream_xor pass_stream_byte xtea_rounds pass_key pass_mix public_salt hash_crc32
    hash_crc32_continue crc32_loop crc32_entry hash_fnv1a fnv_loop
locked_round_trip = (refl, refl, refl)

-- the bytes of a directory that ends in the middle of an entry
abbrev cut_off : List ℕ
cut_off = 0x4C ∷ 0x41 ∷ 0x52 ∷ 0x31 ∷ 1 ∷ 0 ∷ 2 ∷ 0 ∷ 3 ∷ 0 ∷ []

lar_list_inside_example : lar_list (some cut_off) 10 true ≢ none
lar_list_inside_example = lar_list_inside cut_off true

extract_inside_example :
    lar_extract_password (some cut_off) 10 (some member) open_word (some 9) ≢ none
extract_inside_example = extract_inside cut_off (some member) open_word (some 9)

member_is_valid : valid_member_name member ≡ true
unfolding valid_member_name good_chars
member_is_valid = refl

create_extract_example :
    (archive : List ℕ) × (lar_create_single (some 128) member payload none ≡ ok archive)
    × (lar_extract_password (some archive) (length archive) (some member) open_word (some 32)
        ≡ some (ok payload))
create_extract_example =
    create_extract member payload open_word 128 32 member_is_valid (omega arith) (omega arith)
      (omega arith)

create_extract_locked_example :
    (archive : List ℕ) × (lar_create_single (some 128) member payload (some (b'o' ∷ b'k' ∷ []))
      ≡ ok archive)
    × (lar_extract_password
          (some archive)
          (length archive)
          (some member)
          (some (b'o' ∷ b'k' ∷ []))
          (some 32)
        ≡ some (ok payload))
    × (lar_extract_password (some archive) (length archive) (some member) none (some 32)
        ≡ some (error (neg 12)))
    × (lar_extract_password (some archive) (length archive) (some member) (some []) (some 32)
        ≡ some (error (neg 12)))
create_extract_locked_example =
    create_extract_locked member payload b'o' (b'k' ∷ []) 128 32 member_is_valid (omega arith)
      (omega arith) (omega arith)
