-- ===== src/Lar/Round.antt =====
-- What `lar_create_single` of os/kernel/lar.c writes is what the readers find.
use lardos.Base.{
  ℕ, ◌+◌, ◌*◌, ◌/◌, ◌^◌, ◌≤◌, ◌<◌, ◌≡◌, ◌∙◌, some, List, ◌++◌, arith, length, length-append, bit_or,
  true, leb, take, ap, drop, take_within, take_all, drop_add, drop-append, refl, Option, [], ◌∷◌,
  ==-refl, none, false, ◌==◌, ltb, sym,
}
use lardos.Lar.Create.{header_bytes, entry_bytes, lar_create_single, valid_member_name, body_bytes}
use lardos.Base.Words.{IsU32, u8, rd_u32, le_word-le_bytes}
use lardos.Lar.{validate_header, rd16, ok, slice, Entry, read_entry, name_eq, method_store}
use lardos.Base.Bits.{bit_or_low}
use lardos.Lar.Extract.{lar_extract_password, extract_loop, extract_entry, extract_stored}

-- An archive of one member: the header, the entry and the body.
abbrev pub archive : List ℕ → ℕ → ℕ → ℕ → List ℕ → List ℕ
archive member method packed_size payload_len body =
    header_bytes (16 + length member)
    ++ (entry_bytes member method (8 + (16 + length member)) packed_size payload_len ++ body)

abbrev pub entry : List ℕ → ℕ → ℕ → ℕ → Entry
entry member method packed_size payload_len = record {
  name = member;
  method = method;
  offset = 8 + (16 + length member);
  packed_size = packed_size;
  unpacked_size = payload_len;
}

name_eq_self : (name : List ℕ) → name_eq name name ≡ true
unfolding name_eq
name_eq_self [] = refl
name_eq_self (c ∷ name) = rw (==-refl c) (name_eq_self name)

module _ (member body : List ℕ) (method packed_size payload_len : ℕ) (named : 0 < length member)
    (short : length member ≤ 63) (sized : packed_size ≡ length body)
    (packed : IsU32 (24 + length member + packed_size)) (unpacked : IsU32 payload_len) where
  size_of :
      length (archive member method packed_size payload_len body) ≡ 24 + length member + packed_size
  size_of = omega (arith, length-append member body, sized)

  dir_size_read :
      bit_or (u8 (16 + length member)) (u8 ((16 + length member) / 2 ^ 8) * 2 ^ 8)
      ≡ 16 + length member
  dir_size_read =
      bit_or_low 8 (u8 ((16 + length member) / 2 ^ 8)) (u8 (16 + length member)) (omega arith)
      ∙ omega arith

  header_read :
      validate_header
        (some (archive member method packed_size payload_len body))
        (length (archive member method packed_size payload_len body))
      ≡ some (ok (1, 8 + (16 + length member)))
  unfolding validate_header rd16 rd_u32
  header_read = rw (size_of, dir_size_read) (ground arith)

  name_read :
      slice (archive member method packed_size payload_len body) 24 (length member) ≡ some member
  unfolding slice
  name_read =
      let fits : leb (24 + length member)
            (length (archive member method packed_size payload_len body))
          ≡ true =
        rw size_of (ground arith) in
      rw fits (
        ap some (
          take_within (length member) member body (omega arith)
          ∙ take_all member (length member) (omega arith)))

  entry_read :
      read_entry
        (archive member method packed_size payload_len body)
        (length (archive member method packed_size payload_len body))
        (8 + (16 + length member))
        8
      ≡ some (ok (entry member method packed_size payload_len))
  unfolding read_entry rd_u32
  entry_read =
      rw
        (
          size_of,
          le_word-le_bytes (8 + (16 + length member)) (omega arith),
          le_word-le_bytes packed_size (omega arith),
          le_word-le_bytes payload_len unpacked,
          name_read,
        )
        (ground arith)

  pub behind_head :
      (off : ℕ)
      → drop (24 + length member + off) (archive member method packed_size payload_len body)
        ≡ drop off body
  behind_head off =
      let there : 24 + length member + off ≡ 24 + (length member + off) = omega arith in
      ap (λ k. drop k (archive member method packed_size payload_len body)) there
      ∙ drop_add 24 (length member + off) (archive member method packed_size payload_len body)
      ∙ drop_add (length member) off (member ++ body)
      ∙ ap (λ l. drop off l) (drop-append member body)

  pub body_read :
      (off n : ℕ)
      → off + n ≤ packed_size
      → slice (archive member method packed_size payload_len body) (24 + length member + off) n
        ≡ some (take n (drop off body))
  unfolding slice
  body_read off n le =
      let fits : leb (24 + length member + off + n)
            (length (archive member method packed_size payload_len body))
          ≡ true =
        rw size_of (ground arith) in
      rw fits (ap (λ l. some (take n l)) (behind_head off))

  -- Extraction of the member comes down to its entry.
  pub extract_read :
      (password : Option (List ℕ)) (cap : ℕ)
      → lar_extract_password
          (some (archive member method packed_size payload_len body))
          (length (archive member method packed_size payload_len body))
          (some member)
          password
          (some cap)
        ≡ extract_entry
            (archive member method packed_size payload_len body)
            password
            (entry member method packed_size payload_len)
            cap
  unfolding lar_extract_password extract_loop
  extract_read password cap =
      rw (header_read, lar_extract_password, entry_read, extract_loop, name_eq_self member) refl

created :
    (member payload : List ℕ) (room : ℕ)
    → valid_member_name member ≡ true
    → length member ≤ 63
    → 24 + length member + length payload < 2 ^ 32
    → 24 + length member + length payload ≤ room
    → lar_create_single (some room) member payload none
      ≡ ok (archive member method_store (length payload) (length payload) payload)
unfolding lar_create_single body_bytes
created member payload room valid short words fits = rw valid (ground arith)

stored_read :
    (member payload : List ℕ) (cap : ℕ)
    → 0 < length member
    → length member ≤ 63
    → 24 + length member + length payload < 2 ^ 32
    → length payload ≤ cap
    → (password : Option (List ℕ))
    → extract_entry
        (archive member method_store (length payload) (length payload) payload)
        password
        (entry member method_store (length payload) (length payload))
        cap
      ≡ some (ok payload)
unfolding extract_entry extract_stored
stored_read member payload cap pos short words room password =
    let there : 24 + length member + 0 ≡ 8 + (16 + length member) = omega arith in
    let whole : (length payload == length payload) ≡ true = ==-refl (length payload) in
    let enough : ltb cap (length payload) ≡ false = ground arith in
    let read : slice (archive member method_store (length payload) (length payload) payload)
          (8 + (16 + length member)) (length payload)
        ≡ some (take (length payload) payload) =
      ap
        (λ k.
          slice (archive member method_store (length payload) (length payload) payload) k
            (length payload))
        (sym there)
      ∙ body_read member payload method_store (length payload) (length payload) pos short refl words
          (omega arith) 0 (length payload) (omega arith) in
    rw (whole, enough, read, take_all payload (length payload) (omega arith)) refl

pub name_sizes :
    (member : List ℕ) → valid_member_name member ≡ true → (0 < length member) × (length member ≤ 63)
unfolding valid_member_name
name_sizes member e = ground arith

-- Archiving a payload without a password under a valid name succeeds when the output has room for it
-- and the sizes are 32-bit words; and extracting that name, with or without a password, into an output
-- with room for it gives the payload back.
pub create_extract :
    (member payload : List ℕ) (password : Option (List ℕ)) (room cap : ℕ)
    → valid_member_name member ≡ true
    → 24 + length member + length payload < 2 ^ 32
    → 24 + length member + length payload ≤ room
    → length payload ≤ cap
    → (made : List ℕ) × (lar_create_single (some room) member payload none ≡ ok made)
      × (lar_extract_password (some made) (length made) (some member) password (some cap)
          ≡ some (ok payload))
create_extract member payload password room cap valid words fits enough =
    let sizes = name_sizes member valid in
    (
      archive member method_store (length payload) (length payload) payload,
      created member payload room valid sizes.1 words fits,
      extract_read member payload method_store (length payload) (length payload) sizes.0 sizes.1
            refl words (omega arith) password cap
          ∙ stored_read member payload cap sizes.0 sizes.1 words enough password,
    )
