-- ===== src/Lar/Extract.antt =====
-- `lar_extract_password` and `lar_extract` of os/kernel/lar.c.
use mathlib.Core.Option
use mathlib.Core.Option
use lardos.Base.Words.{◌>>=◌, rd_u32}
use lardos.Base.{
  ℕ, zero, suc, ◌+◌, ◌-◌, ◌||◌, Bool, true, false, none, some, Option, List, [], ◌∷◌, ◌==◌,
  if◌then◌else◌, not, ltb,
}
use lardos.Lar.{
  Entry, method_store, name_eq, validate_header, slice, pass_overhead, method_pass_store,
  read_entry, behind, bytes_at,
}
use lardos.Base.Int.{Result, error, neg, ok}
use lardos.Lar.Cipher.{stream_xor, pass_key}
use lardos.Hash.{hash_crc32}

-- What a stored file gives to a caller with room for `cap` bytes.
unfoldable pub extract_stored : List ℕ → Entry → ℕ → Option (Result (List ℕ))
extract_stored data_in e cap =
    if not (e.packed_size == e.unpacked_size)
    then some (error (neg 9))
    else if ltb cap e.unpacked_size
    then some (error (neg 10))
    else Option.map ok (slice data_in e.offset e.unpacked_size)

-- the salt, the checksum and the bytes behind the 16 bytes of overhead
unfoldable pub decrypt : List ℕ → List ℕ → Entry → Option (Result (List ℕ))
decrypt data_in password e = rd_u32 data_in (e.offset + 4) >>= λ salt.
    rd_u32 data_in (e.offset + 8) >>= λ want_crc.
    slice data_in (e.offset + pass_overhead) e.unpacked_size >>= λ body.
    let out = stream_xor (pass_key password e.name salt) salt 0 body in
    some (if hash_crc32 out == want_crc then ok out else error (neg 13))

unfoldable pub extract_locked : List ℕ → List ℕ → Entry → ℕ → Option (Result (List ℕ))
extract_locked data_in password e cap =
    if ltb e.packed_size pass_overhead || not (e.packed_size - pass_overhead == e.unpacked_size)
    then some (error (neg 9))
    else slice data_in e.offset 4 >>= λ mark.
        if not (name_eq mark (b'L' ∷ b'P' ∷ b'1' ∷ 0 ∷ []))
        then some (error (neg 9))
        else if ltb cap e.unpacked_size
        then some (error (neg 10))
        else decrypt data_in password e

-- the branch of the loop in which the name is found
unfoldable pub extract_entry : List ℕ → Option (List ℕ) → Entry → ℕ → Option (Result (List ℕ))
extract_entry data_in password e cap =
    if e.method == method_store
    then extract_stored data_in e cap
    else if e.method == method_pass_store
    then elim password [
      | none ↦ some (error (neg 12))
      | some [] ↦ some (error (neg 12))
      | some (c ∷ cs) ↦ extract_locked data_in (c ∷ cs) e cap
    ]
    else some (error (neg 9))

-- `name_eq` with a pointer that may be null
abbrev pub named : Entry → Option (List ℕ) → Bool
named e none = false
named e (some name) = name_eq e.name name

unfoldable pub extract_loop :
    ℕ → List ℕ → ℕ → ℕ → ℕ → Option (List ℕ) → Option (List ℕ) → ℕ → Option (Result (List ℕ))
extract_loop zero data_in len dir_end p name password cap = some (error (neg 11))
extract_loop (suc count) data_in len dir_end p name password cap =
    elim (read_entry data_in len dir_end p) [
      | none ↦ none
      | some (error r) ↦ some (error r)
      | some (ok e) ↦ elim (named e name) [
        | true ↦ extract_entry data_in password e cap
        | false ↦ extract_loop count data_in len dir_end (behind p e) name password cap
      ]
    ]

-- `cap` is `*out_len` before the call, `none` where `out` or `out_len` is null. The value is what is
-- stored to `out`.
unfoldable pub lar_extract_password :
    Option (List ℕ) → ℕ → Option (List ℕ) → Option (List ℕ) → Option ℕ → Option (Result (List ℕ))
lar_extract_password data_in len name password cap = elim (validate_header data_in len) [
  | none ↦ none
  | some (error r) ↦ some (error r)
  | some (ok (count, dir_end)) ↦ elim cap [
    | none ↦ some (error (neg 8))
    | some n ↦ extract_loop count (bytes_at data_in) len dir_end 8 name password n
  ]
]

abbrev pub lar_extract : Option (List ℕ) → ℕ → Option (List ℕ) → Option ℕ → Option (Result (List ℕ))
lar_extract data_in len name cap = lar_extract_password data_in len name none cap
