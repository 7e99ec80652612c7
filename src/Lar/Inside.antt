-- ===== src/Lar/Inside.antt =====
-- `lar_extract_password` of os/kernel/lar.c stays inside the archive.
use mathlib.Core.Option.{none-ne-some}
use lardos.Base.{
  ℕ, zero, suc, ◌+◌, ◌≤◌, ◌≡◌, ◌≢◌, inl, inr, none, some, Option, List, [], ◌∷◌, arith, length,
  get_elem?-eq-get_or, sym, Bool-cases,
}
use lardos.Lar.{read_entry, slice, Entry, ok, error, validate_header, behind}
use lardos.Lar.Extract.{
  extract_stored, decrypt, extract_locked, extract_entry, extract_loop, lar_extract_password, named,
}
use lardos.Base.Words.{rd_u32_inside}
use lardos.Base.Int.{neg}
use lardos.Lar.Safe.{Read-cases, Header-cases, entry_inside, header_inside, header_end}

-- The bytes of an entry that passes the checks are in the archive.
entry_bounds :
    (data_in : List ℕ) (dir_end p : ℕ) (e : Entry)
    → dir_end ≤ length data_in
    → read_entry data_in (length data_in) dir_end p ≡ some (ok e)
    → e.offset + e.packed_size ≤ length data_in
unfolding read_entry slice
entry_bounds data_in dir_end p e le q = ground (
  arith,
  get_elem?-eq-get_or data_in p 0,
  get_elem?-eq-get_or data_in (p + 1) 0,
  rd_u32_inside data_in (p + 4),
  rd_u32_inside data_in (p + 8),
  rd_u32_inside data_in (p + 12),
)

stored_inside :
    (data_in : List ℕ) (e : Entry) (cap : ℕ)
    → e.offset + e.packed_size ≤ length data_in
    → extract_stored data_in e cap ≢ none
unfolding extract_stored slice
stored_inside data_in e cap h q = ground arith

decrypt_inside :
    (data_in password : List ℕ) (e : Entry)
    → e.offset + e.unpacked_size + 16 ≤ length data_in
    → decrypt data_in password e ≢ none
unfolding decrypt slice
decrypt_inside data_in password e h q =
    ground (arith, rd_u32_inside data_in (e.offset + 4), rd_u32_inside data_in (e.offset + 8))

locked_inside :
    (data_in password : List ℕ) (e : Entry) (cap : ℕ)
    → e.offset + e.packed_size ≤ length data_in
    → extract_locked data_in password e cap ≢ none
unfolding extract_locked slice
locked_inside data_in password e cap h q = ground (arith, decrypt_inside data_in password e)

found_inside :
    (data_in : List ℕ) (password : Option (List ℕ)) (e : Entry) (cap : ℕ)
    → e.offset + e.packed_size ≤ length data_in
    → extract_entry data_in password e cap ≢ none
unfolding extract_entry
found_inside data_in none e cap h q = ground (arith, stored_inside data_in e cap)
found_inside data_in (some []) e cap h q = ground (arith, stored_inside data_in e cap)
found_inside data_in (some (c ∷ cs)) e cap h q =
    ground (arith, stored_inside data_in e cap, locked_inside data_in (c ∷ cs) e cap)

extract_loop_inside :
    (count : ℕ) (data_in : List ℕ) (dir_end p : ℕ) (name password : Option (List ℕ)) (cap : ℕ)
    → dir_end ≤ length data_in
    → extract_loop count data_in (length data_in) dir_end p name password cap ≢ none
unfolding extract_loop
extract_loop_inside zero data_in dir_end p name password cap le = λ e. none-ne-some _ (sym e)
extract_loop_inside (suc count) data_in dir_end p name password cap le =
    elim (Read-cases (read_entry data_in (length data_in) dir_end p)) [
      | inl out ↦ absurd (entry_inside data_in dir_end p le out)
      | inr (inl (r, q)) ↦ rw (q, extract_loop) (λ e. none-ne-some _ (sym e))
      | inr (inr (entry, q)) ↦ elim (Bool-cases (named entry name)) [
        | inl e ↦
            rw (q, extract_loop, e)
              (found_inside data_in password entry cap (entry_bounds data_in dir_end p entry le q))
        | inr e ↦
            rw (q, extract_loop, e)
              (extract_loop_inside count data_in dir_end (behind p entry) name password cap le)
      ]
    ]

-- Extracting a member reads nothing outside the archive's bytes, whatever they are, with any name, any
-- password and any room for the output.
pub extract_inside :
    (data_in : List ℕ) (name password : Option (List ℕ)) (cap : Option ℕ)
    → lar_extract_password (some data_in) (length data_in) name password cap ≢ none
unfolding lar_extract_password
extract_inside data_in name password cap =
    elim (Header-cases (validate_header (some data_in) (length data_in))) [
      | inl out ↦ absurd (header_inside data_in out)
      | inr (inl (r, q)) ↦ rw (q, lar_extract_password) (λ e. none-ne-some _ (sym e))
      | inr (inr (count, dir_end, q)) ↦
          rw (q, lar_extract_password)
            (with_room count dir_end cap (header_end data_in count dir_end q).1)
    ]
  where
    with_room :
        (count dir_end : ℕ) (cap : Option ℕ)
        → dir_end ≤ length data_in
        → elim cap [
          | none ↦ some (error (neg 8))
          | some n ↦ extract_loop count data_in (length data_in) dir_end 8 name password n
        ]
          ≢ none
    with_room count dir_end none le = λ e. none-ne-some _ (sym e)
    with_room count dir_end (some n) le =
        extract_loop_inside count data_in dir_end 8 name password n le
