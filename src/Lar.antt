-- ===== src/Lar.antt =====
-- os/kernel/lar.c and os/include/lar.h: LAR archives. The archive is the list of its bytes, and `none`
-- as a result is a read outside it. A C string is the list of its characters before the NUL, and a
-- pointer that may be null is an option.
pub mod Cipher
pub mod Extract
pub mod Create
pub mod Safe
pub mod Inside
pub mod Round
pub mod Locked
mod Tests
use mathlib.Core.Option
use lardos.Base.Words.{◌>>=◌, rd_u32}
use lardos.Base.{
  ℕ, zero, suc, ◌+◌, ◌-◌, ◌*◌, ◌^◌, ◌&&◌, ◌||◌, Bool, true, false, none, some, Option, List, [],
  ◌∷◌, ◌==◌, if◌then◌else◌, get_elem?, leb, length, bit_or, take, ltb, drop, not,
}
use lardos.Base.Int.{Result, ℤ, error, pos, neg, ok}

abbrev pub magic : ℕ
magic = 0x3152414C

abbrev pub method_store : ℕ
method_store = 0

abbrev pub method_pass_store : ℕ
method_pass_store = 1

abbrev pub pass_overhead : ℕ
pass_overhead = 16

-- `rd16`
unfoldable pub rd16 : List ℕ → ℕ → Option ℕ
rd16 data_in off = get_elem? data_in off >>= λ lo.
    get_elem? data_in (off + 1) >>= λ hi. some (bit_or lo (hi * 2 ^ 8))

-- the `n` bytes from `off` on
unfoldable pub slice : List ℕ → ℕ → ℕ → Option (List ℕ)
slice data_in off n =
    if leb (off + n) (length data_in) then some (take n (drop off data_in)) else none

-- `validate_header`: the number of entries and the end of the directory
unfoldable pub validate_header : Option (List ℕ) → ℕ → Option (Result (ℕ × ℕ))
validate_header none len = some (error (neg 1))
validate_header (some data_in) len =
    if ltb len 8
    then some (error (neg 1))
    else rd_u32 data_in 0 >>= λ m.
        if not (m == magic)
        then some (error (neg 2))
        else rd16 data_in 4 >>= λ count. rd16 data_in 6 >>= λ dir_size.
            if ltb len (8 + dir_size) then some (error (neg 3)) else some (ok (count, 8 + dir_size))

-- The fields of a directory entry.
pub record Entry : Type 0 where
  pub name : List ℕ
  pub method : ℕ
  pub offset : ℕ
  pub packed_size : ℕ
  pub unpacked_size : ℕ

-- What the loops of `lar_list` and `lar_extract_password` read of the entry at `p`, with their checks.
unfoldable pub read_entry : List ℕ → ℕ → ℕ → ℕ → Option (Result Entry)
read_entry data_in len dir_end p =
    if ltb dir_end (p + 16)
    then some (error (neg 4))
    else get_elem? data_in p >>= λ name_len. get_elem? data_in (p + 1) >>= λ method.
        rd_u32 data_in (p + 4) >>= λ offset. rd_u32 data_in (p + 8) >>= λ packed_size.
        rd_u32 data_in (p + 12) >>= λ unpacked_size.
        if name_len == 0 || ltb dir_end (p + 16 + name_len)
        then some (error (neg 5))
        else if ltb len offset || ltb (len - offset) packed_size
        then some (error (neg 6))
        else slice data_in (p + 16) name_len >>= λ name. some (
            ok (record {
              name = name;
              method = method;
              offset = offset;
              packed_size = packed_size;
              unpacked_size = unpacked_size;
            }))

-- the place behind an entry at `p`
abbrev pub behind : ℕ → Entry → ℕ
behind p e = p + 16 + length e.name

-- The loop of `lar_list`: the code, and the entries that the callback has seen.
unfoldable pub list_loop : ℕ → List ℕ → ℕ → ℕ → ℕ → Option (ℤ × List Entry)
list_loop zero data_in len dir_end p = some (if p == dir_end then pos 0 else neg 7, [])
list_loop (suc count) data_in len dir_end p = elim (read_entry data_in len dir_end p) [
  | none ↦ none
  | some (error r) ↦ some (r, [])
  | some (ok e) ↦
      Option.map (λ (r : ℤ × List Entry). (r.0, e ∷ r.1))
        (list_loop count data_in len dir_end (behind p e))
]

abbrev pub bytes_at : Option (List ℕ) → List ℕ
bytes_at none = []
bytes_at (some data_in) = data_in

-- `lar_list`; without a callback the entries are seen by nobody
unfoldable pub lar_list : Option (List ℕ) → ℕ → Bool → Option (ℤ × List Entry)
lar_list data_in len has_cb = elim (validate_header data_in len) [
  | none ↦ none
  | some (error r) ↦ some (r, [])
  | some (ok (count, dir_end)) ↦
      Option.map (λ (r : ℤ × List Entry). (r.0, if has_cb then r.1 else []))
        (list_loop count (bytes_at data_in) len dir_end 8)
]

-- `name_eq` on the bytes of an entry's name
unfoldable pub name_eq : List ℕ → List ℕ → Bool
name_eq [] [] = true
name_eq [] (c ∷ cs) = false
name_eq (e ∷ es) [] = false
name_eq (e ∷ es) (c ∷ cs) = e == c && name_eq es cs
