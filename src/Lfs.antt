-- ===== src/Lfs.antt =====
-- os/kernel/lfs.c: mounting an image, and lookup in both versions of the format. Lfs/Listing.antt is the
-- listing, Lfs/Numbers.antt the number writer of the self test.
pub mod Reads
pub mod Listing
pub mod Numbers
pub mod Inside
pub mod Mounted
pub mod Directory
pub mod Find
mod Tests
use lardos.Lfs.Reads.{Outcome, ok, fail, fault, ◌>>=◌, read}
use lardos.Base.Int.{ℤ, neg, pos}
use lardos.Base.{
  ℕ, zero, suc, ◌+◌, ◌-◌, ◌*◌, ◌/◌, ◌^◌, ◌&&◌, ◌||◌, Bool, true, false, none, some, Option, List,
  ◌==◌, if◌then◌else◌, leb, ltb, not, bit_or, bit_and,
}
use lardos.Base.Words.{u32, le_word}

-- `lfs_varu_t`
pub record Varu : Type 0 where
  pub value : ℕ
  pub overflow : Bool

-- `s_lfs_image`, `s_lfs_size` and `s_lfs_version`
pub record Volume : Type 0 where
  pub image : Option (List ℕ)
  pub size : ℕ
  pub version : ℕ

-- the `if (!overflow)` of a round
unfoldable pub add_chunk : ℕ → ℕ → ℕ → Bool → Varu
add_chunk chunk value shift true = record { value = value; overflow = true }
add_chunk chunk value shift false =
    if leb 32 shift
    then record { value = value; overflow = not (chunk == 0) }
    else if ltb (0xFFFFFFFF / 2 ^ shift) chunk
    then record { value = value; overflow = true }
    else record { value = bit_or value (chunk * 2 ^ shift); overflow = false }

-- `while (*off < size)`, with the bytes that are left as the rounds; the offset behind the number is
-- returned with it.
unfoldable pub varu_loop : List ℕ → ℕ → ℕ → ℕ → ℕ → Bool → Outcome (Varu × ℕ)
varu_loop image zero off value shift overflow = fail
varu_loop image (suc left) off value shift overflow = do
  b ← read image off
  let v = add_chunk (bit_and b 0x7F) value shift overflow
  elim (bit_and b 0x80 == 0) [
    | true ↦ ok (v, off + 1)
    | false ↦
        varu_loop image left (off + 1) v.value (if ltb shift 32 then shift + 7 else shift)
          (v.overflow || not (ltb shift 32))
  ]

unfoldable pub lfs_rd_varu : List ℕ → ℕ → ℕ → Outcome (Varu × ℕ)
lfs_rd_varu image size off = varu_loop image (size - off) off 0 0 false

-- `if (!lfs_rd_varu(…) || v.overflow) return 0;`
unfoldable pub rd_word : List ℕ → ℕ → ℕ → Outcome (ℕ × ℕ)
rd_word image size off = do
  (v, off') ← lfs_rd_varu image size off
  if v.overflow then fail else ok (v.value, off')

-- A string is an array of bytes with a NUL in it; `at` is where the entry's name stands in the image.
unfoldable pub name_match_loop : List ℕ → List ℕ → ℕ → ℕ → ℕ → Outcome Bool
name_match_loop name image at i zero = do c ← read name i; ok (c == 0)
name_match_loop name image at i (suc left) = do
  c ← read name i
  e ← read image (at + i)
  elim (c == 0 || not (c == e)) [
    | true ↦ ok false
    | false ↦ name_match_loop name image at (i + 1) left
  ]

unfoldable pub lfs_name_match : List ℕ → List ℕ → ℕ → ℕ → Outcome Bool
lfs_name_match name image at nlen = name_match_loop name image at 0 nlen

abbrev pub lfs_range_in_image : ℕ → ℕ → ℕ → Bool
lfs_range_in_image image_size off size = leb off image_size && leb size (image_size - off)

abbrev pub magic : ℕ
magic = 0x0053464C

-- The volume, and what is returned.
unfoldable pub lfs_mount : Volume → Option (List ℕ) → ℕ → Outcome (Volume × ℤ)
lfs_mount s none size = ok (s, neg 1)
lfs_mount s (some image) size = if ltb size 8 then ok (s, neg 1) else do
  b0 ← read image 0
  b1 ← read image 1
  b2 ← read image 2
  b3 ← read image 3
  version ← read image 4
  if not (le_word b0 b1 b2 b3 == magic)
      then ok (s, neg 2)
      else if not (version == 1) && not (version == 2)
      then ok (s, neg 3)
      else if version == 1 && ltb size 10
      then ok (s, neg 1)
      else ok (record { image = some image; size = size; version = version }, pos 0)

abbrev pub read_u32 : List ℕ → ℕ → Outcome ℕ
read_u32 image off = do
  b0 ← read image off
  b1 ← read image (off + 1)
  b2 ← read image (off + 2)
  b3 ← read image (off + 3)
  ok (le_word b0 b1 b2 b3)

-- the loop of a name's comparison in version 1, which does not stop at a NUL
unfoldable pub same_name : List ℕ → List ℕ → ℕ → ℕ → ℕ → Outcome Bool
same_name name image at j zero = ok true
same_name name image at j (suc left) = do
  c ← read name j
  e ← read image (at + j)
  elim (not (c == e)) [ true ↦ ok false | false ↦ same_name name image at (j + 1) left ]

-- `match && name[nlen] == '\0'`
unfoldable pub match_v1 : List ℕ → List ℕ → ℕ → ℕ → Outcome Bool
match_v1 name image at nlen = do
  same ← same_name name image at 0 nlen
  elim same [ false ↦ ok false | true ↦ do c ← read name nlen; ok (c == 0) ]

-- what is done with an entry whose name starts at `start` and whose `nlen` bytes fit
unfoldable pub named_entry : List ℕ → List ℕ → ℕ → ℕ → ℕ → Outcome (Option (ℕ × ℕ) × ℕ)
named_entry name image size nlen start = do
  data_off ← read_u32 image (start + nlen)
  data_sz ← read_u32 image (start + nlen + 4)
  found ← match_v1 name image start nlen
  if not found
      then ok (none, start + nlen + 8)
      else if not (lfs_range_in_image size data_off data_sz)
      then fail
      else ok (some (data_off, data_sz), start + nlen + 8)

-- one round of the loop over the entries: the file that it returns, or the offset of the next entry
unfoldable pub entry_v1 : List ℕ → List ℕ → ℕ → ℕ → Outcome (Option (ℕ × ℕ) × ℕ)
entry_v1 name image size off = do
  nlen ← read image off
  if ltb size (u32 (off + 1 + nlen + 8)) then fail else named_entry name image size nlen (off + 1)

-- The loop over the entries, with those that are left.
unfoldable pub lookup_v1_loop : List ℕ → List ℕ → ℕ → ℕ → ℕ → Outcome (ℕ × ℕ)
lookup_v1_loop name image size zero off = fail
lookup_v1_loop name image size (suc left) off = elim (ltb (u32 (off + 2)) size) [
  | false ↦ fail
  | true ↦ do
    (found, off') ← entry_v1 name image size off
    elim found [ some file ↦ ok file | none ↦ lookup_v1_loop name image size left off' ]
]

-- The file's data as their offset in the image and their size; `fail` is the result 0.
unfoldable pub lfs_lookup_v1 : List ℕ → List ℕ → ℕ → Outcome (ℕ × ℕ)
lfs_lookup_v1 name image size = do
  c0 ← read image 8
  c1 ← read image 9
  lookup_v1_loop name image size (bit_or c0 (c1 * 2 ^ 8)) 10

-- The loop over the extents, with those that are left; `none` is its end, with the offset behind them.
unfoldable pub extents_loop : List ℕ → ℕ → Bool → ℕ → ℕ → ℕ → Outcome (Option (ℕ × ℕ) × ℕ)
extents_loop image size match count zero off = ok (none, off)
extents_loop image size match count (suc left) off = do
  (data_off, off1) ← lfs_rd_varu image size off
  (data_sz, off2) ← lfs_rd_varu image size off1
  elim (match
      && count == 1
      && not data_off.overflow
      && not data_sz.overflow
      && lfs_range_in_image size data_off.value data_sz.value) [
        | true ↦ ok (some (data_off.value, data_sz.value), off2)
        | false ↦ extents_loop image size match count left off2
      ]

-- what is left of a round when the name of `nlen` bytes at `start` is known to lie in the image
unfoldable pub named_record : List ℕ → List ℕ → ℕ → ℕ → ℕ → Outcome (Option (ℕ × ℕ) × ℕ)
named_record name image size nlen start = do
  match ← lfs_name_match name image start nlen
  (count, off) ← rd_word image size (start + nlen)
  (found, off') ← extents_loop image size match count count off
  elim found [ some file ↦ ok (some file, off') | none ↦ if match then fail else ok (none, off') ]

-- One round of the loop over the records: the file that it returns, or the offset of the next record.
-- The record's tag 0 and the unknown tags both end the lookup.
unfoldable pub record_v2 : List ℕ → List ℕ → ℕ → ℕ → Outcome (Option (ℕ × ℕ) × ℕ)
record_v2 name image size off = do
  (tag, off1) ← rd_word image size off
  if not (tag == 1) then fail else do
    (nlen, start) ← rd_word image size off1
    if ltb (size - start) nlen then fail else named_record name image size nlen start

-- `while (off < size)`. A `fault` with no fuel left does not happen: every record takes a byte.
unfoldable pub lookup_v2_loop : ℕ → List ℕ → List ℕ → ℕ → ℕ → Outcome (ℕ × ℕ)
lookup_v2_loop zero name image size off = fault
lookup_v2_loop (suc fuel) name image size off = elim (ltb off size) [
  | false ↦ fail
  | true ↦ do
    (found, off') ← record_v2 name image size off
    elim found [ some file ↦ ok file | none ↦ lookup_v2_loop fuel name image size off' ]
]

unfoldable pub lfs_lookup_v2 : List ℕ → List ℕ → ℕ → Outcome (ℕ × ℕ)
lfs_lookup_v2 name image size = lookup_v2_loop (suc size) name image size 8

unfoldable pub lfs_lookup : Volume → Option (List ℕ) → Outcome (ℕ × ℕ)
lfs_lookup s name = elim s.image [
  | none ↦ fail
  | some image ↦ elim name [
    | none ↦ fail
    | some name ↦
        if s.version == 2 then lfs_lookup_v2 name image s.size else lfs_lookup_v1 name image s.size
  ]
]
