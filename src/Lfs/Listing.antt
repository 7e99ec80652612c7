-- ===== src/Lfs/Listing.antt =====
-- The listing of os/kernel/lfs.c: the names and sizes that it hands to the callback. Where the code
-- returns early, the listing ends with what was handed over before.
use lardos.Lfs.{Volume, lfs_rd_varu, rd_word, read_u32, Varu}
use lardos.Lfs.Reads.{Outcome, ok, fail, fault, read, ◌>>=◌}
use lardos.Base.{
  ℕ, zero, suc, ◌+◌, ◌-◌, ◌*◌, ◌^◌, ◌||◌, true, false, none, some, Option, List, [], ◌∷◌, ◌==◌,
  if◌then◌else◌, leb, ltb, bit_or, not,
}
use lardos.Base.Words.{u32}

abbrev pub Item : Type 0
Item = List ℕ × ℕ

-- `if (nlen >= LFS_MAX_NAME) nlen = LFS_MAX_NAME - 1;`
abbrev pub clip_name : ℕ → ℕ
clip_name nlen = if leb 64 nlen then 63 else nlen

-- the bytes copied to `name_buf`
unfoldable pub read_name : List ℕ → ℕ → ℕ → Outcome (List ℕ)
read_name image start zero = ok []
read_name image start (suc left) = do
  c ← read image start
  cs ← read_name image (start + 1) left
  ok (c ∷ cs)

unfoldable pub list_v1_loop : List ℕ → ℕ → ℕ → ℕ → Outcome (List Item)
list_v1_loop image size zero off = ok []
list_v1_loop image size (suc left) off = elim (ltb (u32 (off + 2)) size) [
  | false ↦ ok []
  | true ↦ do
    long_nlen ← read image off
    let nlen = clip_name long_nlen
    let start = off + 1
    elim (ltb size (u32 (start + nlen + 8))) [
      | true ↦ ok []
      | false ↦ do
        name ← read_name image start nlen
        data_sz ← read_u32 image (start + nlen + 4)
        items ← list_v1_loop image size left (start + nlen + 8)
        ok ((name, data_sz) ∷ items)
    ]
]

unfoldable pub lfs_list_v1 : List ℕ → ℕ → Outcome (List Item)
lfs_list_v1 image size = do
  c0 ← read image 8
  c1 ← read image 9
  list_v1_loop image size (bit_or c0 (c1 * 2 ^ 8)) 10

-- The sum of the sizes so far, with one more; `none` is `unbounded`.
unfoldable pub add_size : Option ℕ → Varu → Option ℕ
add_size none data_sz = none
add_size (some sum) data_sz =
    if data_sz.overflow || ltb (0xFFFFFFFF - data_sz.value) sum
    then none
    else some (sum + data_sz.value)

-- The sum of the extents' sizes, and the offset behind them.
unfoldable pub sizes_loop : List ℕ → ℕ → ℕ → ℕ → Option ℕ → Outcome (Option ℕ × ℕ)
sizes_loop image size zero off shown = ok (shown, off)
sizes_loop image size (suc left) off shown = do
  (data_off, off1) ← lfs_rd_varu image size off
  (data_sz, off2) ← lfs_rd_varu image size off1
  sizes_loop image size left off2 (add_size shown data_sz)

-- `unbounded ? LFS_SIZE_UNBOUNDED : shown_size`
abbrev pub shown_size : Option ℕ → ℕ
shown_size none = 0xFFFFFFFF
shown_size (some sum) = sum

-- one round: the item that is handed over, and the offset of the next record
unfoldable pub list_record : List ℕ → ℕ → ℕ → Outcome (Item × ℕ)
list_record image size off = do
  (tag, off1) ← rd_word image size off
  if not (tag == 1) then fail else do
    (nlen, start) ← rd_word image size off1
    if ltb (size - start) nlen then fail else do
      name ← read_name image start (clip_name nlen)
      (count, off2) ← rd_word image size (start + nlen)
      (shown, off3) ← sizes_loop image size count off2 (some 0)
      ok ((name, shown_size shown), off3)

-- A `fault` with no fuel left does not happen: every record takes a byte.
unfoldable pub list_v2_loop : ℕ → List ℕ → ℕ → ℕ → Outcome (List Item)
list_v2_loop zero image size off = fault
list_v2_loop (suc fuel) image size off = elim (ltb off size) [
  | false ↦ ok []
  | true ↦ elim (list_record image size off) [
    | fault ↦ fault
    | fail ↦ ok []
    | ok (item, off') ↦ do items ← list_v2_loop fuel image size off'; ok (item ∷ items)
  ]
]

unfoldable pub lfs_list : Volume → Outcome (List Item)
lfs_list s = elim s.image [
  | none ↦ ok []
  | some image ↦
      if s.version == 2 then list_v2_loop (suc s.size) image s.size 8 else lfs_list_v1 image s.size
]
