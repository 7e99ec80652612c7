-- ===== src/Inflate/Blocks.antt =====
-- The blocks of os/kernel/lard_inflate.c: compressed data and stored bytes.
use lardos.Inflate.{Ctx, Huff, above, decode_sym, get_bits_base}
use lardos.Inflate.Faults.{Run, ok, error, fault, ◌>>=◌, read}
use lardos.Base.{
  ℕ, zero, suc, ◌-◌, ◌*◌, ◌^◌, ◌||◌, Bool, true, false, none, some, Option, List, [], ◌∷◌, ◌++◌,
  ◌==◌, if◌then◌else◌, ltb, leb, bit_or, drop, length, get_or, not, bit_xor, take,
}
use lardos.Base.Int.{ℤ, neg}
use lardos.Base.Words.{u8}

abbrev pub data_err : ℤ
data_err = neg 3

abbrev pub buf_err : ℤ
buf_err = neg 5

unfoldable pub len_bits : List ℕ
len_bits =
    0 ∷ 0 ∷ 0 ∷ 0 ∷ 0 ∷ 0 ∷ 0 ∷ 0 ∷ 1 ∷ 1 ∷ 1 ∷ 1 ∷ 2 ∷ 2 ∷ 2 ∷ 2 ∷ 3 ∷ 3 ∷ 3 ∷ 3 ∷ 4 ∷ 4 ∷ 4 ∷ 4
    ∷ 5 ∷ 5 ∷ 5 ∷ 5 ∷ 0 ∷ 127 ∷ []

unfoldable pub len_base : List ℕ
len_base =
    3 ∷ 4 ∷ 5 ∷ 6 ∷ 7 ∷ 8 ∷ 9 ∷ 10 ∷ 11 ∷ 13 ∷ 15 ∷ 17 ∷ 19 ∷ 23 ∷ 27 ∷ 31 ∷ 35 ∷ 43 ∷ 51 ∷ 59 ∷ 67
    ∷ 83 ∷ 99 ∷ 115 ∷ 131 ∷ 163 ∷ 195 ∷ 227 ∷ 258 ∷ 0 ∷ []

unfoldable pub dist_bits : List ℕ
dist_bits =
    0 ∷ 0 ∷ 0 ∷ 0 ∷ 1 ∷ 1 ∷ 2 ∷ 2 ∷ 3 ∷ 3 ∷ 4 ∷ 4 ∷ 5 ∷ 5 ∷ 6 ∷ 6 ∷ 7 ∷ 7 ∷ 8 ∷ 8 ∷ 9 ∷ 9 ∷ 10 ∷ 10
    ∷ 11 ∷ 11 ∷ 12 ∷ 12 ∷ 13 ∷ 13 ∷ []

unfoldable pub dist_base : List ℕ
dist_base =
    1 ∷ 2 ∷ 3 ∷ 4 ∷ 5 ∷ 7 ∷ 9 ∷ 13 ∷ 17 ∷ 25 ∷ 33 ∷ 49 ∷ 65 ∷ 97 ∷ 129 ∷ 193 ∷ 257 ∷ 385 ∷ 513 ∷ 769
    ∷ 1025 ∷ 1537 ∷ 2049 ∷ 3073 ∷ 4097 ∷ 6145 ∷ 8193 ∷ 12289 ∷ 16385 ∷ 24577 ∷ []

-- `for (i = 0; i < ln; i++) c->dst[i] = from[i];`, where the bytes written may be read again
unfoldable pub copy_loop : ℕ → ℕ → List ℕ → Run (List ℕ)
copy_loop zero dist out = ok out
copy_loop (suc n) dist out =
    if ltb (length out) dist
    then fault
    else do b ← read out (length out - dist); copy_loop n dist (out ++ b ∷ [])

-- the copy of `ln` bytes from `dist` back, with its two tests
unfoldable pub copy_match : ℕ → Ctx → ℕ → ℕ → Run Ctx
copy_match cap c ln dist =
    if ltb (length c.out) dist
    then error data_err
    else if ltb (cap - length c.out) ln
    then error buf_err
    else do out ← copy_loop ln dist c.out; ok (record c { out = out })

-- `d < 0 || d > dt->max_sym || d > 29`
abbrev pub bad_dist : Option ℕ → Option ℕ → Bool
bad_dist none max_sym = true
bad_dist (some d) max_sym = above d max_sym || ltb 29 d

abbrev pub or_zero : Option ℕ → ℕ
or_zero none = 0
or_zero (some d) = d

abbrev pub is_none : Option ℕ → Bool
is_none none = true
is_none (some d) = false

-- a match of `ln` bytes whose distance symbol is `d`
unfoldable pub match_from : ℕ → Ctx → Option ℕ → Option ℕ → ℕ → Run Ctx
match_from cap c d max_sym ln = if bad_dist d max_sym then error data_err else do
  dbits ← read dist_bits (or_zero d)
  dbase ← read dist_base (or_zero d)
  let (dist, c') = get_bits_base c dbits dbase
  copy_match cap c' ln dist

-- a match whose length symbol is `s`
unfoldable pub inflate_match : ℕ → Ctx → Huff → Huff → ℕ → Run Ctx
inflate_match cap c lt dt s =
    if above s lt.max_sym || ltb 28 (s - 257) || is_none dt.max_sym then error data_err else do
      lbits ← read len_bits (s - 257)
      lbase ← read len_base (s - 257)
      let (ln, c1) = get_bits_base c lbits lbase
      (d, c2) ← decode_sym c1 dt
      match_from cap c2 d dt.max_sym ln

-- A symbol of -1 is below 256 too, and its byte is 255.
abbrev pub literal : Option ℕ → Option ℕ
literal none = some 255
literal (some s) = if ltb s 256 then some (u8 s) else none

unfoldable pub put_byte : ℕ → Ctx → ℕ → Run Ctx
put_byte cap c b =
    if leb cap (length c.out) then error buf_err else ok (record c { out = c.out ++ b ∷ [] })

-- One round: the context, and whether the block goes on.
unfoldable pub block_round : ℕ → Ctx → Huff → Huff → Run (Bool × Ctx)
block_round cap c lt dt = do
  (s, c1) ← decode_sym c lt
  if c1.overflow then error data_err else elim (literal s) [
    | some b ↦ do c2 ← put_byte cap c1 b; ok (true, c2)
    | none ↦
        if or_zero s == 256
        then ok (false, c1)
        else do c2 ← inflate_match cap c1 lt dt (or_zero s); ok (true, c2)
  ]

unfoldable pub inflate_block_data : ℕ → ℕ → Ctx → Huff → Huff → Run Ctx
inflate_block_data zero cap c lt dt = fault
inflate_block_data (suc fuel) cap c lt dt = do
  (more, c') ← block_round cap c lt dt
  elim more [ false ↦ ok c' | true ↦ inflate_block_data fuel cap c' lt dt ]

-- `read_le16`, at the first two bytes
abbrev pub read_le16 : List ℕ → ℕ
read_le16 p = bit_or (get_or p 0 0) (get_or p 1 0 * 2 ^ 8)

unfoldable pub inflate_stored : ℕ → Ctx → Run Ctx
inflate_stored cap c =
    let ln = read_le16 c.src in
    let inv = read_le16 (drop 2 c.src) in
    let src = drop 4 c.src in
    if ltb (length c.src) 4
    then error data_err
    else if not (ln == bit_xor inv 0xFFFF)
    then error data_err
    else if ltb (length src) ln
    then error data_err
    else if ltb (cap - length c.out) ln
    then error buf_err
    else ok (record c { src = drop ln src; bits = 0; bitcnt = 0; out = c.out ++ take ln src })
