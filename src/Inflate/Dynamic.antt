-- ===== src/Inflate/Dynamic.antt =====
-- The tables of a dynamic block in os/kernel/lard_inflate.c, and the loop over the blocks.
use lardos.Inflate.{Ctx, Huff, get_bits, get_bits_base, above, decode_sym, bits_left}
use lardos.Inflate.Tree.{build_tree, fixed_lt, fixed_dt}
use lardos.Inflate.Blocks.{data_err, or_zero, is_none, inflate_block_data, inflate_stored}
use lardos.Inflate.Faults.{Run, ok, error, fault, ◌>>=◌, read, write}
use lardos.Base.{
  ℕ, zero, suc, ◌+◌, ◌-◌, ◌*◌, ◌||◌, Bool, true, false, none, some, Option, List, [], ◌∷◌, ◌==◌,
  if◌then◌else◌, ltb, replicate, drop, length,
}
use lardos.Base.Words.{u8}

unfoldable pub clcidx : List ℕ
clcidx = 16 ∷ 17 ∷ 18 ∷ 0 ∷ 8 ∷ 7 ∷ 9 ∷ 6 ∷ 10 ∷ 5 ∷ 11 ∷ 4 ∷ 12 ∷ 3 ∷ 13 ∷ 2 ∷ 14 ∷ 1 ∷ 15 ∷ []

-- `for (i = i; i < hclen; i++) len_buf[clcidx[i]] = get_bits(c, 3);`, with the rounds that are left
unfoldable pub clens_loop : ℕ → ℕ → Ctx → List ℕ → Run (Ctx × List ℕ)
clens_loop zero i c len_buf = ok (c, len_buf)
clens_loop (suc left) i c len_buf = do
  let (v, c') = get_bits c 3
  k ← read clcidx i
  len_buf' ← write len_buf k (u8 v)
  clens_loop left (i + 1) c' len_buf'

-- `while (rep--) len_buf[num++] = val;`
unfoldable pub repeat_loop : ℕ → ℕ → ℕ → List ℕ → Run (List ℕ)
repeat_loop zero num val len_buf = ok len_buf
repeat_loop (suc rep) num val len_buf = do
  len_buf' ← write len_buf num val
  repeat_loop rep (num + 1) val len_buf'

-- What a symbol of the code lengths means: the value, how often, and the context behind it.
unfoldable pub repetition : Ctx → ℕ → ℕ → List ℕ → Run (ℕ × ℕ × Ctx)
repetition c s num len_buf =
    if s == 16
    then (if num == 0 then error data_err else do
      val ← read len_buf (num - 1)
      let (rep, c') = get_bits_base c 2 3
      ok (val, rep, c'))
    else if s == 17
    then (let (rep, c') = get_bits_base c 3 3 in ok (0, rep, c'))
    else if s == 18
    then (let (rep, c') = get_bits_base c 7 11 in ok (0, rep, c'))
    else ok (u8 s, 1, c)

-- a symbol of -1, or one above the highest
abbrev pub bad_symbol : Option ℕ → Option ℕ → Bool
bad_symbol none max_sym = true
bad_symbol (some s) max_sym = above s max_sym

-- one round of the loop over the code lengths: what is written, and the number of lengths behind it
unfoldable pub lengths_round : ℕ → ℕ → Ctx → Huff → List ℕ → Run (ℕ × Ctx × List ℕ)
lengths_round total num c lt len_buf = do
  (s, c1) ← decode_sym c lt
  if bad_symbol s lt.max_sym then error data_err else do
    (val, rep, c2) ← repetition c1 (or_zero s) num len_buf
    if ltb (total - num) rep
        then error data_err
        else do len_buf' ← repeat_loop rep num val len_buf; ok (num + rep, c2, len_buf')

-- `while (num < hlit + hdist)`; every round writes a length at least.
unfoldable pub lengths_loop : ℕ → ℕ → ℕ → Ctx → Huff → List ℕ → Run (Ctx × List ℕ)
lengths_loop zero total num c lt len_buf = fault
lengths_loop (suc fuel) total num c lt len_buf = elim (ltb num total) [
  | false ↦ ok (c, len_buf)
  | true ↦ do
    (num', c', len_buf') ← lengths_round total num c lt len_buf
    lengths_loop fuel total num' c' lt len_buf'
]

abbrev pub fresh : Huff
fresh = record { cnt = replicate 16 0; sym = replicate 288 0; max_sym = none }

-- `lt` and `dt` from the code lengths, of which `hlit` belong to `lt`
unfoldable pub two_trees : Huff → List ℕ → ℕ → ℕ → Ctx → Run (Huff × Huff × Ctx)
two_trees lt0 len_buf hlit hdist c = do
  last ← read len_buf 256
  if last == 0 then error data_err else do
    lt ← build_tree lt0 len_buf hlit
    dt ← build_tree fresh (drop hlit len_buf) hdist
    ok (lt, dt, c)

unfoldable pub decode_dyn_trees : Ctx → Run (Huff × Huff × Ctx)
decode_dyn_trees c =
    let (hlit, c1) = get_bits_base c 5 257 in
    let (hdist, c2) = get_bits_base c1 5 1 in
    let (hclen, c3) = get_bits_base c2 4 4 in
    if ltb 286 hlit || ltb 30 hdist then error data_err else do
      (c4, len_buf) ← clens_loop hclen 0 c3 (replicate 320 0)
      lt ← build_tree fresh len_buf 19
      if is_none lt.max_sym then error data_err else do
        (c5, len_buf') ← lengths_loop (suc (hlit + hdist)) (hlit + hdist) 0 c4 lt len_buf
        two_trees lt len_buf' hlit hdist c5

abbrev pub block_data : ℕ → Ctx → Huff → Huff → Run Ctx
block_data cap c lt dt = inflate_block_data (suc (bits_left c)) cap c lt dt

unfoldable pub inflate_dynamic : ℕ → Ctx → Run Ctx
inflate_dynamic cap c = do (lt, dt, c') ← decode_dyn_trees c; block_data cap c' lt dt

unfoldable pub inflate_block : ℕ → Ctx → ℕ → Run Ctx
inflate_block cap c btype =
    if btype == 0
    then inflate_stored cap c
    else if btype == 1
    then block_data cap c fixed_lt fixed_dt
    else if btype == 2
    then inflate_dynamic cap c
    else error data_err

unfoldable pub blocks_loop : ℕ → ℕ → Ctx → Run Ctx
blocks_loop zero cap c = fault
blocks_loop (suc fuel) cap c =
    let (bfinal, c1) = get_bits c 1 in
    let (btype, c2) = get_bits c1 2 in
    inflate_block cap c2 btype >>= λ c3. elim (bfinal == 0) [
      | false ↦ ok c3
      | true ↦ blocks_loop fuel cap c3
    ]

abbrev pub start : List ℕ → Ctx
start source = record { src = source; bits = 0; bitcnt = 0; overflow = false; out = [] }

-- The bytes written; `*destLen` is their number. `cap` is `*destLen` at the call.
unfoldable pub lard_inflate_uncompress : ℕ → List ℕ → Run (List ℕ)
lard_inflate_uncompress cap source = do
  c ← blocks_loop (suc (8 * length source)) cap (start source)
  if c.overflow then error data_err else ok c.out
