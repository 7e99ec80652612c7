-- ===== src/Inflate/Tree.antt =====
-- The Huffman tables of os/kernel/lard_inflate.c: the fixed ones, and the one built from code lengths.
-- A write outside a table is a fault.
use lardos.Inflate.{Huff}
use lardos.Inflate.Faults.{Run, ok, error, ◌>>=◌, read, write}
use lardos.Inflate.Blocks.{data_err}
use lardos.Base.{
  ℕ, zero, suc, ◌+◌, ◌-◌, ◌*◌, ◌&&◌, ◌||◌, true, false, none, some, Option, List, [], ◌∷◌, ◌++◌,
  ◌==◌, if◌then◌else◌, replicate, ltb, take, get_or, not,
}
use lardos.Base.Words.{u16}

-- `n` numbers from `start` on
abbrev pub upward : ℕ → ℕ → List ℕ
upward start zero = []
upward start (suc n) = start ∷ upward (suc start) n

unfoldable pub fixed_lt : Huff
fixed_lt = record {
  cnt = replicate 7 0 ++ (24 ∷ 152 ∷ 112 ∷ replicate 6 0);
  sym = upward 256 24 ++ (upward 0 144 ++ (upward 280 8 ++ upward 144 112));
  max_sym = some 285;
}

unfoldable pub fixed_dt : Huff
fixed_dt = record {
  cnt = replicate 5 0 ++ (32 ∷ replicate 10 0);
  sym = upward 0 32 ++ replicate 256 0;
  max_sym = some 29;
}

-- `t->cnt[l]++` for a length that is not 0
abbrev pub count_up : ℕ → List ℕ → Run (List ℕ)
count_up zero cnt = ok cnt
count_up (suc l) cnt = do u ← read cnt (suc l); write cnt (suc l) (u16 (u + 1))

-- The counting loop: the counts and `max_sym`.
unfoldable pub count_loop : List ℕ → ℕ → List ℕ → Option ℕ → Run (List ℕ × Option ℕ)
count_loop [] i cnt max_sym = ok (cnt, max_sym)
count_loop (l ∷ len) i cnt max_sym =
    if ltb 15 l
    then error data_err
    else do cnt' ← count_up l cnt; count_loop len (i + 1) cnt' (if l == 0 then max_sym else some i)

-- The loop over the lengths: the offsets, what is available at the end, and the number of codes; `none`
-- when the codes are too many.
unfoldable pub offsets_loop : List ℕ → ℕ → ℕ → Option (List ℕ × ℕ × ℕ)
offsets_loop [] avail nc = some ([], avail, nc)
offsets_loop (u ∷ cnt) avail nc = elim (ltb avail u) [
  | true ↦ none
  | false ↦ elim (offsets_loop cnt (2 * (avail - u)) (nc + u)) [
    | none ↦ none
    | some (off, avail', nc') ↦ some (u16 nc ∷ off, avail', nc')
  ]
]

-- `t->sym[off[l]++] = i` for a length that is not 0: the offsets and the symbols
abbrev pub place : ℕ → ℕ → List ℕ → List ℕ → Run (List ℕ × List ℕ)
place zero i off sym = ok (off, sym)
place (suc l) i off sym = do
  o ← read off (suc l)
  off' ← write off (suc l) (u16 (o + 1))
  sym' ← write sym o (u16 i)
  ok (off', sym')

-- `for (i = i; i < n; i++) if (len[i]) t->sym[off[len[i]]++] = i;`
unfoldable pub place_loop : List ℕ → ℕ → List ℕ → List ℕ → Run (List ℕ)
place_loop [] i off sym = ok sym
place_loop (l ∷ len) i off sym = place l i off sym >>= λ r. place_loop len (i + 1) r.0 r.1

-- A single code gets a second one, which no symbol uses.
unfoldable pub lone_code : ℕ → List ℕ → List ℕ → Option ℕ → Run Huff
lone_code nc cnt sym max_sym =
    if nc == 1
    then (do
      cnt' ← write cnt 1 2
      sym' ← write sym 1 (elim max_sym [ none ↦ 0 | some m ↦ u16 (m + 1) ])
      ok (record { cnt = cnt'; sym = sym'; max_sym = max_sym }))
    else ok (record { cnt = cnt; sym = sym; max_sym = max_sym })

-- LARD_INFLATE_DATA_ERR where the codes are too many.
abbrev pub offsets_of : Option (List ℕ × ℕ × ℕ) → Run (List ℕ × ℕ × ℕ)
offsets_of none = error data_err
offsets_of (some r) = ok r

-- The symbols, once the codes are counted. Those that stood in the table before stay where no new one is
-- placed.
unfoldable pub place_symbols : Huff → List ℕ → List ℕ → Option ℕ → Run Huff
place_symbols t len cnt max_sym = do
  (off, avail, nc) ← offsets_of (offsets_loop cnt 1 0)
  if (ltb 1 nc && ltb 0 avail) || (nc == 1 && not (get_or cnt 1 0 == 1))
      then error data_err
      else do sym ← place_loop len 0 off t.sym; lone_code nc cnt sym max_sym

unfoldable pub build_tree : Huff → List ℕ → ℕ → Run Huff
build_tree t lens n = if ltb 288 n then error data_err else do
  (cnt, max_sym) ← count_loop (take n lens) 0 (replicate 16 0) none
  place_symbols t (take n lens) cnt max_sym
