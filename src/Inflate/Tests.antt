-- ===== src/Inflate/Tests.antt =====
-- Runs of os/kernel/lard_inflate.c, and its theorems at concrete streams.
use lardos.Inflate.Dynamic.{
  lard_inflate_uncompress, blocks_loop, inflate_block, inflate_dynamic, decode_dyn_trees, two_trees,
  lengths_loop, lengths_round, repeat_loop, repetition, clens_loop, clcidx,
}
use lardos.Inflate.{refill}
use lardos.Inflate.Faults.{ok, error, read, write}
use lardos.Base.Text.{codes}
use lardos.Base.{ℕ, ◌≡◌, List, [], ◌∷◌, refl, ◌++◌, arith}
use lardos.Base.Int.{neg}
use lardos.Inflate.Blocks.{
  inflate_stored, inflate_block_data, block_round, put_byte, inflate_match, copy_match, copy_loop,
  len_bits, len_base, dist_bits, dist_base, match_from,
}
use lardos.Inflate.{decode_sym, decode_loop, symbol, get_bits, get_bits_base, refill_bits, refill}
use lardos.Inflate.Tree.{
  fixed_lt, fixed_dt, build_tree, place_symbols, lone_code, place_loop, offsets_loop, count_loop,
}
use lardos.Inflate.Stored.{stored_stream, uncompress-stored}

abbrev fixed_stream : List ℕ
fixed_stream = 75 ∷ 76 ∷ 74 ∷ 78 ∷ 132 ∷ 162 ∷ 20 ∷ 0 ∷ []

abbrev dynamic_stream : List ℕ
dynamic_stream =
    5 ∷ 193 ∷ 1 ∷ 1 ∷ 0 ∷ 0 ∷ 0 ∷ 130 ∷ 160 ∷ 173 ∷ 216 ∷ 255 ∷ 15 ∷ 129 ∷ 182 ∷ 193 ∷ 200 ∷ 96
    ∷ 180 ∷ 137 ∷ 38 ∷ 80 ∷ 68 ∷ 50 ∷ 66 ∷ 230 ∷ []

fixed_block : lard_inflate_uncompress 12 fixed_stream ≡ ok (codes "abcabcabcabd")
unfolding lard_inflate_uncompress blocks_loop inflate_block inflate_stored inflate_block_data
    block_round decode_sym decode_loop symbol get_bits get_bits_base refill_bits refill read
    put_byte inflate_match match_from copy_match copy_loop len_bits len_base dist_bits dist_base
    fixed_lt fixed_dt
fixed_block = refl

dynamic_block :
    lard_inflate_uncompress 60 dynamic_stream
    ≡ ok (codes "abcccaaaacaabacaaaacaabccabaabcabaaaaabbaabaababacaabaaabaca")
unfolding lard_inflate_uncompress blocks_loop inflate_block inflate_stored inflate_block_data
    block_round decode_sym decode_loop symbol get_bits get_bits_base refill_bits refill read
    put_byte inflate_match match_from copy_match copy_loop len_bits len_base dist_bits dist_base
    fixed_lt fixed_dt inflate_dynamic decode_dyn_trees two_trees lengths_loop lengths_round
    repeat_loop repetition clens_loop clcidx write build_tree place_symbols lone_code place_loop
    offsets_loop count_loop
dynamic_block = refl

no_room : lard_inflate_uncompress 11 fixed_stream ≡ error (neg 5)
unfolding lard_inflate_uncompress blocks_loop inflate_block inflate_stored inflate_block_data
    block_round decode_sym decode_loop symbol get_bits get_bits_base refill_bits refill read
    put_byte inflate_match match_from copy_match copy_loop len_bits len_base dist_bits dist_base
    fixed_lt fixed_dt
no_room = refl

uncompress-stored_example :
    lard_inflate_uncompress 5 (stored_stream (codes "light") ++ 9 ∷ []) ≡ ok (codes "light")
uncompress-stored_example = uncompress-stored 5 (codes "light") (9 ∷ []) (omega arith) (omega arith)
