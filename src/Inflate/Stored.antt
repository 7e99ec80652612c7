-- ===== src/Inflate/Stored.antt =====
-- A stored block of os/kernel/lard_inflate.c.
use lardos.Inflate.{get_bits, refill_bits, refill, Ctx}
use lardos.Inflate.Faults.{ok}
use lardos.Base.{
  ℕ, ◌+◌, ◌-◌, ◌*◌, ◌/◌, ◌%◌, ◌^◌, ◌≤◌, ◌<◌, ◌≡◌, List, ◌∷◌, ◌++◌, length, bit_or, suc, refl, ◌∙◌,
  false, [], arith, bit_xor, drop, ltb, length-append, ==-refl, drop-append, take_within, take_all,
}
use lardos.Inflate.Dynamic.{lard_inflate_uncompress, blocks_loop, inflate_block}
use lardos.Base.Bits.{bit_or_low, bit_xor-ones}
use lardos.Inflate.Blocks.{inflate_stored}

-- one final stored block with the payload, as the standard lays it out
abbrev pub stored_stream : List ℕ → List ℕ
stored_stream payload =
    let n = length payload in
    1 ∷ (n % 256) ∷ (n / 256) ∷ (255 - n % 256) ∷ (255 - n / 256) ∷ payload

le16_value : (lo hi : ℕ) → lo < 256 → bit_or lo (hi * 2 ^ 8) ≡ lo + hi * 256
le16_value lo hi h = bit_or_low 8 hi lo h

complement_value :
    (n : ℕ) → n < 2 ^ 16 → bit_xor (bit_or (255 - n % 256) ((255 - n / 256) * 2 ^ 8)) 0xFFFF ≡ n
complement_value n small =
    let e = le16_value (255 - n % 256) (255 - n / 256) (omega arith) in
    rw (e, bit_xor-ones 16 (255 - n % 256 + (255 - n / 256) * 256) (omega arith)) (omega arith)

stored_lem :
    (cap : ℕ) (c : Ctx) (payload rest : List ℕ)
    → length payload < 2 ^ 16
    → length payload ≤ cap
    → c.src ≡ drop 1 (stored_stream payload) ++ rest
    → c.out ≡ []
    → inflate_stored cap c ≡ ok (record c { src = rest; bits = 0; bitcnt = 0; out = payload })
unfolding inflate_stored
stored_lem cap c payload rest small room there empty =
    let n = length payload in
    let size : bit_or (n % 256) (n / 256 * 2 ^ 8) ≡ n =
      le16_value (n % 256) (n / 256) (omega arith) ∙ omega arith in
    let whole : ltb (length (payload ++ rest)) n ≡ false =
      ground (arith, length-append payload rest) in
    let fits : ltb (cap - 0) n ≡ false = ground arith in
    let four : ltb (suc (suc (suc (suc (length (payload ++ rest)))))) 4 ≡ false = ground arith in
    rw
      (
        there,
        empty,
        four,
        size,
        complement_value n small,
        ==-refl n,
        whole,
        fits,
        drop-append payload rest,
        take_within n payload rest (omega arith),
        take_all payload n (omega arith),
      )
      refl

-- A payload of fewer than 2 ^ 16 bytes that is stored in one final block comes out unchanged, whatever
-- stands behind the block, if the destination has room.
pub uncompress-stored :
    (cap : ℕ) (payload rest : List ℕ)
    → length payload < 2 ^ 16
    → length payload ≤ cap
    → lard_inflate_uncompress cap (stored_stream payload ++ rest) ≡ ok payload
unfolding lard_inflate_uncompress blocks_loop get_bits refill_bits refill inflate_block
uncompress-stored cap payload rest small room =
    rw
      (stored_lem cap
        (record {
          src = drop 1 (stored_stream payload) ++ rest;
          bits = 0;
          bitcnt = 5;
          overflow = false;
          out = [];
        })
        payload rest small room refl refl)
      refl
