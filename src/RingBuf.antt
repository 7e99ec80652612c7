-- ===== src/RingBuf.antt =====
-- os/kernel/ringbuf.c and os/include/ringbuf.h: the byte ring. `head` is the write position and
-- `tail` the read position; one slot stays free. An operation that changes `*r` returns the new
-- ring beside what it returns in C.
pub mod Valid
pub mod Refine
mod Tests
use lardos.Base.{
  ℕ, zero, suc, ◌+◌, ◌-◌, ◌%◌, List, [], ◌∷◌, leb, ltb, if◌then◌else◌, set, none, some, Option,
}
use lardos.Base.Words.{u32, sub32, byte_at}

pub record RingBuf : Type 0 where
  pub buf : List ℕ
  pub cap : ℕ
  pub head : ℕ
  pub tail : ℕ

unfoldable pub init : List ℕ → ℕ → RingBuf
init buf cap = record { buf = buf; cap = cap; head = 0; tail = 0 }

-- `ringbuf_len`
unfoldable pub len : RingBuf → ℕ
len r = if leb r.tail r.head then r.head - r.tail else u32 (sub32 r.cap r.tail + r.head)

-- `ringbuf_free`
unfoldable pub free : RingBuf → ℕ
unfolding len
free r = sub32 (sub32 r.cap (len r)) 1

-- one round of the loop of `ringbuf_write`
unfoldable pub put : RingBuf → ℕ → RingBuf
put r x = record r { buf = set r.buf r.head x; head = u32 (r.head + 1) % r.cap }

-- one round of the loop of `ringbuf_read`: the read position moves on
unfoldable pub advance : RingBuf → RingBuf
advance r = record r { tail = u32 (r.tail + 1) % r.cap }

-- the loop of `ringbuf_write`, `n` rounds over what is left of `data`; `none` for a read behind its end
unfoldable pub write_loop : ℕ → List ℕ → RingBuf → Option RingBuf
write_loop zero bytes r = some r
write_loop (suc n) [] r = none
write_loop (suc n) (x ∷ bytes) r = write_loop n bytes (put r x)

-- `return n;`, with the ring after the loop
abbrev pub answer : ℕ → Option RingBuf → Option (ℕ × RingBuf)
answer m none = none
answer m (some r) = some (m, r)

unfoldable pub write : RingBuf → List ℕ → ℕ → Option (ℕ × RingBuf)
unfolding free
write r bytes n =
    let f = free r in let m = if ltb f n then f else n in answer m (write_loop m bytes r)

-- the loop of `ringbuf_read`: what it stores to `out`, and the ring
unfoldable pub read_loop : ℕ → RingBuf → List ℕ × RingBuf
read_loop zero r = ([], r)
read_loop (suc n) r = let (out, r') = read_loop n (advance r) in (byte_at r.buf r.tail ∷ out, r')

unfoldable pub read : RingBuf → ℕ → ℕ × List ℕ × RingBuf
unfolding len
read r n =
    let l = len r in
    let m = if ltb l n then l else n in let (out, r') = read_loop m r in (m, out, r')

unfoldable pub skip : RingBuf → ℕ → ℕ × RingBuf
unfolding len
skip r n =
    let l = len r in
    let m = if ltb l n then l else n in (m, record r { tail = u32 (r.tail + m) % r.cap })

unfoldable pub clear : RingBuf → RingBuf
clear r = record r { head = 0; tail = 0 }
