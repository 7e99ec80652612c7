-- ===== src/RingBuf/Valid.antt =====
-- The representation invariant of `ringbuf_t`, and what the two counters mean under it.
use lardos.Base.{ℕ, ◌+◌, ◌-◌, ◌%◌, ◌^◌, ◌≤◌, ◌<◌, ◌≡◌, List, arith, length}
use lardos.Circular.{next_cases, add-mod_cases}
use lardos.RingBuf.{RingBuf, init, len, free}

-- `small` keeps `tail + n` of `ringbuf_skip` from wrapping.
pub record IsValid (r : RingBuf) : Type 0 where
  pub nonempty : 0 < r.cap
  pub small : r.cap ≤ 2 ^ 31
  pub storage : r.cap ≤ length r.buf
  pub head_in : r.head < r.cap
  pub tail_in : r.tail < r.cap

pub init-IsValid :
    (buf : List ℕ) (cap : ℕ) → 0 < cap → cap ≤ 2 ^ 31 → cap ≤ length buf → IsValid (init buf cap)
unfolding init
init-IsValid buf cap p q h = record {
  nonempty = p;
  small = q;
  storage = h;
  head_in = p;
  tail_in = p;
}

-- The bytes stored and the free slots make up the capacity, but for the slot kept free.
pub len-add-free : {r : RingBuf} → IsValid r → len r + free r + 1 ≡ r.cap
unfolding free
len-add-free v = ground arith

pub len-lt : {r : RingBuf} → IsValid r → len r < r.cap
unfolding len
len-lt v = ground arith

-- The write position stands `len` steps behind the read position.
pub tail-add-len : {r : RingBuf} → IsValid r → (r.tail + len r) % r.cap ≡ r.head
unfolding len
tail-add-len {r} v = ground (arith, add-mod_cases r.tail (len r) r.cap v.tail_in (len-lt v))

-- Moving the read position `k` steps on takes `k` off the length.
pub len-advance :
    {r : RingBuf} (k : ℕ)
    → IsValid r
    → k ≤ len r
    → len (record r { tail = (r.tail + k) % r.cap }) ≡ len r - k
unfolding len
len-advance {r} k v h =
    ground (arith, add-mod_cases r.tail k r.cap v.tail_in (omega (arith, h, len-lt v)))

-- Moving the write position on adds one.
pub len-grow :
    {r : RingBuf} (buf : List ℕ)
    → IsValid r
    → len r + 1 < r.cap
    → len (record r { buf = buf; head = (r.head + 1) % r.cap }) ≡ len r + 1
unfolding len
len-grow {r} buf v h = ground (arith, next_cases r.head r.cap v.head_in)
