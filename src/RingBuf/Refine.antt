-- ===== src/RingBuf/Refine.antt =====
-- os/kernel/ringbuf.c against a queue of bytes: what each call does to the bytes stored.
use lardos.Base.{
  ℕ, zero, suc, ◌+◌, ◌-◌, ◌%◌, ◌^◌, ◌<◌, min, ◌≡◌, refl, sym, ap, ◌∙◌, List, [], ◌∷◌, ◌++◌, arith,
  length, length-set, take, set, append-nil, append_assoc, ◌≤◌, drop, some, if◌then◌else◌, ltb,
}
use lardos.Base.{clip-eq-min}
use lardos.Base.Words.{byte_at}
use lardos.Circular.{window, length-window, window-set, drop-window}
use lardos.RingBuf.{
  RingBuf, put, advance, len, write_loop, write, free, read_loop, read, skip, answer,
}
use lardos.RingBuf.Valid.{IsValid, tail-add-len, len-grow, len-advance, len-add-free, len-lt}

-- The bytes stored, the oldest first.
abbrev pub contents : RingBuf → List ℕ
contents r = window 0 r.buf r.cap r.tail (len r)

pub length-contents : (r : RingBuf) → length (contents r) ≡ len r
length-contents r = length-window 0 r.buf r.cap r.tail (len r)

pub put-IsValid : {r : RingBuf} (x : ℕ) → IsValid r → IsValid (put r x)
unfolding put
put-IsValid {r} x v = omega (arith, length-set r.buf r.head x)

pub len-put : {r : RingBuf} (x : ℕ) → IsValid r → len r + 1 < r.cap → len (put r x) ≡ suc (len r)
unfolding put
len-put {r} x v room =
    ap (λ h. len (record r { buf = set r.buf r.head x; head = h % r.cap }))
      (let e : (r.head + 1) % 2 ^ 32 ≡ r.head + 1 = omega arith in e)
    ∙ len-grow (set r.buf r.head x) v room
    ∙ omega arith

-- One round of the write loop adds one byte at the end.
pub contents-put :
    {r : RingBuf} (x : ℕ)
    → IsValid r
    → len r + 1 < r.cap
    → contents (put r x) ≡ contents r ++ (x ∷ [])
contents-put {r} x v room =
    ap (window 0 (put r x).buf (put r x).cap (put r x).tail) (len-put x v room)
    ∙ (unfold put in
        window-set 0 r.cap r.buf x (len r) r.tail r.head v.storage v.tail_in (omega arith)
          (sym (tail-add-len v)))

write_loop_lem :
    (n : ℕ) (bytes : List ℕ) {r : RingBuf}
    → IsValid r
    → n + len r < r.cap
    → n ≤ length bytes
    → (r' : RingBuf) × (write_loop n bytes r ≡ some r')
      × (contents r' ≡ contents r ++ take n bytes)
      × IsValid r'
unfolding write_loop
write_loop_lem zero bytes {r} v room enough = (r, refl, sym (append-nil (contents r)), v)
write_loop_lem (suc n) [] {r} v room enough = absurd (omega arith)
write_loop_lem (suc n) (x ∷ bytes) {r} v room enough =
    let cap_same : (put r x).cap ≡ r.cap = unfold put in refl in
    let (r', run, e, v') =
      write_loop_lem n bytes (put-IsValid x v) (omega (arith, len-put x v (omega arith), cap_same))
        (omega arith) in
    (
      r',
      run,
      e
          ∙ ap (λ c. c ++ take n bytes) (contents-put x v (omega arith))
          ∙ append_assoc (contents r) (x ∷ []) (take n bytes),
      v',
    )

write_clipped :
    (bytes : List ℕ) (n m : ℕ) (r r' : RingBuf)
    → (if ltb (free r) n then free r else n) ≡ m
    → write_loop m bytes r ≡ some r'
    → write r bytes n ≡ some (m, r')
unfolding write
write_clipped bytes n m r r' clip run =
    ap (λ k. answer k (write_loop k bytes r)) clip ∙ ap (answer m) run

-- `ringbuf_write` stores the first bytes of `data` behind those that are there, as many of the `n` as
-- there are free slots (the capacity less one, less the bytes stored), returns their number, and
-- keeps the ring valid. `data` holds the bytes that are stored.
pub write_lem :
    {r : RingBuf} (bytes : List ℕ) (n : ℕ)
    → IsValid r
    → min n (r.cap - 1 - length (contents r)) ≤ length bytes
    → (r' : RingBuf) × (write r bytes n ≡ some (min n (r.cap - 1 - length (contents r)), r'))
      × (contents r' ≡ contents r ++ take (min n (r.cap - 1 - length (contents r))) bytes)
      × IsValid r'
write_lem {r} bytes n v enough =
    let (r', run, e, v') =
      write_loop_lem (min n (r.cap - 1 - length (contents r))) bytes v room enough in
    (
      r',
      write_clipped bytes n (min n (r.cap - 1 - length (contents r))) r r'
          (clip-eq-min (free r) n ∙ ap (min n) free_eq) run,
      e,
      v',
    )
  where
    free_eq : free r ≡ r.cap - 1 - length (contents r)
    free_eq = omega (arith, len-add-free v, length-contents r)

    room : min n (r.cap - 1 - length (contents r)) + len r < r.cap
    room = omega (arith, len-lt v, length-contents r)

advance-IsValid : {r : RingBuf} → IsValid r → IsValid (advance r)
unfolding advance
advance-IsValid v = omega arith

advance-eq : {r : RingBuf} → IsValid r → advance r ≡ record r { tail = (r.tail + 1) % r.cap }
unfolding advance
advance-eq {r} v =
    ap (λ t. record r { tail = t % r.cap })
      (let e : (r.tail + 1) % 2 ^ 32 ≡ r.tail + 1 = omega arith in e)

len-advance_one : {r : RingBuf} → IsValid r → 0 < len r → len r ≡ suc (len (advance r))
len-advance_one {r} v some_left = rw (advance-eq v) (omega (arith, len-advance 1 v some_left))

contents-advance :
    {r : RingBuf} → IsValid r → 0 < len r → contents r ≡ byte_at r.buf r.tail ∷ contents (advance r)
contents-advance {r} v some_left =
    ap (window 0 r.buf r.cap r.tail) (len-advance_one v some_left)
    ∙ ap (λ s. byte_at r.buf r.tail ∷ window 0 r.buf r.cap s.tail (len (advance r)))
        (sym (advance-eq v))
    ∙ (unfold advance in refl)

read_loop_lem :
    (n : ℕ) {r : RingBuf}
    → IsValid r
    → n ≤ len r
    → ((read_loop n r).0 ≡ take n (contents r))
      × (contents (read_loop n r).1 ≡ drop n (contents r))
      × IsValid (read_loop n r).1
unfolding read_loop
read_loop_lem zero {r} v le = (refl, refl, v)
read_loop_lem (suc n) {r} v le =
    let (out, rest, v') =
      read_loop_lem n (advance-IsValid v) (omega (arith, len-advance_one v (omega arith))) in
    rw (contents-advance v (omega arith)) (ap (λ l. byte_at r.buf r.tail ∷ l) out, rest, v')

-- `ringbuf_read` hands out the oldest bytes, as many of the `n` as are stored, in the order of the
-- writes, returns their number, leaves the bytes behind them, and keeps the ring valid.
pub read_lem :
    {r : RingBuf} (n : ℕ)
    → IsValid r
    → ((read r n).0 ≡ min n (length (contents r)))
      × ((read r n).1 ≡ take (min n (length (contents r))) (contents r))
      × (contents (read r n).2 ≡ drop (min n (length (contents r))) (contents r))
      × IsValid (read r n).2
unfolding read
read_lem {r} n v =
    let (out, rest, v') = read_loop_lem (min n (len r)) v (omega arith) in
    rw (clip-eq-min, length-contents r) (refl, out, rest, v')

-- The read position moved on by `m` bytes, at most those stored.
abbrev moved : RingBuf → ℕ → RingBuf
moved r m = record r { tail = (r.tail + m) % r.cap }

moved-contents :
    {r : RingBuf} (m : ℕ) → IsValid r → m ≤ len r → contents (moved r m) ≡ drop m (contents r)
moved-contents {r} m v le =
    ap (window 0 r.buf r.cap ((r.tail + m) % r.cap)) (len-advance m v le)
    ∙ sym (drop-window 0 r.buf r.cap m r.tail (len r) v.tail_in le)

no_wrap : {r : RingBuf} (m : ℕ) → IsValid r → m ≤ len r → (r.tail + m) % 2 ^ 32 ≡ r.tail + m
no_wrap {r} m v le = omega (arith, len-lt v)

skip_lem :
    {r : RingBuf} (n : ℕ)
    → IsValid r
    → ((skip r n).0 ≡ min n (len r))
      × (contents (skip r n).1 ≡ drop (min n (len r)) (contents r))
      × IsValid (skip r n).1
unfolding skip
skip_lem {r} n v =
    rw (clip-eq-min, no_wrap (min n (len r)) v (omega arith))
      (refl, moved-contents (min n (len r)) v (omega arith), omega arith)

-- On a valid ring, whose capacity is at most 2 ^ 31, `ringbuf_skip` returns what `ringbuf_read` would
-- return, leaves the bytes that it would leave, and keeps the ring valid.
pub skip-eq-read :
    {r : RingBuf} (n : ℕ)
    → IsValid r
    → ((skip r n).0 ≡ (read r n).0)
      × (contents (skip r n).1 ≡ contents (read r n).2)
      × IsValid (skip r n).1
skip-eq-read {r} n v =
    let (count, rest, v') = skip_lem n v in
    let (count', out, rest', w) = read_lem n v in
    let e : length (contents r) ≡ len r = length-contents r in
    (count ∙ sym (rw e at count'), rest ∙ sym (rw e at rest'), v')
