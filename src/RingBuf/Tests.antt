-- ===== src/RingBuf/Tests.antt =====
-- Runs of os/kernel/ringbuf.c, and its theorems at concrete inputs.
use lardos.Base.{ℕ, ◌≡◌, refl, List, [], ◌∷◌, arith, some}
use lardos.RingBuf.{RingBuf, len, write, read, init, clear, skip, read_loop, advance, write_loop}
use lardos.RingBuf.Valid.{IsValid}
use lardos.RingBuf.Refine.{contents, write_lem, read_lem, skip-eq-read}

abbrev storage : List ℕ
storage = 9 ∷ 0 ∷ 7 ∷ 8 ∷ []

-- 7, 8, 9 round the end of four slots
abbrev wrapped : RingBuf
wrapped = record { buf = storage; cap = 4; head = 1; tail = 2 }

wrapped-IsValid : IsValid wrapped
wrapped-IsValid = omega arith

contents-wrapped : contents wrapped ≡ 7 ∷ 8 ∷ 9 ∷ []
unfolding len
contents-wrapped = refl

write_when_full : write wrapped (1 ∷ 2 ∷ []) 2 ≡ some (0, wrapped)
unfolding write write_loop
write_when_full = refl

read_round_the_end : (read wrapped 5).1 ≡ 7 ∷ 8 ∷ 9 ∷ []
unfolding read read_loop advance
read_round_the_end = refl

abbrev fresh : RingBuf
fresh = record { buf = storage; cap = 4; head = 0; tail = 0 }

init-fresh : init storage 4 ≡ fresh
unfolding init
init-fresh = refl

clear_drops : contents (clear wrapped) ≡ []
unfolding clear len
clear_drops = refl

abbrev two_bytes : List ℕ
two_bytes = 5 ∷ 6 ∷ []

write_lem_example :
    (r' : RingBuf) × (write fresh two_bytes 2 ≡ some (2, r'))
    × (contents r' ≡ 5 ∷ 6 ∷ [])
    × IsValid r'
unfolding len
write_lem_example = write_lem two_bytes 2 (omega arith) (omega arith)

read_lem_example :
    ((read wrapped 2).0 ≡ 2)
    × ((read wrapped 2).1 ≡ 7 ∷ 8 ∷ [])
    × (contents (read wrapped 2).2 ≡ 9 ∷ [])
    × IsValid (read wrapped 2).2
unfolding len
read_lem_example = read_lem 2 wrapped-IsValid

skip-eq-read_example :
    ((skip wrapped 2).0 ≡ (read wrapped 2).0)
    × (contents (skip wrapped 2).1 ≡ contents (read wrapped 2).2)
    × IsValid (skip wrapped 2).1
skip-eq-read_example = skip-eq-read 2 wrapped-IsValid
