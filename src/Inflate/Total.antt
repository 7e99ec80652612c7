-- ===== src/Inflate/Total.antt =====
-- os/kernel/lard_inflate.c on any source: the decoder comes to an end, stays inside its arrays and the
-- destination.
use lardos.Inflate.{Ctx, bits_left}
use lardos.Base.{ℕ, ◌≤◌, ◌<◌, length}

-- a block behind `c`: fewer bits are left, and the output fits
abbrev Block : ℕ → Ctx → Ctx → Type 0
Block cap c c' = (bits_left c' < bits_left c) × (length c'.out ≤ cap)
