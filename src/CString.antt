-- ===== src/CString.antt =====
-- os/kernel/string.c: the functions that write memory; CString/Compare.antt is those that read. Memory
-- is a function from addresses to bytes; addresses are 64-bit words. The functions return their first
-- argument, which callers ignore.
use lardos.Base.{ℕ, zero, suc, ◌+◌, ◌%◌, ◌^◌, ◌||◌, ◌==◌, if◌then◌else◌}
use lardos.Base.{leb, ◌==◌}
pub mod Compare
pub mod Order
pub mod Moved
pub mod Tests

abbrev pub Memory : Type 0
Memory = ℕ → ℕ

abbrev pub put : Memory → ℕ → ℕ → Memory
put m a v x = if x == a then v else m x

-- `for (i = i; i < i + k; i++) a[i] = b[i];`
abbrev pub copy_up : Memory → ℕ → ℕ → ℕ → ℕ → Memory
copy_up m d s i zero = m
copy_up m d s i (suc k) = copy_up (put m (d + i) (m (s + i))) d s (suc i) k

-- `for (i = n; i > 0; i--) a[i - 1] = b[i - 1];`
abbrev pub copy_down : Memory → ℕ → ℕ → ℕ → Memory
copy_down m d s zero = m
copy_down m d s (suc i) = copy_down (put m (d + i) (m (s + i))) d s i

abbrev pub memcpy : Memory → ℕ → ℕ → ℕ → Memory
memcpy m d s n = copy_up m d s 0 n

unfoldable pub memmove : Memory → ℕ → ℕ → ℕ → Memory
memmove m d s n =
    if leb d s || leb ((s + n) % 2 ^ 64) d then copy_up m d s 0 n else copy_down m d s n

abbrev pub fill : Memory → ℕ → ℕ → ℕ → ℕ → Memory
fill m p c i zero = m
fill m p c i (suc k) = fill (put m (p + i) (c % 256)) p c (suc i) k

abbrev pub memset : Memory → ℕ → ℕ → ℕ → Memory
memset m p c n = fill m p c 0 n
