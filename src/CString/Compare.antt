-- ===== src/CString/Compare.antt =====
-- os/kernel/string.c: the functions that read. A pointer is an address; 0 is null.
use lardos.Base.{ℕ, zero, suc, ◌+◌, ◌-◌, ◌&&◌, none, some, Option, ◌==◌, if◌then◌else◌, ltb, not}
use lardos.Base.Int.{ℤ, pos, neg, negsuc}
use lardos.CString.{Memory}

-- `(int)x - (int)y`
abbrev pub difference : ℕ → ℕ → ℤ
difference x y = if ltb x y then neg (y - x) else pos (x - y)

-- `memcmp`: the loop, with `n` bytes left
unfoldable pub memcmp : Memory → ℕ → ℕ → ℕ → ℤ
memcmp m a b zero = pos 0
memcmp m a b (suc n) =
    let rest = memcmp m (suc a) (suc b) n in
    if not (m a == m b) then difference (m a) (m b) else rest

-- The loop of `strlen`; `none` is a run that is out of fuel.
unfoldable pub strlen_loop : ℕ → Memory → ℕ → ℕ → Option ℕ
strlen_loop zero m s n = none
strlen_loop (suc fuel) m s n =
    let rest = strlen_loop fuel m s (suc n) in if m (s + n) == 0 then some n else rest

unfoldable pub strlen : ℕ → Memory → ℕ → Option ℕ
strlen fuel m s = if s == 0 then some 0 else strlen_loop fuel m s 0

-- The loop of `strcmp`.
unfoldable pub strcmp_loop : ℕ → Memory → ℕ → ℕ → Option ℤ
strcmp_loop zero m a b = none
strcmp_loop (suc fuel) m a b =
    let rest = strcmp_loop fuel m (suc a) (suc b) in
    if not (m a == 0) && m a == m b then rest else some (difference (m a) (m b))

unfoldable pub strcmp : ℕ → Memory → ℕ → ℕ → Option ℤ
strcmp fuel m a b =
    let compared = strcmp_loop fuel m a b in
    if a == 0
    then some (if b == 0 then pos 0 else negsuc 0)
    else if b == 0
    then some (pos 1)
    else compared

-- The loop of `strncmp`, with `n` characters left.
unfoldable pub strncmp_loop : Memory → ℕ → ℕ → ℕ → ℤ
strncmp_loop m a b zero = pos 0
strncmp_loop m a b (suc n) =
    let rest = strncmp_loop m (suc a) (suc b) n in
    if not (m a == m b) then difference (m a) (m b) else if m a == 0 then pos 0 else rest

unfoldable pub strncmp : Memory → ℕ → ℕ → ℕ → ℤ
strncmp m a b n =
    if n == 0
    then pos 0
    else if a == 0
    then if b == 0 then pos 0 else negsuc 0
    else if b == 0
    then pos 1
    else strncmp_loop m a b n
