-- ===== src/Container/Tests.antt =====
-- Runs of os/kernel/lcontainer.c, and its theorems at concrete calls.
use lardos.Base.{
  arith, ◌==◌, if◌then◌else◌, ℕ, ◌≡◌, ◌≤◌, refl, true, some, none, List, [], ◌∷◌, bit_and,
}
use lardos.Base.Int.{ℤ, pos, neg}
use lardos.CString.Order.{order}
use lardos.Container.{
  State, init, create, use_container, run, find_container, slot_at, active_caps, cap_all, copy_loop,
  find_from, free_from, count, active_name,
}
use lardos.Container.Created.{create_lem}
use lardos.Container.Confined.{
  Call, creates, removes, uses, exits, runs_in, after, IsConfined, in_force, calls-IsConfined,
}

-- "dev" and "fsbox"
abbrev dev : List ℕ
dev = b'd' ∷ b'e' ∷ b'v' ∷ []

abbrev fsbox : List ℕ
fsbox = b'f' ∷ b's' ∷ b'b' ∷ b'o' ∷ b'x' ∷ []

-- a program that fails unless it may use files, and leaves other capabilities in force
abbrev program : ℕ → ℤ × ℕ
program caps = (if bit_and caps 1 == 1 then pos 0 else neg 9, 0x20)

abbrev made : State
made = (create init (some dev) 0xFF).1

contained :
    (count made.slots ≡ 4)
    × (active_name (use_container made (some dev)).1 ≡ dev)
    × (active_caps (use_container made (some dev)).1 ≡ 0x3F)
    × ((create made (some fsbox) 1).0 ≡ neg 2)
    × ((create made (some (b'a' ∷ b'!' ∷ [])) 1).0 ≡ neg 1)
    × ((run program made 5 (some fsbox)).0 ≡ pos 0)
unfolding create copy_loop find_from free_from order run use_container count
contained = (refl, refl, refl, refl, refl, refl)

create_lem_example :
    (slot : ℕ) × (find_container (create init (some dev) 0xFF).1 (some dev) ≡ some slot)
    × (slot_at (create init (some dev) 0xFF).1 slot
        ≡ record { name = dev; caps = bit_and 0xFF cap_all; runs = 0; used = true })
    × (find_container (create init (some dev) 0xFF).1 (some fsbox)
        ≡ find_container init (some fsbox))
unfolding create copy_loop find_from free_from order
create_lem_example = create_lem init b'd' (b'e' ∷ b'v' ∷ []) fsbox 0xFF refl refl

abbrev some_calls : List Call
some_calls =
    creates (some dev) 0xFFFF
    ∷ uses (some dev)
    ∷ runs_in program 9 none
    ∷ removes (some dev)
    ∷ exits
    ∷ []

calls-IsConfined_example :
    IsConfined (after init some_calls)
    × (active_caps (after init some_calls) ≤ cap_all)
    × (in_force (run program (after init some_calls) 9 (some fsbox)) ≤ cap_all)
    × ((run program (after init some_calls) 9 (some fsbox)).1.1.1 ≡ 9)
calls-IsConfined_example = calls-IsConfined some_calls program 9 (some fsbox) (omega arith)
