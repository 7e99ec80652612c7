-- ===== src/OsVm/Bugs.antt =====
-- Where the interpreter of os/kernel/os_vm.c leaves what C defines.
use lardos.Vm.{fault, trap, stop, loop, loop_stop}
use lardos.VmMon
use lardos.Base.{
  ℕ, ◌+◌, ◌-◌, ◌*◌, ◌^◌, ◌≤◌, ◌<◌, ◌≡◌, refl, some, List, ◌∷◌, arith, length, bit_or,
  get_elem?-eq-get_or, drop, get_elem?_beyond,
}
use lardos.OsVm.{
  run_io, exec, State, magic, version, Outcome, check_header, good, round, start, budget,
}
use lardos.Base.Words.{word_at, u16, byte_at, rd_u32_inside}
use lardos.OsVm.Safe.{budget-eq}

-- `12 + code_size > size` is computed on `uint32_t`. An image that ends with its header, with a size
-- field of 2 ^ 32 - 12 or more, passes the check, and the first opcode is read outside it.
pub size_check_wraps :
    (es : VmMon.Entries) (image : List ℕ)
    → length image ≡ 12
    → word_at image 0 ≡ magic
    → u16 (bit_or (byte_at image 4) (byte_at image 5 * 2 ^ 8)) ≡ version
    → 2 ^ 32 - 12 ≤ word_at image 8
    → word_at image 8 < 2 ^ 32
    → (o : Outcome) × (run_io es (some image) 12 ≡ some o) × (o.how ≡ fault)
unfolding run_io
size_check_wraps es image size m v big word = rw (accepted, run_io, loop_faults) (_, refl, refl)
  where
    n : ℕ
    n = word_at image 8

    accepted : check_header image 12 ≡ good n
    accepted =
        unfold check_header in
        ground (
          arith,
          rd_u32_inside image 0,
          rd_u32_inside image 8,
          get_elem?-eq-get_or image 4 0,
          get_elem?-eq-get_or image 5 0,
        )

    faults : round image n start ≡ stop fault (record start { steps = 1 })
    faults = unfold round in ground (arith, budget-eq, get_elem?_beyond image 12)

    loop_faults : loop (budget + 2) (round image n) start ≡ some (fault, record start { steps = 1 })
    loop_faults = loop_stop (round image n) (budget + 2) start _ fault (omega arith) faults

-- The CPU's division instruction, which refuses a divisor of 0 and a quotient of 2 ^ 31, traps in the
-- interpreter only where `DIV` divides -2 ^ 31 by -1, and whenever it does so.
pub exec-trap :
    (image : List ℕ) (code_size op : ℕ) (s s' : State)
    → exec image code_size op s ≡ stop trap s'
    → (op ≡ 0x05)
      × (rest : List ℕ) × (s.stack ≡ (2 ^ 32 - 1) ∷ 2 ^ 31 ∷ rest)
      × ((t : State) (below : List ℕ)
          → exec image code_size 0x05 (record t { stack = (2 ^ 32 - 1) ∷ 2 ^ 31 ∷ below })
            ≡ stop trap (record t { stack = (2 ^ 32 - 1) ∷ 2 ^ 31 ∷ below }))
unfolding exec
exec-trap image code_size op s s' e = (ground arith, drop 2 s.stack, ground arith, λ t below. refl)
