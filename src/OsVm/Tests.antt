-- ===== src/OsVm/Tests.antt =====
-- Runs of os/kernel/os_vm.c, and its theorems at concrete inputs.
use mathlib.Core.Bool.{xor}
use lardos.Base.Int.{pos, neg}
use lardos.Vm.{returns, fault, trap, stop, loop, End}
use lardos.Vm.Decimal.{print_signed}
use lardos.VmMon
use mathlib.Core.Option
use lardos.Base.{
  ℕ, ◌-◌, ◌^◌, ◌≡◌, refl, none, some, Option, List, [], ◌∷◌, ◌++◌, arith, replicate, length,
}
use lardos.Base.Words.{le_bytes, rd_u32}
use lardos.OsVm.{Outcome, run_io, State, exec, check_header, round}
use lardos.OsVm.Bugs.{exec-trap, size_check_wraps}
use lardos.OsVm.Parse.{parse_int, parse_int-print_signed}

abbrev entries : VmMon.Entries
entries = replicate 6 VmMon.zero_entry

abbrev image_of : List ℕ → List ℕ
image_of code = b'O' ∷ b'V' ∷ b'M' ∷ 0 ∷ 1 ∷ 0 ∷ 0 ∷ 0 ∷ length code ∷ 0 ∷ 0 ∷ 0 ∷ code

abbrev push : ℕ → List ℕ → List ℕ
push v code = 0x01 ∷ (le_bytes v ++ code)

-- push -7; push 2; div; print; halt
abbrev division : List ℕ
division = image_of (push (2 ^ 32 - 7) (push 2 (0x05 ∷ 0x06 ∷ 0x07 ∷ [])))

abbrev told : Option Outcome → Option (End × List ℕ)
told o = Option.map (λ o. (o.how, o.out)) o

division_runs :
    told (run_io entries (some division) 25) ≡ some (returns (pos 0), b'-' ∷ b'3' ∷ b'\n' ∷ [])
unfolding run_io check_header loop round exec rd_u32 VmMon.budget print_signed xor
division_runs = refl

-- A loop that never ends is stopped by the budget.
abbrev forever : List ℕ
forever = image_of (0x08 ∷ 0 ∷ 0 ∷ 0 ∷ 0 ∷ [])

abbrev lowest_by_minus_one : List ℕ
lowest_by_minus_one = image_of (push (2 ^ 31) (push (2 ^ 32 - 1) (0x05 ∷ [])))

overflow_traps : told (run_io entries (some lowest_by_minus_one) 23) ≡ some (trap, [])
unfolding run_io check_header loop round exec rd_u32 VmMon.budget
overflow_traps = refl

null_image : told (run_io entries none 40) ≡ some (returns (neg 1), [])
unfolding run_io
null_image = refl

abbrev wrapping : List ℕ
wrapping = b'O' ∷ b'V' ∷ b'M' ∷ 0 ∷ 1 ∷ 0 ∷ 0 ∷ 0 ∷ 255 ∷ 255 ∷ 255 ∷ 255 ∷ []

size_check_wraps_example :
    (o : Outcome) × (run_io entries (some wrapping) 12 ≡ some o) × (o.how ≡ fault)
size_check_wraps_example =
    size_check_wraps entries wrapping refl refl refl (omega arith) (omega arith)

abbrev dividing : State
dividing = record { stack = (2 ^ 32 - 1) ∷ 2 ^ 31 ∷ 5 ∷ []; pc = 11; steps = 3; out = [] }

divides : exec lowest_by_minus_one 11 0x05 dividing ≡ stop trap dividing
unfolding exec
divides = refl

exec-trap_example :
    ◌≡◌ {A = ℕ} 0x05 0x05
    × (rest : List ℕ) × (dividing.stack ≡ (2 ^ 32 - 1) ∷ 2 ^ 31 ∷ rest)
    × ((t : State) (below : List ℕ)
        → exec lowest_by_minus_one 11 0x05 (record t { stack = (2 ^ 32 - 1) ∷ 2 ^ 31 ∷ below })
          ≡ stop trap (record t { stack = (2 ^ 32 - 1) ∷ 2 ^ 31 ∷ below }))
exec-trap_example = exec-trap lowest_by_minus_one 11 0x05 dividing dividing divides

parse_int-print_signed_example :
    parse_int (print_signed 32 16 (2 ^ 31) ++ (b';' ∷ [])) ≡ some (2 ^ 31, b';' ∷ [])
parse_int-print_signed_example = parse_int-print_signed (2 ^ 31) (b';' ∷ []) (omega arith) refl
