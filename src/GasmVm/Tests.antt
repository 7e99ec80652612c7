-- ===== src/GasmVm/Tests.antt =====
-- Runs of os/kernel/gasm_vm.c, and its theorems at concrete programs.
use lardos.VmMon
use lardos.GasmVm.{add_slot, invoke, ret}
use mathlib.Core.Option
use lardos.Base.{ℕ, ◌≡◌, refl, false, some, Option, List, [], ◌∷◌, ◌++◌, arith, replicate}
use lardos.GasmVm.{
  Obj, Outcome, run_io, State, round, start, continue, exec, exec_wide, rd_i64, exec_pair, new_obj,
  returns, first_free, pos, zero_slots, set_slot, get_slot, add_slot,
}
use lardos.Base.Words.{le_bytes, rd_u32}
use lardos.Vm.{End, loop}
use lardos.GasmVm.Return.{called, call-ret_skips}
use lardos.Vm.Decimal.{print_signed}

abbrev entries : VmMon.Entries
entries = replicate 6 VmMon.zero_entry

abbrev blank : List Obj
blank = replicate 16 (record { in_use = false; nslots = 0; slots = replicate 8 0 })

abbrev insn : ℕ → ℕ → ℕ → List ℕ → List ℕ
insn op lo hi rest = op ∷ (le_bytes lo ++ (le_bytes hi ++ rest))

-- load 40; add 2; print; halt
abbrev sum : List ℕ
sum = insn 0 40 0 (insn 1 2 0 (insn 5 0 0 (insn 7 0 0 [])))

abbrev told : Option Outcome → Option (End × List ℕ)
told o = Option.map (λ o. (o.how, o.out)) o

sum_runs :
    told (run_io entries blank (some sum) 36) ≡ some (returns (pos 0), b'4' ∷ b'2' ∷ b'\n' ∷ [])
unfolding run_io loop round exec exec_wide rd_i64 rd_u32 VmMon.budget print_signed
sum_runs = refl

-- The object example of os/lang/GASM.md, assembled. The `print` behind its `invoke` is skipped.
abbrev point : List ℕ
point = insn 12 2 0 (
    insn 0 3 0 (
      insn 14 0 0 (
        insn 0 4 0 (
          insn 14 0 1 (
            insn 19 0 72 (insn 5 0 0 (insn 7 0 0 (insn 15 0 0 (insn 20 1 0 (insn 18 0 0 []))))))))))

point_prints_nothing : told (run_io entries blank (some point) 99) ≡ some (returns (pos 0), [])
unfolding run_io loop round exec exec_wide exec_pair rd_i64 rd_u32 VmMon.budget new_obj first_free
    zero_slots set_slot get_slot add_slot invoke ret
point_prints_nothing = refl

-- call 18; print; ret
abbrev calling : List ℕ
calling = insn 17 18 0 (insn 5 0 0 (insn 18 0 0 []))

abbrev at_start : State
at_start = start blank

call-ret_skips_example :
    (round calling 27 at_start ≡ continue (called at_start 18))
    × (round calling 27 (called at_start 18) ≡ continue (record at_start { pc = 18; steps = 2 }))
unfolding VmMon.budget
call-ret_skips_example =
    call-ret_skips calling at_start 18 (omega arith) (omega arith) (refl, omega arith) refl refl
      (refl, omega arith) (omega arith)
