-- ===== src/GasmVm/Safe.antt =====
-- Memory safety, termination and accounting of the interpreter of os/kernel/gasm_vm.c.
use lardos.VmMon
use lardos.Base.{ℕ, ◌+◌, ◌≤◌, ◌≡◌, ◌≢◌, refl, length, ltb, All, Bool}
use lardos.GasmVm.{budget, State, max_ret, max_objs, returns, insn_sz}
use lardos.Vm.{End, fault}
use lardos.Base.Words.{u32}
use lardos.Base.Int.{neg}

pub budget-eq : budget ≡ 1000000
unfolding VmMon.budget
budget-eq = refl

-- When the loop has ended.
record IsEnded (e : End) (s : State) : Type 0 where
  no_fault : e ≢ fault
  steps_in : s.steps ≤ budget + 1
  spent : e ≡ returns (neg 20) → s.steps ≡ budget + 1
  unspent : s.steps ≡ budget + 1 → e ≡ returns (neg 20)

abbrev counted : State → State
counted s = record s { steps = u32 (s.steps + 1) }

-- Between two rounds.
record IsRunning (size : ℕ) (s : State) : Type 0 where
  pc_in : s.pc ≤ size + 9
  low : All (λ r. r ≤ size) s.ret_stack
  few : length s.ret_stack ≤ max_ret
  objs_in : length s.objs ≡ max_objs
  steps_in : s.steps ≤ budget

-- the test of the loop fails
abbrev pub at_end : ℕ → State → Bool
at_end size s = ltb size (u32 (s.pc + insn_sz))
