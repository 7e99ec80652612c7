-- ===== src/OsVm/Safe.antt =====
-- Memory safety, termination and accounting of the interpreter of os/kernel/os_vm.c.
use lardos.Base.Int.{neg}
use lardos.Vm.{End, returns, fault}
use lardos.VmMon
use lardos.Vm.Accounts.{IsAccounted, IsTraced}
use lardos.Base.{ℕ, ◌+◌, ◌^◌, ◌≤◌, ◌<◌, ◌≡◌, ◌≢◌, refl, List, length, ltb, Bool, not}
use lardos.OsVm.{
  budget, State, stack_max, round, check_header, Outcome, unreadable, good, refused, start,
}
use lardos.Base.Words.{u32}

pub budget-eq : budget ≡ 1000000
unfolding VmMon.budget
budget-eq = refl

-- The image holds the code that its header announces.
abbrev pub Holds : List ℕ → ℕ → Type 0
Holds image code_size = (12 + code_size ≤ length image) × (length image < 2 ^ 32)

-- Between two rounds.
record IsRunning (s : State) : Type 0 where
  stack_in : length s.stack ≤ stack_max
  steps_in : s.steps ≤ budget

-- When the loop has ended.
record IsEnded (e : End) (s : State) : Type 0 where
  no_fault : e ≢ fault
  steps_in : s.steps ≤ budget + 1
  spent : e ≡ returns (neg 16) → s.steps ≡ budget + 1
  unspent : s.steps ≡ budget + 1 → e ≡ returns (neg 16)

abbrev counted : State → State
counted s = record s { steps = u32 (s.steps + 1); pc = u32 (s.pc + 1) }

-- the test of the loop fails
abbrev pub at_end : ℕ → State → Bool
at_end code_size s = not (ltb s.pc code_size)

-- The rounds of the run of an image, none where its header is refused.
abbrev pub Executes : List ℕ → End → ℕ → Type 0
Executes image how steps = elim (check_header image (length image)) as (λ _. Type 0) [
  | refused rc ↦ steps ≡ 0
  | unreadable ↦ steps ≡ 0
  | good n ↦ IsTraced (round image n) (at_end n) start how steps
]

abbrev Told : VmMon.Entries → Outcome → ℕ → Type 0
Told es o steps = IsAccounted VmMon.osvm (neg 16) es o.how o.entries steps
