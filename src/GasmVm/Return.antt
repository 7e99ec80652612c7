-- ===== src/GasmVm/Return.antt =====
-- What `call` and `ret` of os/kernel/gasm_vm.c do together.
use lardos.Base.{
  ℕ, ◌+◌, ◌^◌, ◌≤◌, ◌<◌, ◌≡◌, some, List, get_elem?, length, true, ◌∷◌, arith, refl, ◌∙◌, ap, ap₂,
}
use lardos.GasmVm.{round, exec, exec_target, call, ret, State, max_ret, budget, continue, pc_valid}
use lardos.Base.Words.{word_at, rd_u32_inside}
use lardos.GasmVm.Safe.{budget-eq}

-- A whole instruction with opcode `op` stands at `at`.
abbrev pub Instruction : List ℕ → ℕ → ℕ → Type 0
Instruction code at op = (get_elem? code at ≡ some op) × (at + 9 ≤ length code)

abbrev pub called : State → ℕ → State
called s target = record s {
  steps = s.steps + 1;
  ret_stack = (s.pc + 9) ∷ s.ret_stack;
  pc = target;
}

module _ (code : List ℕ) (s : State) (short : length code + 18 < 2 ^ 32)
    (few : s.steps + 1 ≤ budget) where
  call_round :
      Instruction code s.pc 17
      → pc_valid (word_at code (s.pc + 1)) (length code) ≡ true
      → length s.ret_stack < max_ret
      → round code (length code) s ≡ continue (called s (word_at code (s.pc + 1)))
  unfolding round exec exec_target call
  call_round here valid room =
      rw (here.0, round) (ground (arith, budget-eq, rd_u32_inside code (s.pc + 1), valid))

  ret_round :
      Instruction code s.pc 18
      → (r : ℕ) (rest : List ℕ) → s.ret_stack ≡ r ∷ rest
      → r + 9 < 2 ^ 32
      → round code (length code) s
        ≡ continue (record s { steps = s.steps + 1; ret_stack = rest; pc = r + 9 })
  unfolding round exec ret
  ret_round here r rest e low = rw (here.0, round, e) (ground (arith, budget-eq))

-- A `call` at `pc` whose target holds a `ret`, in code of fewer than 2 ^ 32 - 18 bytes, with room on
-- the return stack and two steps left in the budget: after these two rounds the program stands 18
-- bytes behind the call. The instruction that follows the call is skipped; besides the program
-- counter, only the two steps are counted.
pub call-ret_skips :
    (code : List ℕ) (s : State) (target : ℕ)
    → length code + 18 < 2 ^ 32
    → s.steps + 2 ≤ budget
    → Instruction code s.pc 17
    → word_at code (s.pc + 1) ≡ target
    → pc_valid target (length code) ≡ true
    → Instruction code target 18
    → length s.ret_stack < max_ret
    → (round code (length code) s ≡ continue (called s target))
      × (round code (length code) (called s target)
          ≡ continue (record s { pc = s.pc + 18; steps = s.steps + 2 }))
call-ret_skips code s target short few at_call to valid at_ret room = (
  first,
  ret_round code (called s target) short (omega arith) at_ret (s.pc + 9) s.ret_stack refl
        (omega (arith, at_call.1))
      ∙ ap₂ (λ p n. continue (record s { pc = p; steps = n })) (omega arith) (omega arith),
)
  where
    first : round code (length code) s ≡ continue (called s target)
    first =
        call_round code s short (omega arith) at_call
          (ap (λ t. pc_valid t (length code)) to ∙ valid) room
        ∙ ap (λ t. continue (called s t)) to
