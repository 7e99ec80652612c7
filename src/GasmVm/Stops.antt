-- ===== src/GasmVm/Stops.antt =====
-- How an instruction of os/kernel/gasm_vm.c ends a run: never by a read outside the code, and never
-- with the code of a spent budget.
use lardos.Base.{ℕ, ◌+◌, ◌≡◌, ◌≢◌, List, [], ◌∷◌, arith, ◌≤◌, length}
use lardos.GasmVm.{
  State, new_obj, get_slot, set_slot, add_slot, divide, exec_wide, call, invoke, jump, ret,
  exec_pair, exec_target, exec, returns, stop,
}
use lardos.Vm.{End, fault}
use lardos.GasmVm.Steps.{wide_inside, wide_at}
use lardos.Base.Int.{neg}
use lardos.Base.Words.{u32, rd_u32_inside, word_at}

-- A whole instruction stands at `pc`.
abbrev pub Whole : List ℕ → State → Type 0
Whole code s = s.pc + 9 ≤ length code

abbrev pub Ends : State → End → State → Type 0
Ends s e s' = (e ≢ fault) × (e ≢ returns (neg 20)) × (s'.steps ≡ s.steps)

module _ (s s' : State) (e : End) where
  new_obj-Ends : (n : ℕ) → new_obj s n ≡ stop e s' → Ends s e s'
  unfolding new_obj
  new_obj-Ends n q = ground arith

  get_slot-Ends : (h i : ℕ) → get_slot s h i ≡ stop e s' → Ends s e s'
  unfolding get_slot
  get_slot-Ends h i q = ground arith

  set_slot-Ends : (h i : ℕ) → set_slot s h i ≡ stop e s' → Ends s e s'
  unfolding set_slot
  set_slot-Ends h i q = ground arith

  add_slot-Ends : (h i : ℕ) → add_slot s h i ≡ stop e s' → Ends s e s'
  unfolding add_slot
  add_slot-Ends h i q = ground arith

  divide-Ends : (b : ℕ) → divide s b ≡ stop e s' → Ends s e s'
  unfolding divide
  divide-Ends b q = ground arith

  exec_wide-Ends :
      (code : List ℕ) (size op b : ℕ) → exec_wide code size op s b ≡ stop e s' → Ends s e s'
  unfolding exec_wide
  exec_wide-Ends code size op b q = ground (
    arith,
    divide-Ends b,
    new_obj-Ends (u32 b),
    get_slot-Ends s.self (u32 b),
    set_slot-Ends s.self (u32 b),
    add_slot-Ends s.self (u32 b),
  )

  call-Ends : (size target : ℕ) → call size s target ≡ stop e s' → Ends s e s'
  unfolding call
  call-Ends size target q = ground arith

  invoke-Ends : (size h target : ℕ) → invoke size s h target ≡ stop e s' → Ends s e s'
  unfolding invoke
  invoke-Ends size h target q = ground arith

  jump-Ends : (size target : ℕ) → jump size s target ≡ stop e s' → Ends s e s'
  unfolding jump
  jump-Ends size target q = ground arith

  ret-Ends : (stack : List ℕ) → ret s stack ≡ stop e s' → Ends s e s'
  unfolding ret
  ret-Ends [] q = ground arith
  ret-Ends (r ∷ rest) q = ground arith

  exec_pair-Ends :
      (code : List ℕ) (size op h i : ℕ) → exec_pair code size op s h i ≡ stop e s' → Ends s e s'
  unfolding exec_pair
  exec_pair-Ends code size op h i q =
      ground (arith, get_slot-Ends h i, set_slot-Ends h i, invoke-Ends size h i)

  exec_target-Ends :
      (code : List ℕ) (size op target : ℕ)
      → exec_target code size op s target ≡ stop e s'
      → Ends s e s'
  unfolding exec_target
  exec_target-Ends code size op target q =
      ground (arith, call-Ends size target, jump-Ends size target)

  pub exec-Ends :
      (code : List ℕ) (size op : ℕ) → Whole code s → exec code size op s ≡ stop e s' → Ends s e s'
  unfolding exec
  exec-Ends code size op whole q = ground (
    arith,
    wide_inside code (s.pc + 1),
    rd_u32_inside code (s.pc + 1),
    rd_u32_inside code (s.pc + 5),
    exec_wide-Ends code size op (wide_at code (s.pc + 1)),
    exec_pair-Ends code size op (word_at code (s.pc + 1)) (word_at code (s.pc + 5)),
    exec_target-Ends code size op (word_at code (s.pc + 1)),
    ret-Ends s.ret_stack,
  )
