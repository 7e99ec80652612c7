-- ===== src/GasmVm/Steps.antt =====
-- What an instruction of os/kernel/gasm_vm.c does to the counters and the arrays when the loop goes
-- on, and the reads of a whole instruction.
use lardos.Base.{
  ℕ, ◌+◌, ◌≤◌, ◌≡◌, refl, some, List, arith, length, ◌*◌, ◌^◌, bit_or, true, [], ◌∷◌, get_or,
  length-set, set, ◌<◌, All, ap, sym,
}
use lardos.GasmVm.{
  State, rd_i64, exec_wide, max_ret, continue, new_obj, set_slot, get_slot, add_slot, divide, call,
  invoke, jump, ret, exec_pair, exec_target, first_free, no_obj, zero_slots, exec,
}
use lardos.Base.Words.{rd_u32_inside, u32, word_at}
use mathlib.Core.Path.{subst}

abbrev pub wide_at : List ℕ → ℕ → ℕ
wide_at code off = bit_or (word_at code off) (word_at code (off + 4) * 2 ^ 32)

pub wide_inside :
    (code : List ℕ) (off : ℕ) → off + 8 ≤ length code → rd_i64 code off ≡ some (wide_at code off)
unfolding rd_i64
wide_inside code off h =
    rw (rd_u32_inside code off (omega arith), rd_u32_inside code (off + 4) (omega arith)) refl

-- A whole instruction stands at `pc`, and the stacked return addresses are in the code.
pub record IsReady (size : ℕ) (s : State) : Type 0 where
  pub whole : s.pc + 9 ≤ size
  pub short : size + 18 < 2 ^ 32
  pub low : All (λ r. r ≤ size) s.ret_stack
  pub few : length s.ret_stack ≤ max_ret

-- What the actions but `CALL`, `INVOKE` and `RET` do to the counters and the arrays.
abbrev Keeps : ℕ → State → State → Type 0
Keeps size s s' =
    (s'.ret_stack ≡ s.ret_stack)
    × (length s'.objs ≡ length s.objs)
    × (s'.steps ≡ s.steps)
    × (s'.pc ≤ size)

-- What every action does at most.
abbrev pub Within : ℕ → State → State → Type 0
Within size s s' =
    (length s'.ret_stack ≤ max_ret)
    × All (λ r. r ≤ size) s'.ret_stack
    × (length s'.objs ≡ length s.objs)
    × (s'.steps ≡ s.steps)
    × (s'.pc ≤ size + 9)

Keeps-Within : (size : ℕ) (s s' : State) → IsReady size s → Keeps size s s' → Within size s s'
Keeps-Within size s s' ready k = (
  omega (arith, ap length k.0, ready.few),
  subst (All (λ r. r ≤ size)) (sym k.0) ready.low,
  k.1,
  k.2,
  omega (arith, k.3),
)

module _ (size : ℕ) (s s' : State) (ready : IsReady size s) where
  new_obj-Keeps : (n : ℕ) → new_obj s n ≡ continue s' → Keeps size s s'
  unfolding new_obj
  new_obj-Keeps n e =
      let o = get_or s.objs (first_free s.objs) no_obj in
      ground (
        arith,
        length-set s.objs (first_free s.objs)
            (record { in_use = true; nslots = n; slots = zero_slots n o.slots }),
      )

  set_slot-Keeps : (h i : ℕ) → set_slot s h i ≡ continue s' → Keeps size s s'
  unfolding set_slot
  set_slot-Keeps h i e =
      let o = get_or s.objs h no_obj in
      ground (arith, length-set s.objs h (record o { slots = set o.slots i s.acc }))

  get_slot-Keeps : (h i : ℕ) → get_slot s h i ≡ continue s' → Keeps size s s'
  unfolding get_slot
  get_slot-Keeps h i e = ground arith

  add_slot-Keeps : (h i : ℕ) → add_slot s h i ≡ continue s' → Keeps size s s'
  unfolding add_slot
  add_slot-Keeps h i e = ground arith

  divide-Keeps : (b : ℕ) → divide s b ≡ continue s' → Keeps size s s'
  unfolding divide
  divide-Keeps b e = ground arith

  exec_wide-Keeps :
      (code : List ℕ) (op b : ℕ) → exec_wide code size op s b ≡ continue s' → Keeps size s s'
  unfolding exec_wide
  exec_wide-Keeps code op b e = ground (
    arith,
    divide-Keeps b,
    new_obj-Keeps (u32 b),
    get_slot-Keeps s.self (u32 b),
    set_slot-Keeps s.self (u32 b),
    add_slot-Keeps s.self (u32 b),
  )

  call-Within : (target : ℕ) → call size s target ≡ continue s' → Within size s s'
  unfolding call
  call-Within target e = ground arith

  invoke-Within : (h target : ℕ) → invoke size s h target ≡ continue s' → Within size s s'
  unfolding invoke
  invoke-Within h target e = ground arith

  jump-Keeps : (target : ℕ) → jump size s target ≡ continue s' → Keeps size s s'
  unfolding jump
  jump-Keeps target e = ground arith

  ret-Within :
      (stack : List ℕ)
      → length stack ≤ max_ret
      → All (λ r. r ≤ size) stack
      → ret s stack ≡ continue s'
      → Within size s s'
  unfolding ret
  ret-Within [] few low e = ground arith
  ret-Within (r ∷ rest) few low e = ground arith

  exec_pair-Within :
      (code : List ℕ) (op h i : ℕ) → exec_pair code size op s h i ≡ continue s' → Within size s s'
  unfolding exec_pair
  exec_pair-Within code op h i e = ground (
    arith,
    Keeps-Within size s s' ready,
    get_slot-Keeps h i,
    set_slot-Keeps h i,
    invoke-Within h i,
  )

  exec_target-Within :
      (code : List ℕ) (op target : ℕ)
      → exec_target code size op s target ≡ continue s'
      → Within size s s'
  unfolding exec_target
  exec_target-Within code op target e =
      ground (arith, Keeps-Within size s s' ready, call-Within target, jump-Keeps target)

  pub exec-Within :
      (code : List ℕ) (op : ℕ)
      → size ≤ length code
      → exec code size op s ≡ continue s'
      → Within size s s'
  unfolding exec
  exec-Within code op there e = ground (
    arith,
    wide_inside code (s.pc + 1),
    rd_u32_inside code (s.pc + 1),
    rd_u32_inside code (s.pc + 5),
    exec_wide-Keeps code op (wide_at code (s.pc + 1)),
    Keeps-Within size s s' ready,
    exec_pair-Within code op (word_at code (s.pc + 1)) (word_at code (s.pc + 5)),
    exec_target-Within code op (word_at code (s.pc + 1)),
    ret-Within s.ret_stack,
  )
