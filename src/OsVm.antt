-- ===== src/OsVm.antt =====
-- os/kernel/os_vm.c and os/include/os_vm.h: the stack VM. An `int32_t` is its bit pattern; signed
-- overflow wraps, as in the code that gcc makes of it. `size` is the caller's claim about the image;
-- a read beyond the bytes that are there is a `fault`.
pub mod Safe
pub mod Bugs
pub mod Parse
mod Tests
use lardos.Base.Int.{ℤ, pos, neg, idiv}
use mathlib.Core.Option
use lardos.Base.Words.{u32, u16, rd_u32}
use lardos.Vm.{or_fault, or_trap, End, returns, fault, Round, continue, stop, loop}
use lardos.Vm.Decimal.{print_signed}
use lardos.VmMon
use lardos.Base.{
  ℕ, ◌+◌, ◌-◌, ◌*◌, ◌%◌, ◌^◌, ◌&&◌, ◌||◌, none, some, Option, List, [], ◌∷◌, ◌++◌, ◌==◌,
  if◌then◌else◌, ltb, not, leb, get_elem?, length, bit_or,
}

-- The variables of `os_vm_run_io`: `stack[0..sp)` is a list, its top first, and `out` is what `putc`
-- has been given.
pub record State : Type 0 where
  pub stack : List ℕ
  pub pc : ℕ
  pub steps : ℕ
  pub out : List ℕ

abbrev pub magic : ℕ
magic = 0x004D564F

abbrev pub version : ℕ
version = 1

abbrev pub stack_max : ℕ
stack_max = 64

abbrev pub budget : ℕ
budget = VmMon.budget VmMon.osvm

-- `out_i32` and the newline
abbrev pub print_line : ℕ → List ℕ
print_line v = print_signed 32 16 v ++ (b'\n' ∷ [])

-- `stack[sp - 2] op= stack[sp - 1]; sp--`
unfoldable pub binary : (ℕ → ℕ → ℕ) → ℤ → State → List ℕ → Round State
binary f rc s (b ∷ a ∷ rest) = continue (record s { stack = f a b ∷ rest })
binary f rc s _ = stop (returns rc) s

-- `DIV`
unfoldable pub divide : State → List ℕ → Round State
unfolding idiv
divide s (b ∷ a ∷ rest) =
    if b == 0
    then stop (returns (neg 9)) s
    else or_trap (idiv 32 a b) s (λ q. continue (record s { stack = q ∷ rest }))
divide s _ = stop (returns (neg 9)) s

unfoldable pub print_top : State → List ℕ → Round State
print_top s (v ∷ rest) = continue (record s { stack = rest; out = s.out ++ print_line v })
print_top s [] = stop (returns (neg 10)) s

-- `JMP` once its operand has been read
unfoldable pub jump : ℕ → State → ℕ → Round State
jump code_size s target =
    if leb code_size target
    then stop (returns (neg 12)) (record s { pc = u32 (s.pc + 4) })
    else continue (record s { pc = target })

-- `JZ` once its operand has been read; the stack is popped whether or not it jumps.
unfoldable pub jump_zero : ℕ → ℕ → State → List ℕ → Round State
jump_zero code_size target s (v ∷ rest) = continue (record s {
  stack = rest;
  pc = if v == 0 && ltb target code_size then target else u32 (s.pc + 4);
})
jump_zero code_size target s [] = stop (returns (neg 14)) s

-- `rd_u32(code + pc)`
abbrev pub operand : List ℕ → State → Option ℕ
operand image s = rd_u32 image (12 + s.pc)

module _ (image : List ℕ) (code_size : ℕ) where
  -- The switch; `pc` stands behind the opcode.
  unfoldable pub exec : ℕ → State → Round State
  unfolding binary divide print_top jump jump_zero
  exec op s =
      if op == 0x01
      then if ltb code_size (u32 (s.pc + 4)) || leb stack_max (length s.stack)
        then stop (returns (neg 5)) s
        else or_fault (operand image s) s
            (λ v. continue (record s { stack = v ∷ s.stack; pc = u32 (s.pc + 4) }))
      else if op == 0x02
      then binary (λ a b. u32 (a + b)) (neg 6) s s.stack
      else if op == 0x03
      then binary (λ a b. (a + 2 ^ 32 - b) % 2 ^ 32) (neg 7) s s.stack
      else if op == 0x04
      then binary (λ a b. u32 (a * b)) (neg 8) s s.stack
      else if op == 0x05
      then divide s s.stack
      else if op == 0x06
      then print_top s s.stack
      else if op == 0x07
      then stop (returns (pos 0)) s
      else if op == 0x08
      then if ltb code_size (u32 (s.pc + 4))
        then stop (returns (neg 11)) s
        else or_fault (operand image s) s (jump code_size s)
      else if op == 0x09
      then if ltb code_size (u32 (s.pc + 4))
        then stop (returns (neg 13)) s
        else if length s.stack == 0
        then stop (returns (neg 14)) s
        else or_fault (operand image s) s (λ target. jump_zero code_size target s s.stack)
      else stop (returns (neg 15)) s

  -- One round of the `while` loop.
  unfoldable pub round : State → Round State
  round s =
      if not (ltb s.pc code_size)
      then stop (returns (pos 0)) s
      else let s' = record s { steps = u32 (s.steps + 1) } in
        if ltb budget s'.steps
        then stop (returns (neg 16)) s'
        else or_fault (get_elem? image (12 + s.pc)) s'
            λ op. exec op (record s' { pc = u32 (s.pc + 1) })

-- What a call of `os_vm_run_io` leaves: how it ended, what it printed, and the VM monitor. After a
-- fault or a trap nothing is recorded.
pub record Outcome : Type 0 where
  pub how : End
  pub out : List ℕ
  pub entries : VmMon.Entries

abbrev pub start : State
start = record { stack = []; pc = 0; steps = 0; out = [] }

-- `ovm_done`
abbrev pub finish : VmMon.Entries → End × State → Outcome
finish es (returns rc, s) = record {
  how = returns rc;
  out = s.out;
  entries = VmMon.note_run es VmMon.osvm s.steps rc;
}
finish es (e, s) = record { how = e; out = s.out; entries = es }

-- The header's checks: a return code, or the code size.
pub data Header : Type 0 where
  refused : ℤ → Header
  unreadable : Header
  good : ℕ → Header

unfoldable pub check_header : List ℕ → ℕ → Header
check_header image size = if ltb size 12 then refused (neg 1) else elim (rd_u32 image 0) [
  | none ↦ unreadable
  | some m ↦ if not (m == magic) then refused (neg 2) else elim (get_elem? image 4) [
    | none ↦ unreadable
    | some lo ↦ elim (get_elem? image 5) [
      | none ↦ unreadable
      | some hi ↦
          if not (u16 (bit_or lo (hi * 2 ^ 8)) == version)
          then refused (neg 3)
          else elim (rd_u32 image 8) [
            | none ↦ unreadable
            | some n ↦ if ltb size (u32 (12 + n)) then refused (neg 4) else good n
          ]
    ]
  ]
]

-- `os_vm_run_io`; `none` for the image is a null pointer, `none` as a result would be a loop that
-- goes on beyond the fuel. Every round counts a step, and the step after the budget stops.
unfoldable pub run_io : VmMon.Entries → Option (List ℕ) → ℕ → Option Outcome
run_io es none size = some (finish es (returns (neg 1), start))
run_io es (some image) size = elim (check_header image size) [
  | refused rc ↦ some (finish es (returns rc, start))
  | unreadable ↦ some (finish es (fault, start))
  | good code_size ↦ Option.map (finish es) (loop (budget + 2) (round image code_size) start)
]
