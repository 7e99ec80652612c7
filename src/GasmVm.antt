-- ===== src/GasmVm.antt =====
-- os/kernel/gasm_vm.c and os/include/gasm_vm.h: the interpreter of GASM, an accumulator machine with
-- objects. An `int64_t` is its bit pattern; signed overflow wraps. `size` is the caller's claim about
-- the code; a read beyond the bytes that are there is a `fault`.
pub mod Steps
pub mod Stops
pub mod Safe
pub mod Return
mod Tests
use mathlib.Core.Option
use lardos.VmMon
use lardos.Base.{
  ℕ, zero, suc, ◌+◌, ◌-◌, ◌*◌, ◌%◌, ◌^◌, ◌&&◌, ◌||◌, Bool, true, false, none, some, Option, List,
  [], ◌∷◌, ◌++◌, ◌==◌, if◌then◌else◌, ltb, set, get_or, leb, not, map, length, get_elem?, bit_or,
}
use lardos.Base.Int.{ℤ, neg, pos, idiv, signed_less}
use lardos.Vm.{Round, End, continue, stop, or_fault, or_trap, returns, loop}
use lardos.Base.Words.{u32, rd_u32, ◌>>=◌}
use lardos.Vm.Decimal.{print_signed}

-- One of the 16 objects; `slots` are its places 0 to 7.
pub record Obj : Type 0 where
  pub in_use : Bool
  pub nslots : ℕ
  pub slots : List ℕ

-- The variables of `gasm_vm_run_io`: `ret_stack[0..ret_sp)` is a list, its top first, and `out` is
-- what `gasm_putc` has been given.
pub record State : Type 0 where
  pub acc : ℕ
  pub pc : ℕ
  pub steps : ℕ
  pub self : ℕ
  pub ret_stack : List ℕ
  pub objs : List Obj
  pub out : List ℕ

abbrev pub insn_sz : ℕ
insn_sz = 9

abbrev pub max_objs : ℕ
max_objs = 16

abbrev pub max_slots : ℕ
max_slots = 8

abbrev pub max_ret : ℕ
max_ret = 16

abbrev pub err_oob : ℤ
err_oob = neg 4

abbrev pub budget : ℕ
budget = VmMon.budget VmMon.gasm

abbrev pub u64 : ℕ → ℕ
u64 x = x % 2 ^ 64

abbrev pub no_obj : Obj
no_obj = record { in_use = false; nslots = 0; slots = [] }

-- `pc_valid`
abbrev pub pc_valid : ℕ → ℕ → Bool
pc_valid pc size = ltb pc size && pc % insn_sz == 0 && leb (u32 (pc + insn_sz)) size

-- `rd_i64`
unfoldable pub rd_i64 : List ℕ → ℕ → Option ℕ
rd_i64 code off =
    rd_u32 code off >>= λ lo. rd_u32 code (off + 4) >>= λ hi. some (bit_or lo (hi * 2 ^ 32))

-- `break`, and `pc += INSN_SZ` behind the switch
abbrev pub next : State → Round State
next s = continue (record s { pc = u32 (s.pc + insn_sz) })

abbrev pub with_acc : State → ℕ → Round State
with_acc s v = next (record s { acc = v })

abbrev pub flag : State → Bool → Round State
flag s b = with_acc s (if b then 1 else 0)

-- `a < b` on `int64_t`
abbrev pub less : ℕ → ℕ → Bool
less a b = signed_less 64 a b

-- `DIV`
unfoldable pub divide : State → ℕ → Round State
unfolding idiv
divide s b =
    if b == 0 then stop (returns (neg 2)) s else or_trap (idiv 64 s.acc b) s (λ q. with_acc s q)

-- `JMP`, and `JZ` and `JNZ` when they jump
unfoldable pub jump : ℕ → State → ℕ → Round State
jump size s target =
    if pc_valid target size then continue (record s { pc = target }) else stop (returns err_oob) s

-- `for (h = 0; h < MAX_OBJS && obj_used[h]; h++);`
unfoldable pub first_free : List Obj → ℕ
first_free [] = 0
first_free (o ∷ objs) = let rest = first_free objs in if o.in_use then suc rest else 0

-- `for (i = 0; i < n; i++) obj[h][i] = 0;`
unfoldable pub zero_slots : ℕ → List ℕ → List ℕ
zero_slots zero slots = slots
zero_slots (suc n) slots = set (zero_slots n slots) n 0

unfoldable pub new_obj : State → ℕ → Round State
new_obj s n =
    let h = first_free s.objs in
    if n == 0 || ltb max_slots n || leb max_objs h
    then next s
    else with_acc
        (record s {
          objs = set s.objs h (record {
            in_use = true;
            nslots = n;
            slots = zero_slots n (get_or s.objs h no_obj).slots;
          });
        })
        h

-- `h < MAX_OBJS && obj_used[h] && i < obj_nslots[h]`
abbrev pub in_object : State → ℕ → ℕ → Bool
in_object s h i =
    ltb h max_objs && (get_or s.objs h no_obj).in_use && ltb i (get_or s.objs h no_obj).nslots

-- `obj[h][i]`
abbrev pub slot : State → ℕ → ℕ → ℕ
slot s h i = get_or (get_or s.objs h no_obj).slots i 0

unfoldable pub get_slot : State → ℕ → ℕ → Round State
get_slot s h i = if in_object s h i then with_acc s (slot s h i) else next s

unfoldable pub set_slot : State → ℕ → ℕ → Round State
set_slot s h i =
    let o = get_or s.objs h no_obj in
    if in_object s h i
    then next (record s { objs = set s.objs h (record o { slots = set o.slots i s.acc }) })
    else next s

unfoldable pub add_slot : State → ℕ → ℕ → Round State
add_slot s h i = if in_object s h i then with_acc s (u64 (s.acc + slot s h i)) else next s

-- `CALL` and the second half of `INVOKE`
unfoldable pub call : ℕ → State → ℕ → Round State
call size s target =
    if not (pc_valid target size)
    then stop (returns err_oob) s
    else if leb max_ret (length s.ret_stack)
    then stop (returns (neg 5)) s
    else continue (record s { ret_stack = u32 (s.pc + insn_sz) ∷ s.ret_stack; pc = target })

-- `INVOKE`: `S` is assigned after the checks.
unfoldable pub invoke : ℕ → State → ℕ → ℕ → Round State
invoke size s h target =
    if not (pc_valid target size)
    then stop (returns err_oob) s
    else if leb max_ret (length s.ret_stack)
    then stop (returns (neg 5)) s
    else continue
        (record s { self = h; ret_stack = u32 (s.pc + insn_sz) ∷ s.ret_stack; pc = target })

-- `RET`: it breaks to the `pc += INSN_SZ` behind the switch.
unfoldable pub ret : State → List ℕ → Round State
ret s [] = stop (returns (pos 0)) s
ret s (r ∷ rest) = next (record s { ret_stack = rest; pc = r })

module _ (code : List ℕ) (size : ℕ) where
  -- the cases whose operand is `rd_i64(p)`
  unfoldable pub exec_wide : ℕ → State → ℕ → Round State
  exec_wide op s b =
      if op == 0
      then with_acc s b
      else if op == 1
      then with_acc s (u64 (s.acc + b))
      else if op == 2
      then with_acc s (u64 (s.acc + 2 ^ 64 - b))
      else if op == 3
      then with_acc s (u64 (s.acc * b))
      else if op == 4
      then divide s b
      else if op == 12
      then new_obj s (u32 b)
      else if op == 15
      then get_slot s s.self (u32 b)
      else if op == 16
      then set_slot s s.self (u32 b)
      else if op == 20
      then add_slot s s.self (u32 b)
      else if op == 21
      then flag s (less s.acc b)
      else if op == 22
      then flag s (not (less b s.acc))
      else if op == 23
      then flag s (less b s.acc)
      else if op == 24
      then flag s (not (less s.acc b))
      else if op == 25
      then flag s (s.acc == b)
      else flag s (not (s.acc == b))

  -- the cases that read `rd_u32(p)` and `rd_u32(p + 4)`
  unfoldable pub exec_pair : ℕ → State → ℕ → ℕ → Round State
  exec_pair op s h i =
      if op == 13 then get_slot s h i else if op == 14 then set_slot s h i else invoke size s h i

  -- the cases that read `rd_u32(p)`
  unfoldable pub exec_target : ℕ → State → ℕ → Round State
  exec_target op s target = if op == 17 then call size s target else jump size s target

  abbrev pub reads_wide : ℕ → Bool
  reads_wide op = leb op 4 || op == 12 || op == 15 || op == 16 || leb 20 op && leb op 26

  abbrev pub reads_pair : ℕ → Bool
  reads_pair op = op == 13 || op == 14 || op == 19

  -- `JZ` and `JNZ` read their operand only when they jump.
  abbrev pub reads_target : ℕ → State → Bool
  reads_target op s = op == 8 || op == 9 && s.acc == 0 || op == 10 && not (s.acc == 0) || op == 17

  -- The switch on the opcode, and the `pc += INSN_SZ` behind it.
  unfoldable pub exec : ℕ → State → Round State
  exec op s =
      if reads_wide op
      then or_fault (rd_i64 code (s.pc + 1)) s (exec_wide op s)
      else if reads_pair op
      then or_fault (rd_u32 code (s.pc + 1)) s
          (λ h. or_fault (rd_u32 code (s.pc + 5)) s (exec_pair op s h))
      else if reads_target op s
      then or_fault (rd_u32 code (s.pc + 1)) s (exec_target op s)
      else if op == 5
      then next (record s { out = s.out ++ (print_signed 64 24 s.acc ++ (b'\n' ∷ [])) })
      else if op == 6
      then next (record s { out = s.out ++ print_signed 64 24 s.acc })
      else if op == 7
      then stop (returns (pos 0)) s
      else if op == 9 || op == 10 || op == 11
      then next s
      else if op == 18
      then ret s s.ret_stack
      else stop (returns (neg 3)) s

  -- One round of the `while` loop.
  unfoldable pub round : State → Round State
  round s =
      if ltb size (u32 (s.pc + insn_sz))
      then stop (returns (pos 0)) s
      else let s' = record s { steps = u32 (s.steps + 1) } in
        if ltb budget s'.steps
        then stop (returns (neg 20)) s'
        else or_fault (get_elem? code s.pc) s' λ op. exec op s'

-- What a call leaves: how it ended, what it printed, the objects, which are static, and the VM
-- monitor. After a fault or a trap nothing is recorded.
pub record Outcome : Type 0 where
  pub how : End
  pub out : List ℕ
  pub objs : List Obj
  pub entries : VmMon.Entries

-- the state before the loop: `obj_used` is cleared, the rest of the objects is left
abbrev pub start : List Obj → State
start objs = record {
  acc = 0;
  pc = 0;
  steps = 0;
  self = max_objs;
  ret_stack = [];
  objs = map (λ (o : Obj). record o { in_use = false }) objs;
  out = [];
}

-- `gasm_done`
abbrev pub finish : VmMon.Entries → End × State → Outcome
finish es (returns rc, s) = record {
  how = returns rc;
  out = s.out;
  objs = s.objs;
  entries = VmMon.note_run es VmMon.gasm s.steps rc;
}
finish es (e, s) = record { how = e; out = s.out; objs = s.objs; entries = es }

-- `gasm_vm_run_io`; `none` for the code is a null pointer. Every round counts a step, and the step
-- after the budget stops.
unfoldable pub run_io : VmMon.Entries → List Obj → Option (List ℕ) → ℕ → Option Outcome
run_io es objs none size = some (record {
  how = returns (neg 1);
  out = [];
  objs = objs;
  entries = VmMon.note_run es VmMon.gasm 0 (neg 1);
})
run_io es objs (some code) size =
    if size == 0
    then some (record {
      how = returns (neg 1);
      out = [];
      objs = objs;
      entries = VmMon.note_run es VmMon.gasm 0 (neg 1);
    })
    else Option.map (finish es) (loop (budget + 2) (round code size) (start objs))
