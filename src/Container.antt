-- ===== src/Container.antt =====
-- os/kernel/lcontainer.c and os/include/lcontainer.h: containers, which limit what a program may ask of
-- the system calls. A name is the list of its characters, and no active container is `none`.

pub mod Created
pub mod Confined
mod Tests
use lardos.Base.{
  ℕ, zero, suc, ◌+◌, ◌&&◌, ◌||◌, Bool, true, false, none, some, Option, List, [], ◌∷◌, ◌==◌,
  if◌then◌else◌, leb, not, get_or, set, bit_and,
}
use lardos.Base.Int.{ℤ, pos, neg, Result, ok, error, is_zero}
use lardos.Base.Words.{u32}
use lardos.CString.Order.{order}

-- `SYSCALL_CAP_ALL`
abbrev pub cap_all : ℕ
cap_all = 0x3F

abbrev pub cap_fs : ℕ
cap_fs = 0x01

-- `SYSCALL_CAP_FS | SYSCALL_CAP_GUI | SYSCALL_CAP_KEYS`
abbrev pub cap_gui : ℕ
cap_gui = 0x0D

-- The entries of the four arrays at one index.
pub record Slot : Type 0 where
  pub name : List ℕ
  pub caps : ℕ
  pub runs : ℕ
  pub used : Bool

-- what `clear_slot` leaves
abbrev pub clear_slot : Slot
clear_slot = record { name = []; caps = 0; runs = 0; used = false }

pub record State : Type 0 where
  pub slots : List Slot
  pub active : Option ℕ

abbrev pub name_char : ℕ → Bool
name_char c =
    leb b'a' c && leb c b'z'
    || leb b'A' c && leb c b'Z'
    || leb b'0' c && leb c b'9'
    || c == b'_'
    || c == b'-'

-- the loop of `copy_name`, with room for that many characters
unfoldable pub copy_loop : ℕ → List ℕ → Result (List ℕ)
copy_loop room [] = ok []
copy_loop zero (c ∷ src) = error (neg 3)
copy_loop (suc room) (c ∷ src) =
    let rest = copy_loop room src in
    if name_char c then elim rest [ ok dst ↦ ok (c ∷ dst) | error r ↦ error r ] else error (neg 2)

-- `copy_name` into `LCONTAINER_NAME_MAX` characters
abbrev pub copy_name : Option (List ℕ) → Result (List ℕ)
copy_name none = error (neg 1)
copy_name (some []) = error (neg 1)
copy_name (some (c ∷ src)) = copy_loop 15 (c ∷ src)

-- The loop of `find_container`, from the index `i` on; `strcmp` gives the order of two texts.
unfoldable pub find_from : ℕ → List Slot → List ℕ → Option ℕ
find_from i [] name = none
find_from i (x ∷ slots) name =
    let rest = find_from (suc i) slots name in
    if x.used && is_zero (order x.name name) then some i else rest

abbrev pub find_container : State → Option (List ℕ) → Option ℕ
find_container s none = none
find_container s (some []) = none
find_container s (some (c ∷ name)) = find_from 0 s.slots (c ∷ name)

-- the loop of `lcontainer_create` for a slot that is not used
unfoldable pub free_from : ℕ → List Slot → Option ℕ
free_from i [] = none
free_from i (x ∷ slots) = let rest = free_from (suc i) slots in if not x.used then some i else rest

unfoldable pub create : State → Option (List ℕ) → ℕ → ℤ × State
create s name caps = elim (copy_name name) [
  | error r ↦ (neg 1, s)
  | ok clean ↦ elim (find_container s (some clean)) [
    | some i ↦ (neg 2, s)
    | none ↦ elim (free_from 0 s.slots) [
      | none ↦ (neg 3, s)
      | some slot ↦ (
        pos 0,
        record s {
          slots =
              set s.slots slot
                record { name = clean; caps = bit_and caps cap_all; runs = 0; used = true };
        },
      )
    ]
  ]
]

abbrev pub is_active : State → ℕ → Bool
is_active s idx = elim s.active [ none ↦ false | some i ↦ i == idx ]

unfoldable pub remove : State → Option (List ℕ) → ℤ × State
remove s name = elim (find_container s name) [
  | none ↦ (neg 1, s)
  | some idx ↦ (
    pos 0,
    record {
      slots = set s.slots idx clear_slot;
      active = if is_active s idx then none else s.active;
    },
  )
]

-- `lcontainer_use`
unfoldable pub use_container : State → Option (List ℕ) → ℤ × State
use_container s name = elim (find_container s name) [
  | none ↦ (neg 1, s)
  | some idx ↦ (pos 0, record s { active = some idx })
]

abbrev pub exit_container : State → State
exit_container s = record s { active = none }

abbrev pub slot_at : State → ℕ → Slot
slot_at s i = get_or s.slots i clear_slot

-- `lcontainer_has_active`, `lcontainer_active_name`, `lcontainer_active_caps`
abbrev pub has_active : State → Bool
has_active s = elim s.active [ none ↦ false | some i ↦ (slot_at s i).used ]

abbrev pub active_name : State → List ℕ
active_name s = elim s.active [
  | none ↦ []
  | some i ↦ if (slot_at s i).used then (slot_at s i).name else []
]

abbrev pub active_caps : State → ℕ
active_caps s = elim s.active [
  | none ↦ cap_all
  | some i ↦ if (slot_at s i).used then (slot_at s i).caps else cap_all
]

-- `lcontainer_init`, whose names are "sealed", "fsbox" and "guibox"
abbrev pub init : State
init =
    let s0 : State = record {
      slots = clear_slot ∷ clear_slot ∷ clear_slot ∷ clear_slot ∷ clear_slot ∷ clear_slot ∷ [];
      active = none;
    } in
    let s1 = create s0 (some (b's' ∷ b'e' ∷ b'a' ∷ b'l' ∷ b'e' ∷ b'd' ∷ [])) 0 in
    let s2 = create s1.1 (some (b'f' ∷ b's' ∷ b'b' ∷ b'o' ∷ b'x' ∷ [])) cap_fs in
    (create s2.1 (some (b'g' ∷ b'u' ∷ b'i' ∷ b'b' ∷ b'o' ∷ b'x' ∷ [])) cap_gui).1

-- `lcontainer_count`
unfoldable pub count : List Slot → ℕ
count [] = 0
count (x ∷ slots) = if x.used then suc (count slots) else count slots

-- the loop of `lcontainer_get`
unfoldable pub nth_used : ℕ → List Slot → ℕ → Option ℕ
nth_used i [] idx = none
nth_used i (x ∷ slots) zero = if x.used then some i else nth_used (suc i) slots zero
nth_used i (x ∷ slots) (suc idx) = nth_used (suc i) slots (if x.used then idx else suc idx)

-- `lcontainer_get`: a container and whether it is active
abbrev pub get : State → ℕ → Option (Slot × Bool)
get s idx = elim (nth_used 0 s.slots idx) [
  | none ↦ none
  | some i ↦ some (slot_at s i, is_active s i)
]

-- the container that `lcontainer_run` takes
abbrev pub chosen : State → Option (List ℕ) → Option ℕ
chosen s none = s.active
chosen s (some []) = s.active
chosen s (some (c ∷ name)) = find_container s (some (c ∷ name))

-- `syscall_set_caps` of os/kernel/syscall.c: the capabilities in force behind it
abbrev pub set_caps : ℕ → ℕ
set_caps caps = bit_and caps cap_all

-- `lcontainer_run`: `lardx_run` is the run of the program under the capabilities in force, and gives its
-- code and the capabilities that are in force when it returns. The results are the code, the state,
-- the capabilities under which the program ran, if it did, and those in force behind the call.
unfoldable pub run : (ℕ → ℤ × ℕ) → State → ℕ → Option (List ℕ) → ℤ × (State × (Option ℕ × ℕ))
run lardx_run s old_caps name = elim (chosen s name) [
  | none ↦ (neg 40, (s, (none, old_caps)))
  | some idx ↦
      let slot = slot_at s idx in
      let r = (lardx_run (set_caps slot.caps)).0 in
      let counted = record slot { runs = u32 (slot.runs + 1) } in
      if not slot.used then (neg 40, (s, (none, old_caps))) else (
        r,
        (
          if is_zero r then record s { slots = set s.slots idx counted } else s,
          (some (set_caps slot.caps), set_caps old_caps),
        ),
      )
]
