-- ===== src/VmMon.antt =====
-- os/kernel/vmmon.c and os/include/vmmon.h: the VM monitor, which counts the runs, the failures and
-- the budget hits of each language VM. `uint32_t` counters wrap.
pub mod Laws
mod Tests
use lardos.Base.Int.{ℤ, pos, is_zero}
use lardos.Base.{
  ℕ, ◌+◌, ◌&&◌, ◌||◌, Bool, none, some, Option, List, [], ◌∷◌, if◌then◌else◌, ltb, get_or, not, map,
  leb, set,
}
use lardos.Base.Words.{u32}

-- `vmmon_entry_t` without its name, which no call changes
pub record Entry : Type 0 where
  pub runs : ℕ
  pub failures : ℕ
  pub budget_hits : ℕ
  pub last_steps : ℕ
  pub max_steps : ℕ
  pub last_rc : ℤ

abbrev pub vmmon_count : ℕ
vmmon_count = 6

abbrev pub bosl : ℕ
bosl = 0

abbrev pub lil : ℕ
lil = 1

abbrev pub gasm : ℕ
gasm = 2

abbrev pub lafillo : ℕ
lafillo = 3

abbrev pub osvm : ℕ
osvm = 4

abbrev pub lha : ℕ
lha = 5

-- `s_budgets`
abbrev pub budgets : List ℕ
budgets = 1000000 ∷ 500000 ∷ 1000000 ∷ 100000 ∷ 1000000 ∷ 100000 ∷ []

abbrev pub zero_entry : Entry
zero_entry = record {
  runs = 0;
  failures = 0;
  budget_hits = 0;
  last_steps = 0;
  max_steps = 0;
  last_rc = pos 0;
}

-- `s_entries`
abbrev pub Entries : Type 0
Entries = List Entry

abbrev pub valid_id : ℕ → Bool
valid_id id = ltb id vmmon_count

unfoldable pub budget : ℕ → ℕ
budget id = if valid_id id then get_or budgets id 0 else 100000

-- the entry that a run of `steps` steps with result `rc` leaves
abbrev pub recorded : ℕ → Entry → ℕ → ℤ → Entry
recorded limit e steps rc = record e {
  runs = u32 (e.runs + 1);
  last_steps = steps;
  last_rc = rc;
  max_steps = if ltb e.max_steps steps then steps else e.max_steps;
  failures = if is_zero rc then e.failures else u32 (e.failures + 1);
  budget_hits =
      if not (is_zero rc) && leb limit steps then u32 (e.budget_hits + 1) else e.budget_hits;
}

-- `vmmon_record`
unfoldable pub note_run : Entries → ℕ → ℕ → ℤ → Entries
unfolding budget
note_run es id steps rc =
    if not (valid_id id)
    then es
    else set es id (recorded (budget id) (get_or es id zero_entry) steps rc)

unfoldable pub reset : Entries → Entries
reset es = map (λ _. zero_entry) es

-- `vmmon_info`: `none` for -1. `has_out` is false for a null `out`.
unfoldable pub info : Entries → ℕ → Bool → Option Entry
info es id has_out =
    if not (valid_id id) || not has_out then none else some (get_or es id zero_entry)
