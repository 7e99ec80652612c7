-- ===== src/TaskPrio.antt =====
-- os/kernel/taskprio.c and os/include/taskprio.h: the queue of prioritized tasks. `tasks[0..count)` is
-- a list. A priority is an `int32_t` and stands as its bit pattern. A C string is the list of its
-- characters before the NUL, and a pointer that may be null is an option. The events that are traced
-- are collected, the newest first.
pub mod Dequeue
pub mod Admin
pub mod Scan
pub mod Pick
pub mod Valid
pub mod Calls
mod Tests
use mathlib.Core.Option
use lardos.Base.{
  ℕ, zero, suc, ◌+◌, ◌-◌, ◌%◌, ◌^◌, ◌||◌, Bool, false, none, some, Option, List, [], ◌∷◌, ◌++◌,
  ◌==◌, if◌then◌else◌, take, set, not, replicate, ltb, leb, length,
}
use lardos.Base.Int.{is_negative, Result, signed_less, error, neg, ok}
use lardos.Base.Words.{u32, sub32}

-- `taskprio_task_t`
pub record Task : Type 0 where
  pub id : ℕ
  pub name : List ℕ
  pub command : List ℕ
  pub priority : ℕ
  pub wait_ticks : ℕ
  pub runs : ℕ
  pub paused : Bool

-- `taskprio_history_entry_t`
pub record HistoryEntry : Type 0 where
  pub seq : ℕ
  pub id : ℕ
  pub name : List ℕ
  pub old_priority : ℕ
  pub new_priority : ℕ
  pub actor : List ℕ
  pub action : List ℕ

-- `taskprio_state_t`, and the calls of `lardkit_trace_event`
pub record State : Type 0 where
  pub tasks : List Task
  pub history : List HistoryEntry
  pub history_count : ℕ
  pub history_next : ℕ
  pub completed : ℕ
  pub next_id : ℕ
  pub last_id : ℕ
  pub default_priority : ℕ
  pub traced : List (List ℕ × ℕ)

abbrev pub max_tasks : ℕ
max_tasks = 8

abbrev pub history_max : ℕ
history_max = 16

abbrev pub cmd_max : ℕ
cmd_max = 256

abbrev pub name_max : ℕ
name_max = 31

abbrev pub actor_max : ℕ
actor_max = 15

abbrev pub action_max : ℕ
action_max = 31

abbrev pub max_priority : ℕ
max_priority = 10

abbrev pub os_level : ℕ
os_level = 10

abbrev pub text_task : List ℕ
text_task = b't' ∷ b'a' ∷ b's' ∷ b'k' ∷ []

abbrev pub text_user : List ℕ
text_user = b'u' ∷ b's' ∷ b'e' ∷ b'r' ∷ []

abbrev pub text_os : List ℕ
text_os = b'o' ∷ b's' ∷ []

abbrev pub text_queue : List ℕ
text_queue = b'q' ∷ b'u' ∷ b'e' ∷ b'u' ∷ b'e' ∷ []

abbrev pub text_set : List ℕ
text_set = b's' ∷ b'e' ∷ b't' ∷ []

abbrev pub text_adjust : List ℕ
text_adjust = b'a' ∷ b'd' ∷ b'j' ∷ b'u' ∷ b's' ∷ b't' ∷ []

abbrev pub text_grant : List ℕ
text_grant = b'g' ∷ b'r' ∷ b'a' ∷ b'n' ∷ b't' ∷ []

abbrev pub text_default : List ℕ
text_default = b'd' ∷ b'e' ∷ b'f' ∷ b'a' ∷ b'u' ∷ b'l' ∷ b't' ∷ []

abbrev pub dash_os : List ℕ
dash_os = b'-' ∷ text_os

-- `clamp_priority`
unfoldable pub clamp_priority : ℕ → ℕ
clamp_priority p =
    if is_negative 32 p then 0 else if signed_less 32 max_priority p then max_priority else p

-- `is_urgent_priority`
abbrev pub is_urgent : Task → Bool
is_urgent t = t.priority == os_level

-- `scopy` into an array of `cap` bytes, `cap` at least 1; a null pointer copies as "".
abbrev pub scopy : ℕ → List ℕ → List ℕ
scopy cap src = take (cap - 1) src

-- `s && s[0] ? s : fallback`
unfoldable pub or_text : Option (List ℕ) → List ℕ → List ℕ
or_text none fallback = fallback
or_text (some []) fallback = fallback
or_text (some (c ∷ s)) fallback = c ∷ s

abbrev pub no_entry : HistoryEntry
no_entry = record {
  seq = 0;
  id = 0;
  name = [];
  old_priority = 0;
  new_priority = 0;
  actor = [];
  action = [];
}

-- `if (history_next == 0) history_next = 1;` behind the increment
abbrev pub bump : ℕ → ℕ
bump n = if u32 (n + 1) == 0 then 1 else u32 (n + 1)

-- the entry that `history_log` writes, and the counters; no caller passes an empty text
unfoldable pub history_write : State → ℕ → List ℕ → ℕ → ℕ → List ℕ → List ℕ → State
history_write s id name old new actor action = record s {
  history = set s.history (sub32 s.history_next 1 % history_max) (record {
    seq = s.history_next;
    id = id;
    name = scopy (name_max + 1) (or_text (some name) text_task);
    old_priority = old;
    new_priority = new;
    actor = scopy (actor_max + 1) actor;
    action = scopy (action_max + 1) action;
  });
  history_next = bump s.history_next;
  history_count = if ltb s.history_count history_max then s.history_count + 1 else s.history_count;
  traced = (action, new) ∷ s.traced;
}

-- `history_log`: only a rise to the OS level is logged.
unfoldable pub history_log : State → ℕ → List ℕ → ℕ → ℕ → List ℕ → List ℕ → State
history_log s id name old new actor action =
    if not (new == os_level) || old == os_level
    then s
    else history_write s id name old new actor action

unfoldable pub skip_blanks : List ℕ → List ℕ
skip_blanks [] = []
skip_blanks (c ∷ s) = let rest = skip_blanks s in if c == b' ' || c == b'\t' then rest else c ∷ s

unfoldable pub first_word : List ℕ → List ℕ
first_word [] = []
first_word (c ∷ s) = let rest = first_word s in if c == b' ' || c == b'\t' then [] else c ∷ rest

-- `copy_name_from_command`
unfoldable pub name_from_command : ℕ → List ℕ → List ℕ
name_from_command cap command =
    or_text (some (take (cap - 1) (first_word (skip_blanks command)))) text_task

-- `find_index`, `none` for -1
unfoldable pub find_index : List Task → ℕ → Option ℕ
find_index [] id = none
find_index (t ∷ ts) id = if t.id == id then some 0 else Option.map suc (find_index ts id)

-- `remove_at`
unfoldable pub remove_at : List Task → ℕ → List Task
remove_at [] idx = []
remove_at (t ∷ ts) zero = ts
remove_at (t ∷ ts) (suc idx) = t ∷ remove_at ts idx

-- `taskprio_init`
abbrev pub init : State
init = record {
  tasks = [];
  history = replicate history_max no_entry;
  history_count = 0;
  history_next = 1;
  completed = 0;
  next_id = 1;
  last_id = 0;
  default_priority = 5;
  traced = [];
}

abbrev pub task_name : Option (List ℕ) → List ℕ → List ℕ
task_name name command = elim name [
  | none ↦ name_from_command (name_max + 1) command
  | some [] ↦ name_from_command (name_max + 1) command
  | some (c ∷ cs) ↦ scopy (name_max + 1) (c ∷ cs)
]

-- the task that `enqueue_with_priority` adds
abbrev pub new_task : State → Option (List ℕ) → List ℕ → ℕ → Task
new_task s name command priority = record {
  id = s.next_id;
  name = task_name name command;
  command = scopy cmd_max command;
  priority = priority;
  wait_ticks = 0;
  runs = 0;
  paused = false;
}

abbrev pub with_task : State → Task → State
with_task s t = record s {
  tasks = s.tasks ++ (t ∷ []);
  next_id = bump s.next_id;
  last_id = t.id;
  traced = (text_queue, t.priority) ∷ s.traced;
}

-- `enqueue_with_priority`: the value is what it stores to `*out_id`.
unfoldable pub enqueue_with_priority :
    State → Option (List ℕ) → Option (List ℕ) → ℕ → List ℕ → List ℕ → Result ℕ × State
enqueue_with_priority s name none priority actor action = (error (neg 1), s)
enqueue_with_priority s name (some []) priority actor action = (error (neg 1), s)
enqueue_with_priority s name (some (c ∷ cs)) priority actor action =
    if leb max_tasks (length s.tasks)
    then (error (neg 2), s)
    else let t = new_task s name (c ∷ cs) priority in
      (ok t.id, history_log (with_task s t) t.id t.name (2 ^ 32 - 1) t.priority actor action)

unfoldable pub enqueue : State → Option (List ℕ) → Option (List ℕ) → ℕ → Result ℕ × State
enqueue s name command priority =
    enqueue_with_priority s name command (clamp_priority priority) text_user text_queue

unfoldable pub enqueue_os : State → Option (List ℕ) → Option (List ℕ) → Result ℕ × State
enqueue_os s name command =
    enqueue_with_priority s (some (or_text name text_os)) command os_level text_os
      (text_queue ++ dash_os)
