-- ===== src/TaskPrio/Admin.antt =====
-- The calls of os/kernel/taskprio.c that change or list what is queued: priorities, grants, pauses,
-- removal, the default, and the history.
use lardos.Base.{
  ℕ, suc, ◌+◌, ◌%◌, ◌||◌, Bool, false, none, some, Option, List, [], ◌∷◌, ◌++◌, if◌then◌else◌, set,
  not, length, replicate, get_or, get_elem?, ltb, leb,
}
use lardos.TaskPrio.{
  State, Task, find_index, text_user, text_os, history_log, HistoryEntry, text_grant, remove_at,
  clamp_priority, is_urgent, history_max, dash_os, text_default, no_entry, text_set, os_level,
  text_adjust,
}
use lardos.TaskPrio.Dequeue.{no_task}
use lardos.Base.Words.{sub32, u32}

abbrev pub update : State → ℕ → Task → State
update s i t = record s { tasks = set s.tasks i t }

-- `taskprio_set_priority`; `none` is -1 and leaves everything
unfoldable pub set_priority : State → ℕ → ℕ → Option State
set_priority s id priority = elim (find_index s.tasks id) [
  | none ↦ none
  | some i ↦
      let t = get_or s.tasks i no_task in
      let t' = record t { priority = clamp_priority priority; wait_ticks = 0 } in
      some (history_log (update s i t') id t.name t.priority t'.priority text_user text_set)
]

unfoldable pub adjust_priority : State → ℕ → ℕ → Option State
adjust_priority s id delta = elim (find_index s.tasks id) [
  | none ↦ none
  | some i ↦
      let t = get_or s.tasks i no_task in
      let t' = record t { priority = clamp_priority (u32 (t.priority + delta)); wait_ticks = 0 } in
      some (history_log (update s i t') id t.name t.priority t'.priority text_user text_adjust)
]

unfoldable pub grant_urgent_as : State → ℕ → List ℕ → List ℕ → Option State
grant_urgent_as s id actor action = elim (find_index s.tasks id) [
  | none ↦ none
  | some i ↦
      let t = get_or s.tasks i no_task in
      let t' = record t { priority = os_level; wait_ticks = 0; paused = false } in
      some (history_log (update s i t') id t.name t.priority os_level actor action)
]

abbrev pub grant_urgent_priority : State → ℕ → Option State
grant_urgent_priority s id = grant_urgent_as s id text_user text_grant

abbrev pub grant_os_priority : State → ℕ → Option State
grant_os_priority s id = grant_urgent_as s id text_os (text_grant ++ dash_os)

unfoldable pub pause : State → ℕ → Bool → Option State
pause s id on = elim (find_index s.tasks id) [
  | none ↦ none
  | some i ↦ some (update s i (record (get_or s.tasks i no_task) { paused = on }))
]

unfoldable pub remove : State → ℕ → Option State
remove s id = elim (find_index s.tasks id) [
  | none ↦ none
  | some i ↦ some (record s { tasks = remove_at s.tasks i })
]

unfoldable pub set_default : State → ℕ → State
set_default s priority =
    history_log (record s { default_priority = clamp_priority priority }) 0 text_default
      s.default_priority (clamp_priority priority) text_user text_default

-- `taskprio_at`
abbrev pub task_at : State → ℕ → Bool → Option Task
task_at s idx has_out = if not has_out then none else get_elem? s.tasks idx

unfoldable pub count_if : (Task → Bool) → List Task → ℕ
count_if p [] = 0
count_if p (t ∷ ts) = if p t then suc (count_if p ts) else count_if p ts

-- `taskprio_info_t`
pub record Info : Type 0 where
  pub queued : ℕ
  pub completed : ℕ
  pub next_id : ℕ
  pub last_id : ℕ
  pub paused : ℕ
  pub runnable : ℕ
  pub os_urgent : ℕ
  pub default_priority : ℕ

unfoldable pub info : State → Info
info s = record {
  queued = length s.tasks;
  completed = s.completed;
  next_id = s.next_id;
  last_id = s.last_id;
  paused = count_if (λ t. t.paused) s.tasks;
  runnable = count_if (λ t. not t.paused) s.tasks;
  os_urgent = count_if is_urgent s.tasks;
  default_priority = s.default_priority;
}

-- `taskprio_history_at`
unfoldable pub history_at : State → ℕ → Bool → Option HistoryEntry
history_at s idx has_out =
    let start =
      if ltb s.history_count history_max then 0 else sub32 s.history_next 1 % history_max in
    if not has_out || leb s.history_count idx
    then none
    else some (get_or s.history (u32 (start + idx) % history_max) no_entry)

abbrev pub history_clear : State → State
history_clear s = record s {
  history = replicate history_max no_entry;
  history_count = 0;
  history_next = 1;
}
