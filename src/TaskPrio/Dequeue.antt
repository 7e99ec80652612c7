-- ===== src/TaskPrio/Dequeue.antt =====
-- `taskprio_dequeue_next` of os/kernel/taskprio.c: the choice of the next task, and aging.
use mathlib.Core.Option
use lardos.Base.{
  ℕ, suc, ◌+◌, ◌-◌, ◌*◌, ◌^◌, ◌&&◌, ◌||◌, true, false, none, some, Option, List, [], ◌∷◌,
  if◌then◌else◌, not, map, ltb, get_or,
}
use lardos.TaskPrio.{Task, State, is_urgent, remove_at}
use lardos.Base.Words.{u32}
use lardos.Base.Int.{signed_less}

-- the first loop: the first task that is urgent and not paused
unfoldable pub first_urgent : List Task → Option ℕ
first_urgent [] = none
first_urgent (t ∷ ts) =
    if not t.paused && is_urgent t then some 0 else Option.map suc (first_urgent ts)

-- `priority * 16 + age`, the age being at most 15
abbrev pub score : Task → ℕ
score t = u32 (u32 (t.priority * 16) + (if ltb 15 t.wait_ticks then 15 else t.wait_ticks))

-- the second loop, from place `i` on; `best_score` starts as -1
unfoldable pub scan : ℕ → List Task → Option ℕ → ℕ → Option ℕ
scan i [] best best_score = best
scan i (t ∷ ts) best best_score =
    elim ((t.paused || is_urgent t) || not (signed_less 32 best_score (score t))) [
      | true ↦ scan (suc i) ts best best_score
      | false ↦ scan (suc i) ts (some i) (score t)
    ]

unfoldable pub pick : List Task → Option ℕ
pick ts = elim (first_urgent ts) [ some i ↦ some i | none ↦ scan 0 ts none (2 ^ 32 - 1) ]

abbrev pub age : Task → Task
age t =
    if not (is_urgent t) && ltb t.wait_ticks 255
    then record t { wait_ticks = t.wait_ticks + 1 }
    else t

abbrev pub no_task : Task
no_task = record {
  id = 0;
  name = [];
  command = [];
  priority = 0;
  wait_ticks = 0;
  runs = 0;
  paused = false;
}

-- `taskprio_dequeue_next`: what it stores to `*out`, `none` for the result 0.
unfoldable pub dequeue_next : State → Option Task × State
dequeue_next s = elim (pick s.tasks) [
  | none ↦ (none, record s { tasks = map age s.tasks })
  | some i ↦
      let t = get_or s.tasks i no_task in
      (
        some (record t { runs = u32 (t.runs + 1) }),
        record s { tasks = map age (remove_at s.tasks i); completed = u32 (s.completed + 1) },
      )
]
