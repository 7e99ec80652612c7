-- ===== src/TaskPrio/Calls.antt =====
-- Sequences of calls of os/kernel/taskprio.c.
use lardos.Base.{
  get_or, ℕ, ◌+◌, inl, inr, refl, Bool, none, some, Option, List, [], ◌∷◌, ◌++◌, arith, All,
  Option-cases, get_or, get_or-All,
}
use lardos.TaskPrio.{
  State, enqueue, enqueue_os, find_index, init, clamp_priority, text_user, text_queue, or_text,
  text_os, os_level, dash_os, text_set, text_adjust, text_grant, remove_at, text_default,
}
use lardos.Base.Words.{IsU32, u32}
use lardos.TaskPrio.Valid.{
  IsValid, enqueue_with_priority-IsValid, clamp_priority_bound, dequeue_next-IsValid,
  history_log-IsValid, update-IsValid, with_tasks-IsValid, remove_at-All, length-remove_at,
}
use lardos.TaskPrio.Pick.{Picked, pick_lem}
use lardos.TaskPrio.Dequeue.{no_task, dequeue_next}
use lardos.TaskPrio.Admin.{
  set_priority, adjust_priority, grant_urgent_priority, grant_urgent_as, grant_os_priority, pause,
  remove, set_default, history_clear,
}
use lardos.TaskPrio.Scan.{InRange}

pub data Call : Type 0 where
  enqueues : (name command : Option (List ℕ)) (priority : ℕ) → Call
  enqueues_os : (name command : Option (List ℕ)) → Call
  dequeues : Call
  sets : (id priority : ℕ) → Call
  adjusts : (id delta : ℕ) → Call
  grants : (id : ℕ) → Call
  grants_os : (id : ℕ) → Call
  pauses : (id : ℕ) (on : Bool) → Call
  removes : (id : ℕ) → Call
  sets_default : (priority : ℕ) → Call
  clears : Call

-- a call that returns -1 leaves the state
abbrev pub or_same : State → Option State → State
or_same s none = s
or_same s (some s') = s'

unfoldable pub step : State → Call → State
step s (enqueues name command priority) = (enqueue s name command priority).1
step s (enqueues_os name command) = (enqueue_os s name command).1
step s dequeues = (dequeue_next s).1
step s (sets id priority) = or_same s (set_priority s id priority)
step s (adjusts id delta) = or_same s (adjust_priority s id delta)
step s (grants id) = or_same s (grant_urgent_priority s id)
step s (grants_os id) = or_same s (grant_os_priority s id)
step s (pauses id on) = or_same s (pause s id on)
step s (removes id) = or_same s (remove s id)
step s (sets_default priority) = set_default s priority
step s clears = history_clear s

-- priorities and differences are words
abbrev pub Proper : Call → Type 0
Proper (enqueues name command priority) = IsU32 priority
Proper (sets id priority) = IsU32 priority
Proper (sets_default priority) = IsU32 priority
Proper _ = Unit

unfoldable pub run : State → List Call → State
run s [] = s
run s (c ∷ cs) = run (step s c) cs

-- What the calls that look a task up do when it is found.
found_or_same :
    (s : State) (id : ℕ) (f : ℕ → State)
    → IsValid s
    → ((i : ℕ) → IsValid (f i))
    → IsValid (or_same s (elim (find_index s.tasks id) [ none ↦ none | some i ↦ some (f i) ]))
found_or_same s id f v h = elim (Option-cases (find_index s.tasks id)) [
  | inl e ↦ rw e v
  | inr (i, e) ↦ rw e (h i)
]

step-IsValid : (s : State) (c : Call) → Proper c → IsValid s → IsValid (step s c)
unfolding step enqueue enqueue_os set_priority adjust_priority grant_urgent_as pause remove
    set_default
step-IsValid s (enqueues name command priority) p v =
    enqueue_with_priority-IsValid s name command (clamp_priority priority) text_user text_queue v
      (clamp_priority_bound priority p)
step-IsValid s (enqueues_os name command) p v =
    enqueue_with_priority-IsValid s (some (or_text name text_os)) command os_level text_os
      (text_queue ++ dash_os) v (omega arith)
step-IsValid s dequeues p v = dequeue_next-IsValid s v
step-IsValid s (sets id priority) p v = found_or_same s id _ v λ i.
    history_log-IsValid _ id _ _ _ text_user text_set
      (update-IsValid s i _ v (clamp_priority_bound priority p))
step-IsValid s (adjusts id delta) p v = found_or_same s id _ v λ i.
    history_log-IsValid _ id _ _ _ text_user text_adjust (
      update-IsValid s i _ v
        (clamp_priority_bound (u32 ((get_or s.tasks i no_task).priority + delta)) (omega arith)))
step-IsValid s (grants id) p v =
    found_or_same s id _ v λ i.
      history_log-IsValid _ id _ _ _ text_user text_grant (update-IsValid s i _ v (omega arith))
step-IsValid s (grants_os id) p v = found_or_same s id _ v λ i.
    history_log-IsValid _ id _ _ _ text_os (text_grant ++ dash_os)
      (update-IsValid s i _ v (omega arith))
step-IsValid s (pauses id on) p v =
    found_or_same s id _ v
      λ i. update-IsValid s i _ v (get_or-All InRange s.tasks i no_task v.in_range (omega arith))
step-IsValid s (removes id) p v = found_or_same s id _ v λ i.
    with_tasks-IsValid s (remove_at s.tasks i) v (remove_at-All s.tasks i v.in_range)
      (omega (arith, length-remove_at s.tasks i, v.fits))
step-IsValid s (sets_default priority) p v =
    history_log-IsValid _ 0 text_default s.default_priority (clamp_priority priority) text_user
      text_default
      record {
        in_range = v.in_range;
        fits = v.fits;
        history_size = v.history_size;
        history_fits = v.history_fits;
        default_in_range = clamp_priority_bound priority p;
      }
step-IsValid s clears p v = record {
  in_range = v.in_range;
  fits = v.fits;
  history_size = refl;
  history_fits = omega arith;
  default_in_range = v.default_in_range;
}

run-IsValid : (s : State) (cs : List Call) → All Proper cs → IsValid s → IsValid (run s cs)
unfolding run
run-IsValid s [] p v = v
run-IsValid s (c ∷ cs) p v = run-IsValid (step s c) cs p.1 (step-IsValid s c p.0 v)

-- After any sequence of calls from the initial state, whose priorities are 32-bit words, there are at
-- most 8 tasks, all with a priority from 0 to 10, and the history and the default are in their bounds.
pub reachable-IsValid : (cs : List Call) → All Proper cs → IsValid (run init cs)
reachable-IsValid cs p = run-IsValid init cs p record {
  in_range = tt;
  fits = omega arith;
  history_size = refl;
  history_fits = omega arith;
  default_in_range = omega arith;
}

-- In every state that calls with 32-bit priorities reach, `taskprio_dequeue_next` picks the first task
-- of the highest rank, or nothing when all tasks are paused.
pub reachable_pick : (cs : List Call) → All Proper cs → Picked (run init cs).tasks
reachable_pick cs p = pick_lem (run init cs).tasks (reachable-IsValid cs p).in_range
