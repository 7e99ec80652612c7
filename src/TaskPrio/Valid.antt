-- ===== src/TaskPrio/Valid.antt =====
-- The invariant of os/kernel/taskprio.c, kept by every call.
use lardos.Base.{
  ℕ, zero, suc, ◌+◌, ◌-◌, ◌^◌, ◌≤◌, ◌≡◌, inl, inr, ◌∙◌, ◌||◌, none, some, Option, List, [], ◌∷◌,
  arith, ◌==◌, if◌then◌else◌, All, length, Option-cases, map, Bool-cases, ltb, set, leb, not,
  set-All, length-map, length-set, All-append, length-append, leb→lt,
}
use lardos.TaskPrio.{
  State, clamp_priority, history_log, remove_at, Task, enqueue_with_priority, history_write,
  max_priority, max_tasks, history_max, new_task, os_level, with_task,
}
use lardos.TaskPrio.Dequeue.{dequeue_next, pick, age}
use mathlib.Core.Bool.{xor}
use lardos.TaskPrio.Scan.{InRange}
use lardos.Base.Words.{IsU32}
use lardos.TaskPrio.Admin.{update}

pub record IsValid (s : State) : Type 0 where
  pub in_range : All InRange s.tasks
  pub fits : length s.tasks ≤ max_tasks
  pub history_size : length s.history ≡ history_max
  pub history_fits : s.history_count ≤ history_max
  pub default_in_range : s.default_priority ≤ max_priority

pub clamp_priority_bound : (p : ℕ) → IsU32 p → clamp_priority p ≤ max_priority
unfolding clamp_priority xor
clamp_priority_bound p h = ground arith

pub history_log-IsValid :
    (s : State) (id : ℕ) (name : List ℕ) (old new : ℕ) (actor action : List ℕ)
    → IsValid s
    → IsValid (history_log s id name old new actor action)
unfolding history_log history_write
history_log-IsValid s id name old new actor action v =
    elim (Bool-cases (not (new == os_level) || old == os_level)) [
      | inl e ↦ rw e v
      | inr e ↦ rw e record {
        in_range = v.in_range;
        fits = v.fits;
        history_size = length-set s.history _ _ ∙ v.history_size;
        history_fits = counted s.history_count v.history_fits;
        default_in_range = v.default_in_range;
      }
    ]
  where
    counted : (n : ℕ) → n ≤ history_max → (if ltb n history_max then n + 1 else n) ≤ history_max
    counted n h = ground arith

pub with_tasks-IsValid :
    (s : State) (ts : List Task)
    → IsValid s
    → All InRange ts
    → length ts ≤ max_tasks
    → IsValid (record s { tasks = ts })
with_tasks-IsValid s ts v h le = record {
  in_range = h;
  fits = le;
  history_size = v.history_size;
  history_fits = v.history_fits;
  default_in_range = v.default_in_range;
}

pub update-IsValid : (s : State) (i : ℕ) (t : Task) → IsValid s → InRange t → IsValid (update s i t)
update-IsValid s i t v h =
    with_tasks-IsValid s (set s.tasks i t) v (set-All InRange s.tasks i t v.in_range h)
      (omega (arith, length-set s.tasks i t, v.fits))

pub remove_at-All : (ts : List Task) (i : ℕ) → All InRange ts → All InRange (remove_at ts i)
unfolding remove_at
remove_at-All [] i h = tt
remove_at-All (t ∷ ts) zero h = h.1
remove_at-All (t ∷ ts) (suc i) h = (h.0, remove_at-All ts i h.1)

pub length-remove_at : (ts : List Task) (i : ℕ) → length (remove_at ts i) ≤ length ts
unfolding remove_at
length-remove_at [] i = omega arith
length-remove_at (t ∷ ts) zero = omega arith
length-remove_at (t ∷ ts) (suc i) = omega (arith, length-remove_at ts i)

age-All : (ts : List Task) → All InRange ts → All InRange (map age ts)
age-All [] h = tt
age-All (t ∷ ts) h = (ground (arith, h), age-All ts h.1)

pub dequeue_next-IsValid : (s : State) → IsValid s → IsValid (dequeue_next s).1
unfolding dequeue_next
dequeue_next-IsValid s v = elim (Option-cases (pick s.tasks)) [
  | inl e ↦
      rw (e, dequeue_next)
        (with_tasks-IsValid s (map age s.tasks) v (age-All s.tasks v.in_range)
          (omega (arith, length-map age s.tasks, v.fits)))
  | inr (i, e) ↦
      rw (e, dequeue_next)
        record {
          in_range = age-All (remove_at s.tasks i) (remove_at-All s.tasks i v.in_range);
          fits =
              omega
                (arith, length-map age (remove_at s.tasks i), length-remove_at s.tasks i, v.fits);
          history_size = v.history_size;
          history_fits = v.history_fits;
          default_in_range = v.default_in_range;
        }
]

pub enqueue_with_priority-IsValid :
    (s : State) (name command : Option (List ℕ)) (priority : ℕ) (actor action : List ℕ)
    → IsValid s
    → priority ≤ max_priority
    → IsValid (enqueue_with_priority s name command priority actor action).1
unfolding enqueue_with_priority
enqueue_with_priority-IsValid s name none priority actor action v h = v
enqueue_with_priority-IsValid s name (some []) priority actor action v h = v
enqueue_with_priority-IsValid s name (some (c ∷ cs)) priority actor action v h =
    elim (Bool-cases (leb max_tasks (length s.tasks))) [
      | inl e ↦ rw (e, enqueue_with_priority) v
      | inr e ↦
          let t = new_task s name (c ∷ cs) priority in
          rw (e, enqueue_with_priority)
            (history_log-IsValid (with_task s t) t.id t.name (2 ^ 32 - 1) priority actor action
              record {
                in_range = All-append InRange s.tasks (t ∷ []) v.in_range (h, tt);
                fits =
                    omega
                      (arith, length-append s.tasks (t ∷ []), leb→lt max_tasks (length s.tasks) e);
                history_size = v.history_size;
                history_fits = v.history_fits;
                default_in_range = v.default_in_range;
              })
    ]
