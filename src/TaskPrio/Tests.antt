-- ===== src/TaskPrio/Tests.antt =====
-- Runs of os/kernel/taskprio.c, and its theorems at concrete calls.
use lardos.Base.{ℕ, ◌≡◌, refl, true, none, some, Option, List, [], ◌∷◌, arith, All}
use lardos.TaskPrio.Calls.{
  Call, enqueues, Proper, run, sets, pauses, step, reachable-IsValid, reachable_pick, enqueues_os,
}
use lardos.TaskPrio.Dequeue.{pick, first_urgent, scan}
use lardos.TaskPrio.Valid.{IsValid}
use lardos.TaskPrio.Pick.{Picked}
use lardos.TaskPrio.{
  init, enqueue, enqueue_with_priority, enqueue_os, clamp_priority, history_log, find_index,
  history_write,
}
use lardos.TaskPrio.Admin.{set_priority, pause}
use mathlib.Core.Bool.{xor}

abbrev low : Option (List ℕ)
low = some (b'l' ∷ b'o' ∷ b'w' ∷ [])

abbrev high : Option (List ℕ)
high = some (b'h' ∷ b'i' ∷ b'g' ∷ b'h' ∷ [])

-- The first calls of `taskprio_selftest`.
abbrev calls : List Call
calls = enqueues low low 1 ∷ enqueues high high 8 ∷ sets 1 9 ∷ pauses 2 true ∷ []

abbrev calls_proper : All Proper calls
calls_proper = (omega arith, (omega arith, (omega arith, (tt, tt))))

picks_low : pick (run init calls).tasks ≡ some 0
unfolding pick first_urgent scan run step enqueue enqueue_with_priority clamp_priority history_log
    set_priority pause find_index xor
picks_low = refl

-- Unpaused, the other task would be older but weaker.
picks_os : pick (run init (enqueues low low 9 ∷ enqueues_os none high ∷ [])).tasks ≡ some 1
unfolding pick first_urgent scan run step enqueue enqueue_os enqueue_with_priority clamp_priority
    history_log history_write xor
picks_os = refl

reachable-IsValid_example : IsValid (run init calls)
reachable-IsValid_example = reachable-IsValid calls calls_proper

reachable_pick_example : Picked (run init calls).tasks
reachable_pick_example = reachable_pick calls calls_proper
