-- ===== src/Lipc/Tests.antt =====
-- Runs of os/kernel/lipc.c, and its theorems at concrete inputs.
use lardos.Base.{ℕ, zero, suc, ◌<◌, ◌≡◌, refl, true, some, List, [], ◌∷◌, arith, get_or, replicate}
use lardos.Lipc.{Msg, Port, Ports, init, send, pending, no_msg, no_port, recv, bad, got}
use lardos.Lipc.Valid.{IsValidPort, IsValid}
use lardos.Lipc.Calls.{
  Call, run, sends, spec_run, receives, asks, sent, run_refines, received, waiting,
}
use lardos.Lipc.Refine.{queues}

abbrev slots : List Msg
slots = replicate 8 no_msg

abbrev idle : Port
idle = record { q = slots; count = 0; head = 7; tail = 7 }

abbrev ports : Ports
ports = replicate 16 idle

idle-IsValidPort : IsValidPort idle
idle-IsValidPort = omega arith

each_idle : (n id : ℕ) → id < n → get_or (replicate n idle) id no_port ≡ idle
each_idle zero id h = absurd (omega arith)
each_idle (suc n) zero h = refl
each_idle (suc n) (suc id) h = each_idle n id (omega arith)

ports-IsValid : IsValid ports
ports-IsValid = record { ports = refl; each = λ id h. rw (each_idle 16 id h) idle-IsValidPort }

abbrev script : List Call
script =
    sends 3 (1 ∷ 2 ∷ []) 2
    ∷ sends 3 (9 ∷ []) 1
    ∷ sends 4 (5 ∷ []) 1
    ∷ receives 3 true 1
    ∷ receives 3 true 16
    ∷ asks 3
    ∷ asks 99
    ∷ []

script_runs :
    run ports script
    ≡ sent (some 2)
      ∷ sent (some 1)
      ∷ sent (some 1)
      ∷ received bad
      ∷ received (got 2 (1 ∷ 2 ∷ []))
      ∷ waiting 1
      ∷ waiting 0
      ∷ []
unfolding run send recv pending
script_runs = refl

init_empties : pending (init ports) 3 ≡ 0
unfolding init pending
init_empties = refl

run_refines_example : run ports script ≡ spec_run (queues ports) script
run_refines_example = run_refines script ports-IsValid (omega arith)
