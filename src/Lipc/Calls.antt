-- ===== src/Lipc/Calls.antt =====
-- Sequences of calls on the ports of os/kernel/lipc.c, against the queues.
use lardos.Base.{
  ℕ, Option, ◌≤◌, List, Bool, length, some, if◌then◌else◌, ltb, [], All, ◌≡◌, refl, ◌∷◌,
}
use lardos.Lipc.{Ports, Received, send, recv, pending, num_ports}
use lardos.Lipc.Refine.{
  Queues, spec_send, spec_recv, queues, send_refines, recv_refines, pending-eq-length,
}
use lardos.Lipc.Valid.{IsValid, send-IsValid, recv-IsValid}

pub data Call : Type 0 where
  sends : ℕ → List ℕ → ℕ → Call
  receives : ℕ → Bool → ℕ → Call
  asks : ℕ → Call

-- what a call answers
pub data Reply : Type 0 where
  sent : Option ℕ → Reply
  received : Received → Reply
  waiting : ℕ → Reply

-- A sender hands over at least the bytes that it announces.
abbrev pub IsHonest : Call → Type 0
IsHonest (sends id src len) = len ≤ length src
IsHonest _ = Unit {0}

unfoldable pub run : Ports → List Call → List Reply
run ps [] = []
run ps (sends id src len ∷ cs) = let (r, ps') = send ps id (some src) len in sent r ∷ run ps' cs
run ps (receives id has_buf cap ∷ cs) =
    let (r, ps') = recv ps id has_buf cap in received r ∷ run ps' cs
run ps (asks id ∷ cs) = waiting (pending ps id) ∷ run ps cs

unfoldable pub spec_run : Queues → List Call → List Reply
spec_run qs [] = []
spec_run qs (sends id src len ∷ cs) =
    let (r, qs') = spec_send qs id src len in sent r ∷ spec_run qs' cs
spec_run qs (receives id has_buf cap ∷ cs) =
    let (r, qs') = spec_recv qs id has_buf cap in received r ∷ spec_run qs' cs
spec_run qs (asks id ∷ cs) =
    waiting (if ltb id num_ports then length (qs id) else 0) ∷ spec_run qs cs

-- No sequence of `lipc_send`, `lipc_recv` and `lipc_pending`, on any ports and with any lengths, tells
-- valid ports from sixteen independent first-in first-out queues of at most eight messages of at
-- most 240 bytes, if each sender hands over at least the bytes that it announces. A receive on a port
-- that does not exist answers 0, as on an empty one.
pub run_refines :
    (cs : List Call) {ps : Ports}
    → IsValid ps
    → All IsHonest cs
    → run ps cs ≡ spec_run (queues ps) cs
unfolding run spec_run
run_refines [] v h = refl
run_refines (sends id src len ∷ cs) {ps} v h =
    rw (run_refines cs (send-IsValid id src len v h.0) h.1, ← send_refines id src len v h.0)
run_refines (receives id has_buf cap ∷ cs) {ps} v h =
    rw (run_refines cs (recv-IsValid id has_buf cap v) h.1, ← recv_refines id has_buf cap v)
run_refines (asks id ∷ cs) {ps} v h = rw (run_refines cs v h.1, pending-eq-length ps id)
