-- ===== src/Lipc/Valid.antt =====
-- The invariant of the ports of os/kernel/lipc.c, and that every call keeps it.
use lardos.Base.{
  ◌==◌, if◌then◌else◌, List, ◌≡◌, length, ℕ, ◌<◌, ◌≢◌, ◌≤◌, Bool, All, get_or, arith, set, some,
  ◌+◌, length-set, ◌%◌, length-take, ◌∙◌, set-All, Bool-cases, ◌==◌, ltb, true, false, ◌&&◌, leb,
  none, not, take, inl, ==→eq, inr, get_or-set_self, get_or-set_ne, ==→ne,
}
use lardos.Lipc.{
  Msg, Port, Ports, send, recv, queue_depth, num_ports, dequeue, max_payload, enqueue, no_port,
  message, no_msg, Received, got, bad, nothing,
}

-- `len` of a slot counts its bytes.
abbrev pub IsFramed : Msg → Type 0
IsFramed m = m.len ≡ length m.bytes

pub record IsValidPort (p : Port) : Type 0 where
  pub slots : length p.q ≡ queue_depth
  pub framed : All IsFramed p.q
  pub head_in : p.head < queue_depth
  pub count_in : p.count ≤ queue_depth
  pub tail_at : p.tail ≡ (p.head + p.count) % queue_depth

pub record IsValid (ps : Ports) : Type 0 where
  pub ports : length ps ≡ num_ports
  pub each : (id : ℕ) → id < num_ports → IsValidPort (get_or ps id no_port)

pub message-IsFramed :
    (src : List ℕ) (len : ℕ) → len ≤ max_payload → len ≤ length src → IsFramed (message src len)
message-IsFramed src len small h = omega (arith, length-take len src)

pub enqueue-IsValidPort :
    {p : Port} (m : Msg)
    → IsValidPort p
    → IsFramed m
    → p.count < queue_depth
    → IsValidPort (enqueue p m)
enqueue-IsValidPort {p} m v f room = record {
  slots = length-set p.q p.tail m ∙ v.slots;
  framed = set-All IsFramed p.q p.tail m v.framed f;
  head_in = v.head_in;
  count_in = omega arith;
  tail_at = omega arith;
}

pub dequeue-IsValidPort : {p : Port} → IsValidPort p → p.count ≢ 0 → IsValidPort (dequeue p)
dequeue-IsValidPort {p} v some_left = record {
  slots = v.slots;
  framed = v.framed;
  head_in = omega arith;
  count_in = omega arith;
  tail_at = omega arith;
}

-- the oldest slot of a port
abbrev pub head_msg : Ports → ℕ → Msg
head_msg ps id = get_or (get_or ps id no_port).q (get_or ps id no_port).head no_msg

-- Replacing one port by a valid one keeps the array valid.
pub set-IsValid :
    {ps : Ports} (id : ℕ) (p : Port)
    → IsValid ps
    → id < num_ports
    → IsValidPort p
    → IsValid (set ps id p)
set-IsValid {ps} id p v h vp = record {
  ports = length-set ps id p ∙ v.ports;
  each = λ j hj. elim (Bool-cases (id == j)) [
    | inl e ↦
        let e' : id ≡ j = ==→eq id j e in
        rw (← e', get_or-set_self ps id p no_port (omega (arith, v.ports))) vp
    | inr ne ↦ rw (get_or-set_ne ps id j p no_port (==→ne id j ne)) (v.each j hj)
  ];
}

-- When `lipc_send` queues its message.
abbrev pub accepts : Ports → ℕ → ℕ → Bool
accepts ps id len =
    ltb 0 len
    && leb len max_payload
    && ltb id num_ports
    && ltb (get_or ps id no_port).count queue_depth

pub send_accepted :
    (ps : Ports) (id : ℕ) (src : List ℕ) (len : ℕ)
    → accepts ps id len ≡ true
    → send ps id (some src) len
      ≡ (some len, set ps id (enqueue (get_or ps id no_port) (message src len)))
unfolding send
send_accepted ps id src len h = ground arith

pub send_refused :
    (ps : Ports) (id : ℕ) (src : List ℕ) (len : ℕ)
    → accepts ps id len ≡ false
    → send ps id (some src) len ≡ (none, ps)
unfolding send
send_refused ps id src len h = ground arith

pub accepts_bounds :
    (ps : Ports) (id len : ℕ)
    → accepts ps id len ≡ true
    → (0 < len)
      × (len ≤ max_payload)
      × (id < num_ports)
      × ((get_or ps id no_port).count < queue_depth)
accepts_bounds ps id len h = ground arith

-- When `lipc_recv` takes a message off its queue.
abbrev pub takes : Ports → ℕ → Bool → ℕ → Bool
takes ps id has_buf cap =
    has_buf
    && ltb 0 cap
    && ltb id num_ports
    && ltb 0 (get_or ps id no_port).count
    && leb (head_msg ps id).len cap

-- the answer of a `lipc_recv` that takes nothing
abbrev pub refusal : Ports → ℕ → Bool → ℕ → Received
refusal ps id has_buf cap =
    if not (has_buf && ltb 0 cap)
    then bad
    else if not (ltb id num_ports && ltb 0 (get_or ps id no_port).count)
    then nothing
    else bad

pub recv_taken :
    (ps : Ports) (id : ℕ) (has_buf : Bool) (cap : ℕ)
    → takes ps id has_buf cap ≡ true
    → recv ps id has_buf cap ≡ (
      got (head_msg ps id).len (take (head_msg ps id).len (head_msg ps id).bytes),
      set ps id (dequeue (get_or ps id no_port)),
    )
unfolding recv
recv_taken ps id has_buf cap h = ground arith

pub recv_refused :
    (ps : Ports) (id : ℕ) (has_buf : Bool) (cap : ℕ)
    → takes ps id has_buf cap ≡ false
    → recv ps id has_buf cap ≡ (refusal ps id has_buf cap, ps)
unfolding recv
recv_refused ps id has_buf cap h = ground arith

pub takes_bounds :
    (ps : Ports) (id : ℕ) (has_buf : Bool) (cap : ℕ)
    → takes ps id has_buf cap ≡ true
    → (id < num_ports) × ((get_or ps id no_port).count ≢ 0)
takes_bounds ps id has_buf cap h = ground arith

-- The calls that change the ports keep them valid.
pub send-IsValid :
    {ps : Ports} (id : ℕ) (src : List ℕ) (len : ℕ)
    → IsValid ps
    → len ≤ length src
    → IsValid (send ps id (some src) len).1
send-IsValid {ps} id src len v h = elim (Bool-cases (accepts ps id len)) [
  | inl e ↦
      let (pos, small, known, room) = accepts_bounds ps id len e in
      rw (send_accepted ps id src len e) (
        set-IsValid id _ v known (
          enqueue-IsValidPort (message src len) (v.each id known) (message-IsFramed src len small h)
            room))
  | inr e ↦ rw (send_refused ps id src len e) v
]

pub recv-IsValid :
    {ps : Ports} (id : ℕ) (has_buf : Bool) (cap : ℕ)
    → IsValid ps
    → IsValid (recv ps id has_buf cap).1
recv-IsValid {ps} id has_buf cap v = elim (Bool-cases (takes ps id has_buf cap)) [
  | inl e ↦
      let (known, some_left) = takes_bounds ps id has_buf cap e in
      rw (recv_taken ps id has_buf cap e)
        (set-IsValid id _ v known (dequeue-IsValidPort (v.each id known) some_left))
  | inr e ↦ rw (recv_refused ps id has_buf cap e) v
]
