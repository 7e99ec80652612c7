-- ===== src/Lipc.antt =====
-- os/kernel/lipc.c and os/include/lipc.h: kernel message ports. A port is a circular array of
-- message slots; the ports stand in an array that every call indexes by a checked port id.
-- A null pointer for `data` or `buf` is the `none` of an optional argument.
pub mod Valid
pub mod Refine
pub mod Calls
mod Tests
use lardos.Base.{
  ℕ, List, [], map, set, Option, ◌+◌, Bool, if◌then◌else◌, take, ◌%◌, leb, ◌-◌, not, none, ◌||◌,
  some, ◌==◌, get_or, ltb,
}
use lardos.Base.Words.{u32, u16}

-- `lipc_msg_t`. The bytes of a slot beyond `len` are never read, so a slot holds `data[0..len)`.
pub record Msg : Type 0 where
  pub len : ℕ
  pub bytes : List ℕ

pub record Port : Type 0 where
  pub q : List Msg
  pub count : ℕ
  pub head : ℕ
  pub tail : ℕ

abbrev pub num_ports : ℕ
num_ports = 16

abbrev pub queue_depth : ℕ
queue_depth = 8

abbrev pub max_payload : ℕ
max_payload = 240

abbrev pub no_msg : Msg
no_msg = record { len = 0; bytes = [] }

abbrev pub no_port : Port
no_port = record { q = []; count = 0; head = 0; tail = 0 }

abbrev pub Ports : Type 0
Ports = List Port

reset : Port → Port
reset p = record p { count = 0; head = 0; tail = 0 }

unfoldable pub init : Ports → Ports
unfolding reset
init ps = map reset ps

-- `lipc_port`
abbrev pub port : Ports → ℕ → Option Port
port ps id = if leb num_ports id then none else some (get_or ps id no_port)

-- the message that `lipc_send` stores: `len` is cast to `uint16_t`
abbrev pub message : List ℕ → ℕ → Msg
message src len = record { len = u16 len; bytes = take len src }

-- `lipc_send` once the port is found
abbrev pub enqueue : Port → Msg → Port
enqueue p m = record p {
  q = set p.q p.tail m;
  tail = u32 (p.tail + 1) % queue_depth;
  count = u32 (p.count + 1);
}

-- The result is the returned length, `none` for -1.
unfoldable pub send : Ports → ℕ → Option (List ℕ) → ℕ → Option ℕ × Ports
send ps id none len = (none, ps)
send ps id (some src) len =
    if len == 0 || ltb max_payload len then (none, ps) else elim (port ps id) [
      | none ↦ (none, ps)
      | some p ↦
          if leb queue_depth p.count
          then (none, ps)
          else (some len, set ps id (enqueue p (message src len)))
    ]

-- What `lipc_recv` returns: -1, 0, or a length with the bytes copied to `buf`.
pub data Received : Type 0 where
  bad : Received
  nothing : Received
  got : ℕ → List ℕ → Received

abbrev pub dequeue : Port → Port
dequeue p = record p { head = u32 (p.head + 1) % queue_depth; count = p.count - 1 }

-- `has_buf` is false for a null `buf`. `count--` runs only at `count ≢ 0`.
unfoldable pub recv : Ports → ℕ → Bool → ℕ → Received × Ports
recv ps id has_buf cap = if not has_buf || cap == 0 then (bad, ps) else elim (port ps id) [
  | none ↦ (nothing, ps)
  | some p ↦
      let m = get_or p.q p.head no_msg in
      if p.count == 0
      then (nothing, ps)
      else if ltb cap m.len
      then (bad, ps)
      else (got m.len (take m.len m.bytes), set ps id (dequeue p))
]

unfoldable pub pending : Ports → ℕ → ℕ
pending ps id = elim (port ps id) [ none ↦ 0 | some p ↦ p.count ]
