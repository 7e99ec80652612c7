-- ===== src/Lipc/Refine.antt =====
-- os/kernel/lipc.c against one bounded queue of byte strings for each port id.
use lardos.Base.{
  ◌==◌, if◌then◌else◌, ℕ, List, Bool, length, ◌<◌, map, get_or, Option, ◌≡◌, ◌≢◌, set, ltb, not,
  ◌&&◌, ◌∷◌, ◌++◌, leb, [], some, take, length-map, ap, Bool-cases, none, ◌∙◌, ◌+◌, suc, ◌≤◌, inl,
  ◌%◌, ◌-◌, ==→eq, ◌^◌, arith, get_or-set_self, inr, get_or-set_ne, ==→ne, true, false, get_or-All,
  take_all, refl, ltb→lt,
}
use lardos.Lipc.{
  Port, Ports, Msg, Received, queue_depth, no_port, nothing, enqueue, no_msg, bad, dequeue,
  max_payload, got, num_ports, send, message, recv, pending,
}
use lardos.Lipc.Valid.{
  IsValidPort, IsValid, accepts, accepts_bounds, send_accepted, send_refused, takes, recv_taken,
  recv_refused, IsFramed, takes_bounds, head_msg, refusal,
}
use lardos.Circular.{window, length-window, window-set}
use mathlib.Core.Path.{fun_ext}
use mathlib.Core.List.{map-append}

abbrev pub contents : Port → List (List ℕ)
contents p = map (λ m. m.bytes) (window no_msg p.q queue_depth p.head p.count)

-- The messages waiting on each port, the oldest first.
abbrev pub queues : Ports → ℕ → List (List ℕ)
queues ps id = contents (get_or ps id no_port)

abbrev pub Queues : Type 0
Queues = ℕ → List (List ℕ)

abbrev pub update : Queues → ℕ → List (List ℕ) → Queues
update qs id q j = if id == j then q else qs j

-- what a port does, in terms of the queues alone
unfoldable pub spec_send : Queues → ℕ → List ℕ → ℕ → Option ℕ × Queues
spec_send qs id src len =
    if ltb 0 len && leb len max_payload && ltb id num_ports && ltb (length (qs id)) queue_depth
    then (some len, update qs id (qs id ++ (take len src ∷ [])))
    else (none, qs)

spec_take : Queues → ℕ → ℕ → List (List ℕ) → Received × Queues
spec_take qs id cap [] = (nothing, qs)
spec_take qs id cap (m ∷ rest) =
    if ltb cap (length m) then (bad, qs) else (got (length m) m, update qs id rest)

unfoldable pub spec_recv : Queues → ℕ → Bool → ℕ → Received × Queues
unfolding spec_take
spec_recv qs id has_buf cap =
    if not (has_buf && ltb 0 cap)
    then (bad, qs)
    else if ltb id num_ports
    then spec_take qs id cap (qs id)
    else (nothing, qs)

length-contents : (p : Port) → length (contents p) ≡ p.count
length-contents p =
    length-map (λ (m : Msg). m.bytes) (window no_msg p.q queue_depth p.head p.count)
    ∙ length-window no_msg p.q queue_depth p.head p.count

enqueue-contents :
    {p : Port} (m : Msg)
    → IsValidPort p
    → p.count < queue_depth
    → contents (enqueue p m) ≡ contents p ++ (m.bytes ∷ [])
enqueue-contents {p} m v room =
    ap (λ n. map (λ x. x.bytes) (window no_msg (set p.q p.tail m) queue_depth p.head n))
      (let e : (p.count + 1) % 2 ^ 32 ≡ suc p.count = omega arith in e)
    ∙ ap (map (λ x. x.bytes)) (
        window-set no_msg queue_depth p.q m p.count p.head p.tail (omega arith) v.head_in room
          v.tail_at)
    ∙ map-append (λ x. x.bytes) (window no_msg p.q queue_depth p.head p.count) (m ∷ [])

dequeue-contents :
    {p : Port}
    → IsValidPort p
    → p.count ≢ 0
    → contents p ≡ (get_or p.q p.head no_msg).bytes ∷ contents (dequeue p)
dequeue-contents {p} v some_left =
    ap (λ n. map (λ x. x.bytes) (window no_msg p.q queue_depth p.head n))
      (let e : p.count ≡ suc (p.count - 1) = omega arith in e)
    ∙ ap
        (λ h.
          (get_or p.q p.head no_msg).bytes
          ∷ map (λ x. x.bytes) (window no_msg p.q queue_depth h (p.count - 1)))
        (let e : (p.head + 1) % 8 ≡ (p.head + 1) % 2 ^ 32 % 8 = omega arith in e)

queues-set :
    (ps : Ports) (id : ℕ) (p : Port)
    → id < length ps
    → queues (set ps id p) ≡ update (queues ps) id (contents p)
queues-set ps id p h = fun_ext λ j. elim (Bool-cases (id == j)) [
  | inl e ↦
      let e' : id ≡ j = ==→eq id j e in
      let g : get_or (set ps id p) j no_port ≡ p = rw (← e') (get_or-set_self ps id p no_port h) in
      rw e (ap contents g)
  | inr ne ↦ rw ne (ap contents (get_or-set_ne ps id j p no_port (==→ne id j ne)))
]

-- `lipc_send` on valid ports, given a source that holds `len` bytes, answers as the bounded queue
-- of its port and leaves the ports holding the queues that this leaves.
pub send_refines :
    {ps : Ports} (id : ℕ) (src : List ℕ) (len : ℕ)
    → IsValid ps
    → len ≤ length src
    → ((send ps id (some src) len).0, queues (send ps id (some src) len).1)
      ≡ spec_send (queues ps) id src len
unfolding spec_send
send_refines {ps} id src len v h = elim (Bool-cases (accepts ps id len)) [
  | inl e ↦
      let (pos, small, known, room) = accepts_bounds ps id len e in
      rw (send_accepted ps id src len e, length-contents (get_or ps id no_port), e)
        (ap (λ q. (some len, q))
          (queues-set ps id _ (omega (arith, v.ports))
            ∙ ap (update (queues ps) id)
                (enqueue-contents (message src len) (v.each id known) room)))
  | inr e ↦ rw (send_refused ps id src len e, length-contents (get_or ps id no_port), e)
]

module _ (qs : Queues) (id : ℕ) (has_buf : Bool) (cap : ℕ) where
  spec_recv_taken :
      (m : List ℕ) (rest : List (List ℕ))
      → qs id ≡ m ∷ rest
      → (has_buf && ltb 0 cap && ltb id num_ports && leb (length m) cap) ≡ true
      → spec_recv qs id has_buf cap ≡ (got (length m) m, update qs id rest)
  unfolding spec_recv
  spec_recv_taken m rest e h = rw e (ground arith)

  spec_recv_long :
      (m : List ℕ) (rest : List (List ℕ))
      → qs id ≡ m ∷ rest
      → (has_buf && ltb 0 cap && ltb id num_ports && leb (length m) cap) ≡ false
      → spec_recv qs id has_buf cap ≡ (
        (if not (has_buf && ltb 0 cap)
            then bad
            else if not (ltb id num_ports)
            then nothing
            else bad),
        qs,
      )
  unfolding spec_recv
  spec_recv_long m rest e h = rw e (ground arith)

  spec_recv_empty :
      qs id ≡ []
      → spec_recv qs id has_buf cap ≡ ((if not (has_buf && ltb 0 cap) then bad else nothing), qs)
  unfolding spec_recv
  spec_recv_empty e = rw e (ground arith)

  spec_recv_unknown :
      ltb id num_ports ≡ false
      → spec_recv qs id has_buf cap ≡ ((if not (has_buf && ltb 0 cap) then bad else nothing), qs)
  unfolding spec_recv
  spec_recv_unknown h = ground arith

head-IsFramed : {ps : Ports} (id : ℕ) → IsValid ps → id < num_ports → IsFramed (head_msg ps id)
head-IsFramed {ps} id v known =
    get_or-All IsFramed (get_or ps id no_port).q (get_or ps id no_port).head no_msg
      (v.each id known).framed refl

contents-empty : (p : Port) → p.count ≡ 0 → contents p ≡ []
contents-empty p e = rw e

-- `lipc_recv` on valid ports likewise: it answers -1, 0 or the oldest message of its port whole, and
-- takes that message and no other off the queues.
pub recv_refines :
    {ps : Ports} (id : ℕ) (has_buf : Bool) (cap : ℕ)
    → IsValid ps
    → ((recv ps id has_buf cap).0, queues (recv ps id has_buf cap).1)
      ≡ spec_recv (queues ps) id has_buf cap
recv_refines {ps} id has_buf cap v = elim (Bool-cases (takes ps id has_buf cap)) [
  | inl e ↦
      let p = get_or ps id no_port in
      let (known, some_left) = takes_bounds ps id has_buf cap e in
      let framed : (head_msg ps id).len ≡ length (head_msg ps id).bytes =
        head-IsFramed id v known in
      let whole = take_all (head_msg ps id).bytes (head_msg ps id).len (omega arith) in
      rw
        (
          recv_taken ps id has_buf cap e,
          spec_recv_taken (queues ps) id has_buf cap (head_msg ps id).bytes (contents (dequeue p))
              (dequeue-contents (v.each id known) some_left) (ground arith),
          whole,
          queues-set ps id (dequeue p) (omega (arith, v.ports)),
          framed,
        )
        refl
  | inr e ↦ rw (recv_refused ps id has_buf cap e) (refused e)
]
  where
    refused :
        takes ps id has_buf cap ≡ false
        → (refusal ps id has_buf cap, queues ps) ≡ spec_recv (queues ps) id has_buf cap
    refused e = elim (Bool-cases ((get_or ps id no_port).count == 0)) [
      | inl z ↦
          let empty = contents-empty (get_or ps id no_port) (==→eq _ 0 z) in
          rw (spec_recv_empty (queues ps) id has_buf cap empty) (ground arith)
      | inr nz ↦ elim (Bool-cases (ltb id num_ports)) [
        | inl known ↦
            let k = ltb→lt id num_ports known in
            let framed : (head_msg ps id).len ≡ length (head_msg ps id).bytes =
              head-IsFramed id v k in
            rw
              (spec_recv_long (queues ps) id has_buf cap (head_msg ps id).bytes
                (contents (dequeue (get_or ps id no_port)))
                (dequeue-contents (v.each id k) (==→ne _ 0 nz)) (ground arith))
              (ground arith)
        | inr unknown ↦ rw (spec_recv_unknown (queues ps) id has_buf cap unknown) (ground arith)
      ]
    ]

-- `lipc_pending` counts the queue of its port, and 0 for a port that does not exist.
pub pending-eq-length :
    (ps : Ports) (id : ℕ) → pending ps id ≡ (if ltb id num_ports then length (queues ps id) else 0)
unfolding pending
pending-eq-length ps id = ground (arith, length-contents (get_or ps id no_port))
