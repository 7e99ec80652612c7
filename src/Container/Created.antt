-- ===== src/Container/Created.antt =====
-- `lcontainer_create` of os/kernel/lcontainer.c adds one container and touches no other.
use mathlib.Core.Option.{none-ne-some}
use lardos.Base.{
  ℕ, zero, suc, ◌+◌, ◌<◌, ◌≡◌, ◌∙◌, true, false, none, some, List, [], ◌∷◌, ◌==◌, if◌then◌else◌, ap,
  refl, arith, inl, inr, ◌⊎◌, Bool-cases, Option-cases, length, get_or, set, get_or-set_self,
  bit_and,
}
use lardos.Base.Int.{ℤ, pos, Result, ok, error, is_zero}
use lardos.CString.Order.{order}
use lardos.Container.{
  State, Slot, clear_slot, copy_loop, find_from, find_container, free_from, create, slot_at,
  cap_all, name_char,
}

pub Result-cases : {A : Type 0} (r : Result A) → ((n : ℤ) × (r ≡ error n)) ⊎ ((a : A) × (r ≡ ok a))
Result-cases (error n) = inl (n, refl)
Result-cases (ok a) = inr (a, refl)

order_self : (s : List ℕ) → order s s ≡ pos 0
unfolding order
order_self [] = refl
order_self (c ∷ s) = let same : (c == c) ≡ true = ground arith in rw same (order_self s)

-- The place of a free slot: it is in the array and not used.
pub free_from-unused :
    (i : ℕ) (slots : List Slot) (k : ℕ)
    → free_from i slots ≡ some k
    → (j : ℕ) × (k ≡ i + j) × (j < length slots) × ((get_or slots j clear_slot).used ≡ false)
unfolding free_from
free_from-unused i [] k e = absurd (none-ne-some k e)
free_from-unused i (x ∷ slots) k e = elim (Bool-cases x.used) [
  | inr unused ↦ (0, ground (arith, e, unused), omega arith, unused)
  | inl used ↦
      let rest = free_from-unused (suc i) slots k (ground (arith, e, used)) in
      (suc rest.0, omega (arith, rest.1), omega (arith, rest.2), rest.3)
]

-- With a new container in the free slot `i + j`, its name finds it and other names find what they found.
find_from-set :
    (i : ℕ) (slots : List Slot) (j : ℕ) (new : Slot) (name : List ℕ)
    → free_from i slots ≡ some (i + j)
    → new.used ≡ true
    → find_from i slots new.name ≡ none
    → (find_from i (set slots j new) new.name ≡ some (i + j))
      × (is_zero (order new.name name) ≡ false
          → find_from i (set slots j new) name ≡ find_from i slots name)
unfolding free_from find_from
find_from-set i [] j new name f u n = absurd (none-ne-some (i + j) f)
find_from-set i (x ∷ slots) zero new name f u n = elim (Bool-cases x.used) [
  | inl used ↦
      let rest = free_from-unused (suc i) slots (i + 0) (ground (arith, f, used)) in
      absurd (omega (arith, rest.1))
  | inr unused ↦
      (rw (u, order_self new.name) (ap some (omega arith)), λ differ. rw (u, differ, unused) refl)
]
find_from-set i (x ∷ slots) (suc j) new name f u n = elim (Bool-cases x.used) [
  | inr unused ↦ absurd (ground (arith, f, unused))
  | inl used ↦
      let next : suc i + j ≡ i + suc j = omega arith in
      let other : is_zero (order x.name new.name) ≡ false = ground (arith, n, used) in
      let rest =
        find_from-set (suc i) slots j new name (ground (arith, f, used)) u
          (ground (arith, n, used)) in
      (
        rw (used, other) (rest.0 ∙ ap some next),
        λ differ.
            rw used
              (ap (λ found. if is_zero (order x.name name) then some i else found) (rest.1 differ)),
      )
]

copy_loop-same : (room : ℕ) (src clean : List ℕ) → copy_loop room src ≡ ok clean → clean ≡ src
unfolding copy_loop
copy_loop-same room [] clean e = ground (arith, e)
copy_loop-same zero (c ∷ src) clean e = absurd (ground (arith, e))
copy_loop-same (suc room) (c ∷ src) clean e = elim (Bool-cases (name_char c)) [
  | inr bad ↦ absurd (ground (arith, e, bad))
  | inl fine ↦ elim (Result-cases (copy_loop room src)) [
    | inl (r, q) ↦ absurd (ground (arith, e, fine, q))
    | inr (dst, q) ↦ ground (arith, e, fine, q, copy_loop-same room src dst q)
  ]
]

other_kept :
    (s t : State) (other : List ℕ)
    → find_from 0 t.slots other ≡ find_from 0 s.slots other
    → find_container t (some other) ≡ find_container s (some other)
other_kept s t [] h = refl
other_kept s t (d ∷ ds) h = h

-- A container that is created, whose name is then found at a slot with the capabilities that were
-- asked for, as far as there are such; a name that is another is found where it was.
pub create_lem :
    (s : State) (c : ℕ) (cs other : List ℕ) (caps : ℕ)
    → (create s (some (c ∷ cs)) caps).0 ≡ pos 0
    → is_zero (order (c ∷ cs) other) ≡ false
    → (slot : ℕ) × (find_container (create s (some (c ∷ cs)) caps).1 (some (c ∷ cs)) ≡ some slot)
      × (slot_at (create s (some (c ∷ cs)) caps).1 slot
          ≡ record { name = c ∷ cs; caps = bit_and caps cap_all; runs = 0; used = true })
      × (find_container (create s (some (c ∷ cs)) caps).1 (some other)
          ≡ find_container s (some other))
unfolding create
create_lem s c cs other caps e differ = elim (Result-cases (copy_loop 15 (c ∷ cs))) [
  | inl (r, q) ↦ absurd (ground (arith, e, q))
  | inr (clean, q) ↦
      let whole : copy_loop 15 (c ∷ cs) ≡ ok (c ∷ cs) =
        q ∙ ap ok (copy_loop-same 15 (c ∷ cs) clean q) in
      elim (Option-cases (find_from 0 s.slots (c ∷ cs))) [
        | inr (i, there) ↦ absurd (ground (arith, e, whole, there))
        | inl new ↦ elim (Option-cases (free_from 0 s.slots)) [
          | inl full ↦ absurd (ground (arith, e, whole, new, full))
          | inr (slot, free) ↦
              let made : Slot = record {
                name = c ∷ cs;
                caps = bit_and caps cap_all;
                runs = 0;
                used = true;
              } in
              let place = free_from-unused 0 s.slots slot free in
              let at : 0 + slot ≡ slot = omega arith in
              let found =
                find_from-set 0 s.slots slot made other (free ∙ ap some (omega arith)) refl new in
              let done : create s (some (c ∷ cs)) caps
                  ≡ (pos 0, record s { slots = set s.slots slot made }) =
                rw (whole, create, new, free) refl in
              rw (whole, create, new, free)
                (
                  slot,
                  found.0 ∙ ap some at,
                  get_or-set_self s.slots slot made clear_slot (omega (arith, place.1, place.2)),
                  ap (λ r. find_container r.1 (some other)) done
                      ∙ other_kept s (record s { slots = set s.slots slot made }) other
                          (found.1 differ),
                )
        ]
      ]
]
