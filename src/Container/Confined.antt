-- ===== src/Container/Confined.antt =====
-- What holds in every state that the calls of os/kernel/lcontainer.c reach.
use mathlib.Core.Option.{none-ne-some}
use lardos.Base.{
  ℕ, zero, suc, ◌+◌, ◌<◌, ◌≤◌, ◌≡◌, ◌∙◌, ◌&&◌, Bool, true, false, none, some, Option, List, [], ◌∷◌,
  ◌==◌, ap, sym, refl, arith, inl, inr, Bool-cases, Option-cases, length, get_or, set,
  get_or-set_ne, bit_and, All, get_or-All, set-All,
}
use mathlib.Core.Path.{subst}
use lardos.Base.Bits.{bit_and_mask}
use lardos.Base.Words.{u32}
use lardos.Base.Int.{ℤ, is_zero}
use lardos.CString.Order.{order}
use lardos.Container.{
  set_caps, State, Slot, clear_slot, copy_loop, copy_name, find_from, find_container, free_from,
  create, remove, use_container, exit_container, run, slot_at, cap_all, is_active, active_caps,
  init, chosen,
}
use lardos.Container.Created.{Result-cases}

-- The calls that change the state.
pub data Call : Type 0 where
  creates : Option (List ℕ) → ℕ → Call
  removes : Option (List ℕ) → Call
  uses : Option (List ℕ) → Call
  exits : Call
  runs_in : (ℕ → ℤ × ℕ) → ℕ → Option (List ℕ) → Call

abbrev pub step : State → Call → State
step s (creates name caps) = (create s name caps).1
step s (removes name) = (remove s name).1
step s (uses name) = (use_container s name).1
step s exits = exit_container s
step s (runs_in lardx_run old_caps name) = (run lardx_run s old_caps name).1.0

unfoldable pub after : State → List Call → State
after s [] = s
after s (c ∷ calls) = after (step s c) calls

-- No container has capabilities that do not exist, and the active container, if any, is in use.
abbrev pub IsConfined : State → Type 0
IsConfined s =
    All (λ (x : Slot). x.caps ≤ cap_all) s.slots
    × ((i : ℕ) → s.active ≡ some i → (slot_at s i).used ≡ true)

find_from-used :
    (i : ℕ) (slots : List Slot) (name : List ℕ) (k : ℕ)
    → find_from i slots name ≡ some k
    → (j : ℕ) × (k ≡ i + j) × (j < length slots) × ((get_or slots j clear_slot).used ≡ true)
unfolding find_from
find_from-used i [] name k e = absurd (none-ne-some k e)
find_from-used i (x ∷ slots) name k e = elim (Bool-cases (x.used && is_zero (order x.name name))) [
  | inl here ↦ (0, ground (arith, e, here), omega arith, ground (arith, here))
  | inr on ↦
      let rest = find_from-used (suc i) slots name k (ground (arith, e, on)) in
      (suc rest.0, omega (arith, rest.1), omega (arith, rest.2), rest.3)
]

-- The container that is found is in use.
found_used :
    (s : State) (name : Option (List ℕ)) (k : ℕ)
    → find_container s name ≡ some k
    → (k < length s.slots) × ((slot_at s k).used ≡ true)
found_used s none k e = absurd (none-ne-some k e)
found_used s (some []) k e = absurd (none-ne-some k e)
found_used s (some (c ∷ cs)) k e =
    let found = find_from-used 0 s.slots (c ∷ cs) k e in
    let same : found.0 ≡ k = omega (arith, found.1) in
    subst (λ j. (j < length s.slots) × ((slot_at s j).used ≡ true)) same (found.2, found.3)

-- A write of a slot in use leaves what is in use in use.
set_used :
    (slots : List Slot) (k i : ℕ) (new : Slot)
    → new.used ≡ true
    → (get_or slots i clear_slot).used ≡ true
    → (get_or (set slots k new) i clear_slot).used ≡ true
set_used [] k i new u h = h
set_used (x ∷ slots) zero zero new u h = u
set_used (x ∷ slots) zero (suc i) new u h = h
set_used (x ∷ slots) (suc k) zero new u h = h
set_used (x ∷ slots) (suc k) (suc i) new u h = set_used slots k i new u h

abbrev HasCaps : Slot → Type 0
HasCaps x = x.caps ≤ cap_all

create-IsConfined :
    (s : State) (name : Option (List ℕ)) (caps : ℕ)
    → IsConfined s
    → IsConfined (create s name caps).1
unfolding create
create-IsConfined s name caps v = elim (Result-cases (copy_name name)) [
  | inl (r, bad) ↦ rw (bad, create) v
  | inr (clean, fine) ↦ elim (Option-cases (find_container s (some clean))) [
    | inr (i, there) ↦ rw (fine, create, there) v
    | inl new ↦ elim (Option-cases (free_from 0 s.slots)) [
      | inl full ↦ rw (fine, create, new, full) v
      | inr (slot, free) ↦
          let made : Slot = record {
            name = clean;
            caps = bit_and caps cap_all;
            runs = 0;
            used = true;
          } in
          rw (fine, create, new, free)
            (
              set-All HasCaps s.slots slot made v.0 (omega (arith, bit_and_mask 6 caps)),
              λ i e. set_used s.slots slot i made refl (v.1 i e),
            )
    ]
  ]
]

remove-IsConfined :
    (s : State) (name : Option (List ℕ)) → IsConfined s → IsConfined (remove s name).1
unfolding remove
remove-IsConfined s name v = elim (Option-cases (find_container s name)) [
  | inl missing ↦ rw (missing, remove) v
  | inr (k, found) ↦
      rw (found, remove)
        (
          set-All HasCaps s.slots k clear_slot v.0 (omega arith),
          λ i e. elim (Bool-cases (is_active s k)) [
            | inl active ↦ absurd (none-ne-some i (ground (arith, e, active)))
            | inr idle ↦
                let kept : s.active ≡ some i = ground (arith, e, idle) in
                let differ : (i == k) ≡ false =
                  ap (λ (a : Option ℕ). elim a as (λ _. Bool) [ none ↦ false | some j ↦ j == k ])
                    (sym kept)
                  ∙ idle in
                ap (λ (x : Slot). x.used)
                  (get_or-set_ne s.slots k i clear_slot clear_slot (λ q. ground (arith, q, differ)))
                ∙ v.1 i kept
          ],
        )
]

use_container-IsConfined :
    (s : State) (name : Option (List ℕ)) → IsConfined s → IsConfined (use_container s name).1
unfolding use_container
use_container-IsConfined s name v = elim (Option-cases (find_container s name)) [
  | inl missing ↦ rw (missing, use_container) v
  | inr (k, found) ↦
      rw (found, use_container)
        (
          v.0,
          λ i e.
              subst (λ j. (slot_at s j).used ≡ true)
                (ap (λ (o : Option ℕ). elim o as (λ _. ℕ) [ none ↦ k | some j ↦ j ]) e)
                (found_used s name k found).1,
        )
]

run-IsConfined :
    (lardx_run : ℕ → ℤ × ℕ) (s : State) (old_caps : ℕ) (name : Option (List ℕ))
    → IsConfined s
    → IsConfined (run lardx_run s old_caps name).1.0
unfolding run
run-IsConfined lardx_run s old_caps name v = elim (Option-cases (chosen s name)) [
  | inl missing ↦ rw (missing, run) v
  | inr (idx, found) ↦
      let slot = slot_at s idx in
      elim (Bool-cases slot.used) [
        | inr unused ↦ rw (found, run, unused) v
        | inl used ↦ elim (Bool-cases (is_zero (lardx_run (set_caps slot.caps)).0)) [
          | inr failed ↦ rw (found, run, used, failed) v
          | inl fine ↦
              let counted : Slot = record slot { runs = u32 (slot.runs + 1); used = true } in
              rw (found, run, used, fine)
                (
                  set-All HasCaps s.slots idx counted v.0
                      (get_or-All HasCaps s.slots idx clear_slot v.0 (omega arith)),
                  λ i e. set_used s.slots idx i counted refl (v.1 i e),
                )
        ]
      ]
]

after-IsConfined : (s : State) (calls : List Call) → IsConfined s → IsConfined (after s calls)
unfolding after
after-IsConfined s [] v = v
after-IsConfined s (creates name caps ∷ calls) v =
    after-IsConfined (step s (creates name caps)) calls (create-IsConfined s name caps v)
after-IsConfined s (removes name ∷ calls) v =
    after-IsConfined (step s (removes name)) calls (remove-IsConfined s name v)
after-IsConfined s (uses name ∷ calls) v =
    after-IsConfined (step s (uses name)) calls (use_container-IsConfined s name v)
after-IsConfined s (exits ∷ calls) v =
    after-IsConfined (step s exits) calls (v.0, λ i e. absurd (none-ne-some i e))
after-IsConfined s (runs_in lardx_run old_caps name ∷ calls) v =
    after-IsConfined (step s (runs_in lardx_run old_caps name)) calls
      (run-IsConfined lardx_run s old_caps name v)

init-IsConfined : IsConfined init
unfolding create copy_loop find_from free_from order
init-IsConfined = (
  (omega arith, (omega arith, (omega arith, (omega arith, (omega arith, (omega arith, tt)))))),
  λ i e. absurd (none-ne-some i e),
)

-- the capabilities under which a program ran, none if it did not run
abbrev pub in_force : ℤ × (State × (Option ℕ × ℕ)) → ℕ
in_force r = elim r.1.1.0 as (λ _. ℕ) [ none ↦ 0 | some caps ↦ caps ]

confined_caps : (s : State) → IsConfined s → active_caps s ≤ cap_all
confined_caps s v = elim (Option-cases s.active) [
  | inl idle ↦ rw idle (omega arith)
  | inr (i, active) ↦
      let known = get_or-All HasCaps s.slots i clear_slot v.0 (omega arith) in
      rw (active, v.1 i active) known
]

set_caps_known : (caps : ℕ) → set_caps caps ≤ cap_all
set_caps_known caps = omega (arith, bit_and_mask 6 caps)

set_caps_same : (caps : ℕ) → caps ≤ cap_all → set_caps caps ≡ caps
set_caps_same caps h = bit_and_mask 6 caps ∙ omega arith

confined_run :
    (lardx_run : ℕ → ℤ × ℕ) (s : State) (old_caps : ℕ) (name : Option (List ℕ))
    → old_caps ≤ cap_all
    → (in_force (run lardx_run s old_caps name) ≤ cap_all)
      × ((run lardx_run s old_caps name).1.1.1 ≡ old_caps)
unfolding run
confined_run lardx_run s old_caps name h = elim (Option-cases (chosen s name)) [
  | inl missing ↦ rw (missing, run) (omega arith, refl)
  | inr (idx, found) ↦
      let slot = slot_at s idx in
      elim (Bool-cases slot.used) [
        | inr unused ↦ rw (found, run, unused) (omega arith, refl)
        | inl used ↦ rw (found, run, used) (set_caps_known slot.caps, set_caps_same old_caps h)
      ]
]

-- After any calls that follow `lcontainer_init`, whatever the programs do that are run, no container
-- has capabilities that do not exist, the active one is in use and the capabilities that are reported
-- for it exist. A program that is run next runs under capabilities that exist; behind it those are in
-- force that were before, if these existed, whatever the program leaves in force.
pub calls-IsConfined :
    (calls : List Call) (lardx_run : ℕ → ℤ × ℕ) (old_caps : ℕ) (name : Option (List ℕ))
    → old_caps ≤ cap_all
    → IsConfined (after init calls)
      × (active_caps (after init calls) ≤ cap_all)
      × (in_force (run lardx_run (after init calls) old_caps name) ≤ cap_all)
      × ((run lardx_run (after init calls) old_caps name).1.1.1 ≡ old_caps)
calls-IsConfined calls lardx_run old_caps name h =
    let v = after-IsConfined init calls init-IsConfined in
    let next = confined_run lardx_run (after init calls) old_caps name h in
    (v, confined_caps (after init calls) v, next.0, next.1)
