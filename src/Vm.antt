-- ===== src/Vm.antt =====
-- What the interpreter loops of os/kernel share (os_vm.c and gasm_vm.c): a loop that ends by its
-- test, by a return code, or by an undefined action, and the steps that it takes of its budget.
pub mod Decimal
pub mod Accounts
use lardos.Base.Int.{ℤ}
use lardos.Base.{ℕ, zero, suc, ◌<◌, ◌≡◌, none, some, Option, ◌⊎◌, inl, inr, refl, arith}

-- How a run ends. `fault` is a read outside the image, and `trap` a division that the CPU refuses:
-- C leaves both undefined, and no return code stands for them.
pub data End : Type 0 where
  returns : ℤ → End
  fault : End
  trap : End

-- What one round of the loop does to the state.
pub data Round (S : Type 0) : Type 0 where
  continue : S → Round S
  stop : End → S → Round S

-- Going on with what was read.
abbrev pub or_fault : {A S : Type 0} → Option A → S → (A → Round S) → Round S
or_fault none s k = stop fault s
or_fault (some a) s k = k a

-- Going on with a quotient, if the CPU has one.
abbrev pub or_trap : {A S : Type 0} → Option A → S → (A → Round S) → Round S
or_trap none s k = stop trap s
or_trap (some a) s k = k a

-- The loop, for at most `fuel` rounds; `none` means that these were not enough.
unfoldable pub loop : {S : Type 0} → ℕ → (S → Round S) → S → Option (End × S)
loop zero round s = none
loop (suc fuel) round s = elim (round s) [
  | continue s' ↦ loop fuel round s'
  | stop e s' ↦ some (e, s')
]

pub Round-cases :
    {S : Type 0} (r : Round S)
    → ((s : S) × (r ≡ continue s)) ⊎ ((e : End) × (s : S) × (r ≡ stop e s))
Round-cases (continue s) = inl (s, refl)
Round-cases (stop e s) = inr (e, s, refl)

-- Total correctness: if every round that goes on keeps `P` and lowers `measure`, and the round that
-- stops gives `Q`, then within more rounds than the measure counts the loop ends with `Q`.
pub loop_total :
    {S : Type 0} (round : S → Round S) (measure : S → ℕ) (P : S → Type 0) (Q : End → S → Type 0)
    → ((s s' : S) → P s → round s ≡ continue s' → P s' × (measure s' < measure s))
    → ((s s' : S) (e : End) → P s → round s ≡ stop e s' → Q e s')
    → (fuel : ℕ) (s : S) → P s
    → measure s < fuel
    → (e : End) × (s' : S) × (loop fuel round s ≡ some (e, s')) × Q e s'
unfolding loop
loop_total round measure P Q keep ends zero s h lt = absurd (omega arith)
loop_total round measure P Q keep ends (suc fuel) s h lt = elim (Round-cases (round s)) [
  | inl (s', e) ↦
      let (h', lt') = keep s s' h e in
      rw (e, loop) (loop_total round measure P Q keep ends fuel s' h' (omega arith))
  | inr (end, s', e) ↦ rw (e, loop) (end, s', refl, ends s s' end h e)
]

-- One round is enough where the first stops.
pub loop_stop :
    {S : Type 0} (round : S → Round S) (fuel : ℕ) (s s' : S) (e : End)
    → 0 < fuel
    → round s ≡ stop e s'
    → loop fuel round s ≡ some (e, s')
unfolding loop
loop_stop round zero s s' e h p = absurd (omega arith)
loop_stop round (suc fuel) s s' e h p = rw (p, loop)
