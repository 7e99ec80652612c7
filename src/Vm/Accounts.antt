-- ===== src/Vm/Accounts.antt =====
-- What the VM monitor of os/kernel/vmmon.c learns of a run: the contract between the interpreters and
-- the monitor. The steps are counted by the rounds that the run consists of, not by its own counter.
use lardos.VmMon
use lardos.Base.{
  ℕ, zero, suc, ◌+◌, ◌≤◌, ◌≡◌, ◌∙◌, refl, sym, ap, Bool, some, if◌then◌else◌, arith, inl, inr,
}
use lardos.Base.Int.{ℤ}
use lardos.Vm.{End, returns, Round, continue, stop, loop, Round-cases, loop_stop}
use mathlib.Core.Path.{subst}
use mathlib.Core.Option.{none-ne-some}

-- `n` rounds that go on lead from the first state to the second.
unfoldable pub Reaches : {S : Type 0} → (S → Round S) → ℕ → S → S → Type 0
Reaches round zero s t = s ≡ t
Reaches {S} round (suc n) s t = (m : S) × (round s ≡ continue m) × Reaches round n m t

-- A run from `s` to its end `e` consists of `steps` rounds that execute an instruction: those that go
-- on, and the last one unless it stops at the test of the loop.
pub record IsTraced {S : Type 0} (round : S → Round S) (idle : S → Bool) (s : S) (e : End)
    (steps : ℕ) : Type 0 where
  pub going : ℕ
  pub last : S
  pub final : S
  pub reached : Reaches round going s last
  pub stopped : round last ≡ stop e final
  pub counted : steps ≡ (if idle last then going else going + 1)

-- The run of `vm` took `steps` steps, at most one more than its budget, the monitor was told so with
-- the return code, and the code is `spent_rc` exactly when the budget is spent.
pub record IsAccounted (vm : ℕ) (spent_rc : ℤ) (es : VmMon.Entries) (how : End)
    (es' : VmMon.Entries) (steps : ℕ) : Type 0 where
  pub steps_in : steps ≤ VmMon.budget vm + 1
  pub logged : (rc : ℤ) → how ≡ returns rc → es' ≡ VmMon.note_run es vm steps rc
  pub spent : how ≡ returns spent_rc → steps ≡ VmMon.budget vm + 1
  pub unspent : steps ≡ VmMon.budget vm + 1 → how ≡ returns spent_rc

loop_continue :
    {S : Type 0} (round : S → Round S) (fuel : ℕ) (s m : S)
    → round s ≡ continue m
    → loop (suc fuel) round s ≡ loop fuel round m
unfolding loop
loop_continue round fuel s m q = rw (q, loop) refl

-- A loop that has ended went through its rounds.
loop-Reaches :
    {S : Type 0} (round : S → Round S) (fuel : ℕ) (s t : S) (e : End)
    → loop fuel round s ≡ some (e, t)
    → (n : ℕ) × (last : S) × Reaches round n s last × (round last ≡ stop e t)
unfolding loop Reaches
loop-Reaches round zero s t e h = absurd (none-ne-some (e, t) h)
loop-Reaches round (suc fuel) s t e h = elim (Round-cases (round s)) [
  | inl (m, q) ↦
      let (n, last, reached, stopped) =
        loop-Reaches round fuel m t e (sym (loop_continue round fuel s m q) ∙ h) in
      (suc n, last, (m, q, reached), stopped)
  | inr (e', t', q) ↦
      let same : some (e', t') ≡ some (e, t) =
        sym (loop_stop round (suc fuel) s t' e' (omega arith) q) ∙ h in
      (zero, s, refl, cc)
]

-- A count that goes up by one in each round that goes on counts these rounds.
rounds_count :
    {S : Type 0} (round : S → Round S) (P : S → Type 0) (steps : S → ℕ)
    → ((s s' : S) → P s → round s ≡ continue s' → P s' × (steps s' ≡ steps s + 1))
    → (n : ℕ) (s t : S) → P s
    → Reaches round n s t
    → P t × (steps t ≡ steps s + n)
unfolding Reaches
rounds_count round P steps keep zero s t h r = (subst P r h, ap steps (sym r) ∙ omega arith)
rounds_count round P steps keep (suc n) s t h r =
    let (m, q, rest) = r in
    let (hm, up) = keep s m h q in
    let (ht, sum) = rounds_count round P steps keep n m t hm rest in (ht, omega (arith, up, sum))

-- A loop whose rounds count in `steps` what they execute makes as many steps as it has counted.
pub loop-IsTraced :
    {S : Type 0} (round : S → Round S) (idle : S → Bool) (P : S → Type 0) (steps : S → ℕ)
    → ((s s' : S) → P s → round s ≡ continue s' → P s' × (steps s' ≡ steps s + 1))
    → ((s s' : S) (e : End)
        → P s
        → round s ≡ stop e s'
        → steps s' ≡ (if idle s then steps s else steps s + 1))
    → (fuel : ℕ) (s t : S) (e : End) → P s
    → steps s ≡ 0
    → loop fuel round s ≡ some (e, t)
    → IsTraced round idle s e (steps t)
loop-IsTraced round idle P steps keep ends fuel s t e h fresh ran =
    let (n, last, reached, stopped) = loop-Reaches round fuel s t e ran in
    let (hl, sum) = rounds_count round P steps keep n s last h reached in
    let all : steps last ≡ n = omega (arith, sum, fresh) in
    record {
      going = n;
      last = last;
      final = t;
      reached = reached;
      stopped = stopped;
      counted = ends last t e hl stopped ∙ ap (λ k. if idle last then k else k + 1) all;
    }
