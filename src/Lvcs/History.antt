-- ===== src/Lvcs/History.antt =====
-- Sequences of calls of os/kernel/lvcs.c: they answer as the model does, and history is immutable.
use lardos.Base.{
  ℕ, ◌≤◌, ◌≡◌, refl, Option, List, [], ◌∷◌, ◌++◌, zero, suc, inl, inr, ◌∙◌, none, some, arith, ◌==◌,
  All, sym, Bool-cases, ap, length, append-nil, leb, append_assoc, ap₂, get_or_within, length-map,
  ◌+◌, ◌||◌, if◌then◌else◌, ltb, length-append,
}
use lardos.Base.Int.{ℤ, Result, error, neg}
use lardos.Lvcs.{State, add, commit, init, checkout, max_commits, or_else}
use lardos.Lvcs.Model.{
  Repo, model_add_named, model_add, Files, model_commit, newest, model_checkout, lookup, empty,
  model_checkout_found, handed_out,
}
use lardos.Lvcs.Valid.{HasBytes, IsValid, add-IsValid, commit-IsValid, init-IsValid}
use lardos.Lvcs.Refine.{SameOutcome, add_refines, checkout_refines, commit_refines}
use lardos.Lvcs.View.{view, abs_commit}
use mathlib.Core.Path.{subst}

pub data Call : Type 0 where
  call_add : (name data_in : Option (List ℕ)) (size : ℕ) → Call
  call_commit : (message : Option (List ℕ)) → Call
  call_checkout : (id : ℕ) (name : Option (List ℕ)) (cap : Option ℕ) → Call

pub data Answer : Type 0 where
  code : ℤ → Answer
  new_id : Result ℕ → Answer
  handed : Result (List ℕ) → Answer

abbrev answer {ℓ} : {A S : Type ℓ} {B : Type 0} → (A → B) → A × S → B × S
answer f (a, s) = (f a, s)

unfoldable pub step : State → Call → Answer × State
step s (call_add name data_in size) = let (r, s') = add s name data_in size in (code r, s')
step s (call_commit message) = let (r, s') = commit s message in (new_id r, s')
step s (call_checkout id name cap) = (handed (checkout s id name cap), s)

unfoldable pub model_step : Repo → Call → Answer × Repo
model_step r (call_add name data_in size) =
    let (c, r') = model_add r name data_in size in (code c, r')
model_step r (call_commit message) = let (c, r') = model_commit r in (new_id c, r')
model_step r (call_checkout id name cap) = (handed (model_checkout r id name cap), r)

unfoldable pub run : State → List Call → List Answer × State
run s [] = ([], s)
run s (c ∷ cs) = let (a, s') = step s c in let (rest, s'') = run s' cs in (a ∷ rest, s'')

unfoldable pub model_run : Repo → List Call → List Answer × Repo
model_run r [] = ([], r)
model_run r (c ∷ cs) =
    let (a, r') = model_step r c in let (rest, r'') = model_run r' cs in (a ∷ rest, r'')

-- a buffer that is passed has the bytes that its size promises
abbrev pub Proper : Call → Type 0
Proper (call_add name data_in size) = HasBytes data_in size
Proper (call_commit message) = Unit
Proper (call_checkout id name cap) = Unit

step-IsValid : (s : State) (c : Call) → Proper c → IsValid s → IsValid (step s c).1
unfolding step
step-IsValid s (call_add name data_in size) p v = add-IsValid s name data_in size p v
step-IsValid s (call_commit message) p v = commit-IsValid s message v
step-IsValid s (call_checkout id name cap) p v = v

step_refines :
    (s : State) (c : Call) → Proper c → IsValid s → SameOutcome (step s c) (model_step (view s) c)
unfolding step model_step
step_refines s (call_add name data_in size) p v =
    let e = add_refines s v name data_in size p in (ap code e.0, e.1)
step_refines s (call_commit message) p v =
    let e = commit_refines s v message in (ap new_id e.0, e.1)
step_refines s (call_checkout id name cap) p v =
    (ap handed (checkout_refines s v id name cap), refl)

run_lem :
    (s : State) (cs : List Call)
    → All Proper cs
    → IsValid s
    → SameOutcome (run s cs) (model_run (view s) cs) × IsValid (run s cs).1
unfolding run model_run
run_lem s [] p v = ((refl, refl), v)
run_lem s (c ∷ cs) p v =
    let here = step_refines s c p.0 v in
    let rest = run_lem (step s c).1 cs p.1 (step-IsValid s c p.0 v) in
    (
      (
        ap₂ ◌∷◌ here.0 (rest.0.0 ∙ ap (λ r. (model_run r cs).0) here.1),
        rest.0.1 ∙ ap (λ r. (model_run r cs).1) here.1,
      ),
      rest.1,
    )

-- From the initial state, any sequence of adds, commits and checkouts, whose buffers have the bytes
-- that their sizes promise, gets the answers of the model, and ends in a state whose files are those
-- of the model.
pub calls_refine : (cs : List Call) → All Proper cs → SameOutcome (run init cs) (model_run empty cs)
calls_refine cs p = (run_lem init cs p init-IsValid).0

model_add_named-history :
    (r : Repo) (name : List ℕ) (data_in : Option (List ℕ)) (size : ℕ)
    → (model_add_named r name data_in size).1.history ≡ r.history
unfolding model_add_named
model_add_named-history r name data_in size = ground arith

model_add-history :
    (r : Repo) (name data_in : Option (List ℕ)) (size : ℕ)
    → (model_add r name data_in size).1.history ≡ r.history
unfolding model_add
model_add-history r none data_in size = refl
model_add-history r (some []) data_in size = refl
model_add-history r (some (c ∷ name)) data_in size =
    ground (arith, model_add_named-history r (c ∷ name) data_in size)

abbrev Extends : List Files → List Files → Type 0
Extends h h' = (more : List Files) × (h' ≡ h ++ more)

same-Extends : {h h' : List Files} → h' ≡ h → Extends h h'
same-Extends {h} e = ([], e ∙ sym (append-nil h))

model_commit-Extends : (r : Repo) → Extends r.history (model_commit r).1.history
unfolding model_commit
model_commit-Extends r = elim (Bool-cases (length r.staged == 0)) [
  | inl e ↦ rw e (same-Extends refl)
  | inr e ↦ elim (Bool-cases (leb max_commits (length r.history))) [
    | inl e1 ↦ rw (e, e1) (same-Extends refl)
    | inr e1 ↦ rw (e, e1) (r.staged ∷ [], refl)
  ]
]

model_step-Extends : (r : Repo) (c : Call) → Extends r.history (model_step r c).1.history
unfolding model_step
model_step-Extends r (call_add name data_in size) =
    same-Extends (model_add-history r name data_in size)
model_step-Extends r (call_commit message) = model_commit-Extends r
model_step-Extends r (call_checkout id name cap) = same-Extends refl

model_run-Extends : (r : Repo) (cs : List Call) → Extends r.history (model_run r cs).1.history
unfolding model_run
model_run-Extends r [] = same-Extends refl
model_run-Extends r (c ∷ cs) =
    let (m, e) = model_step-Extends r c in
    let (m', e') = model_run-Extends (model_step r c).1 cs in
    (m ++ m', e' ∙ ap (λ h. h ++ m') e ∙ append_assoc r.history m m')

newest-Extends :
    (h more : List Files) (i : ℕ) (name : List ℕ)
    → i ≤ length h
    → newest (h ++ more) i name ≡ newest h i name
unfolding newest
newest-Extends h more zero name le = refl
newest-Extends h more (suc i) name le =
    ap₂ or_else (ap (λ fs. lookup fs name) (get_or_within h more i [] (omega arith)))
      (newest-Extends h more i name (omega arith))

guard_stable : (id n n' : ℕ) → id ≤ n → n ≤ n' → (id == 0 || ltb n' id) ≡ (id == 0 || ltb n id)
guard_stable id n n' le le' = ground arith

model_checkout-Extends :
    (r r' : Repo) (id : ℕ) (name : Option (List ℕ)) (cap : Option ℕ)
    → Extends r.history r'.history
    → id ≤ length r.history
    → model_checkout r' id name cap ≡ model_checkout r id name cap
unfolding model_checkout model_checkout_found
model_checkout-Extends r r' id name cap (more, e) le =
    let longer : length r'.history ≡ length r.history + length more =
      omega (arith, ap length e, length-append r.history more) in
    ap₂ (λ b answer. if b then error (neg 1) else answer)
      (guard_stable id (length r.history) (length r'.history) le (omega (arith, longer)))
      (found_stable name cap)
  where
    found_stable :
        (name : Option (List ℕ)) (cap : Option ℕ)
        → model_checkout_found r' id name cap ≡ model_checkout_found r id name cap
    found_stable (some (c ∷ cs)) (some n) =
        ap (λ o. handed_out o n)
          (ap (λ h. newest h id (c ∷ cs)) e ∙ newest-Extends r.history more id (c ∷ cs) le)
    found_stable (some (c ∷ cs)) none = refl
    found_stable (some []) cap = refl
    found_stable none cap = refl

-- Once a commit exists, what `lvcs_checkout` answers for its id does not change: whatever adds,
-- commits and checkouts follow (with buffers that have their promised bytes), a valid state with
-- commit `id` answers afterwards as before.
pub checkout_stable :
    (s : State) (cs : List Call) (id : ℕ) (name : Option (List ℕ)) (cap : Option ℕ)
    → IsValid s
    → All Proper cs
    → id ≤ length s.commits
    → checkout (run s cs).1 id name cap ≡ checkout s id name cap
checkout_stable s cs id name cap v p le =
    let (refined, v') = run_lem s cs p v in
    let grown = model_run-Extends (view s) cs in
    checkout_refines (run s cs).1 v' id name cap
    ∙ model_checkout-Extends (view s) (view (run s cs).1) id name cap
        (subst (λ h. Extends (view s).history h.history) (sym refined.1) grown)
        (omega (arith, length-map (abs_commit s.store) s.commits))
    ∙ sym (checkout_refines s v id name cap)
