-- ===== src/TaskPrio/Pick.antt =====
-- Which task `taskprio_dequeue_next` of os/kernel/taskprio.c takes.
use lardos.Base.{
  ℕ, zero, suc, ◌≤◌, ◌<◌, ◌≡◌, ◌⊎◌, inl, inr, refl, ◌∙◌, ◌&&◌, true, false, none, some, List, [],
  ◌∷◌, arith, All, not, length, get_or, Bool-cases, get_or-All, ap,
}
use lardos.TaskPrio.Dequeue.{first_urgent, pick, no_task}
use lardos.TaskPrio.{Task, is_urgent}
use lardos.TaskPrio.Scan.{
  keeps, finds, InRange, rank, low_rank, score_bound, scan_lem, get_or-All_le,
}

urgent_lem :
    (ts : List Task)
    → ((first_urgent ts ≡ none) × All (λ t. (not t.paused && is_urgent t) ≡ false) ts)
      ⊎ ((i : ℕ) × (first_urgent ts ≡ some i)
          × (i < length ts)
          × ((not (get_or ts i no_task).paused && is_urgent (get_or ts i no_task)) ≡ true)
          × ((j : ℕ)
              → j < i
              → (not (get_or ts j no_task).paused && is_urgent (get_or ts j no_task)) ≡ false))
unfolding first_urgent
urgent_lem [] = inl (refl, tt)
urgent_lem (t ∷ ts) = elim (Bool-cases (not t.paused && is_urgent t)) [
  | inl e ↦ inr (0, rw e refl, omega arith, e, λ j below. absurd (omega arith))
  | inr e ↦ elim (urgent_lem ts) [
    | inl (q, all) ↦ inl (rw (e, q, first_urgent) refl, (e, all))
    | inr (i, q, lt, here, before) ↦
        inr (suc i, rw (e, q, first_urgent) refl, omega arith, here, earlier t ts i e before)
  ]
]
  where
    earlier :
        (t : Task) (ts : List Task) (i : ℕ)
        → (not t.paused && is_urgent t) ≡ false
        → ((j : ℕ)
            → j < i
            → (not (get_or ts j no_task).paused && is_urgent (get_or ts j no_task)) ≡ false)
        → (j : ℕ) → j < suc i
        → (not (get_or (t ∷ ts) j no_task).paused && is_urgent (get_or (t ∷ ts) j no_task)) ≡ false
    earlier t ts i e before zero lt = e
    earlier t ts i e before (suc j) lt = before j (omega arith)

rank_urgent : (t : Task) → (not t.paused && is_urgent t) ≡ true → rank t ≡ 1000
rank_urgent t h = ground arith

rank_other : (t : Task) → (not t.paused && is_urgent t) ≡ false → rank t ≡ low_rank t
rank_other t h = ground arith

rank_bound : (t : Task) → InRange t → rank t ≤ 1000
rank_bound t h = ground (arith, score_bound t h)

low_bound : (t : Task) → InRange t → low_rank t < 1000
low_bound t h = ground (arith, score_bound t h)

-- What is picked: the first of the tasks of the highest rank, or nothing when every rank is 0.
pub data Picked (ts : List Task) : Type 0 where
  nothing : pick ts ≡ none → ((j : ℕ) → j < length ts → rank (get_or ts j no_task) ≡ 0) → Picked ts
  found :
      (i : ℕ)
      → pick ts ≡ some i
      → i < length ts
      → 0 < rank (get_or ts i no_task)
      → ((j : ℕ) → j < length ts → rank (get_or ts j no_task) ≤ rank (get_or ts i no_task))
      → ((j : ℕ) → j < i → rank (get_or ts j no_task) < rank (get_or ts i no_task))
      → Picked ts

-- When all priorities are at most 10, `taskprio_dequeue_next` picks the first task of the highest
-- rank: urgent tasks before all others, these by their score, and paused tasks never; and it picks
-- nothing exactly when every task is paused.
pub pick_lem : (ts : List Task) → All InRange ts → Picked ts
unfolding pick
pick_lem ts h = elim (urgent_lem ts) [
  | inr (i, e, lt, here, before) ↦
      let top = rank_urgent (get_or ts i no_task) here in
      found i (rw (e, pick) refl) lt (omega (arith, top))
        (λ j lt. omega (
          arith,
          top,
          rank_bound (get_or ts j no_task) (get_or-All InRange ts j no_task h (omega arith)),
        ))
        (λ j below. omega (
          arith,
          top,
          rank_other (get_or ts j no_task) (before j below),
          low_bound (get_or ts j no_task) (get_or-All InRange ts j no_task h (omega arith)),
        ))
  | inl (e, none_urgent) ↦
      let other : (j : ℕ) → rank (get_or ts j no_task) ≡ low_rank (get_or ts j no_task) =
        λ j. rank_other (get_or ts j no_task) (get_or-All _ ts j no_task none_urgent refl) in
      elim (scan_lem 0 0 ts none h (omega arith)) [
        | keeps q all ↦
            nothing (rw (e, pick) q) (λ j lt. omega (arith, other j, get_or-All_le 0 ts j all lt))
        | finds i q lt more top first ↦
            found i (rw (e, pick) (q ∙ ap some (omega arith))) lt (omega (arith, other i, more))
              (λ j lt. omega (arith, other i, other j, top j lt))
              (λ j below. omega (arith, other i, other j, first j below))
      ]
]
