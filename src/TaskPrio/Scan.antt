-- ===== src/TaskPrio/Scan.antt =====
-- The second loop of `taskprio_dequeue_next` of os/kernel/taskprio.c, which looks for the best score.
use lardos.Base.{
  ℕ, zero, suc, ◌+◌, ◌≤◌, ◌<◌, ◌≡◌, inl, inr, refl, ◌||◌, some, Option, List, [], ◌∷◌, arith,
  if◌then◌else◌, All, not, length, Bool-cases, get_or, ltb, ltb→le, ◌∙◌, Bool, true, false, leb, ap,
  ltb→lt,
}
use lardos.TaskPrio.{Task, is_urgent, max_priority}
use lardos.TaskPrio.Dequeue.{scan, score, no_task}
use lardos.Base.Words.{sub32}
use lardos.Base.Int.{signed_less, is_negative}
use mathlib.Core.Bool.{xor}

-- The rank of a task that can run: urgent ones above all, the others by score; 0 for a paused task.
abbrev pub rank : Task → ℕ
rank t = if t.paused then 0 else if is_urgent t then 1000 else suc (score t)

-- the rank in the second loop, which passes over the urgent tasks
abbrev pub low_rank : Task → ℕ
low_rank t = if t.paused || is_urgent t then 0 else suc (score t)

-- Priorities as `clamp_priority` leaves them.
abbrev pub InRange : Task → Type 0
InRange t = t.priority ≤ max_priority

pub score_bound : (t : Task) → InRange t → score t ≤ 175
score_bound t h = ground arith

small_not_negative : (x : ℕ) → x ≤ 176 → is_negative 32 x ≡ false
small_not_negative x h = ground arith

-- The comparison with the best score so far, which is `b - 1` on 32 bits.
beats : (x b : ℕ) → x ≤ 175 → b ≤ 176 → signed_less 32 (sub32 b 1) x ≡ leb b x
unfolding xor
beats x zero h hb = rw (small_not_negative x (omega arith)) (ground arith)
beats x (suc b) h hb =
    let e : sub32 (suc b) 1 ≡ b = omega arith in
    rw (e, small_not_negative x (omega arith), small_not_negative b (omega arith)) (ground arith)

score_test :
    (t : Task) (b : ℕ)
    → InRange t
    → b ≤ 176
    → ((t.paused || is_urgent t) || not (signed_less 32 (sub32 b 1) (score t)))
      ≡ not (ltb b (low_rank t))
score_test t b h hb =
    rw (beats (score t) b (score_bound t h) hb) (verdict (t.paused || is_urgent t) (score t))
  where
    verdict :
        (skip : Bool) (n : ℕ) → (skip || not (leb b n)) ≡ not (ltb b (if skip then 0 else suc n))
    verdict skip n = ground arith

-- What a scan from place `k` on, with best rank `b` so far, ends with.
pub data Scanned (k b : ℕ) (ts : List Task) (best : Option ℕ) : Type 0 where
  keeps : scan k ts best (sub32 b 1) ≡ best → All (λ t. low_rank t ≤ b) ts → Scanned k b ts best
  finds :
      (i : ℕ)
      → scan k ts best (sub32 b 1) ≡ some (k + i)
      → i < length ts
      → b < low_rank (get_or ts i no_task)
      → ((j : ℕ) → j < length ts → low_rank (get_or ts j no_task) ≤ low_rank (get_or ts i no_task))
      → ((j : ℕ) → j < i → low_rank (get_or ts j no_task) < low_rank (get_or ts i no_task))
      → Scanned k b ts best

pub get_or-All_le :
    (b : ℕ) (ts : List Task) (j : ℕ)
    → All (λ t. low_rank t ≤ b) ts
    → j < length ts
    → low_rank (get_or ts j no_task) ≤ b
get_or-All_le b [] j h lt = absurd (omega arith)
get_or-All_le b (t ∷ ts) zero h lt = h.0
get_or-All_le b (t ∷ ts) (suc j) h lt = get_or-All_le b ts j h.1 (omega arith)

top_cons :
    (t : Task) (ts : List Task) (i b : ℕ)
    → low_rank t ≤ b
    → b < low_rank (get_or ts i no_task)
    → ((j : ℕ) → j < length ts → low_rank (get_or ts j no_task) ≤ low_rank (get_or ts i no_task))
    → (j : ℕ) → j < suc (length ts)
    → low_rank (get_or (t ∷ ts) j no_task) ≤ low_rank (get_or ts i no_task)
top_cons t ts i b low more top zero lt = omega (arith, low, more)
top_cons t ts i b low more top (suc j) lt = top j (omega arith)

first_cons :
    (t : Task) (ts : List Task) (i b : ℕ)
    → low_rank t ≤ b
    → b < low_rank (get_or ts i no_task)
    → ((j : ℕ) → j < i → low_rank (get_or ts j no_task) < low_rank (get_or ts i no_task))
    → (j : ℕ) → j < suc i
    → low_rank (get_or (t ∷ ts) j no_task) < low_rank (get_or ts i no_task)
first_cons t ts i b low more first zero lt = omega (arith, low, more)
first_cons t ts i b low more first (suc j) lt = first j (omega arith)

top_here :
    (t : Task) (ts : List Task)
    → All (λ u. low_rank u ≤ low_rank t) ts
    → (j : ℕ) → j < suc (length ts)
    → low_rank (get_or (t ∷ ts) j no_task) ≤ low_rank t
top_here t ts all zero lt = omega arith
top_here t ts all (suc j) lt = get_or-All_le (low_rank t) ts j all (omega arith)

-- A task that beats the rank so far is one of the second loop, and its rank is read off its score.
winner : (t : Task) (b : ℕ) → ltb b (low_rank t) ≡ true → low_rank t ≡ suc (score t)
winner t b h = ground arith

pub scan_lem :
    (k b : ℕ) (ts : List Task) (best : Option ℕ) → All InRange ts → b ≤ 176 → Scanned k b ts best
unfolding scan
scan_lem k b [] best h hb = keeps refl tt
scan_lem k b (t ∷ ts) best h hb = elim (Bool-cases (ltb b (low_rank t))) [
  | inr no_better ↦ elim (scan_lem (suc k) b ts best h.1 hb) [
    | keeps e all ↦
        keeps (rw (score_test t b h.0 hb, no_better, scan) e) (ltb→le b (low_rank t) no_better, all)
    | finds i e lt more top first ↦
        finds (suc i) (rw (score_test t b h.0 hb, no_better, scan) (e ∙ ap some (omega arith)))
          (omega arith) more (top_cons t ts i b (ltb→le b (low_rank t) no_better) more top)
          (first_cons t ts i b (ltb→le b (low_rank t) no_better) more first)
  ]
  | inl better ↦
      let r = winner t b better in
      let back : score t ≡ sub32 (low_rank t) 1 = omega (arith, r, score_bound t h.0) in
      let step : scan k (t ∷ ts) best (sub32 b 1)
          ≡ scan (suc k) ts (some k) (sub32 (low_rank t) 1) =
        rw (score_test t b h.0 hb, better, scan) (ap (λ n. scan (suc k) ts (some k) n) back) in
      elim (scan_lem (suc k) (low_rank t) ts (some k) h.1 (omega (arith, r, score_bound t h.0))) [
        | keeps e all ↦
            finds 0 (step ∙ e ∙ ap some (omega arith)) (omega arith) (ltb→lt b (low_rank t) better)
              (top_here t ts all) (λ j below. absurd (omega arith))
        | finds i e lt more top first ↦
            finds (suc i) (step ∙ e ∙ ap some (omega arith)) (omega arith)
              (omega (arith, ltb→lt b (low_rank t) better, more))
              (top_cons t ts i (low_rank t) (omega arith) more top)
              (first_cons t ts i (low_rank t) (omega arith) more first)
      ]
]
