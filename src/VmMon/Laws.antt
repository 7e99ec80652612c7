-- ===== src/VmMon/Laws.antt =====
-- What the counters of os/kernel/vmmon.c mean, over any sequence of recorded runs.
use lardos.Base.Int.{ℤ, is_zero}
use lardos.Base.{
  ℕ, suc, ◌+◌, ◌^◌, ◌≤◌, ◌<◌, ◌≡◌, inl, inr, ◌&&◌, Bool, false, List, [], ◌∷◌, arith, ◌==◌,
  if◌then◌else◌, not, leb, length, get_or, length-set, Bool-cases, get_or-set_ne, ==→ne, ==→eq,
  lt→ltb, get_or-set_self, zero, refl, ◌∙◌, ap, length-map,
}
use lardos.VmMon.{
  Entries, note_run, Entry, budget, vmmon_count, zero_entry, recorded, valid_id, reset,
}
use Prim.Native.Nat.{max}

-- one call of `vmmon_record`
pub record Run : Type 0 where
  pub vm : ℕ
  pub steps : ℕ
  pub rc : ℤ

unfoldable pub replay : Entries → List Run → Entries
replay es [] = es
replay es (r ∷ log) = replay (note_run es r.vm r.steps r.rc) log

abbrev pub count : (Run → Bool) → List Run → ℕ
count p [] = 0
count p (r ∷ log) = if p r then suc (count p log) else count p log

abbrev pub longest : ℕ → List Run → ℕ
longest id [] = 0
longest id (r ∷ log) = if r.vm == id then max r.steps (longest id log) else longest id log

abbrev pub failed : Run → Bool
failed r = not (is_zero r.rc)

abbrev pub hit_budget : Run → Bool
hit_budget r = failed r && leb (budget r.vm) r.steps

count-le-length : (p : Run → Bool) (log : List Run) → count p log ≤ length log
count-le-length p [] = omega arith
count-le-length p (r ∷ log) = ground (arith, count-le-length p log)

abbrev entry : Entries → ℕ → Entry
entry es id = get_or es id zero_entry

length-note_run :
    (es : Entries) (id steps : ℕ) (rc : ℤ) → length (note_run es id steps rc) ≡ length es
unfolding note_run
length-note_run es id steps rc =
    ground (arith, length-set es id (recorded (budget id) (entry es id) steps rc))

-- `vmmon_record` changes the entry of its VM and no other.
entry-note_run :
    (es : Entries) (id : ℕ) (r : Run)
    → length es ≡ vmmon_count
    → id < vmmon_count
    → entry (note_run es r.vm r.steps r.rc) id
      ≡ (if r.vm == id then recorded (budget id) (entry es id) r.steps r.rc else entry es id)
unfolding note_run
entry-note_run es id r size known = elim (Bool-cases (r.vm == id)) [
  | inl e ↦
      let e' : r.vm ≡ id = ==→eq r.vm id e in
      rw (e, e', lt→ltb id vmmon_count known) (get_or-set_self es id _ zero_entry (omega arith))
  | inr ne ↦ rw ne (other ne)
]
  where
    other : (r.vm == id) ≡ false → entry (note_run es r.vm r.steps r.rc) id ≡ entry es id
    other ne = elim (Bool-cases (valid_id r.vm)) [
      | inl k ↦ rw k (get_or-set_ne es r.vm id _ zero_entry (==→ne r.vm id ne))
      | inr k ↦ rw k
    ]

-- what the log adds to an entry
record Adds (id : ℕ) (log : List Run) (e e' : Entry) : Type 0 where
  runs : e'.runs ≡ e.runs + count (λ r. r.vm == id) log
  failures : e'.failures ≡ e.failures + count (λ r. r.vm == id && failed r) log
  budget_hits : e'.budget_hits ≡ e.budget_hits + count (λ r. r.vm == id && hit_budget r) log
  max_steps : e'.max_steps ≡ max e.max_steps (longest id log)

replay-Adds :
    (log : List Run) (es : Entries) (id : ℕ)
    → length es ≡ vmmon_count
    → id < vmmon_count
    → (entry es id).runs + length log < 2 ^ 32
    → (entry es id).failures + length log < 2 ^ 32
    → (entry es id).budget_hits + length log < 2 ^ 32
    → Adds id log (entry es id) (entry (replay es log) id)
unfolding replay
replay-Adds [] es id size known a b c = omega arith
replay-Adds (r ∷ log) es id size known a b c = elim (Bool-cases (r.vm == id)) [
  | inl e ↦ ground (
    arith,
    ap budget (==→eq r.vm id e),
    entry-note_run es id r size known,
    replay-Adds log (note_run es r.vm r.steps r.rc) id (length-note_run es r.vm r.steps r.rc ∙ size)
        known,
  )
  | inr ne ↦ ground (
    arith,
    entry-note_run es id r size known,
    replay-Adds log (note_run es r.vm r.steps r.rc) id (length-note_run es r.vm r.steps r.rc ∙ size)
        known,
  )
]

entry-reset : (es : Entries) (id : ℕ) → entry (reset es) id ≡ zero_entry
unfolding reset
entry-reset [] id = refl
entry-reset (e ∷ es) zero = refl
entry-reset (e ∷ es) (suc id) = unfold reset in entry-reset es id

length-reset : (es : Entries) → length (reset es) ≡ length es
unfolding reset
length-reset es = length-map (λ _. zero_entry) es

-- After `vmmon_reset` and any sequence of fewer than 2 ^ 32 calls of `vmmon_record`, for known and
-- unknown VMs in any order, the entry of each VM counts its runs, its failures and the failures that
-- used up its budget, and holds the longest of its runs.
pub counters_lem :
    (es : Entries) (log : List Run) (id : ℕ)
    → length es ≡ vmmon_count
    → id < vmmon_count
    → length log < 2 ^ 32
    → ((get_or (replay (reset es) log) id zero_entry).runs ≡ count (λ r. r.vm == id) log)
      × ((get_or (replay (reset es) log) id zero_entry).failures
          ≡ count (λ r. r.vm == id && failed r) log)
      × ((get_or (replay (reset es) log) id zero_entry).budget_hits
          ≡ count (λ r. r.vm == id && hit_budget r) log)
      × ((get_or (replay (reset es) log) id zero_entry).max_steps ≡ longest id log)
counters_lem es log id size known short =
    ground (arith, entry-reset es id, replay-Adds log (reset es) id (length-reset es ∙ size) known)
