-- ===== src/Lvcs/Model.antt =====
-- What os/kernel/lvcs.c promises, without offsets, slots or reference tables: staged files with their
-- bytes, and a history of commits that are such lists of files.
use lardos.Base.{
  ℕ, zero, suc, ◌+◌, ◌-◌, ◌&&◌, ◌||◌, Bool, true, false, none, some, Option, List, [], ◌∷◌, ◌++◌,
  ◌==◌, if◌then◌else◌, get_or, leb, length, ltb, not,
}
use lardos.Lvcs.{
  same, max_stage, max_name, is_null, max_commits, max_file_size, store_cap, bytes_of, or_else,
}
use lardos.Base.Int.{ℤ, Result, neg, error, ok, pos}

abbrev pub File : Type 0
File = List ℕ × List ℕ

abbrev pub Files : Type 0
Files = List File

-- Commit number `i + 1` is `history[i]`.
pub record Repo : Type 0 where
  pub used : ℕ
  pub staged : Files
  pub history : List Files

abbrev pub empty : Repo
empty = record { used = 0; staged = []; history = [] }

abbrev pub is_none {ℓ} : {A : Type ℓ} → Option A → Bool
is_none none = true
is_none (some a) = false

unfoldable pub lookup : Files → List ℕ → Option (List ℕ)
lookup [] name = none
lookup (f ∷ fs) name = if same f.0 name then some f.1 else lookup fs name

-- Replaces the file of that name, or adds it at the end.
unfoldable pub put : Files → List ℕ → List ℕ → Files
put [] name bytes = (name, bytes) ∷ []
put (f ∷ fs) name bytes =
    let rest = put fs name bytes in if same f.0 name then (name, bytes) ∷ fs else f ∷ rest

unfoldable pub model_add_named : Repo → List ℕ → Option (List ℕ) → ℕ → ℤ × Repo
model_add_named r name data_in size =
    if is_none (lookup r.staged name) && leb max_stage (length r.staged)
    then (neg 20, r)
    else if is_null data_in && not (size == 0)
    then (neg 11, r)
    else if ltb max_file_size size
    then (neg 12, r)
    else if ltb (store_cap - r.used) size
    then (neg 13, r)
    else (
      pos 0,
      record r { used = r.used + size; staged = put r.staged name (bytes_of data_in size) },
    )

unfoldable pub model_add : Repo → Option (List ℕ) → Option (List ℕ) → ℕ → ℤ × Repo
model_add r none data_in size = (neg 1, r)
model_add r (some []) data_in size = (neg 1, r)
model_add r (some (c ∷ name)) data_in size =
    if leb max_name (length (c ∷ name))
    then (neg 21, r)
    else model_add_named r (c ∷ name) data_in size

unfoldable pub model_commit : Repo → Result ℕ × Repo
model_commit r =
    if length r.staged == 0
    then (error (neg 1), r)
    else if leb max_commits (length r.history)
    then (error (neg 2), r)
    else (
      ok (length r.history + 1),
      record r { staged = []; history = r.history ++ (r.staged ∷ []) },
    )

-- The file in the newest of the commits 1 to `id` that has it.
unfoldable pub newest : List Files → ℕ → List ℕ → Option (List ℕ)
newest history zero name = none
newest history (suc i) name =
    let older = newest history i name in or_else (lookup (get_or history i []) name) older

-- what a look-up answers to a caller with room for `cap` bytes
abbrev pub handed_out : Option (List ℕ) → ℕ → Result (List ℕ)
handed_out none cap = error (neg 4)
handed_out (some bytes) cap = if ltb cap (length bytes) then error (neg 3) else ok bytes

unfoldable pub model_checkout_found : Repo → ℕ → Option (List ℕ) → Option ℕ → Result (List ℕ)
model_checkout_found r id (some (c ∷ name)) (some cap) =
    handed_out (newest r.history id (c ∷ name)) cap
model_checkout_found r id (some (c ∷ name)) none = error (neg 2)
model_checkout_found r id (some []) cap = error (neg 2)
model_checkout_found r id none cap = error (neg 2)

unfoldable pub model_checkout : Repo → ℕ → Option (List ℕ) → Option ℕ → Result (List ℕ)
model_checkout r id name cap =
    if id == 0 || ltb (length r.history) id
    then error (neg 1)
    else model_checkout_found r id name cap
