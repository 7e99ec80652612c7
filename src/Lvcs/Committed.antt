-- ===== src/Lvcs/Committed.antt =====
-- What os/kernel/lvcs.c hands out for the newest commit: the bytes that were added to it; and the
-- hash of its files, which is that of os/kernel/hash.c.
use lardos.Lvcs.View.{view}
use lardos.Lvcs.Refine.{checkout_refines}
use lardos.Base.{
  ℕ, suc, ◌≤◌, ◌≡◌, inl, inr, refl, ◌∙◌, true, false, some, Option, List, [], ◌∷◌, ◌++◌, arith,
  ==-refl, Bool-cases, length, ap, get_or, length-append, sym, get_or_last, bit_xor, take,
  length-take,
}
use lardos.Lvcs.{same, State, hash_loop, lvcs_hash, pos, ok, bytes_of, add, commit, checkout}
use lardos.Lvcs.Model.{
  lookup, model_add_named, model_add, newest, model_commit, model_checkout, File, put, Repo, Files,
  model_checkout_found,
}
use lardos.Lvcs.Valid.{IsValid, add-IsValid, commit-IsValid}
use lardos.Hash.{fnv_loop, hash_fnv1a, fnv_basis, spread}
use lardos.Hash.Fnv.{spread-eq}
use lardos.Lvcs.Refine.{add_refines, commit_refines}
use lardos.Lvcs.View.{view}

same_refl : (xs : List ℕ) → same xs xs ≡ true
unfolding same
same_refl [] = refl
same_refl (x ∷ xs) = rw (==-refl x) (same_refl xs)

lookup_past :
    (f : File) (fs : Files) (name : List ℕ)
    → same f.0 name ≡ false
    → lookup (f ∷ fs) name ≡ lookup fs name
unfolding lookup
lookup_past f fs name e = rw e refl

lookup-put : (fs : Files) (name stored : List ℕ) → lookup (put fs name stored) name ≡ some stored
unfolding lookup put
lookup-put [] name stored = rw (same_refl name) refl
lookup-put (f ∷ fs) name stored = elim (Bool-cases (same f.0 name)) [
  | inl e ↦ rw (e, same_refl name, lookup) refl
  | inr e ↦ rw e (lookup_past f (put fs name stored) name e ∙ lookup-put fs name stored)
]

model_add_named-staged :
    (r : Repo) (name : List ℕ) (data_in : Option (List ℕ)) (size : ℕ)
    → (model_add_named r name data_in size).0 ≡ pos 0
    → (model_add_named r name data_in size).1.staged ≡ put r.staged name (bytes_of data_in size)
unfolding model_add_named
model_add_named-staged r name data_in size h = ground arith

model_add-staged :
    (r : Repo) (c : ℕ) (name : List ℕ) (data_in : Option (List ℕ)) (size : ℕ)
    → (model_add r (some (c ∷ name)) data_in size).0 ≡ pos 0
    → (model_add r (some (c ∷ name)) data_in size).1.staged
      ≡ put r.staged (c ∷ name) (bytes_of data_in size)
unfolding model_add
model_add-staged r c name data_in size h =
    ground (arith, model_add_named-staged r (c ∷ name) data_in size)

newest_last :
    (h : List Files) (fs : Files) (name stored : List ℕ)
    → lookup fs name ≡ some stored
    → newest (h ++ (fs ∷ [])) (suc (length h)) name ≡ some stored
unfolding newest
newest_last h fs name stored e =
    let last : lookup (get_or (h ++ (fs ∷ [])) (length h) []) name ≡ some stored =
      ap (λ l. lookup l name) (get_or_last h fs []) ∙ e in
    rw last refl

-- A successful commit takes the staged files as the newest in the history.
model_commit-newest :
    (r : Repo) (id : ℕ)
    → (model_commit r).0 ≡ ok id
    → (id ≡ suc (length r.history)) × ((model_commit r).1.history ≡ r.history ++ (r.staged ∷ []))
unfolding model_commit
model_commit-newest r id h = ground arith

model_checkout_newest :
    (r : Repo) (h : List Files) (fs : Files) (c : ℕ) (name stored : List ℕ) (cap : ℕ)
    → r.history ≡ h ++ (fs ∷ [])
    → lookup fs (c ∷ name) ≡ some stored
    → length stored ≤ cap
    → model_checkout r (suc (length h)) (some (c ∷ name)) (some cap) ≡ ok stored
unfolding model_checkout model_checkout_found
model_checkout_newest r h fs c name stored cap e found room =
    rw (e, length-append h (fs ∷ []), newest_last h fs (c ∷ name) stored found) (ground arith)

-- From a valid state, when adding `name` with the `size` bytes of a buffer succeeds and the commit
-- after it returns `id`, checking `name` out of commit `id` into a buffer with room returns those
-- `size` bytes.
pub checkout_committed :
    (s : State) (c : ℕ) (name buffer : List ℕ) (size id cap : ℕ) (message : Option (List ℕ))
    → IsValid s
    → size ≤ length buffer
    → (add s (some (c ∷ name)) (some buffer) size).0 ≡ pos 0
    → (commit (add s (some (c ∷ name)) (some buffer) size).1 message).0 ≡ ok id
    → size ≤ cap
    → checkout
        (commit (add s (some (c ∷ name)) (some buffer) size).1 message).1
        id
        (some (c ∷ name))
        (some cap)
      ≡ ok (take size buffer)
checkout_committed s c name buffer size id cap message v has added committed room =
    let s1 = (add s (some (c ∷ name)) (some buffer) size).1 in
    let s2 = (commit s1 message).1 in
    let (code_eq, view1) = add_refines s v (some (c ∷ name)) (some buffer) size has in
    let v1 = add-IsValid s (some (c ∷ name)) (some buffer) size has v in
    let (id_eq, view2) = commit_refines s1 v1 message in
    let v2 = commit-IsValid s1 message v1 in
    let staged : (view s1).staged ≡ put (view s).staged (c ∷ name) (take size buffer) =
      ap (λ r. r.staged) view1
      ∙ model_add-staged (view s) c name (some buffer) size (sym code_eq ∙ added) in
    let (numbered, history) = model_commit-newest (view s1) id (sym id_eq ∙ committed) in
    let found : lookup (view s1).staged (c ∷ name) ≡ some (take size buffer) =
      ap (λ fs. lookup fs (c ∷ name)) staged
      ∙ lookup-put (view s).staged (c ∷ name) (take size buffer) in
    checkout_refines s2 v2 id (some (c ∷ name)) (some cap)
    ∙ ap (λ i. model_checkout (view s2) i (some (c ∷ name)) (some cap)) numbered
    ∙ model_checkout_newest (view s2) (view s1).history (view s1).staged c name (take size buffer)
        cap (ap (λ r. r.history) view2 ∙ history) found (omega (arith, length-take size buffer))

hash_loop_lem : (h : ℕ) (bytes : List ℕ) → hash_loop h bytes ≡ fnv_loop h bytes
unfolding hash_loop fnv_loop
hash_loop_lem h [] = refl
hash_loop_lem h (b ∷ bytes) =
    ap (λ h. hash_loop h bytes) (sym (spread-eq (bit_xor h b)))
    ∙ hash_loop_lem (spread (bit_xor h b)) bytes

-- The hash that `lvcs_add` records, computed by multiplication, is the FNV-1a that os/kernel/hash.c
-- computes by shifts, on every list of bytes.
pub lvcs_hash-eq-hash_fnv1a : (bytes : List ℕ) → lvcs_hash bytes ≡ hash_fnv1a bytes
unfolding lvcs_hash hash_fnv1a
lvcs_hash-eq-hash_fnv1a bytes = hash_loop_lem fnv_basis bytes
