-- ===== src/Lvcs/Refine.antt =====
-- The operations of os/kernel/lvcs.c answer as the repository of Lvcs/Model.antt, and take its steps.
use mathlib.Core.Option
use lardos.Base.{
  ℕ, ◌+◌, ◌-◌, ◌≡◌, inl, inr, refl, ◌∙◌, ◌&&◌, ◌||◌, false, none, some, Option, List, [], ◌∷◌, ◌++◌,
  arith, ◌==◌, if◌then◌else◌, length, leb, Bool-cases, leb→lt, not, length-map, ap, ltb, take_all,
  ap₂, suc, ◌≢◌, map, length-append, tests, sym, Option-cases, true,
}
use lardos.Lvcs.{
  State, copy_name, FileRef, max_name, add_named, add, commit, find_commit, checkout, lvcs_hash,
  is_null, Commit, bytes_of, store_blob, less_ten, put_file, find_file, is_new, max_commits,
  max_stage, ok, max_file_size, store_cap, staged_commit, checkout_named, search_back,
  checkout_found,
}
use lardos.Lvcs.Model.{
  Repo, model_add_named, model_add, model_commit, model_checkout, put, Files, newest, handed_out,
  model_checkout_found,
}
use lardos.Lvcs.Valid.{IsValid, HasBytes, Numbered, length-bytes_of}
use lardos.Lvcs.View.{
  view, abs_files, abs_file, is_new-find_file, abs_commit, put_file-abs_files, abs_files-append,
  blob_new, history-append, newest-search_back, length-blob, search_back-Inside,
}

abbrev fresh : State → List ℕ → Option (List ℕ) → ℕ → FileRef
fresh s name data_in size = record {
  name = name;
  offset = length s.store;
  size = size;
  hash = lvcs_hash (bytes_of data_in size);
}

copy_name_lem :
    (c : ℕ) (name : List ℕ)
    → copy_name max_name (c ∷ name)
      ≡ (if leb max_name (length (c ∷ name)) then none else some (c ∷ name))
unfolding copy_name
copy_name_lem c name = elim (Bool-cases (leb max_name (length (c ∷ name)))) [
  | inl e ↦ rw e refl
  | inr e ↦
      let few = leb→lt max_name (length (c ∷ name)) e in
      rw e (ap (λ l. some (c ∷ l)) (take_all name 30 (omega (arith, few))))
]

-- the two sides of a refinement: same answer, and the view of the new state
abbrev pub SameOutcome {ℓ} : {A : Type ℓ} → A × State → A × Repo → Type ℓ
SameOutcome (a, s) (b, r) = (a ≡ b) × (view s ≡ r)

abbrev repo : ℕ → Files → List Files → Repo
repo used staged history = record { used = used; staged = staged; history = history }

-- where `find_commit` finds `id` among `n` commits that are numbered from `k`
abbrev index_of : ℕ → ℕ → ℕ → Option ℕ
index_of k n id = if ltb id k || leb (k + n) id then none else some (id - k)

index_of-first : (k n : ℕ) → index_of k (suc n) k ≡ some 0
index_of-first k n = ground arith

index_of-later :
    (k n id : ℕ) → k ≢ id → Option.map suc (index_of (suc k) n id) ≡ index_of k (suc n) id
index_of-later k n id ne = ground arith

index_of_outside : (n id : ℕ) → (id == 0 || ltb n id) ≡ true → index_of 1 n id ≡ none
index_of_outside n id h = ground arith

index_of_within : (n id : ℕ) → (id == 0 || ltb n id) ≡ false → index_of 1 n id ≡ some (id - 1)
index_of_within n id h = ground arith

within_pos : (n id : ℕ) → (id == 0 || ltb n id) ≡ false → id - 1 + 1 ≡ id
within_pos n id h = ground arith

repo_eq :
    {used used' : ℕ} {staged staged' : Files} {history history' : List Files}
    → used ≡ used'
    → staged ≡ staged'
    → history ≡ history'
    → repo used staged history ≡ repo used' staged' history'
repo_eq p q r = rw (p, q, r) refl

map-append_one {ℓ κ} :
    {A : Type ℓ} {B : Type κ} (f : A → B) (xs : List A) (x : A)
    → map f (xs ++ (x ∷ [])) ≡ map f xs ++ (f x ∷ [])
map-append_one f [] x = refl
map-append_one f (y ∷ xs) x = ap (λ l. f y ∷ l) (map-append_one f xs x)

module _ (s : State) (v : IsValid s) where
  staged_view :
      (name : List ℕ) (data_in : Option (List ℕ)) (size : ℕ)
      → HasBytes data_in size
      → (is_null data_in && not (size == 0)) ≡ false
      → abs_files
          (s.store ++ bytes_of data_in size)
          (put_file s.stage (find_file s.stage name) (fresh s name data_in size))
        ≡ put (abs_files s.store s.stage) name (bytes_of data_in size)
  staged_view name data_in size has some_data =
      put_file-abs_files (s.store ++ bytes_of data_in size) name s.stage (fresh s name data_in size)
        refl
      ∙ ap₂ (λ fs bytes. put fs name bytes)
          (abs_files-append s.store (bytes_of data_in size) s.stage v.staged)
          (blob_new s.store (bytes_of data_in size) name size (lvcs_hash (bytes_of data_in size))
            (length-bytes_of data_in size has some_data))

  add_named_refines :
      (name : List ℕ) (data_in : Option (List ℕ)) (size : ℕ)
      → HasBytes data_in size
      → SameOutcome (add_named s name data_in size) (model_add_named (view s) name data_in size)
  unfolding add_named model_add_named store_blob less_ten
  add_named_refines name data_in size has =
      rw (is_new-find_file s.store name s.stage, length-map (abs_file s.store) s.stage)
        (elim (Bool-cases (is_new (find_file s.stage name) && leb max_stage (length s.stage))) [
          | inl e ↦ rw e (refl, refl)
          | inr e ↦ elim (Bool-cases (is_null data_in && not (size == 0))) [
            | inl e1 ↦ rw (e, e1) (refl, refl)
            | inr e1 ↦ elim (Bool-cases (ltb max_file_size size)) [
              | inl e2 ↦ rw (e, e1, e2) (refl, refl)
              | inr e2 ↦ elim (Bool-cases (ltb (store_cap - length s.store) size)) [
                | inl e3 ↦ rw (e, e1, e2, e3) (refl, refl)
                | inr e3 ↦
                    rw (e, e1, e2, e3)
                      (
                        refl,
                        repo_eq
                            (length-append s.store (bytes_of data_in size)
                              ∙ ap (λ n. length s.store + n) (length-bytes_of data_in size has e1))
                            (staged_view name data_in size has e1)
                            (history-append s.store (bytes_of data_in size) s.commits v.committed),
                      )
              ]
            ]
          ]
        ])

  -- `lvcs_add` on a buffer that has its `size` bytes returns the code of the model, on every branch,
  -- and leaves what the model leaves.
  pub add_refines :
      (name data_in : Option (List ℕ)) (size : ℕ)
      → HasBytes data_in size
      → SameOutcome (add s name data_in size) (model_add (view s) name data_in size)
  unfolding add model_add
  add_refines none data_in size has = (refl, refl)
  add_refines (some []) data_in size has = (refl, refl)
  add_refines (some (c ∷ name)) data_in size has =
      rw (copy_name_lem c name, add)
        (elim (Bool-cases (leb max_name (length (c ∷ name)))) [
          | inl e ↦ rw e (refl, refl)
          | inr e ↦ rw e (add_named_refines (c ∷ name) data_in size has)
        ])

  pub commit_refines :
      (message : Option (List ℕ)) → SameOutcome (commit s message) (model_commit (view s))
  unfolding commit model_commit
  commit_refines message =
      rw (length-map (abs_file s.store) s.stage, length-map (abs_commit s.store) s.commits)
        (elim (Bool-cases (length s.stage == 0)) [
          | inl e ↦ rw e (refl, refl)
          | inr e ↦ elim (Bool-cases (leb max_commits (length s.commits))) [
            | inl e1 ↦ rw (e, e1) (refl, refl)
            | inr e1 ↦
                rw (e, e1)
                  (
                    ap ok (omega (arith, v.next)),
                    repo_eq refl refl
                        (map-append_one (abs_commit s.store) s.commits (staged_commit s message)),
                  )
          ]
        ])

  found_commit :
      (k : ℕ) (cs : List Commit) (id : ℕ)
      → Numbered k cs
      → find_commit cs id ≡ index_of k (length cs) id
  unfolding find_commit
  found_commit k [] id h = ground arith
  found_commit k (c ∷ cs) id h = elim (Bool-cases (c.id == id)) [
    | inl e ↦
        let at : k ≡ id = omega (tests, e, h.0) in
        rw e (sym (rw at (index_of-first id (length cs))))
    | inr e ↦
        let ne : k ≢ id = omega (tests, e, h.0) in
        rw (e, found_commit (suc k) cs id h.1) (index_of-later k (length cs) id ne)
  ]

  checkout_named_refines :
      (i : ℕ) (name : List ℕ) (n : ℕ)
      → checkout_named s i name n
        ≡ handed_out (newest (map (abs_commit s.store) s.commits) (i + 1) name) n
  unfolding checkout_named
  checkout_named_refines i name n =
      rw (newest-search_back s.store name s.commits (i + 1))
        (elim (Option-cases (search_back s.commits (i + 1) name)) [
          | inl e ↦ rw (e, checkout_named) refl
          | inr (f, e) ↦
              rw
                (
                  e,
                  length-blob s.store f
                      (search_back-Inside s.store s.commits (i + 1) name f v.committed e),
                  checkout_named,
                )
                refl
        ])

  checkout_found_refines :
      (i : ℕ) (name : Option (List ℕ)) (cap : Option ℕ)
      → checkout_found s i name cap ≡ model_checkout_found (view s) (i + 1) name cap
  unfolding checkout_found model_checkout_found
  checkout_found_refines i (some (c ∷ name)) (some n) = checkout_named_refines i (c ∷ name) n
  checkout_found_refines i (some (c ∷ name)) none = refl
  checkout_found_refines i (some []) cap = refl
  checkout_found_refines i none cap = refl

  -- `lvcs_checkout` answers as the model does, on every branch.
  pub checkout_refines :
      (id : ℕ) (name : Option (List ℕ)) (cap : Option ℕ)
      → checkout s id name cap ≡ model_checkout (view s) id name cap
  unfolding checkout model_checkout
  checkout_refines id name cap =
      rw (length-map (abs_commit s.store) s.commits, model_checkout)
        (elim (Bool-cases (id == 0 || ltb (length s.commits) id)) [
          | inl e ↦
              rw
                (
                  e,
                  found_commit 1 s.commits id v.numbered ∙ index_of_outside (length s.commits) id e,
                  checkout,
                )
                refl
          | inr e ↦
              rw
                (
                  e,
                  found_commit 1 s.commits id v.numbered ∙ index_of_within (length s.commits) id e,
                  checkout,
                )
                (checkout_found_refines (id - 1) name cap
                  ∙ ap (λ i. model_checkout_found (view s) i name cap)
                      (within_pos (length s.commits) id e))
        ])
