-- ===== src/Lvcs/Valid.antt =====
-- The invariant of os/kernel/lvcs.c: every file reference points into the used part of the store,
-- the arrays fit, and the commits are numbered from 1.
use lardos.Base.{
  ℕ, suc, ◌+◌, ◌-◌, ◌≤◌, ◌<◌, ◌≡◌, inl, inr, refl, ◌&&◌, false, none, some, Option, List, [], ◌∷◌,
  ◌++◌, arith, ◌==◌, length, not, Bool-cases, All, Option-cases, length-append, All-append, leb,
  tests, ltb, set-All, length-set, length-take, Bool, true, sym, leb→lt,
}
use lardos.Lvcs.{
  FileRef, Commit, State, init, is_null, store_blob, put_file, add_named, add, commit, store_cap,
  is_new, max_stage, bytes_of, find_file, copy_name, max_commits, max_file_size, max_name,
  staged_commit,
}
use lardos.Base.Int.{ℤ, error, ok, neg}

abbrev pub Inside : List ℕ → FileRef → Type 0
Inside store f = f.offset + f.size ≤ length store

abbrev pub Numbered : ℕ → List Commit → Type 0
Numbered k [] = Unit
Numbered k (c ∷ cs) = (c.id ≡ k) × Numbered (suc k) cs

pub record IsValid (s : State) : Type 0 where
  pub fits : length s.store ≤ store_cap
  pub staged : All (Inside s.store) s.stage
  pub stage_fits : length s.stage ≤ max_stage
  pub committed : All (λ (c : Commit). All (Inside s.store) c.files) s.commits
  pub commits_fit : length s.commits ≤ max_commits
  pub numbered : Numbered 1 s.commits
  pub next : s.next_id ≡ suc (length s.commits)

pub init-IsValid : IsValid init
init-IsValid = record {
  fits = omega arith;
  staged = tt;
  stage_fits = omega arith;
  committed = tt;
  commits_fit = omega arith;
  numbered = tt;
  next = refl;
}

-- the caller's buffer has the bytes that it promises
abbrev pub HasBytes : Option (List ℕ) → ℕ → Type 0
HasBytes none size = Unit
HasBytes (some bytes) size = size ≤ length bytes

negated_false : (b : Bool) → not b ≡ false → b ≡ true
negated_false true h = refl
negated_false false h = sym h

pub length-bytes_of :
    (data_in : Option (List ℕ)) (size : ℕ)
    → HasBytes data_in size
    → (is_null data_in && not (size == 0)) ≡ false
    → length (bytes_of data_in size) ≡ size
length-bytes_of none size h null_ok = let e = negated_false (size == 0) null_ok in omega (tests, e)
length-bytes_of (some bytes) size h null_ok = omega (arith, length-take size bytes)

-- What `store_blob` answers when it has room.
pub data Stored (store : List ℕ) (data_in : Option (List ℕ)) (size : ℕ) : Type 0 where
  refuses : (r : ℤ) → store_blob store data_in size ≡ error r → Stored store data_in size
  stores :
      store_blob store data_in size ≡ ok (length store, store ++ bytes_of data_in size)
      → (is_null data_in && not (size == 0)) ≡ false
      → size ≤ max_file_size
      → size ≤ store_cap - length store
      → Stored store data_in size

pub store_cases :
    (store : List ℕ) (data_in : Option (List ℕ)) (size : ℕ) → Stored store data_in size
unfolding store_blob
store_cases store data_in size = elim (Bool-cases (is_null data_in && not (size == 0))) [
  | inl e ↦ refuses (neg 1) (rw e refl)
  | inr e ↦ elim (Bool-cases (ltb max_file_size size)) [
    | inl e1 ↦ refuses (neg 2) (rw (e, e1) refl)
    | inr e1 ↦ elim (Bool-cases (ltb (store_cap - length store) size)) [
      | inl e2 ↦ refuses (neg 3) (rw (e, e1, e2) refl)
      | inr e2 ↦ stores (rw (e, e1, e2) refl) e (omega (tests, e1)) (omega (tests, e2))
    ]
  ]
]

-- Appending to the store keeps the references inside.
Inside-append :
    (store more : List ℕ) (fs : List FileRef)
    → All (Inside store) fs
    → All (Inside (store ++ more)) fs
Inside-append store more [] h = tt
Inside-append store more (f ∷ fs) h =
    (omega (arith, h.0, length-append store more), Inside-append store more fs h.1)

commits-append :
    (store more : List ℕ) (cs : List Commit)
    → All (λ (c : Commit). All (Inside store) c.files) cs
    → All (λ (c : Commit). All (Inside (store ++ more)) c.files) cs
commits-append store more [] h = tt
commits-append store more (c ∷ cs) h =
    (Inside-append store more c.files h.0, commits-append store more cs h.1)

put_file-Inside :
    (store : List ℕ) (fs : List FileRef) (slot : Option ℕ) (f : FileRef)
    → All (Inside store) fs
    → Inside store f
    → All (Inside store) (put_file fs slot f)
unfolding put_file
put_file-Inside store fs none f h hf = All-append _ fs (f ∷ []) h (hf, tt)
put_file-Inside store fs (some i) f h hf = set-All _ fs i f h hf

length-put_file :
    (fs : List FileRef) (slot : Option ℕ) (f : FileRef)
    → (is_new slot && leb max_stage (length fs)) ≡ false
    → length fs ≤ max_stage
    → length (put_file fs slot f) ≤ max_stage
unfolding put_file
length-put_file fs none f room h =
    let few = leb→lt max_stage (length fs) room in omega (arith, few, length-append fs (f ∷ []))
length-put_file fs (some i) f room h = omega (arith, length-set fs i f)

add_named-IsValid :
    (s : State) (clean : List ℕ) (data_in : Option (List ℕ)) (size : ℕ)
    → HasBytes data_in size
    → IsValid s
    → IsValid (add_named s clean data_in size).1
unfolding add_named
add_named-IsValid s clean data_in size has v =
    elim (Bool-cases (is_new (find_file s.stage clean) && leb max_stage (length s.stage))) [
      | inl e ↦ rw e v
      | inr e ↦ elim (store_cases s.store data_in size) [
        | refuses r e1 ↦ rw (e, e1) v
        | stores e1 some_data small room ↦
            let n : length (s.store ++ bytes_of data_in size) ≡ length s.store + size = omega (
              arith,
              length-append s.store (bytes_of data_in size),
              length-bytes_of data_in size has some_data,
            ) in
            rw (e, e1)
              record {
                fits = omega (arith, n, v.fits);
                staged =
                    put_file-Inside _ s.stage _ _ (Inside-append s.store _ s.stage v.staged)
                      (omega (arith, n));
                stage_fits = length-put_file s.stage _ _ e v.stage_fits;
                committed = commits-append s.store _ s.commits v.committed;
                commits_fit = v.commits_fit;
                numbered = v.numbered;
                next = v.next;
              }
      ]
    ]

pub add-IsValid :
    (s : State) (name data_in : Option (List ℕ)) (size : ℕ)
    → HasBytes data_in size
    → IsValid s
    → IsValid (add s name data_in size).1
unfolding add
add-IsValid s none data_in size has v = v
add-IsValid s (some []) data_in size has v = v
add-IsValid s (some (c ∷ name)) data_in size has v =
    elim (Option-cases (copy_name max_name (c ∷ name))) [
      | inl e ↦ rw (e, add) v
      | inr (clean, e) ↦ rw (e, add) (add_named-IsValid s clean data_in size has v)
    ]

Numbered-append :
    (k : ℕ) (cs : List Commit) (c : Commit)
    → Numbered k cs
    → c.id ≡ k + length cs
    → Numbered k (cs ++ (c ∷ []))
Numbered-append k [] c h e = (omega (arith, e), tt)
Numbered-append k (c' ∷ cs) c h e = (h.0, Numbered-append (suc k) cs c h.1 (omega (arith, e)))

pub commit-IsValid :
    (s : State) (message : Option (List ℕ)) → IsValid s → IsValid (commit s message).1
unfolding commit
commit-IsValid s message v = elim (Bool-cases (length s.stage == 0)) [
  | inl e ↦ rw e v
  | inr e ↦ elim (Bool-cases (leb max_commits (length s.commits))) [
    | inl e1 ↦ rw (e, e1) v
    | inr e1 ↦
        let n = length-append s.commits (staged_commit s message ∷ []) in
        let few : length s.commits < max_commits = leb→lt max_commits (length s.commits) e1 in
        rw (e, e1)
          record {
            fits = v.fits;
            staged = tt;
            stage_fits = omega arith;
            committed = All-append _ s.commits _ v.committed (v.staged, tt);
            commits_fit = omega (arith, n, few);
            numbered = Numbered-append 1 s.commits _ v.numbered (omega (arith, v.next));
            next = omega (arith, n, few, v.next);
          }
  ]
]
