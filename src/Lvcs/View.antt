-- ===== src/Lvcs/View.antt =====
-- The files that the reference tables of os/kernel/lvcs.c stand for, and how the searches over the
-- tables read them.
use mathlib.Core.Option
use lardos.Base.{
  ℕ, zero, suc, ◌≡◌, inl, inr, refl, ◌∙◌, none, some, Option, List, [], ◌∷◌, ◌++◌, arith, length,
  All, map, drop_within, length-take, ap₂, drop-append, get_or, Bool-cases, take_within, drop,
  take_all, length-drop, ap, get_or-map, get_or-All, Option-cases, sym,
}
use lardos.Lvcs.{
  FileRef, Commit, State, put_file, find_file, search_back, blob, is_new, no_file, same, no_commit,
  or_else,
}
use lardos.Lvcs.Model.{lookup, newest, File, Files, Repo, is_none, put}
use lardos.Lvcs.Valid.{Inside}
use mathlib.Core.Option.{none-ne-some, some-injective}
use mathlib.Core.Path.{subst}

abbrev pub abs_file : List ℕ → FileRef → File
abs_file store f = (f.name, blob store f)

abbrev pub abs_files : List ℕ → List FileRef → Files
abs_files store fs = map (abs_file store) fs

abbrev pub abs_commit : List ℕ → Commit → Files
abs_commit store c = abs_files store c.files

abbrev pub view : State → Repo
view s = record {
  used = length s.store;
  staged = abs_files s.store s.stage;
  history = map (abs_commit s.store) s.commits;
}

pub blob-append :
    (store more : List ℕ) (f : FileRef) → Inside store f → blob (store ++ more) f ≡ blob store f
blob-append store more f h =
    rw
      (
        drop_within f.offset store more (omega arith),
        take_within f.size (drop f.offset store) more (omega (arith, length-drop f.offset store)),
      )
      refl

pub length-blob : (store : List ℕ) (f : FileRef) → Inside store f → length (blob store f) ≡ f.size
length-blob store f h =
    omega (arith, length-take f.size (drop f.offset store), length-drop f.offset store)

pub abs_files-append :
    (store more : List ℕ) (fs : List FileRef)
    → All (Inside store) fs
    → abs_files (store ++ more) fs ≡ abs_files store fs
abs_files-append store more [] h = refl
abs_files-append store more (f ∷ fs) h =
    ap₂ (λ b fs. (f.name, b) ∷ fs) (blob-append store more f h.0)
      (abs_files-append store more fs h.1)

pub history-append :
    (store more : List ℕ) (cs : List Commit)
    → All (λ (c : Commit). All (Inside store) c.files) cs
    → map (abs_commit (store ++ more)) cs ≡ map (abs_commit store) cs
history-append store more [] h = refl
history-append store more (c ∷ cs) h =
    ap₂ ◌∷◌ (abs_files-append store more c.files h.0) (history-append store more cs h.1)

pub blob_new :
    (store bytes name : List ℕ) (size h : ℕ)
    → length bytes ≡ size
    → blob (store ++ bytes) (record { name = name; offset = length store; size = size; hash = h })
      ≡ bytes
blob_new store bytes name size h e =
    rw (drop-append store bytes) (take_all bytes size (omega arith))

put_file-later :
    (g : FileRef) (fs : List FileRef) (o : Option ℕ) (f : FileRef)
    → put_file (g ∷ fs) (Option.map suc o) f ≡ g ∷ put_file fs o f
unfolding put_file
put_file-later g fs none f = refl
put_file-later g fs (some i) f = refl

put_file-here :
    (g : FileRef) (fs : List FileRef) (f : FileRef)
    → (put_file [] none f ≡ f ∷ []) × (put_file (g ∷ fs) (some 0) f ≡ f ∷ fs)
unfolding put_file
put_file-here g fs f = (refl, refl)

map-or_else {ℓ κ} :
    {A : Type ℓ} {B : Type κ} (f : A → B) (o older : Option A)
    → Option.map f (or_else o older) ≡ or_else (Option.map f o) (Option.map f older)
map-or_else f none older = refl
map-or_else f (some a) older = refl

module _ (store name : List ℕ) where
  pub lookup-abs_files :
      (fs : List FileRef)
      → lookup (abs_files store fs) name
        ≡ Option.map (λ i. blob store (get_or fs i no_file)) (find_file fs name)
  unfolding lookup find_file
  lookup-abs_files [] = refl
  lookup-abs_files (f ∷ fs) = elim (Bool-cases (same f.name name)) [
    | inl e ↦ rw e refl
    | inr e ↦ rw e (lookup-abs_files fs ∙ map_shift (find_file fs name))
  ]
    where
      map_shift :
          (o : Option ℕ)
          → Option.map (λ i. blob store (get_or fs i no_file)) o
            ≡ Option.map (λ i. blob store (get_or (f ∷ fs) i no_file)) (Option.map suc o)
      map_shift none = refl
      map_shift (some i) = refl

  pub is_new-find_file :
      (fs : List FileRef) → is_none (lookup (abs_files store fs) name) ≡ is_new (find_file fs name)
  is_new-find_file fs = rw (lookup-abs_files fs) (flag (find_file fs name))
    where
      flag :
          (o : Option ℕ) → is_none (Option.map (λ i. blob store (get_or fs i no_file)) o) ≡ is_new o
      flag none = refl
      flag (some i) = refl

  pub put_file-abs_files :
      (fs : List FileRef) (f : FileRef)
      → f.name ≡ name
      → abs_files store (put_file fs (find_file fs name) f)
        ≡ put (abs_files store fs) name (blob store f)
  unfolding find_file put
  put_file-abs_files [] f e = rw (put_file-here f [] f).0 (ap (λ n. (n, blob store f) ∷ []) e)
  put_file-abs_files (g ∷ fs) f e = elim (Bool-cases (same g.name name)) [
    | inl e1 ↦
        rw (e1, (put_file-here g fs f).1) (ap (λ n. (n, blob store f) ∷ abs_files store fs) e)
    | inr e1 ↦
        rw (e1, put_file-later g fs (find_file fs name) f)
          (ap (λ l. abs_file store g ∷ l) (put_file-abs_files fs f e))
  ]

  -- The search through the commits finds the file that the history has.
  pub newest-search_back :
      (cs : List Commit) (i : ℕ)
      → newest (map (abs_commit store) cs) i name ≡ Option.map (blob store) (search_back cs i name)
  unfolding newest search_back
  newest-search_back cs zero = refl
  newest-search_back cs (suc i) =
      let files = (get_or cs i no_commit).files in
      ap₂ or_else
        (ap (λ fs. lookup fs name) (get_or-map (abs_commit store) cs i no_commit)
          ∙ lookup-abs_files files
          ∙ sym (map_twice files (find_file files name)))
        (newest-search_back cs i)
      ∙ sym (map-or_else (blob store) _ (search_back cs i name))
    where
      map_twice :
          (files : List FileRef) (o : Option ℕ)
          → Option.map (blob store) (Option.map (λ j. get_or files j no_file) o)
            ≡ Option.map (λ j. blob store (get_or files j no_file)) o
      map_twice files none = refl
      map_twice files (some j) = refl

pub search_back-Inside :
    (store : List ℕ) (cs : List Commit) (i : ℕ) (name : List ℕ) (f : FileRef)
    → All (λ (c : Commit). All (Inside store) c.files) cs
    → search_back cs i name ≡ some f
    → Inside store f
unfolding search_back
search_back-Inside store cs zero name f h e = absurd (none-ne-some f e)
search_back-Inside store cs (suc i) name f h e =
    let files = (get_or cs i no_commit).files in
    let files_in : All (Inside store) files = get_or-All _ cs i no_commit h tt in
    elim (Option-cases (find_file files name)) [
      | inl none_here ↦ search_back-Inside store cs i name f h (
          sym (
            ap (λ o. or_else (Option.map (λ j. get_or files j no_file) o) (search_back cs i name))
              none_here)
          ∙ e)
      | inr (j, here) ↦
          subst (Inside store)
            (some-injective _ _ (
              sym (
                ap
                  (λ o.
                    or_else (Option.map (λ j. get_or files j no_file) o) (search_back cs i name))
                  here)
              ∙ e))
            (get_or-All _ files j no_file files_in (omega arith))
    ]
