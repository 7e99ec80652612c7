-- ===== src/Lfs/Directory.antt =====
-- A version 2 image of os/kernel/lfs.c as the records of a list of files, and how its parts are read:
-- a number at an offset, a name at an offset.
use lardos.Lfs.{lfs_range_in_image, name_match_loop, rd_word, lfs_rd_varu}
use lardos.Lfs.Reads.{Outcome, ok, fail, ◌>>=◌}
use lardos.Lfs.Numbers.{enc_varu, rd_varu-enc_varu, read-drop, enc_varu_long}
use lardos.Base.{
  ℕ, ◌+◌, ◌≤◌, ◌<◌, ◌≡◌, inl, inr, refl, ◌∙◌, ◌&&◌, Bool, true, false, List, [], ◌∷◌, ◌++◌, arith,
  ◌==◌, if◌then◌else◌, length, All, drop, drop_add, Bool-cases, drop-append, ap, sym, length-drop,
  length-append,
}
use lardos.Base.Words.{IsU32}

-- a file of one extent
pub record Entry : Type 0 where
  pub name : List ℕ
  pub start : ℕ
  pub count : ℕ

-- the record of a file, and what stands behind it
abbrev pub entry_bytes : Entry → List ℕ → List ℕ
entry_bytes e rest =
    enc_varu 1
    ++ (enc_varu (length e.name)
        ++ (e.name ++ (enc_varu 1 ++ (enc_varu e.start ++ (enc_varu e.count ++ rest)))))

-- the records of the files and the end tag, and what stands behind them
abbrev pub directory : List Entry → List ℕ → List ℕ
directory [] rest = enc_varu 0 ++ rest
directory (e ∷ es) rest = entry_bytes e (directory es rest)

abbrev pub same : List ℕ → List ℕ → Bool
same [] [] = true
same [] (y ∷ ys) = false
same (x ∷ xs) [] = false
same (x ∷ xs) (y ∷ ys) = x == y && same xs ys

-- the first file of that name, if its data lie in an image of `size` bytes
abbrev pub find : ℕ → List ℕ → List Entry → Outcome (ℕ × ℕ)
find size s [] = fail
find size s (e ∷ es) =
    if same s e.name
    then (if lfs_range_in_image size e.start e.count then ok (e.start, e.count) else fail)
    else find size s es

abbrev pub IsEntry : Entry → Type 0
IsEntry e = IsU32 (length e.name) × IsU32 e.start × IsU32 e.count

abbrev pub IsString : List ℕ → Type 0
IsString s = All (λ b. 0 < b) s

pub drop_past :
    (image front back : List ℕ) (off : ℕ)
    → drop off image ≡ front ++ back
    → drop (off + length front) image ≡ back
drop_past image front back off e = drop_add off (length front) image ∙ rw e (drop-append front back)

-- Comparing the rest of a string with the rest of a name.
pub name_match_loop-same :
    (s entry name image rest : List ℕ) (start i : ℕ)
    → IsString s
    → drop i name ≡ s ++ 0 ∷ []
    → drop (start + i) image ≡ entry ++ rest
    → name_match_loop name image start i (length entry) ≡ ok (same s entry)
unfolding name_match_loop
name_match_loop-same [] [] name image rest start i str here there =
    rw (read-drop name i 0 [] here).0 refl
name_match_loop-same (x ∷ s) [] name image rest start i str here there =
    let more : (x == 0) ≡ false = ground arith in
    rw ((read-drop name i x (s ++ 0 ∷ []) here).0, ◌>>=◌, more) refl
name_match_loop-same [] (y ∷ entry) name image rest start i str here there =
    rw ((read-drop name i 0 [] here).0, (read-drop image (start + i) y (entry ++ rest) there).0)
      refl
name_match_loop-same (x ∷ s) (y ∷ entry) name image rest start i str here there =
    let (c_read, c_next, c_in) = read-drop name i x (s ++ 0 ∷ []) here in
    let (e_read, e_next, e_in) = read-drop image (start + i) y (entry ++ rest) there in
    let more : (x == 0) ≡ false = ground (arith, str.0) in
    let along : start + i + 1 ≡ start + (i + 1) = omega arith in
    elim (Bool-cases (x == y)) [
      | inl equal ↦
          rw (c_read, e_read, ◌>>=◌, more, equal)
            (name_match_loop-same s entry name image rest start (i + 1) str.1 c_next
              (ap (λ (k : ℕ). drop k image) (sym along) ∙ e_next))
      | inr differ ↦ rw (c_read, e_read, ◌>>=◌, more, differ) refl
    ]

module _ (image : List ℕ) where
  pub drop_inside :
      (front back : List ℕ) (off : ℕ)
      → drop off image ≡ front ++ back
      → 0 < length front
      → off + length front ≤ length image
  drop_inside front back off e some_bytes =
      omega (arith, length-drop off image, ap (length {A = ℕ}) e, length-append front back)

  -- a number at an offset: how it is read, and what stands behind it
  pub record Number (rest : List ℕ) (off v : ℕ) : Type 0 where
    pub whole :
        lfs_rd_varu image (length image) off
        ≡ ok (record { value = v; overflow = false }, off + length (enc_varu v))
    pub word : rd_word image (length image) off ≡ ok (v, off + length (enc_varu v))
    pub behind : drop (off + length (enc_varu v)) image ≡ rest
    pub inside : off + length (enc_varu v) ≤ length image

  pub number :
      (rest : List ℕ) (off v : ℕ)
      → IsU32 v
      → drop off image ≡ enc_varu v ++ rest
      → Number rest off v
  unfolding rd_word
  number rest off v small there =
      let bound = drop_inside (enc_varu v) rest off there (enc_varu_long v) in
      let read_it = rd_varu-enc_varu image rest (length image) off v small there bound in
      record {
        whole = read_it;
        word = rw read_it refl;
        behind = drop_past image (enc_varu v) rest off there;
        inside = bound;
      }
