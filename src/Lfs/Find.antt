-- ===== src/Lfs/Find.antt =====
-- What a lookup of os/kernel/lfs.c finds in a version 2 image that was written for a list of files.
use lardos.Lfs.{
  lfs_range_in_image, record_v2, named_record, lfs_name_match, extents_loop, lookup_v2_loop,
  lfs_lookup, lfs_lookup_v2, Volume,
}
use lardos.Base.Int.{pos}
use lardos.Lfs.{lfs_mount}
use lardos.Lfs.Reads.{Outcome, ok, fail, ◌>>=◌, read}
use lardos.Lfs.Numbers.{enc_varu, enc_varu_long}
use lardos.Base.{
  ℕ, ◌+◌, ◌<◌, ◌≡◌, inl, inr, refl, false, List, [], ◌∷◌, ◌++◌, arith, if◌then◌else◌, length, All,
  drop, Bool-cases, none, some, Option, length-append, ◌-◌, ltb, zero, suc, lt→ltb,
}
use lardos.Lfs.Directory.{
  Entry, entry_bytes, directory, same, find, IsEntry, IsString, drop_past, name_match_loop-same,
  number,
}

module _ (image : List ℕ) (s : List ℕ) (str : IsString s) where
  name : List ℕ
  name = s ++ 0 ∷ []

  -- what a round returns for a file
  abbrev round : Entry → ℕ → Outcome (Option (ℕ × ℕ) × ℕ)
  round e off =
      if same s e.name
      then (if lfs_range_in_image (length image) e.start e.count
          then ok (some (e.start, e.count), off)
          else fail)
      else ok (none, off)

  record_v2-entry :
      (e : Entry) (rest : List ℕ) (off : ℕ)
      → IsEntry e
      → drop off image ≡ entry_bytes e rest
      → (off' : ℕ) × (record_v2 name image (length image) off ≡ round e off')
        × (drop off' image ≡ rest)
  unfolding record_v2 named_record lfs_name_match extents_loop name
  record_v2-entry e rest off (len32, start32, count32) there =
      let tag = number image _ off 1 (omega arith) there in
      let nlen = number image _ _ (length e.name) len32 tag.behind in
      let at_count = drop_past image e.name _ _ nlen.behind in
      let extents = number image _ _ 1 (omega arith) at_count in
      let start = number image _ _ e.start start32 extents.behind in
      let count = number image rest _ e.count count32 start.behind in
      let at = off + length (enc_varu 1) + length (enc_varu (length e.name)) in
      let at_0 : at + 0 ≡ at = omega arith in
      let matched =
        name_match_loop-same s e.name name image
          (enc_varu 1 ++ (enc_varu e.start ++ (enc_varu e.count ++ rest))) at 0 str refl
          (rw at_0 nlen.behind) in
      let fits : ltb (length image - at) (length e.name) ≡ false = ground (arith, extents.inside) in
      let in_range = lfs_range_in_image (length image) e.start e.count in
      (
        at
            + length e.name
            + length (enc_varu 1)
            + length (enc_varu e.start)
            + length (enc_varu e.count),
        elim (Bool-cases (same s e.name)) [
          | inr differ ↦
              rw
                (
                  tag.word, ◌>>=◌, nlen.word, fits, matched, extents.word, start.whole, count.whole,
                  differ, differ,
                )
                refl
          | inl equal ↦ elim (Bool-cases in_range) [
            | inl r ↦
                rw
                  (
                    tag.word, ◌>>=◌, nlen.word, fits, matched, extents.word, start.whole,
                    count.whole, equal, r,
                  )
                  refl
            | inr r ↦
                rw
                  (
                    tag.word, ◌>>=◌, nlen.word, fits, matched, extents.word, start.whole,
                    count.whole, equal, r, equal,
                  )
                  refl
          ]
        ],
        count.behind,
      )

  end_record :
      (rest : List ℕ) (off : ℕ)
      → drop off image ≡ enc_varu 0 ++ rest
      → (record_v2 name image (length image) off ≡ fail) × (off < length image)
  unfolding record_v2
  end_record rest off there =
      let tag = number image rest off 0 (omega arith) there in
      (rw tag.word refl, omega (arith, tag.inside, enc_varu_long 0))

  lookup_v2_loop-find :
      (es : List Entry) (rest : List ℕ) (off fuel : ℕ)
      → All IsEntry es
      → drop off image ≡ directory es rest
      → length es < fuel
      → lookup_v2_loop fuel name image (length image) off ≡ find (length image) s es
  unfolding lookup_v2_loop
  lookup_v2_loop-find es rest off zero all there enough = absurd (omega arith)
  lookup_v2_loop-find [] rest off (suc fuel) all there enough =
      let (ends, inside) = end_record rest off there in
      rw (lt→ltb off (length image) inside, lookup_v2_loop, ends) refl
  lookup_v2_loop-find (e ∷ es) rest off (suc fuel) all there enough =
      let tag = number image _ off 1 (omega arith) there in
      let inside : off < length image = omega (arith, tag.inside, enc_varu_long 1) in
      let (off', step, behind) = record_v2-entry e (directory es rest) off all.0 there in
      let again = lookup_v2_loop-find es rest off' fuel all.1 behind (omega arith) in
      elim (Bool-cases (same s e.name)) [
        | inr differ ↦
            rw (lt→ltb off (length image) inside, lookup_v2_loop, step, differ, ◌>>=◌) again
        | inl equal ↦ elim (Bool-cases (lfs_range_in_image (length image) e.start e.count)) [
          | inl r ↦
              rw (lt→ltb off (length image) inside, lookup_v2_loop, step, equal, r, ◌>>=◌) refl
          | inr r ↦
              rw (lt→ltb off (length image) inside, lookup_v2_loop, step, equal, r, ◌>>=◌) refl
        ]
      ]

-- an image of version 2: the head, the records and what stands behind them
abbrev pub volume_bytes : List Entry → List ℕ → List ℕ
volume_bytes es rest = b'L' ∷ b'F' ∷ b'S' ∷ 0 ∷ 2 ∷ 0 ∷ 0 ∷ 0 ∷ directory es rest

length-directory : (es : List Entry) (rest : List ℕ) → length es < length (directory es rest)
length-directory [] rest = omega (arith, length-append (enc_varu 0) rest, enc_varu_long 0)
length-directory (e ∷ es) rest =
    let behind = directory es rest in
    let counts = enc_varu e.count ++ behind in
    let starts = enc_varu e.start ++ counts in
    let extents = enc_varu 1 ++ starts in
    let names = e.name ++ extents in
    let sizes = enc_varu (length e.name) ++ names in
    omega (
      arith,
      length-directory es rest,
      enc_varu_long 1,
      length-append (enc_varu 1) sizes,
      length-append (enc_varu (length e.name)) names,
      length-append e.name extents,
      length-append (enc_varu 1) starts,
      length-append (enc_varu e.start) counts,
      length-append (enc_varu e.count) behind,
    )

-- An image that holds the records of some files is mounted, and a lookup then finds the first file of
-- that name: its offset and size if its data lie in the image, and nothing otherwise.
pub lfs_lookup-find :
    (s : Volume) (wanted rest : List ℕ) (es : List Entry)
    → IsString wanted
    → All IsEntry es
    → (s' : Volume) × (lfs_mount s (some (volume_bytes es rest)) (length (volume_bytes es rest))
        ≡ ok (s', pos 0))
      × (lfs_lookup s' (some (wanted ++ 0 ∷ [])) ≡ find (length (volume_bytes es rest)) wanted es)
unfolding lfs_mount lfs_lookup lfs_lookup_v2 read name
lfs_lookup-find s wanted rest es str all =
    let image = volume_bytes es rest in
    let size = length image in
    let long : ltb size 8 ≡ false = ground arith in
    (
      record { image = some image; size = size; version = 2 },
      rw long refl,
      lookup_v2_loop-find image wanted str es rest 8 (suc size) all refl
          (omega (arith, length-directory es rest)),
    )
