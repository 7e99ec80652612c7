-- ===== src/Lfs/Inside.antt =====
-- os/kernel/lfs.c reads nothing outside the image, and what a lookup finds lies in it.
use lardos.Lfs.{
  varu_loop, add_chunk, lfs_rd_varu, rd_word, extents_loop, lfs_range_in_image, name_match_loop,
  record_v2, lfs_name_match, named_record, lookup_v2_loop,
}
use lardos.Lfs.Reads.{Ends, Ends->>=, read-Ends, read, Ends-weaken, Ends-guard}
use lardos.Base.{
  ℕ, zero, suc, ◌+◌, ◌≤◌, ◌<◌, ◌≡◌, inl, inr, Bool, none, some, Option, List, arith, ◌==◌, length,
  get_elem?, Bool-cases, bit_and, ◌-◌, ◌&&◌, ◌||◌, false, if◌then◌else◌, ltb, not, ◌≢◌,
  Option-cases,
}
use mathlib.Core.Path.{subst}

-- a string: a NUL stands somewhere in the array
abbrev pub HasNul : List ℕ → ℕ → Type 0
HasNul name k = (k < length name) × (get_elem? name k ≡ some 0)

-- the file that a lookup returns
abbrev pub InImage : ℕ → ℕ × ℕ → Type 0
InImage size (off, count) = off + count ≤ size

abbrev pub FoundInImage : ℕ → Option (ℕ × ℕ) → Type 0
FoundInImage size none = Unit {0}
FoundInImage size (some file) = InImage size file

-- what was read ends between `off` and `stop`
abbrev Behind {ℓ} : {A : Type ℓ} → ℕ → ℕ → A × ℕ → Type 0
Behind off stop r = (off < r.1) × (r.1 ≤ stop)

-- a file in the image, if any, and the next offset
abbrev pub Found : ℕ → ℕ → Option (ℕ × ℕ) × ℕ → Type 0
Found off size r = FoundInImage size r.0 × (off ≤ r.1) × (r.1 ≤ size)

abbrev Record : ℕ → ℕ → Option (ℕ × ℕ) × ℕ → Type 0
Record off size r = FoundInImage size r.0 × (off < r.1) × (r.1 ≤ size)

pub found_file :
    (size : ℕ) (o : Option (ℕ × ℕ)) (file : ℕ × ℕ)
    → FoundInImage size o
    → o ≡ some file
    → InImage size file
found_file size o file h e = subst (FoundInImage size) e h

module _ (image : List ℕ) where
  varu_loop-Ends :
      (left off value shift : ℕ) (overflow : Bool)
      → off + left ≤ length image
      → Ends (varu_loop image left off value shift overflow) (Behind off (off + left))
  unfolding varu_loop
  varu_loop-Ends zero off value shift overflow h = tt
  varu_loop-Ends (suc left) off value shift overflow h =
      Ends->>= (read image off) _ _ _ (read-Ends image off (omega arith)) λ b e.
        elim (Bool-cases (bit_and b 0x80 == 0)) [
          | inl last ↦ rw last (omega arith)
          | inr more ↦
              let v = add_chunk (bit_and b 0x7F) value shift overflow in
              rw more (
                Ends-weaken _ (Behind (off + 1) (off + 1 + left)) (Behind off (off + suc left))
                  (varu_loop-Ends left (off + 1) v.value (if ltb shift 32 then shift + 7 else shift)
                    (v.overflow || not (ltb shift 32)) (omega arith))
                  λ r q. omega arith)
        ]

  module _ (size : ℕ) (within : size ≤ length image) where
    rd_varu-Ends : (off : ℕ) → Ends (lfs_rd_varu image size off) (Behind off size)
    unfolding lfs_rd_varu varu_loop
    rd_varu-Ends off = elim (Bool-cases (ltb off size)) [
      | inl e ↦
          Ends-weaken _ (Behind off (off + (size - off))) (Behind off size)
            (varu_loop-Ends (size - off) off 0 0 false (ground arith)) λ r q. ground arith
      | inr e ↦ let none_left : size - off ≡ 0 = ground arith in rw (none_left, varu_loop) tt
    ]

    rd_word-Ends : (off : ℕ) → Ends (rd_word image size off) (Behind off size)
    unfolding rd_word
    rd_word-Ends off =
        Ends->>= (lfs_rd_varu image size off) _ _ _ (rd_varu-Ends off)
          λ r q. elim (Bool-cases r.0.overflow) [ inl e ↦ rw e tt | inr e ↦ rw e q ]

    extents_loop-Ends :
        (match : Bool) (count left off : ℕ)
        → off ≤ size
        → Ends (extents_loop image size match count left off) (Found off size)
    unfolding extents_loop
    extents_loop-Ends match count zero off h = omega arith
    extents_loop-Ends match count (suc left) off h =
        Ends->>= (lfs_rd_varu image size off) _ _ _ (rd_varu-Ends off) λ r q.
          Ends->>= (lfs_rd_varu image size r.1) _ _ _ (rd_varu-Ends r.1) λ r' q'.
            let taken =
              match
              && count == 1
              && not r.0.overflow
              && not r'.0.overflow
              && lfs_range_in_image size r.0.value r'.0.value in
            elim (Bool-cases taken) [
              | inl e ↦ rw e (ground arith)
              | inr e ↦ rw e (
                  Ends-weaken _ (Found r'.1 size) (Found off size)
                    (extents_loop-Ends match count left r'.1 (omega arith))
                    λ s t. (t.0, omega arith, omega arith))
            ]

    module _ (name : List ℕ) where
      module _ (nul : ℕ) (ended : HasNul name nul) where
        name_match_loop-Ends :
            (pos i left : ℕ)
            → i ≤ nul
            → pos + i + left ≤ size
            → Ends (name_match_loop name image pos i left) (λ _. Unit {0})
        unfolding name_match_loop
        name_match_loop-Ends pos i zero before h =
            Ends->>= (read name i) _ _ _ (read-Ends name i (omega arith)) λ c e. tt
        name_match_loop-Ends pos i (suc left) before h =
            Ends->>= (read name i) _ _ _ (read-Ends name i (omega arith)) λ c e.
              Ends->>= (read image (pos + i)) _ _ _ (read-Ends image (pos + i) (omega arith)) λ b f.
                elim (Bool-cases (c == 0 || not (c == b))) [
                  | inl done ↦ rw done tt
                  | inr more ↦
                      let not_yet : i ≢ nul = λ here. ground (arith, here) in
                      rw more (name_match_loop-Ends pos (i + 1) left (omega arith) (omega arith))
                ]

        named_record-Ends :
            (nlen start : ℕ)
            → start + nlen ≤ size
            → Ends (named_record name image size nlen start) (Record start size)
        unfolding named_record lfs_name_match
        named_record-Ends nlen start h =
            Ends->>= (lfs_name_match name image start nlen) _ (λ _. Unit {0}) (Record start size)
              (name_match_loop-Ends start 0 nlen (omega arith) (omega arith))
              λ (match : Bool) e.
                Ends->>= (rd_word image size (start + nlen)) _ (Behind (start + nlen) size)
                  (Record start size) (rd_word-Ends (start + nlen))
                  λ (count : ℕ × ℕ) (q : Behind (start + nlen) size count).
                    Ends->>= (extents_loop image size match count.0 count.0 count.1) _
                      (Found count.1 size) (Record start size)
                      (extents_loop-Ends match count.0 count.0 count.1 q.1)
                      λ (r : Option (ℕ × ℕ) × ℕ) (t : Found count.1 size r).
                        elim (Option-cases r.0) [
                          | inl e ↦ rw e (Ends-guard match _ (Record start size) λ f. omega arith)
                          | inr (file, e) ↦
                              rw e (found_file size r.0 file t.0 e, omega arith, omega arith)
                        ]

        record_v2-Ends : (off : ℕ) → Ends (record_v2 name image size off) (Record off size)
        unfolding record_v2
        record_v2-Ends off =
            Ends->>= _ _ _ (Record off size) (rd_word-Ends off)
              λ (tag : ℕ × ℕ) (q : Behind off size tag).
                Ends-guard (not (tag.0 == 1)) _ (Record off size) λ e.
                  Ends->>= _ _ _ (Record off size) (rd_word-Ends tag.1)
                    λ (nlen : ℕ × ℕ) (q1 : Behind tag.1 size nlen).
                      Ends-guard (ltb (size - nlen.1) nlen.0) _ (Record off size) λ f.
                        Ends-weaken _ (Record nlen.1 size) (Record off size)
                          (named_record-Ends nlen.0 nlen.1 (ground arith))
                          λ (r : Option (ℕ × ℕ) × ℕ) (t : Record nlen.1 size r).
                            (t.0, omega arith, omega arith)

        pub lookup_v2_loop-Ends :
            (fuel off : ℕ)
            → off ≤ size
            → size < off + fuel
            → Ends (lookup_v2_loop fuel name image size off) (InImage size)
        unfolding lookup_v2_loop
        lookup_v2_loop-Ends zero off le enough = absurd (omega arith)
        lookup_v2_loop-Ends (suc fuel) off le enough = elim (Bool-cases (ltb off size)) [
          | inr e ↦ rw (e, Ends) tt
          | inl e ↦
              rw (e, lookup_v2_loop)
                (Ends->>= (record_v2 name image size off) _ (Record off size) (InImage size)
                  (record_v2-Ends off)
                  λ (r : Option (ℕ × ℕ) × ℕ) (t : Record off size r). elim (Option-cases r.0) [
                    | inl none_yet ↦
                        rw none_yet (lookup_v2_loop-Ends fuel r.1 (omega arith) (omega arith))
                    | inr (file, found) ↦ rw found (found_file size r.0 file t.0 found)
                  ])
        ]
