-- ===== src/Lfs/Mounted.antt =====
-- The calls of os/kernel/lfs.c on a mounted volume: version 1 and the two versions together.
use lardos.Base.Int.{pos}
use lardos.Lfs.{
  Volume, lfs_mount, lookup_v1_loop, same_name, match_v1, read_u32, named_entry, entry_v1, Volume,
  lfs_lookup, lfs_lookup_v1, fault, lfs_lookup_v2, ok, lfs_range_in_image,
}
use lardos.Lfs.Reads.{
  Ends-ne-fault, Ends-ok, Ends, Ends->>=, read-Ends, read, Ends-guard, Ends-weaken, Ends-ne-fault,
  Ends-ok,
}
use lardos.Lfs.Inside.{InImage, Found, HasNul, found_file, lookup_v2_loop-Ends}
use lardos.Base.{
  ℕ, zero, suc, ◌+◌, ◌^◌, ◌≤◌, ◌<◌, ◌≡◌, inl, inr, some, List, [], ◌∷◌, arith, ◌==◌, All, length,
  Bool-cases, get_elem?, not, ltb, ◌≢◌, ◌⊎◌, Option, Option-cases, ◌*◌, false, bit_or,
}
use lardos.Base.Words.{IsByte, u32}

get_elem?-IsByte :
    (image : List ℕ) (i b : ℕ) → All IsByte image → get_elem? image i ≡ some b → b < 256
get_elem?-IsByte [] i b all e = cc
get_elem?-IsByte (x ∷ xs) zero b all e = ground (arith, all.0)
get_elem?-IsByte (x ∷ xs) (suc i) b all e = get_elem?-IsByte xs i b all.1 e

read_u32-Ends :
    (image : List ℕ) (off : ℕ) → off + 4 ≤ length image → Ends (read_u32 image off) (λ _. Unit {0})
read_u32-Ends image off h =
    Ends->>= (read image off) _ _ (λ _. Unit {0}) (read-Ends image off (omega arith))
      λ b0 e0.
        Ends->>= (read image (off + 1)) _ _ (λ _. Unit {0})
          (read-Ends image (off + 1) (omega arith))
          λ b1 e1.
            Ends->>= (read image (off + 2)) _ _ (λ _. Unit {0})
              (read-Ends image (off + 2) (omega arith))
              λ b2 e2.
                Ends->>= (read image (off + 3)) _ _ (λ _. Unit {0})
                  (read-Ends image (off + 3) (omega arith)) λ b3 e3. tt

module _ (image name : List ℕ) where
  same_name-Ends :
      (start j left : ℕ)
      → j + left ≤ length name
      → start + j + left ≤ length image
      → Ends (same_name name image start j left) (λ _. Unit {0})
  unfolding same_name
  same_name-Ends start j zero hn hi = tt
  same_name-Ends start j (suc left) hn hi =
      Ends->>= (read name j) _ _ (λ _. Unit {0}) (read-Ends name j (omega arith))
        λ c e.
          Ends->>= (read image (start + j)) _ _ (λ _. Unit {0})
            (read-Ends image (start + j) (omega arith))
            λ b f. elim (Bool-cases (not (c == b))) [
              | inl differs ↦ rw differs tt
              | inr same ↦ rw same (same_name-Ends start (j + 1) left (omega arith) (omega arith))
            ]

  match_v1-Ends :
      (start nlen : ℕ)
      → nlen < length name
      → start + nlen ≤ length image
      → Ends (match_v1 name image start nlen) (λ _. Unit {0})
  unfolding match_v1
  match_v1-Ends start nlen hn hi =
      Ends->>= (same_name name image start 0 nlen) _ _ (λ _. Unit {0})
        (same_name-Ends start 0 nlen (omega arith) (omega arith))
        λ same e. elim (Bool-cases same) [
          | inr no_match ↦ rw no_match tt
          | inl matches ↦
              rw matches
                (Ends->>= (read name nlen) _ _ (λ _. Unit {0}) (read-Ends name nlen hn) λ c f. tt)
        ]

  module _ (size : ℕ) (within : size ≤ length image) (bytes : All IsByte image)
      (small : size + 300 < 2 ^ 32) (room : 256 ≤ length name) where
    named_entry-Ends :
        (nlen start : ℕ)
        → nlen < 256
        → start + nlen + 8 ≤ size
        → Ends (named_entry name image size nlen start) (Found start size)
    unfolding named_entry
    named_entry-Ends nlen start byte fits =
        Ends->>= (read_u32 image (start + nlen)) _ _ (Found start size)
          (read_u32-Ends image (start + nlen) (omega arith))
          λ data_off g.
            Ends->>= (read_u32 image (start + nlen + 4)) _ _ (Found start size)
              (read_u32-Ends image (start + nlen + 4) (omega arith))
              λ data_sz g'.
                Ends->>= (match_v1 name image start nlen) _ _ (Found start size)
                  (match_v1-Ends start nlen (omega arith) (omega arith))
                  λ found k. elim (Bool-cases found) [
                    | inr no_match ↦ rw no_match (omega arith)
                    | inl matches ↦ rw matches (
                        Ends-guard (not (lfs_range_in_image size data_off data_sz)) _
                          (Found start size) λ ranged. ground arith)
                  ]

    entry_v1-Ends :
        (off : ℕ) → off + 2 < size → Ends (entry_v1 name image size off) (Found off size)
    unfolding entry_v1
    entry_v1-Ends off h =
        Ends->>= (read image off) _ _ (Found off size) (read-Ends image off (omega arith)) λ nlen f.
          let byte : nlen < 256 = get_elem?-IsByte image off nlen bytes f in
          Ends-guard (ltb size (u32 (off + 1 + nlen + 8))) _ (Found off size) λ fits.
            Ends-weaken _ (Found (off + 1) size) (Found off size)
              (named_entry-Ends nlen (off + 1) byte (ground (arith, fits)))
              λ (r : Option (ℕ × ℕ) × ℕ) (t : Found (off + 1) size r). (t.0, omega arith, t.2)

    pub lookup_v1_loop-Ends :
        (left off : ℕ) → off ≤ size → Ends (lookup_v1_loop name image size left off) (InImage size)
    unfolding lookup_v1_loop
    lookup_v1_loop-Ends zero off h = tt
    lookup_v1_loop-Ends (suc left) off h = elim (Bool-cases (ltb (u32 (off + 2)) size)) [
      | inr e ↦ rw (e, Ends) tt
      | inl e ↦
          rw (e, lookup_v1_loop)
            (Ends->>= (entry_v1 name image size off) _ (Found off size) (InImage size)
              (entry_v1-Ends off (ground (arith, e)))
              λ (r : Option (ℕ × ℕ) × ℕ) (t : Found off size r). elim (Option-cases r.0) [
                | inl none_yet ↦ rw none_yet (lookup_v1_loop-Ends left r.1 t.2)
                | inr (file, found) ↦ rw found (found_file size r.0 file t.0 found)
              ])
    ]

-- A volume as `lfs_mount` leaves it: the image has the bytes that its size says.
pub record IsMounted (s : Volume) (image : List ℕ) : Type 0 where
  pub mounted : s.image ≡ some image
  pub within : s.size ≤ length image
  pub header : 8 ≤ s.size
  pub counted : s.version ≢ 2 → 10 ≤ s.size
  pub bytes : All IsByte image

-- the name that a lookup may get: any string in version 2, an array of 256 bytes in version 1
abbrev pub IsName : Volume → List ℕ → ℕ → Type 0
IsName s name nul =
    ((s.version ≡ 2) × HasNul name nul)
    ⊎ ((s.version ≢ 2) × (s.size + 300 < 2 ^ 32) × (256 ≤ length name))

lookup_Ends :
    (s : Volume) (image name : List ℕ) (nul : ℕ)
    → IsMounted s image
    → IsName s name nul
    → Ends (lfs_lookup s (some name)) (InImage s.size)
unfolding lfs_lookup lfs_lookup_v1 lfs_lookup_v2
lookup_Ends s image name nul v (inl (two, ended)) =
    rw (v.mounted, two)
      (lookup_v2_loop-Ends image s.size v.within name nul ended (suc s.size) 8 v.header
        (omega arith))
lookup_Ends s image name nul v (inr (not_two, small, room)) =
    let other : (s.version == 2) ≡ false = ground arith in
    let long : 10 ≤ s.size = v.counted not_two in
    let inside : 10 ≤ length image = omega (arith, v.within) in
    rw (v.mounted, other)
      (Ends->>= (read image 8) _ _ (InImage s.size) (read-Ends image 8 (omega arith)) λ c0 e0.
        Ends->>= (read image 9) _ _ (InImage s.size) (read-Ends image 9 (omega arith)) λ c1 e1.
          lookup_v1_loop-Ends image name s.size v.within v.bytes small room (bit_or c0 (c1 * 2 ^ 8))
            10 long)

-- Only an image with the magic number and version 1 or 2 is mounted.
mount-IsMounted :
    (s : Volume) (image : List ℕ) (size : ℕ)
    → size ≤ length image
    → All IsByte image
    → (s' : Volume) → lfs_mount s (some image) size ≡ ok (s', pos 0)
    → IsMounted s' image × (s'.size ≡ size)
unfolding lfs_mount
mount-IsMounted s image size within bytes s' e = ground arith

-- A lookup on a volume that was mounted from an image with the bytes that its size says reads nothing
-- outside the image or the name, and a file that it finds lies in the image: in version 2 for every
-- string, in version 1 for a name in an array of at least 256 bytes and an image whose size stays 300
-- below 2 ^ 32.
pub lfs_lookup_inside :
    (s s' : Volume) (image name : List ℕ) (size nul : ℕ)
    → size ≤ length image
    → All IsByte image
    → lfs_mount s (some image) size ≡ ok (s', pos 0)
    → IsName s' name nul
    → (lfs_lookup s' (some name) ≢ fault)
      × ((off count : ℕ) → lfs_lookup s' (some name) ≡ ok (off, count) → off + count ≤ size)
lfs_lookup_inside s s' image name size nul within bytes mounted allowed =
    let (v, same) = mount-IsMounted s image size within bytes s' mounted in
    let ends = lookup_Ends s' image name nul v allowed in
    (
      Ends-ne-fault _ (InImage s'.size) ends,
      λ off count e. omega (arith, Ends-ok _ (InImage s'.size) (off, count) ends e),
    )
