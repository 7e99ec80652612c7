-- ===== src/Lfs/Tests.antt =====
-- Runs of os/kernel/lfs.c, and its theorems at concrete images.
use lardos.Lfs.{
  Volume, lfs_mount, lfs_lookup, lfs_lookup_v1, lookup_v1_loop, lfs_rd_varu, entry_v1, named_entry,
  match_v1, same_name, rd_word, varu_loop, add_chunk,
}
use lardos.Lfs.Reads.{ok, fault, read}
use lardos.Lfs.Find.{lfs_lookup-find, volume_bytes}
use lardos.Lfs.Mounted.{lfs_lookup_inside}
use lardos.Lfs.Numbers.{enc_varu, enc_loop}
use lardos.Base.Int.{pos}
use lardos.Base.Text.{codes}
use lardos.Base.{ℕ, ◌+◌, ◌≤◌, ◌≡◌, ◌≢◌, inl, refl, none, some, List, [], ◌∷◌, ◌++◌, arith, length}
use lardos.Lfs.Listing.{lfs_list, list_v2_loop, list_record, read_name, sizes_loop, add_size}
use lardos.Lfs.Directory.{Entry, find}

abbrev unmounted : Volume
unmounted = record { image = none; size = 0; version = 0 }

abbrev files : List Entry
files =
    record { name = codes "a.txt"; start = 4; count = 3 }
    ∷ record { name = codes "huge"; start = 1; count = 300 }
    ∷ []

abbrev sample : List ℕ
sample = 7 ∷ 7 ∷ 7 ∷ []

-- the image of the files, written out
abbrev image : List ℕ
image =
    b'L' ∷ b'F' ∷ b'S' ∷ 0 ∷ 2 ∷ 0 ∷ 0 ∷ 0 ∷ 1 ∷ 5 ∷ b'a' ∷ b'.' ∷ b't' ∷ b'x' ∷ b't' ∷ 1 ∷ 4 ∷ 3
    ∷ 1 ∷ 4 ∷ b'h' ∷ b'u' ∷ b'g' ∷ b'e' ∷ 1 ∷ 1 ∷ 172 ∷ 2 ∷ 0 ∷ 7 ∷ 7 ∷ 7 ∷ []

written : volume_bytes files sample ≡ image
unfolding enc_varu enc_loop
written = refl

-- A version 1 entry whose name has a NUL inside: the comparison runs past the end of the string.
over_read :
    lfs_lookup_v1
      (b'a' ∷ 0 ∷ [])
      (b'L' ∷ b'F' ∷ b'S' ∷ 0 ∷ 1 ∷ 0 ∷ 0 ∷ 0 ∷ 1 ∷ 0 ∷ 3 ∷ b'a' ∷ 0 ∷ b'b' ∷ 0 ∷ 0 ∷ 0 ∷ 0 ∷ 1 ∷ 0
        ∷ 0 ∷ 0 ∷ [])
      22
    ≡ fault
unfolding lfs_lookup_v1 lookup_v1_loop entry_v1 named_entry match_v1 same_name read
over_read = refl

two_bytes : 1 + length (enc_varu 300) ≤ 4
unfolding enc_varu enc_loop
two_bytes = omega arith

abbrev volume : Volume
volume = record { image = some image; size = 32; version = 2 }

listed : lfs_list volume ≡ ok ((codes "a.txt", 3) ∷ (codes "huge", 300) ∷ [])
unfolding lfs_list list_v2_loop list_record rd_word lfs_rd_varu varu_loop add_chunk read read_name
    sizes_loop add_size
listed = refl

lfs_lookup-find_example :
    (s' : Volume) × (lfs_mount unmounted
        (some (volume_bytes files sample))
        (length (volume_bytes files sample))
      ≡ ok (s', pos 0))
    × (lfs_lookup s' (some (codes "a.txt" ++ 0 ∷ []))
        ≡ find (length (volume_bytes files sample)) (codes "a.txt") files)
lfs_lookup-find_example =
    lfs_lookup-find unmounted (codes "a.txt") sample files (omega arith) (omega arith)

mounts : lfs_mount unmounted (some image) 32 ≡ ok (volume, pos 0)
unfolding lfs_mount read
mounts = refl

lfs_lookup_inside_example :
    (lfs_lookup volume (some (codes "huge" ++ 0 ∷ [])) ≢ fault)
    × ((off count : ℕ)
        → lfs_lookup volume (some (codes "huge" ++ 0 ∷ [])) ≡ ok (off, count)
        → off + count ≤ 32)
lfs_lookup_inside_example =
    lfs_lookup_inside unmounted volume image (codes "huge" ++ 0 ∷ []) 32 4 (omega arith)
      (omega arith) mounts (inl (refl, (omega arith, refl)))
