-- ===== src/Lvcs.antt =====
-- os/kernel/lvcs.c and os/include/lvcs.h: the version control service. An array with its count,
-- `s_stage[0..s_stage_count)`, is the list of its live part; the code reads nothing behind it. So is
-- `s_store[0..s_store_used)`. A C string is the list of its characters before the NUL, and a pointer
-- that may be null is an option.
pub mod Valid
pub mod Model
pub mod View
pub mod Refine
pub mod History
pub mod Committed
mod Tests
use mathlib.Core.Option
use lardos.Base.{
  ℕ, zero, suc, ◌+◌, ◌-◌, ◌*◌, ◌&&◌, ◌||◌, Bool, true, false, none, some, Option, List, [], ◌∷◌,
  ◌++◌, ◌==◌, if◌then◌else◌, leb, take, set, bit_xor, get_or, length, not, drop, ltb,
}
use lardos.Base.Words.{u32}
use lardos.Base.Int.{Result, ℤ, neg, negsuc, error, ok, pos}

-- `LvcsFileRef`
pub record FileRef : Type 0 where
  pub name : List ℕ
  pub offset : ℕ
  pub size : ℕ
  pub hash : ℕ

-- `LvcsCommit`; `file_count` is the length of `files`
pub record Commit : Type 0 where
  pub id : ℕ
  pub parent : ℕ
  pub hash : ℕ
  pub message : List ℕ
  pub files : List FileRef

pub record State : Type 0 where
  pub store : List ℕ
  pub stage : List FileRef
  pub commits : List Commit
  pub next_id : ℕ

abbrev pub max_stage : ℕ
max_stage = 8

abbrev pub max_commits : ℕ
max_commits = 8

abbrev pub max_name : ℕ
max_name = 32

abbrev pub max_message : ℕ
max_message = 64

abbrev pub max_file_size : ℕ
max_file_size = 2048

abbrev pub store_cap : ℕ
store_cap = 32768

-- `lvcs_init`
abbrev pub init : State
init = record { store = []; stage = []; commits = []; next_id = 1 }

-- `strcmp(a, b) == 0`
unfoldable pub same : List ℕ → List ℕ → Bool
same [] [] = true
same [] (y ∷ ys) = false
same (x ∷ xs) [] = false
same (x ∷ xs) (y ∷ ys) = x == y && same xs ys

-- `copy_name`: `none` is one of its two codes, which no caller tells apart. A name that does not fit
-- with its NUL is refused.
unfoldable pub copy_name : ℕ → List ℕ → Option (List ℕ)
copy_name cap [] = none
copy_name cap (c ∷ src) =
    if cap == 0 || leb cap (length (c ∷ src)) then none else some (take (cap - 1) (c ∷ src))

abbrev pub checkpoint : List ℕ
checkpoint = b'c' ∷ b'h' ∷ b'e' ∷ b'c' ∷ b'k' ∷ b'p' ∷ b'o' ∷ b'i' ∷ b'n' ∷ b't' ∷ []

-- `copy_message`: a missing or empty message becomes "checkpoint", and a long one is cut.
unfoldable pub copy_message : ℕ → Option (List ℕ) → List ℕ
copy_message cap none = take (cap - 1) checkpoint
copy_message cap (some []) = take (cap - 1) checkpoint
copy_message cap (some (c ∷ src)) = take (cap - 1) (c ∷ src)

-- `find_stage`, `none` for -1; also the search among the files of a commit
unfoldable pub find_file : List FileRef → List ℕ → Option ℕ
find_file [] name = none
find_file (f ∷ fs) name = if same f.name name then some 0 else Option.map suc (find_file fs name)

unfoldable pub find_commit : List Commit → ℕ → Option ℕ
find_commit [] id = none
find_commit (c ∷ cs) id = if c.id == id then some 0 else Option.map suc (find_commit cs id)

unfoldable pub hash_loop : ℕ → List ℕ → ℕ
hash_loop h [] = h
hash_loop h (b ∷ bytes) = hash_loop (u32 (bit_xor h b * 16777619)) bytes

unfoldable pub lvcs_hash : List ℕ → ℕ
lvcs_hash bytes = hash_loop 2166136261 bytes

-- the `size` bytes at `data`
abbrev pub bytes_of : Option (List ℕ) → ℕ → List ℕ
bytes_of none size = []
bytes_of (some bytes) size = take size bytes

abbrev pub is_null : Option (List ℕ) → Bool
is_null none = true
is_null (some bytes) = false

-- `store_blob`: the offset, and the store with the bytes at its end
unfoldable pub store_blob : List ℕ → Option (List ℕ) → ℕ → Result (ℕ × List ℕ)
store_blob store data_in size =
    if is_null data_in && not (size == 0)
    then error (neg 1)
    else if ltb max_file_size size
    then error (neg 2)
    else if ltb (store_cap - length store) size
    then error (neg 3)
    else ok (length store, store ++ bytes_of data_in size)

-- `r - 10` for a code `r` of `store_blob`
unfoldable pub less_ten : ℤ → ℤ
less_ten (pos n) = if ltb n 10 then neg (10 - n) else pos (n - 10)
less_ten (negsuc n) = negsuc (n + 10)

-- `lvcs_add` once the slot is known: a new file goes behind the staged ones.
unfoldable pub put_file : List FileRef → Option ℕ → FileRef → List FileRef
put_file fs none f = fs ++ (f ∷ [])
put_file fs (some i) f = set fs i f

abbrev pub is_new : Option ℕ → Bool
is_new none = true
is_new (some i) = false

unfoldable pub add_named : State → List ℕ → Option (List ℕ) → ℕ → ℤ × State
add_named s clean data_in size =
    let slot = find_file s.stage clean in
    if is_new slot && leb max_stage (length s.stage)
    then (neg 20, s)
    else elim (store_blob s.store data_in size) [
      | error r ↦ (less_ten r, s)
      | ok (offset, store) ↦ (
        pos 0,
        record s {
          store = store;
          stage = put_file s.stage slot (record {
            name = clean;
            offset = offset;
            size = size;
            hash = lvcs_hash (bytes_of data_in size);
          });
        },
      )
    ]

-- `lvcs_add`
unfoldable pub add : State → Option (List ℕ) → Option (List ℕ) → ℕ → ℤ × State
add s none data_in size = (neg 1, s)
add s (some []) data_in size = (neg 1, s)
add s (some (c ∷ name)) data_in size = elim (copy_name max_name (c ∷ name)) [
  | none ↦ (neg 21, s)
  | some clean ↦ add_named s clean data_in size
]

-- the loop of `lvcs_commit` over the staged files
unfoldable pub commit_hash : ℕ → List FileRef → ℕ
commit_hash h [] = h
commit_hash h (f ∷ fs) =
    commit_hash (u32 (bit_xor (u32 (bit_xor h f.hash * 16777619)) f.size * 16777619)) fs

-- `s_commits[s_commit_count - 1].id`, or 0
unfoldable pub last_id : List Commit → ℕ
last_id [] = 0
last_id (c ∷ []) = c.id
last_id (c ∷ c' ∷ cs) = last_id (c' ∷ cs)

abbrev pub staged_commit : State → Option (List ℕ) → Commit
staged_commit s message = record {
  id = s.next_id;
  parent = last_id s.commits;
  hash = commit_hash (bit_xor 2166136261 (last_id s.commits)) s.stage;
  message = copy_message max_message message;
  files = s.stage;
}

-- `lvcs_commit`: the value is what it stores to `*out_id`.
unfoldable pub commit : State → Option (List ℕ) → Result ℕ × State
commit s message =
    if length s.stage == 0
    then (error (neg 1), s)
    else if leb max_commits (length s.commits)
    then (error (neg 2), s)
    else (
      ok s.next_id,
      record s {
        stage = [];
        commits = s.commits ++ (staged_commit s message ∷ []);
        next_id = u32 (s.next_id + 1);
      },
    )

-- What the callback of `lvcs_log` sees, in order, and the number that is returned.
abbrev pub no_commit : Commit
no_commit = record { id = 0; parent = 0; hash = 0; message = []; files = [] }

unfoldable pub log_loop : List Commit → ℕ → List Commit
log_loop cs zero = []
log_loop cs (suc i) = get_or cs i no_commit ∷ log_loop cs i

unfoldable pub log : State → Bool → ℕ × List Commit
log s has_cb = if has_cb then (length s.commits, log_loop s.commits (length s.commits)) else (0, [])

unfoldable pub commit_files : State → ℕ → Bool → Result ℕ × List FileRef
commit_files s id has_cb = elim (find_commit s.commits id) [
  | none ↦ (error (neg 1), [])
  | some i ↦
      let files = (get_or s.commits i no_commit).files in
      if has_cb then (ok (length files), files) else (ok 0, [])
]

-- `lvcs_stage`
unfoldable pub list_stage : State → Bool → ℕ × List FileRef
list_stage s has_cb = if has_cb then (length s.stage, s.stage) else (0, [])

-- `out[i] = s_store[f->offset + i]` for `i` below `f->size`
abbrev pub blob : List ℕ → FileRef → List ℕ
blob store f = take f.size (drop f.offset store)

abbrev pub no_file : FileRef
no_file = record { name = []; offset = 0; size = 0; hash = 0 }

abbrev pub or_else {ℓ} : {A : Type ℓ} → Option A → Option A → Option A
or_else none o = o
or_else (some a) o = some a

-- the two loops of `lvcs_checkout`: the file in the newest of the first `count` commits that has it
unfoldable pub search_back : List Commit → ℕ → List ℕ → Option FileRef
search_back cs zero name = none
search_back cs (suc ci) name =
    let older = search_back cs ci name in
    let files = (get_or cs ci no_commit).files in
    or_else (Option.map (λ fi. get_or files fi no_file) (find_file files name)) older

-- `lvcs_checkout`: the value is the bytes that it stores to `out`; their number is stored to
-- `*out_len`. `cap` is `*out_len` before the call, `none` where `out` or `out_len` is null.
unfoldable pub checkout_named : State → ℕ → List ℕ → ℕ → Result (List ℕ)
checkout_named s i name cap = elim (search_back s.commits (i + 1) name) [
  | none ↦ error (neg 4)
  | some f ↦ if ltb cap f.size then error (neg 3) else ok (blob s.store f)
]

-- the checks of the pointers, and the rest, for a commit in place `i`
unfoldable pub checkout_found : State → ℕ → Option (List ℕ) → Option ℕ → Result (List ℕ)
checkout_found s i (some (c ∷ name)) (some cap) = checkout_named s i (c ∷ name) cap
checkout_found s i (some (c ∷ name)) none = error (neg 2)
checkout_found s i (some []) cap = error (neg 2)
checkout_found s i none cap = error (neg 2)

unfoldable pub checkout : State → ℕ → Option (List ℕ) → Option ℕ → Result (List ℕ)
checkout s id name cap = elim (find_commit s.commits id) [
  | none ↦ error (neg 1)
  | some i ↦ checkout_found s i name cap
]

-- `lvcs_status`: the staged files, the commits and the bytes in use
abbrev pub status : State → ℕ × ℕ × ℕ
status s = (length s.stage, length s.commits, length s.store)
