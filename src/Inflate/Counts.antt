-- ===== src/Inflate/Counts.antt =====
-- How the counts and the offsets of `build_tree` in os/kernel/lard_inflate.c bound the places that its
-- symbols are written to.
use lardos.Inflate.Tree.{count_up, count_loop, offsets_loop}
use lardos.Inflate.Faults.{ok, Ends, read, write, Ends-guard, Ends->>=, Ends-weaken}
use lardos.Base.{
  ℕ, zero, suc, ◌+◌, ◌-◌, ◌^◌, ◌≤◌, ◌<◌, ◌≡◌, inl, inr, refl, ◌∙◌, List, [], ◌∷◌, arith, ◌==◌,
  if◌then◌else◌, length, get_or, set, get_elem?-eq-get_or, lt→ltb, length-set, Bool-cases, ==→eq,
  get_or-set_self, ==→ne, get_or-set_ne, ◌*◌, some, Option, ltb, Option-cases, ltb→le, ◌≢◌,
}
use lardos.Base.Words.{u16}
use lardos.Inflate.Blocks.{data_err}

-- How many codes have the length `l`.
unfoldable pub occurrences : ℕ → List ℕ → ℕ
occurrences l [] = 0
occurrences l (x ∷ len) = (if x == l then 1 else 0) + occurrences l len

unfoldable pub total : List ℕ → ℕ
total [] = 0
total (x ∷ xs) = x + total xs

total-set :
    (xs : List ℕ) (i v : ℕ) → i < length xs → total (set xs i v) + get_or xs i 0 ≡ total xs + v
unfolding total
total-set [] i v h = absurd (omega arith)
total-set (x ∷ xs) zero v h = omega arith
total-set (x ∷ xs) (suc i) v h = omega (arith, total-set xs i v (omega arith))

get_or-total : (xs : List ℕ) (i : ℕ) → get_or xs i 0 ≤ total xs
unfolding total
get_or-total [] i = omega arith
get_or-total (x ∷ xs) zero = omega arith
get_or-total (x ∷ xs) (suc i) = omega (arith, get_or-total xs i)

pub read_inside : (a : List ℕ) (i d : ℕ) → i < length a → read a i ≡ ok (get_or a i d)
unfolding read
read_inside a i d h = rw (get_elem?-eq-get_or a i d h, read) refl

pub write_inside : (a : List ℕ) (i v : ℕ) → i < length a → write a i v ≡ ok (set a i v)
unfolding write
write_inside a i v h = rw (lt→ltb i (length a) h, write) refl

-- What is not the default stands in the array.
pub get_or_inside : (a : List ℕ) (i d : ℕ) → get_or a i d ≢ d → i < length a
get_or_inside [] i d h = absurd (h refl)
get_or_inside (x ∷ a) zero d h = omega arith
get_or_inside (x ∷ a) (suc i) d h = omega (arith, get_or_inside a i d h)

-- `cnt'` counts the codes of `len` on top of `cnt`.
pub record Counted (cnt len cnt' : List ℕ) : Type 0 where
  pub kept_size : length cnt' ≡ 16
  pub small : total cnt' ≤ total cnt + length len
  pub counted : (l : ℕ) → get_or cnt (suc l) 0 + occurrences (suc l) len ≤ get_or cnt' (suc l) 0

count_up-Ends :
    (l : ℕ) (cnt : List ℕ)
    → length cnt ≡ 16
    → l ≤ 15
    → total cnt < 2 ^ 16 - 1
    → Ends (count_up l cnt) (λ cnt'. Counted cnt (l ∷ []) cnt')
unfolding occurrences
count_up-Ends zero cnt sized low fits = record {
  kept_size = sized;
  small = omega arith;
  counted = λ l. ground arith;
}
count_up-Ends (suc l) cnt sized low fits =
    let u = get_or cnt (suc l) 0 in
    let bound = get_or-total cnt (suc l) in
    let inside : suc l < length cnt = omega arith in
    let more = total-set cnt (suc l) (u16 (u + 1)) inside in
    rw (read_inside cnt (suc l) 0 inside, write_inside cnt (suc l) (u16 (u + 1)) inside, Ends)
      (record {
        kept_size = length-set cnt (suc l) (u16 (u + 1)) ∙ sized;
        small = omega arith;
        counted = λ k. elim (Bool-cases (l == k)) [
          | inl same ↦
              ground (arith, ==→eq l k same, get_or-set_self cnt (suc l) (u16 (u + 1)) 0 inside)
          | inr other ↦ ground (
            arith,
            ==→ne l k other,
            get_or-set_ne cnt (suc l) (suc k) (u16 (u + 1)) 0 (λ e. ==→ne l k other (omega arith)),
          )
        ];
      })

-- The counting loop faults nowhere, and counts every code.
pub count_loop-Ends :
    (len : List ℕ) (i : ℕ) (cnt : List ℕ) (m : Option ℕ)
    → length cnt ≡ 16
    → total cnt + length len < 2 ^ 16
    → Ends (count_loop len i cnt m) (λ r. Counted cnt len r.0)
unfolding count_loop occurrences
count_loop-Ends [] i cnt m sized fits = record {
  kept_size = sized;
  small = omega arith;
  counted = λ l. omega arith;
}
count_loop-Ends (l ∷ len) i cnt m sized fits =
    Ends-guard (ltb 15 l) data_err _ (λ r. Counted cnt (l ∷ len) r.0)
      λ low.
        Ends->>= (count_up l cnt) _ (Counted cnt (l ∷ [])) (λ r. Counted cnt (l ∷ len) r.0)
          (count_up-Ends l cnt sized (ltb→le 15 l low) (omega arith))
          λ cnt' h.
            let m' : Option ℕ = if l == 0 then m else some i in
            Ends-weaken (count_loop len (i + 1) cnt' m') (λ r. Counted cnt' len r.0)
              (λ r. Counted cnt (l ∷ len) r.0)
              (count_loop-Ends len (i + 1) cnt' m' h.kept_size (omega (arith, h.small)))
              λ r c. record {
                kept_size = c.kept_size;
                small = omega (arith, h.small, c.small);
                counted = λ k. omega (arith, h.counted k, c.counted k);
              }

-- The codes of a length are placed below the 288 symbols.
pub offsets_loop_room :
    (cnt : List ℕ) (avail nc : ℕ) (off : List ℕ) (avail' nc' : ℕ)
    → offsets_loop cnt avail nc ≡ some (off, avail', nc')
    → nc + total cnt ≤ 288
    → (j : ℕ) → get_or off j 288 + get_or cnt j 0 ≤ 288
unfolding offsets_loop total
offsets_loop_room [] avail nc off avail' nc' e fits j = ground arith
offsets_loop_room (u ∷ cnt) avail nc off avail' nc' e fits zero =
    elim (Option-cases (offsets_loop cnt (2 * (avail - u)) (nc + u))) [
      | inl f ↦ ground arith
      | inr (r, f) ↦ ground arith
    ]
offsets_loop_room (u ∷ cnt) avail nc off avail' nc' e fits (suc k) =
    elim (Option-cases (offsets_loop cnt (2 * (avail - u)) (nc + u))) [
      | inl f ↦ ground arith
      | inr ((off1, a1, n1), f) ↦
          let room =
            offsets_loop_room cnt (2 * (avail - u)) (nc + u) off1 a1 n1 f (omega arith) k in
          ground (arith, room)
    ]
