-- ===== src/Lar/Safe.antt =====
-- The readers of os/kernel/lar.c stay inside the archive.
use mathlib.Core.Option
use lardos.Base.{
  ℕ, ◌+◌, ◌≤◌, ◌≡◌, ◌≢◌, none, some, List, arith, length, get_elem?-eq-get_or, zero, suc, ◌⊎◌, inl,
  inr, refl, Bool, Option, sym,
}
use lardos.Lar.{rd16, validate_header, read_entry, slice, ok, list_loop, lar_list, Entry, behind}
use lardos.Base.Words.{rd_u32_inside}
use mathlib.Core.Option.{none-ne-some}
use lardos.Base.Int.{Result, ℤ, error}

rd16_inside : (data_in : List ℕ) (off : ℕ) → off + 2 ≤ length data_in → rd16 data_in off ≢ none
unfolding rd16
rd16_inside data_in off h e =
    ground (arith, get_elem?-eq-get_or data_in off 0, get_elem?-eq-get_or data_in (off + 1) 0)

pub header_inside : (data_in : List ℕ) → validate_header (some data_in) (length data_in) ≢ none
unfolding validate_header rd16
header_inside data_in e = ground (
  arith,
  rd_u32_inside data_in 0,
  get_elem?-eq-get_or data_in 4 0,
  get_elem?-eq-get_or data_in 5 0,
  get_elem?-eq-get_or data_in 6 0,
  get_elem?-eq-get_or data_in 7 0,
)

pub header_end :
    (data_in : List ℕ) (count dir_end : ℕ)
    → validate_header (some data_in) (length data_in) ≡ some (ok (count, dir_end))
    → (8 ≤ dir_end) × (dir_end ≤ length data_in)
unfolding validate_header rd16
header_end data_in count dir_end e = ground (
  arith,
  rd_u32_inside data_in 0,
  get_elem?-eq-get_or data_in 4 0,
  get_elem?-eq-get_or data_in 5 0,
  get_elem?-eq-get_or data_in 6 0,
  get_elem?-eq-get_or data_in 7 0,
)

pub entry_inside :
    (data_in : List ℕ) (dir_end p : ℕ)
    → dir_end ≤ length data_in
    → read_entry data_in (length data_in) dir_end p ≢ none
unfolding read_entry slice
entry_inside data_in dir_end p le e = ground (
  arith,
  get_elem?-eq-get_or data_in p 0,
  get_elem?-eq-get_or data_in (p + 1) 0,
  rd_u32_inside data_in (p + 4),
  rd_u32_inside data_in (p + 8),
  rd_u32_inside data_in (p + 12),
)

pub Option-map : {A B : Type 0} (f : A → B) (o : Option A) → o ≢ none → Option.map f o ≢ none
Option-map f none ne e = ne refl
Option-map f (some a) ne e = none-ne-some (f a) (sym e)

-- The outcomes of reading an entry.
pub Read-cases :
    (o : Option (Result Entry))
    → (o ≡ none) ⊎ (((r : ℤ) × (o ≡ some (error r))) ⊎ ((e : Entry) × (o ≡ some (ok e))))
Read-cases none = inl refl
Read-cases (some (error r)) = inr (inl (r, refl))
Read-cases (some (ok e)) = inr (inr (e, refl))

list_loop_inside :
    (count : ℕ) (data_in : List ℕ) (dir_end p : ℕ)
    → dir_end ≤ length data_in
    → list_loop count data_in (length data_in) dir_end p ≢ none
unfolding list_loop
list_loop_inside zero data_in dir_end p le = λ e. none-ne-some _ (sym e)
list_loop_inside (suc count) data_in dir_end p le =
    elim (Read-cases (read_entry data_in (length data_in) dir_end p)) [
      | inl out ↦ absurd (entry_inside data_in dir_end p le out)
      | inr (inl (r, q)) ↦ rw (q, list_loop) (λ e. none-ne-some _ (sym e))
      | inr (inr (entry, q)) ↦
          rw (q, list_loop)
            (Option-map _ _ (list_loop_inside count data_in dir_end (behind p entry) le))
    ]

pub Header-cases :
    (o : Option (Result (ℕ × ℕ)))
    → (o ≡ none)
      ⊎ (((r : ℤ) × (o ≡ some (error r)))
          ⊎ ((count : ℕ) × (dir_end : ℕ) × (o ≡ some (ok (count, dir_end)))))
Header-cases none = inl refl
Header-cases (some (error r)) = inr (inl (r, refl))
Header-cases (some (ok c)) = inr (inr (c.0, c.1, refl))

-- Listing an archive reads nothing outside its bytes, whatever they are.
pub lar_list_inside :
    (data_in : List ℕ) (has_cb : Bool) → lar_list (some data_in) (length data_in) has_cb ≢ none
unfolding lar_list
lar_list_inside data_in has_cb =
    elim (Header-cases (validate_header (some data_in) (length data_in))) [
      | inl out ↦ absurd (header_inside data_in out)
      | inr (inl (r, q)) ↦ rw (q, lar_list) (λ e. none-ne-some _ (sym e))
      | inr (inr (count, dir_end, q)) ↦
          rw (q, lar_list)
            (Option-map _ _
              (list_loop_inside count data_in dir_end 8 (header_end data_in count dir_end q).1))
    ]
