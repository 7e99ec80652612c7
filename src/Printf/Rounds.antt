-- ===== src/Printf/Rounds.antt =====
-- The loop of `vsnprintf_` of os/kernel/lard_printf.c puts out a text that does not depend on the
-- output, and comes to the format's end.
use lardos.Base.{
  ℕ, ◌≡◌, ◌⊎◌, inl, inr, refl, none, some, Option, List, [], ◌∷◌, length, Bool-cases, ◌==◌, ◌||◌,
  ◌%◌, ◌^◌, zero, suc, ◌+◌, ◌-◌, ◌*◌, ◌≤◌, ◌∙◌, Bool, arith, Option-cases, ap, sym,
}
use lardos.Printf.{
  FmtOut, Arg, word, string, Outcome, done, undefined, unfinished, Layout, convert, convert_arg,
  convert_word, takes_word, null_text, flag, read_length, read_width,
}
use lardos.Printf.Emits.{
  put_out, out_number-text, out_padded-text, out_padded_ch-text, put_out-append,
}
use mathlib.Core.Path.{subst}
use lardos.Printf.Render.{
  word_text, arg_text, convert_text, onward, flags_text, step_text, before, render,
}
use lardos.Printf.Format.{resume, read_spec, after_flags, format_step, format_loop}

-- a result with its text put out
abbrev pub put_text : {A : Type 0} → FmtOut → Outcome (List ℕ × A) → Outcome (FmtOut × A)
put_text out (done r) = done (put_out out r.0, r.1)
put_text out undefined = undefined
put_text out unfinished = unfinished

word_put :
    (out : FmtOut) (l : Layout) (len spec v : ℕ)
    → convert_word out l len spec v ≡ put_out out (word_text l len spec v)
unfolding convert_word word_text
word_put out l len spec v = elim (Bool-cases (spec == b'c')) [
  | inl c ↦ rw c (out_padded_ch-text out (v % 2 ^ 8) l)
  | inr c ↦ elim (Bool-cases (spec == b'd' || spec == b'i')) [
    | inl d ↦ rw (c, d) (out_number-text out _ _ l)
    | inr d ↦ elim (Bool-cases (spec == b'u')) [
      | inl u ↦ rw (c, d, u) (out_number-text out [] _ l)
      | inr u ↦ elim (Bool-cases (spec == b'p')) [
        | inl p ↦ rw (c, d, u, p) (out_number-text out (b'0' ∷ b'x' ∷ []) _ l)
        | inr p ↦ rw (c, d, u, p) (out_number-text out [] _ l)
      ]
    ]
  ]
]

arg_put :
    (out : FmtOut) (l : Layout) (len spec : ℕ) (args : List Arg)
    → convert_arg out l len spec args ≡ put_text out (arg_text l len spec args)
arg_put out l len spec [] = refl
arg_put out l len spec (word v ∷ args) = elim (Bool-cases (spec == b's')) [
  | inl s ↦ rw s refl
  | inr s ↦ rw (s, word_put out l len spec v) refl
]
arg_put out l len spec (string none ∷ args) = elim (Bool-cases (spec == b's')) [
  | inl s ↦ rw (s, out_padded-text out null_text l) refl
  | inr s ↦ rw s refl
]
arg_put out l len spec (string (some t) ∷ args) = elim (Bool-cases (spec == b's')) [
  | inl s ↦ rw (s, out_padded-text out t l) refl
  | inr s ↦ rw s refl
]

convert_put :
    (out : FmtOut) (l : Layout) (len : ℕ) (spec : Option ℕ) (args : List Arg)
    → convert out l len spec args ≡ put_text out (convert_text l len spec args)
unfolding put_out
convert_put out l len none args = refl
convert_put out l len (some spec) args = elim (Bool-cases (takes_word spec || spec == b's')) [
  | inl takes ↦ rw takes (arg_put out l len spec args)
  | inr takes ↦ rw takes refl
]

resume-onward :
    (out : FmtOut) (p : List ℕ) (o : Outcome (List ℕ × List Arg))
    → resume p (put_text out o) ≡ put_text out (onward p o)
resume-onward out p (done r) = refl
resume-onward out p undefined = refl
resume-onward out p unfinished = refl

flags_put :
    (out : FmtOut) (left_align zero_pad : Bool) (p : List ℕ) (args : List Arg)
    → after_flags out left_align zero_pad p args
      ≡ put_text out (flags_text left_align zero_pad p args)
unfolding after_flags flags_text
flags_put out left_align zero_pad p args = elim (Option-cases (read_width 0 p)) [
  | inl over ↦ rw (over, after_flags, flags_text) refl
  | inr ((width, p1), read) ↦
      let len = read_length p1 in
      let spec = read_spec len.1 in
      let l : Layout = record { width = width; zero_pad = zero_pad; left_align = left_align } in
      rw (read, after_flags, flags_text)
        (ap (resume spec.1) (convert_put out l len.0 spec.0 args)
          ∙ resume-onward out spec.1 (convert_text l len.0 spec.0 args))
]

-- A round of the loop puts out its text.
step_put :
    (out : FmtOut) (c : ℕ) (p : List ℕ) (args : List Arg)
    → format_step out c p args ≡ put_text out (step_text c p args)
unfolding format_step step_text put_out
step_put out c p args = elim (Bool-cases (c == b'%')) [
  | inr other ↦ rw other refl
  | inl percent ↦ elim (Bool-cases (flag b'%' p).0) [
    | inl twice ↦ rw (percent, twice) refl
    | inr once ↦
        let minus = flag b'-' p in
        let naught = flag b'0' minus.1 in
        rw (percent, once) (flags_put out minus.0 naught.0 naught.1 args)
  ]
]

flag_shorter : (c : ℕ) (p : List ℕ) → length (flag c p).1 ≤ length p
flag_shorter c [] = omega arith
flag_shorter c (d ∷ p) = ground arith

read_length_shorter : (p : List ℕ) → length (read_length p).1 ≤ length p
read_length_shorter p =
    ground (arith, flag_shorter b'l' p, flag_shorter b'l' (flag b'l' p).1, flag_shorter b'z' p)

read_spec_shorter : (p : List ℕ) → length (read_spec p).1 ≤ length p
read_spec_shorter [] = omega arith
read_spec_shorter (c ∷ p) = omega arith

read_width_shorter :
    (width : ℕ) (p : List ℕ) (w : ℕ) (p1 : List ℕ)
    → read_width width p ≡ some (w, p1)
    → length p1 ≤ length p
unfolding read_width
read_width_shorter width [] w p1 e = ground arith
read_width_shorter width (c ∷ p) w p1 e =
    ground (arith, read_width_shorter (width * 10 + (c - b'0')) p w p1)

-- It does not end for want of fuel, and leaves no more of the format than `p`.
abbrev Within : {A : Type 0} → List ℕ → Outcome (A × (List ℕ × List Arg)) → Type 0
Within p (done r) = length r.1.0 ≤ length p
Within p undefined = Unit {0}
Within p unfinished = ⊥

-- It does not end for want of fuel.
abbrev pub Finishes : {A : Type 0} → Outcome A → Type 0
Finishes (done r) = Unit {0}
Finishes undefined = Unit {0}
Finishes unfinished = ⊥

arg_text-Finishes :
    (l : Layout) (len spec : ℕ) (args : List Arg) → Finishes (arg_text l len spec args)
arg_text-Finishes l len spec [] = tt
arg_text-Finishes l len spec (word v ∷ args) = elim (Bool-cases (spec == b's')) [
  | inl s ↦ rw (s, Finishes) tt
  | inr s ↦ rw (s, Finishes) tt
]
arg_text-Finishes l len spec (string none ∷ args) = elim (Bool-cases (spec == b's')) [
  | inl s ↦ rw (s, Finishes) tt
  | inr s ↦ rw (s, Finishes) tt
]
arg_text-Finishes l len spec (string (some t) ∷ args) = elim (Bool-cases (spec == b's')) [
  | inl s ↦ rw (s, Finishes) tt
  | inr s ↦ rw (s, Finishes) tt
]

convert_text-Finishes :
    (l : Layout) (len : ℕ) (spec : Option ℕ) (args : List Arg)
    → Finishes (convert_text l len spec args)
convert_text-Finishes l len none args = tt
convert_text-Finishes l len (some spec) args = elim (Bool-cases (takes_word spec || spec == b's')) [
  | inl takes ↦ rw (takes, Finishes) (arg_text-Finishes l len spec args)
  | inr takes ↦ rw (takes, Finishes) tt
]

onward-Within :
    (p q : List ℕ) (o : Outcome (List ℕ × List Arg))
    → length q ≤ length p
    → Finishes o
    → Within p (onward q o)
onward-Within p q (done r) h f = h
onward-Within p q undefined h f = tt
onward-Within p q unfinished h f = f

flags_text-Within :
    (left_align zero_pad : Bool) (p q : List ℕ) (args : List Arg)
    → length q ≤ length p
    → Within p (flags_text left_align zero_pad q args)
unfolding flags_text
flags_text-Within left_align zero_pad p q args h = elim (Option-cases (read_width 0 q)) [
  | inl over ↦ rw (over, flags_text, Within) tt
  | inr ((width, p1), read) ↦
      let len = read_length p1 in
      let spec = read_spec len.1 in
      let l : Layout = record { width = width; zero_pad = zero_pad; left_align = left_align } in
      rw (read, flags_text, Within)
        (onward-Within p spec.1 (convert_text l len.0 spec.0 args)
          (omega (
            arith,
            h,
            read_width_shorter 0 q width p1 read,
            read_length_shorter p1,
            read_spec_shorter len.1,
          ))
          (convert_text-Finishes l len.0 spec.0 args))
]

step_text-Within : (c : ℕ) (p : List ℕ) (args : List Arg) → Within p (step_text c p args)
unfolding step_text
step_text-Within c p args = elim (Bool-cases (c == b'%')) [
  | inr other ↦ rw (other, Within) (omega arith)
  | inl percent ↦ elim (Bool-cases (flag b'%' p).0) [
    | inl twice ↦ rw (percent, twice, Within) (flag_shorter b'%' p)
    | inr once ↦
        let minus = flag b'-' p in
        let naught = flag b'0' minus.1 in
        rw (percent, once, Within)
          (flags_text-Within minus.0 naught.0 p naught.1 args
            (omega (arith, flag_shorter b'-' p, flag_shorter b'0' minus.1)))
  ]
]

Step-cases :
    {A : Type 0} (o : Outcome A) → ((a : A) × (o ≡ done a)) ⊎ ((o ≡ undefined) ⊎ (o ≡ unfinished))
Step-cases (done a) = inl (a, refl)
Step-cases undefined = inr (inl refl)
Step-cases unfinished = inr (inr refl)

-- The text of an outcome put out.
abbrev pub put_all : FmtOut → Outcome (List ℕ) → Outcome FmtOut
put_all out (done text) = done (put_out out text)
put_all out undefined = undefined
put_all out unfinished = unfinished

put_all-before :
    (out : FmtOut) (text : List ℕ) (o : Outcome (List ℕ))
    → put_all (put_out out text) o ≡ put_all out (before text o)
put_all-before out text (done more) = ap done (sym (put_out-append out text more))
put_all-before out text undefined = refl
put_all-before out text unfinished = refl

-- The loop puts out the text of the format.
pub loop_put :
    (fuel : ℕ) (out : FmtOut) (p : List ℕ) (args : List Arg)
    → format_loop fuel out p args ≡ put_all out (render fuel p args)
unfolding format_loop render put_out
loop_put zero out [] args = refl
loop_put (suc fuel) out [] args = refl
loop_put zero out (c ∷ p) args = refl
loop_put (suc fuel) out (c ∷ p) args = elim (Step-cases (step_text c p args)) [
  | inl ((text, (p1, args1)), e) ↦
      rw (step_put out c p args, e, format_loop, render, put_all)
        (loop_put fuel (put_out out text) p1 args1 ∙ put_all-before out text (render fuel p1 args1))
  | inr (inl e) ↦ rw (step_put out c p args, e, format_loop, render, put_all) refl
  | inr (inr e) ↦ rw (step_put out c p args, e, format_loop, render, put_all) refl
]

before-Finishes : (text : List ℕ) (o : Outcome (List ℕ)) → Finishes o → Finishes (before text o)
before-Finishes text (done more) h = tt
before-Finishes text undefined h = tt
before-Finishes text unfinished h = h

-- Enough fuel takes the loop to the end of the format.
pub render-Finishes :
    (fuel : ℕ) (p : List ℕ) (args : List Arg) → length p ≤ fuel → Finishes (render fuel p args)
unfolding render
render-Finishes zero [] args h = tt
render-Finishes (suc fuel) [] args h = tt
render-Finishes zero (c ∷ p) args h = absurd (omega arith)
render-Finishes (suc fuel) (c ∷ p) args h = elim (Step-cases (step_text c p args)) [
  | inl ((text, (p1, args1)), e) ↦
      let fewer = subst (Within p) e (step_text-Within c p args) in
      rw (e, render, Finishes)
        (before-Finishes text (render fuel p1 args1)
          (render-Finishes fuel p1 args1 (omega (arith, fewer))))
  | inr (inl e) ↦ rw (e, render, Finishes) tt
  | inr (inr e) ↦ absurd (subst (Within p) e (step_text-Within c p args))
]
