-- ===== src/Printf/Render.antt =====
-- The text that a format and its arguments stand for, whatever buffer it is printed into: what
-- `vsnprintf_` of os/kernel/lard_printf.c promises, as a function to texts.
use lardos.Base.{
  ℕ, zero, suc, ◌%◌, ◌^◌, ◌||◌, Bool, false, none, some, Option, List, [], ◌∷◌, ◌++◌, ◌==◌,
  if◌then◌else◌, length,
}
use lardos.Printf.{
  Arg, word, string, Outcome, done, undefined, unfinished, Layout, flag, read_width, read_length,
  takes_word, sign_of, magnitude64, signed_arg, unsigned_arg, utoa_rev, u64, null_text,
}
use lardos.Printf.Format.{read_spec, format_of}
use lardos.Printf.Emits.{number_text, padded_text}

unfoldable pub word_text : Layout → ℕ → ℕ → ℕ → List ℕ
word_text l len spec v =
    if spec == b'c'
    then padded_text (v % 2 ^ 8 ∷ []) 1 l
    else if spec == b'd' || spec == b'i'
    then number_text (sign_of (signed_arg len v))
        (utoa_rev (magnitude64 (signed_arg len v)) 10 false) l
    else if spec == b'u'
    then number_text [] (utoa_rev (unsigned_arg len v) 10 false) l
    else if spec == b'p'
    then number_text (b'0' ∷ b'x' ∷ []) (utoa_rev (u64 v) 16 false) l
    else number_text [] (utoa_rev (unsigned_arg len v) 16 (spec == b'X')) l

-- The text of a conversion that takes an argument, and the arguments that are left.
abbrev pub arg_text : Layout → ℕ → ℕ → List Arg → Outcome (List ℕ × List Arg)
arg_text l len spec [] = undefined
arg_text l len spec (word v ∷ args) =
    if spec == b's' then undefined else done (word_text l len spec v, args)
arg_text l len spec (string none ∷ args) =
    if spec == b's' then done (padded_text null_text 6 l, args) else undefined
arg_text l len spec (string (some s) ∷ args) =
    if spec == b's' then done (padded_text s (length s) l, args) else undefined

abbrev pub convert_text : Layout → ℕ → Option ℕ → List Arg → Outcome (List ℕ × List Arg)
convert_text l len none args = done (b'%' ∷ [], args)
convert_text l len (some spec) args =
    if takes_word spec || spec == b's'
    then arg_text l len spec args
    else done (b'%' ∷ spec ∷ [], args)

-- goes on behind a conversion at `p`
abbrev pub onward :
    {A : Type 0} → List ℕ → Outcome (A × List Arg) → Outcome (A × (List ℕ × List Arg))
onward p (done r) = done (r.0, (p, r.1))
onward p undefined = undefined
onward p unfinished = unfinished

unfoldable pub flags_text : Bool → Bool → List ℕ → List Arg → Outcome (List ℕ × (List ℕ × List Arg))
flags_text left_align zero_pad p args = elim (read_width 0 p) [
  | none ↦ undefined
  | some (width, p1) ↦
      let len = read_length p1 in
      let spec = read_spec len.1 in
      onward spec.1 (
        convert_text record { width = width; zero_pad = zero_pad; left_align = left_align } len.0
          spec.0 args)
]

-- The text that begins at a character, with the format and the arguments behind it.
unfoldable pub step_text : ℕ → List ℕ → List Arg → Outcome (List ℕ × (List ℕ × List Arg))
step_text c p args =
    let percent = flag b'%' p in
    let minus = flag b'-' p in
    let naught = flag b'0' minus.1 in
    if c == b'%'
    then if percent.0
      then done (b'%' ∷ [], (percent.1, args))
      else flags_text minus.0 naught.0 naught.1 args
    else done (c ∷ [], (p, args))

abbrev pub before : List ℕ → Outcome (List ℕ) → Outcome (List ℕ)
before text (done more) = done (text ++ more)
before text undefined = undefined
before text unfinished = unfinished

unfoldable pub render : ℕ → List ℕ → List Arg → Outcome (List ℕ)
render fuel [] args = done []
render zero (c ∷ p) args = unfinished
render (suc fuel) (c ∷ p) args = elim (step_text c p args) [
  | done (text, (p1, args1)) ↦ before text (render fuel p1 args1)
  | undefined ↦ undefined
  | unfinished ↦ unfinished
]

-- The text of a call.
abbrev pub format_text : Option (List ℕ) → List Arg → Outcome (List ℕ)
format_text format args = render (length (format_of format)) (format_of format) args
