-- ===== src/Printf/Format.antt =====
-- `vsnprintf_` of os/kernel/lard_printf.c: the loop over the format.
use lardos.Base.{
  ℕ, zero, suc, ◌-◌, ◌%◌, ◌^◌, Bool, none, some, Option, List, [], ◌∷◌, ◌==◌, if◌then◌else◌, ltb,
  length,
}
use lardos.Base.Int.{ℤ, signed}
use lardos.Printf.{
  FmtOut, out_ch, Arg, Outcome, done, undefined, unfinished, flag, read_width, read_length, convert,
  Buffer, put,
}

-- what the loop keeps: the output, `p` and the arguments that are left
abbrev pub State : Type 0
State = FmtOut × (List ℕ × List Arg)

-- `char spec = *p ? *p++ : '\0'`
abbrev pub read_spec : List ℕ → Option ℕ × List ℕ
read_spec [] = (none, [])
read_spec (c ∷ p) = (some c, p)

-- goes on behind a conversion at `p`
abbrev pub resume : List ℕ → Outcome (FmtOut × List Arg) → Outcome State
resume p (done r) = done (r.0, (p, r.1))
resume p undefined = undefined
resume p unfinished = unfinished

-- a conversion behind the `%` and the flags
unfoldable pub after_flags : FmtOut → Bool → Bool → List ℕ → List Arg → Outcome State
after_flags out left_align zero_pad p args = elim (read_width 0 p) [
  | none ↦ undefined
  | some (width, p1) ↦
      let len = read_length p1 in
      let spec = read_spec len.1 in
      resume spec.1 (
        convert out record { width = width; zero_pad = zero_pad; left_align = left_align } len.0
          spec.0 args)
]

-- what stands behind a `%`
abbrev pub directive : FmtOut → List ℕ → List Arg → Outcome State
directive out p args =
    let percent = flag b'%' p in
    let minus = flag b'-' p in
    let naught = flag b'0' minus.1 in
    if percent.0
    then done (out_ch out b'%', (percent.1, args))
    else after_flags out minus.0 naught.0 naught.1 args

-- One round of the loop at a character `c`.
unfoldable pub format_step : FmtOut → ℕ → List ℕ → List Arg → Outcome State
format_step out c p args =
    if c == b'%' then directive out p args else done (out_ch out c, (p, args))

-- The loop, with fuel.
unfoldable pub format_loop : ℕ → FmtOut → List ℕ → List Arg → Outcome FmtOut
format_loop fuel out [] args = done out
format_loop zero out (c ∷ p) args = unfinished
format_loop (suc fuel) out (c ∷ p) args = elim (format_step out c p args) [
  | done (out1, (p1, args1)) ↦ format_loop fuel out1 p1 args1
  | undefined ↦ undefined
  | unfinished ↦ unfinished
]

-- the NUL behind the text
unfoldable pub terminate : FmtOut → Buffer
terminate out =
    if ltb 0 out.cap
    then put out.buf (if ltb out.len out.cap then out.len else out.cap - 1) 0
    else out.buf

abbrev pub format_of : Option (List ℕ) → List ℕ
format_of none = []
format_of (some format) = format

abbrev pub finish : Outcome FmtOut → Outcome (Buffer × ℤ)
finish (done out) = done (terminate out, signed 32 (out.len % 2 ^ 32))
finish undefined = undefined
finish unfinished = unfinished

-- `vsnprintf_`, and so `snprintf_`: the buffer and what is returned
unfoldable pub vsnprintf : Buffer → ℕ → Option (List ℕ) → List Arg → Outcome (Buffer × ℤ)
vsnprintf buffer count format args = finish (
    format_loop (length (format_of format)) record { buf = buffer; cap = count; len = 0 }
      (format_of format) args)
