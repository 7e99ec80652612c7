-- ===== src/Printf/Text.antt =====
-- `vsnprintf_` of os/kernel/lard_printf.c fills a buffer of bounded size with the text of its format.
use lardos.Base.{
  ℕ, zero, suc, ◌+◌, ◌^◌, ◌≤◌, ◌<◌, ◌≡◌, ◌≢◌, ◌∙◌, ◌⊎◌, refl, List, [], ◌∷◌, length, arith, get_or,
  ==-refl, ◌-◌, ◌%◌, inl, inr, ◌&&◌, true, if◌then◌else◌, Bool-cases, ltb, ap, ap₂, sym,
}
use lardos.Printf.{Outcome, unfinished, FmtOut, out_ch, Buffer, put, u64, undefined, done}
use lardos.Printf.Emits.{put_out}
use lardos.Printf.Format.{terminate}
use lardos.Base.Int.{signed, ℤ}

put_here : (m : Buffer) (a v : ℕ) → put m a v a ≡ v
put_here m a v = rw (==-refl a) refl

put_other : (m : Buffer) (a v x : ℕ) → x ≢ a → put m a v x ≡ m x
put_other m a v x h = ground (arith, h)

out_ch-len : (out : FmtOut) (ch : ℕ) → out.len + 1 < 2 ^ 64 → (out_ch out ch).len ≡ out.len + 1
unfolding out_ch
out_ch-len out ch h = omega arith

out_ch-cap : (out : FmtOut) (ch : ℕ) → (out_ch out ch).cap ≡ out.cap
unfolding out_ch
out_ch-cap out ch = refl

out_ch-kept :
    (out : FmtOut) (ch i : ℕ)
    → out.len + 1 < 2 ^ 64
    → (i ≢ out.len) ⊎ (out.cap ≤ i + 1)
    → (out_ch out ch).buf i ≡ out.buf i
unfolding out_ch
out_ch-kept out ch i h side = elim (Bool-cases (ltb 0 out.cap && ltb (u64 (out.len + 1)) out.cap)) [
  | inl room ↦ rw room (put_other out.buf out.len ch i (λ e. ground (arith, e)))
  | inr full ↦ rw full refl
]

out_ch-put :
    (out : FmtOut) (ch : ℕ)
    → out.len + 1 < 2 ^ 64
    → out.len + 1 < out.cap
    → (out_ch out ch).buf out.len ≡ ch
unfolding out_ch
out_ch-put out ch h room =
    let fits : (ltb 0 out.cap && ltb (u64 (out.len + 1)) out.cap) ≡ true = ground arith in
    rw fits (put_here out.buf out.len ch)

put_out-len :
    (out : FmtOut) (text : List ℕ)
    → out.len + length text < 2 ^ 64
    → ((put_out out text).len ≡ out.len + length text) × ((put_out out text).cap ≡ out.cap)
unfolding put_out
put_out-len out [] h = (omega arith, refl)
put_out-len out (c ∷ text) h =
    let step = out_ch-len out c (omega arith) in
    let rest = put_out-len (out_ch out c) text (omega (arith, step)) in
    (omega (arith, step, rest.0), rest.1 ∙ out_ch-cap out c)

put_out-kept :
    (out : FmtOut) (text : List ℕ) (i : ℕ)
    → out.len + length text < 2 ^ 64
    → (i < out.len) ⊎ ((out.cap ≤ i + 1) ⊎ (out.len + length text ≤ i))
    → (put_out out text).buf i ≡ out.buf i
unfolding put_out
put_out-kept out [] i h side = refl
put_out-kept out (c ∷ text) i h side =
    let step = out_ch-len out c (omega arith) in
    put_out-kept (out_ch out c) text i (omega (arith, step))
      (ground (arith, step, out_ch-cap out c))
    ∙ out_ch-kept out c i (omega arith) (ground arith)

put_out-put :
    (out : FmtOut) (text : List ℕ) (k : ℕ)
    → out.len + length text < 2 ^ 64
    → k < length text
    → out.len + k + 1 < out.cap
    → (put_out out text).buf (out.len + k) ≡ get_or text k 0
unfolding put_out
put_out-put out [] k h l room = absurd (omega arith)
put_out-put out (c ∷ text) zero h l room =
    let step = out_ch-len out c (omega arith) in
    let here : out.len + 0 ≡ out.len = omega arith in
    rw here (
      put_out-kept (out_ch out c) text out.len (omega (arith, step)) (inl (omega (arith, step)))
      ∙ out_ch-put out c (omega arith) (omega arith))
put_out-put out (c ∷ text) (suc k) h l room =
    let step = out_ch-len out c (omega arith) in
    let there : out.len + suc k ≡ (out_ch out c).len + k = omega (arith, step) in
    rw there (
      put_out-put (out_ch out c) text k (omega (arith, step)) (omega arith)
        (omega (arith, step, out_ch-cap out c)))

-- the place of the NUL
abbrev pub end_of : ℕ → ℕ → ℕ
end_of size count = if ltb size count then size else count - 1

-- `m` holds as much of `text` as fits into `count` characters, a NUL behind it, and is `buffer`
-- elsewhere.
abbrev pub Holds : Buffer → ℕ → List ℕ → Buffer → Type 0
Holds buffer count text m =
    ((i : ℕ) → i < length text → i + 1 < count → m i ≡ get_or text i 0)
    × (0 < count → m (end_of (length text) count) ≡ 0)
    × ((i : ℕ) → (count ≤ i) ⊎ (length text < i) → m i ≡ buffer i)

abbrev pub start : Buffer → ℕ → FmtOut
start buffer count = record { buf = buffer; cap = count; len = 0 }

nul_kept :
    (out : FmtOut) (i : ℕ)
    → (i ≢ end_of out.len out.cap) ⊎ (out.cap ≤ i)
    → terminate out i ≡ out.buf i
unfolding terminate
nul_kept out i side = elim (Bool-cases (ltb 0 out.cap)) [
  | inl room ↦
      rw room (put_other out.buf (end_of out.len out.cap) 0 i (λ e. ground (arith, room, e, side)))
  | inr full ↦ rw full refl
]

nul_there : (out : FmtOut) → 0 < out.cap → terminate out (end_of out.len out.cap) ≡ 0
unfolding terminate
nul_there out h =
    let room : ltb 0 out.cap ≡ true = ground arith in
    rw room (put_here out.buf (end_of out.len out.cap) 0)

module _ (buffer : Buffer) (count : ℕ) (text : List ℕ) (h : length text < 2 ^ 64) where
  abbrev pub filled : FmtOut
  filled = put_out (start buffer count) text

  pub size : filled.len ≡ length text
  size = omega (arith, put_out-len (start buffer count) text (omega arith))

  room : filled.cap ≡ count
  room = (put_out-len (start buffer count) text (omega arith)).1

  pub held : Holds buffer count text (terminate filled)
  held = (
    λ i l r.
        let place : i ≡ (start buffer count).len + i = omega arith in
        nul_kept filled i (inl λ e. ground (arith, e, l, r, size, room))
        ∙ ap filled.buf place
        ∙ put_out-put (start buffer count) text i (omega arith) (omega (arith, l))
            (omega (arith, r)),
    λ r.
        ap (terminate filled) (ap₂ end_of (sym size) (sym room))
        ∙ nul_there filled (omega (arith, r, room)),
    λ i side.
        nul_kept filled i (ground (arith, size, room, side))
        ∙ put_out-kept (start buffer count) text i (omega arith) (ground (arith, side)),
  )

-- The text, if there is one, is shorter than 2 ^ 64 characters.
abbrev pub Fits : Outcome (List ℕ) → Type 0
Fits (done text) = length text < 2 ^ 64
Fits undefined = Unit {0}
Fits unfinished = Unit {0}

-- What a call answers whose format stands for that text.
abbrev pub Answers : Outcome (List ℕ) → Buffer → ℕ → Outcome (Buffer × ℤ) → Type 0
Answers (done text) buffer count o =
    (m : Buffer) × (o ≡ done (m, signed 32 (length text % 2 ^ 32))) × Holds buffer count text m
Answers undefined buffer count o = o ≡ undefined
Answers unfinished buffer count o = ⊥
