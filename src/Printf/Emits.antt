-- ===== src/Printf/Emits.antt =====
-- What the printers of os/kernel/lard_printf.c add to the output, as texts.
use lardos.Base.{
  ℕ, zero, suc, ◌+◌, ◌≡◌, ◌∙◌, refl, Bool, true, false, List, [], ◌∷◌, ◌++◌, ap, sym, length, not,
  ◌&&◌, if◌then◌else◌, replicate,
}
use lardos.Printf.{
  FmtOut, out_ch, out_repeat, out_strn, out_digits, out_number, Layout, pad_of, pad_if, out_padded,
  out_padded_ch,
}

-- The characters of a text, put out one behind the other.
unfoldable pub put_out : FmtOut → List ℕ → FmtOut
put_out out [] = out
put_out out (c ∷ text) = put_out (out_ch out c) text

pub put_out-append :
    (out : FmtOut) (s t : List ℕ) → put_out out (s ++ t) ≡ put_out (put_out out s) t
unfolding put_out
put_out-append out [] t = refl
put_out-append out (c ∷ s) t = put_out-append (out_ch out c) s t

unfoldable pub backwards : List ℕ → List ℕ
backwards [] = []
backwards (d ∷ tmp) = backwards tmp ++ (d ∷ [])

pub out_repeat-copies :
    (out : FmtOut) (ch n : ℕ) → out_repeat out ch n ≡ put_out out (replicate n ch)
unfolding out_repeat put_out
out_repeat-copies out ch zero = refl
out_repeat-copies out ch (suc n) = out_repeat-copies (out_ch out ch) ch n

pub out_strn-whole : (out : FmtOut) (s : List ℕ) → out_strn out s (length s) ≡ put_out out s
unfolding out_strn put_out
out_strn-whole out [] = refl
out_strn-whole out (c ∷ s) = out_strn-whole (out_ch out c) s

pub out_digits-backwards :
    (out : FmtOut) (tmp : List ℕ) → out_digits out tmp ≡ put_out out (backwards tmp)
unfolding out_digits put_out backwards
out_digits-backwards out [] = refl
out_digits-backwards out (d ∷ tmp) =
    ap (λ o. out_ch o d) (out_digits-backwards out tmp)
    ∙ sym (put_out-append out (backwards tmp) (d ∷ []))

abbrev pub copies_if : Bool → ℕ → ℕ → List ℕ
copies_if b ch n = if b then replicate n ch else []

pub pad_if-copies :
    (b : Bool) (out : FmtOut) (ch n : ℕ) → pad_if b out ch n ≡ put_out out (copies_if b ch n)
unfolding put_out
pad_if-copies true out ch n = out_repeat-copies out ch n
pad_if-copies false out ch n = refl

-- The text of a number: the prefix and the digits, with blanks before or behind, or zeros between.
abbrev pub number_text : List ℕ → List ℕ → Layout → List ℕ
number_text prefix tmp l =
    let pad = pad_of l (length tmp + length prefix) in
    copies_if (not l.left_align && not l.zero_pad) b' ' pad
    ++ (prefix
        ++ (copies_if (not l.left_align && l.zero_pad) b'0' pad
            ++ (backwards tmp ++ copies_if l.left_align b' ' pad)))

pub out_number-text :
    (out : FmtOut) (prefix tmp : List ℕ) (l : Layout)
    → out_number out prefix tmp l ≡ put_out out (number_text prefix tmp l)
unfolding out_number
out_number-text out prefix tmp l =
    let pad = pad_of l (length tmp + length prefix) in
    rw
      (
        pad_if-copies (not l.left_align && not l.zero_pad) out b' ' pad,
        out_strn-whole,
        pad_if-copies (not l.left_align && l.zero_pad),
        out_digits-backwards,
        pad_if-copies l.left_align,
        put_out-append,
        put_out-append,
        put_out-append,
        put_out-append,
      )
      refl

abbrev pub padded_text : List ℕ → ℕ → Layout → List ℕ
padded_text s n l =
    copies_if (not l.left_align) b' ' (pad_of l n)
    ++ (s ++ copies_if l.left_align b' ' (pad_of l n))

pub out_padded-text :
    (out : FmtOut) (s : List ℕ) (l : Layout)
    → out_padded out s l ≡ put_out out (padded_text s (length s) l)
out_padded-text out s l =
    rw
      (
        pad_if-copies (not l.left_align) out b' ' (pad_of l (length s)),
        out_strn-whole,
        pad_if-copies l.left_align,
        put_out-append,
        put_out-append,
      )
      refl

pub out_padded_ch-text :
    (out : FmtOut) (ch : ℕ) (l : Layout)
    → out_padded_ch out ch l ≡ put_out out (padded_text (ch ∷ []) 1 l)
unfolding put_out
out_padded_ch-text out ch l =
    rw
      (
        pad_if-copies (not l.left_align) out b' ' (pad_of l 1),
        pad_if-copies l.left_align,
        put_out-append,
      )
      refl
