-- ===== src/Printf.antt =====
-- os/kernel/lard_printf.c: formatted printing into a buffer of bounded size. The buffer is a function
-- from places to characters, a C string the list of its characters before the NUL, and the variable
-- arguments a list. `size_t` and `long` have 64 bits, as in the long-mode kernel.
pub mod Format
pub mod Emits
pub mod Render
pub mod Rounds
pub mod Text
pub mod Number
mod Tests
use lardos.Base.{
  ℕ, zero, suc, ◌+◌, ◌-◌, ◌*◌, ◌/◌, ◌%◌, ◌^◌, ◌&&◌, ◌||◌, Bool, true, false, none, some, Option,
  List, [], ◌∷◌, ◌==◌, if◌then◌else◌, ltb, leb, not, length,
}
use lardos.Base.Int.{ℤ, pos, negsuc, signed}

abbrev pub u64 : ℕ → ℕ
u64 x = x % 2 ^ 64

abbrev pub Buffer : Type 0
Buffer = ℕ → ℕ

abbrev pub put : Buffer → ℕ → ℕ → Buffer
put m a v x = if x == a then v else m x

-- `fmt_out_t`
pub record FmtOut : Type 0 where
  pub buf : Buffer
  pub cap : ℕ
  pub len : ℕ

unfoldable pub out_ch : FmtOut → ℕ → FmtOut
out_ch out ch = record {
  buf =
      if ltb 0 out.cap && ltb (u64 (out.len + 1)) out.cap then put out.buf out.len ch else out.buf;
  cap = out.cap;
  len = u64 (out.len + 1);
}

unfoldable pub out_repeat : FmtOut → ℕ → ℕ → FmtOut
out_repeat out ch zero = out
out_repeat out ch (suc count) = out_repeat (out_ch out ch) ch count

unfoldable pub out_strn : FmtOut → List ℕ → ℕ → FmtOut
out_strn out s zero = out
out_strn out [] (suc n) = out
out_strn out (c ∷ s) (suc n) = out_strn (out_ch out c) s n

-- `digits[d]`, for `d` below 16
abbrev pub digit_char : Bool → ℕ → ℕ
digit_char uppercase d = if ltb d 10 then b'0' + d else (if uppercase then b'A' else b'a') + d - 10

-- The loop of `utoa_rev`, with fuel.
unfoldable pub utoa_loop : ℕ → ℕ → ℕ → Bool → List ℕ
utoa_loop zero value base uppercase = []
utoa_loop (suc fuel) value base uppercase =
    let rest = utoa_loop fuel (value / base) base uppercase in
    if value == 0 then [] else digit_char uppercase (value % base) ∷ rest

-- `utoa_rev`: the digits of `tmp`, lowest first; 64 rounds are enough for a `uint64_t`
unfoldable pub utoa_rev : ℕ → ℕ → Bool → List ℕ
utoa_rev value base uppercase = if value == 0 then b'0' ∷ [] else utoa_loop 64 value base uppercase

-- `while (digits-- > 0) out_ch(out, tmp[digits]);`
unfoldable pub out_digits : FmtOut → List ℕ → FmtOut
out_digits out [] = out
out_digits out (d ∷ tmp) = out_ch (out_digits out tmp) d

-- The flags and the width of a conversion.
pub record Layout : Type 0 where
  pub width : ℕ
  pub zero_pad : Bool
  pub left_align : Bool

-- `width > total ? width - total : 0`
abbrev pub pad_of : Layout → ℕ → ℕ
pad_of l total = if ltb total l.width then l.width - total else 0

abbrev pub pad_if : Bool → FmtOut → ℕ → ℕ → FmtOut
pad_if b out ch pad = if b then out_repeat out ch pad else out

-- the digits behind `prefix`, which `out_unsigned` and `out_signed` lay out alike
unfoldable pub out_number : FmtOut → List ℕ → List ℕ → Layout → FmtOut
out_number out prefix tmp l =
    let pad = pad_of l (length tmp + length prefix) in
    let out1 = pad_if (not l.left_align && not l.zero_pad) out b' ' pad in
    let out2 = out_strn out1 prefix (length prefix) in
    let out3 = pad_if (not l.left_align && l.zero_pad) out2 b'0' pad in
    pad_if l.left_align (out_digits out3 tmp) b' ' pad

abbrev pub out_unsigned : FmtOut → ℕ → ℕ → Bool → Layout → List ℕ → FmtOut
out_unsigned out value base uppercase l prefix =
    out_number out prefix (utoa_rev value base uppercase) l

-- `mag`: `-(value + 1)` is `n` for the value `-(n + 1)`
abbrev pub magnitude64 : ℤ → ℕ
magnitude64 (pos n) = n
magnitude64 (negsuc n) = u64 (n + 1)

abbrev pub sign_of : ℤ → List ℕ
sign_of (pos n) = []
sign_of (negsuc n) = b'-' ∷ []

abbrev pub out_signed : FmtOut → ℤ → Layout → FmtOut
out_signed out value l = out_number out (sign_of value) (utoa_rev (magnitude64 value) 10 false) l

-- An argument: the 64 bits of its slot, or a string, which may be null.
pub data Arg : Type 0 where
  word : ℕ → Arg
  string : Option (List ℕ) → Arg

-- What a run comes to: a result, or something that C leaves undefined (an argument that is missing or
-- of another type, a width beyond `int`); `unfinished` is a run that is out of fuel.
pub data Outcome (A : Type 0) : Type 0 where
  done : A → Outcome A
  undefined : Outcome A
  unfinished : Outcome A

-- `if (*p == c) { flag = 1; p++; }`
abbrev pub flag : ℕ → List ℕ → Bool × List ℕ
flag c [] = (false, [])
flag c (d ∷ p) = if d == c then (true, p) else (false, d ∷ p)

-- the loop that reads the width
unfoldable pub read_width : ℕ → List ℕ → Option (ℕ × List ℕ)
read_width width [] = some (width, [])
read_width width (c ∷ p) =
    let rest = read_width (width * 10 + (c - b'0')) p in
    if leb b'0' c && leb c b'9'
    then if ltb (width * 10 + (c - b'0')) (2 ^ 31) then rest else none
    else some (width, c ∷ p)

-- `length`: 1 for `l`, 2 for `ll`, 3 for `z`
abbrev pub read_length : List ℕ → ℕ × List ℕ
read_length p =
    let l = flag b'l' p in
    let ll = flag b'l' l.1 in
    let z = flag b'z' p in
    if l.0 then if ll.0 then (2, ll.1) else (1, l.1) else if z.0 then (3, z.1) else (0, p)

abbrev pub null_text : List ℕ
null_text = b'(' ∷ b'n' ∷ b'u' ∷ b'l' ∷ b'l' ∷ b')' ∷ []

-- the integer that `va_arg` gives for the length 0 to 3, unsigned and signed
abbrev pub unsigned_arg : ℕ → ℕ → ℕ
unsigned_arg len v = if len == 0 then v % 2 ^ 32 else u64 v

abbrev pub signed_arg : ℕ → ℕ → ℤ
signed_arg len v = if len == 1 || len == 2 then signed 64 (u64 v) else signed 32 (v % 2 ^ 32)

abbrev pub out_padded : FmtOut → List ℕ → Layout → FmtOut
out_padded out s l =
    let pad = pad_of l (length s) in
    pad_if l.left_align (out_strn (pad_if (not l.left_align) out b' ' pad) s (length s)) b' ' pad

-- the character of `%c`; its padding is that of one character
abbrev pub out_padded_ch : FmtOut → ℕ → Layout → FmtOut
out_padded_ch out ch l =
    let pad = pad_of l 1 in
    pad_if l.left_align (out_ch (pad_if (not l.left_align) out b' ' pad) ch) b' ' pad

-- The cases of `switch (spec)` that take the word `v`.
unfoldable pub convert_word : FmtOut → Layout → ℕ → ℕ → ℕ → FmtOut
convert_word out l len spec v =
    if spec == b'c'
    then out_padded_ch out (v % 2 ^ 8) l
    else if spec == b'd' || spec == b'i'
    then out_signed out (signed_arg len v) l
    else if spec == b'u'
    then out_unsigned out (unsigned_arg len v) 10 false l []
    else if spec == b'p'
    then out_unsigned out (u64 v) 16 false l (b'0' ∷ b'x' ∷ [])
    else out_unsigned out (unsigned_arg len v) 16 (spec == b'X') l []

abbrev pub takes_word : ℕ → Bool
takes_word spec =
    spec == b'c'
    || spec == b'd'
    || spec == b'i'
    || spec == b'u'
    || spec == b'x'
    || spec == b'X'
    || spec == b'p'

abbrev pub convert_arg : FmtOut → Layout → ℕ → ℕ → List Arg → Outcome (FmtOut × List Arg)
convert_arg out l len spec [] = undefined
convert_arg out l len spec (word v ∷ args) =
    if spec == b's' then undefined else done (convert_word out l len spec v, args)
convert_arg out l len spec (string none ∷ args) =
    if spec == b's' then done (out_padded out null_text l, args) else undefined
convert_arg out l len spec (string (some s) ∷ args) =
    if spec == b's' then done (out_padded out s l, args) else undefined

-- `switch (spec)`; the end of the format is `none`
abbrev pub convert : FmtOut → Layout → ℕ → Option ℕ → List Arg → Outcome (FmtOut × List Arg)
convert out l len none args = done (out_ch out b'%', args)
convert out l len (some spec) args =
    if takes_word spec || spec == b's'
    then convert_arg out l len spec args
    else done (out_ch (out_ch out b'%') spec, args)
