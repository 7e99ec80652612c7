-- ===== src/Printf/Number.antt =====
-- The digits that `utoa_rev` of os/kernel/lard_printf.c makes are those of the number, and fit `tmp`.
use native.Mathlib.Nat.{pow-suc}
use mathlib.Core.Path.{subst, sym}
use lardos.Base.{
  All, All-append, ℕ, zero, suc, ◌+◌, ◌-◌, ◌*◌, ◌/◌, ◌%◌, ◌^◌, ◌≤◌, ◌<◌, ◌≡◌, ◌⊎◌, inl, inr, refl,
  Bool, true, false, List, [], ◌∷◌, ◌++◌, length, arith, leb, ltb, if◌then◌else◌, ◌==◌, Bool-cases,
  ◌∙◌, some, length-append, ap,
}
use lardos.Printf.{
  utoa_loop, digit_char, utoa_rev, Layout, Buffer, read_width, done, convert_word, FmtOut, word,
}
use lardos.Base.Int.{pos, signed}
use lardos.Printf.Emits.{backwards, number_text, put_out, out_number-text}
use lardos.Printf.Format.{format_loop, vsnprintf, format_step, after_flags, terminate}
use lardos.Printf.Text.{Holds, start, held, size}

-- the digit that a character stands for
unfoldable pub char_value : ℕ → ℕ
char_value c =
    if leb c b'9' then c - b'0' else if leb c b'F' then c - (b'A' - 10) else c - (b'a' - 10)

-- The number that a text stands for, its highest digit first; `n` is what stands before.
unfoldable pub reads : ℕ → ℕ → List ℕ → ℕ
reads base n [] = n
reads base n (c ∷ s) = reads base (n * base + char_value c) s

-- The bases of the conversions.
abbrev pub IsBase : ℕ → Type 0
IsBase base = (base ≡ 10) ⊎ (base ≡ 16)

char_value-digit_char :
    (uppercase : Bool) (d : ℕ) → d < 16 → char_value (digit_char uppercase d) ≡ d
unfolding char_value
char_value-digit_char true d h = ground arith
char_value-digit_char false d h = ground arith

reads-behind :
    (base n : ℕ) (s : List ℕ) (c : ℕ)
    → reads base n (s ++ (c ∷ [])) ≡ reads base n s * base + char_value c
unfolding reads
reads-behind base n [] c = refl
reads-behind base n (d ∷ s) c = reads-behind base (n * base + char_value d) s c

IsBase-parts :
    (base value : ℕ)
    → IsBase base
    → (value % base < 16)
      × (value / base * base + value % base ≡ value)
      × (10 * (value / base) ≤ value)
IsBase-parts base value (inl e) = rw e (omega arith, omega arith, omega arith)
IsBase-parts base value (inr e) = rw e (omega arith, omega arith, omega arith)

utoa_loop-reads :
    (fuel value base : ℕ) (uppercase : Bool)
    → IsBase base
    → value < 2 ^ fuel
    → reads base 0 (backwards (utoa_loop fuel value base uppercase)) ≡ value
unfolding utoa_loop backwards reads
utoa_loop-reads zero value base uppercase b h = omega (arith, h)
utoa_loop-reads (suc fuel) value base uppercase b h = elim (Bool-cases (value == 0)) [
  | inl nothing ↦ rw nothing (ground (arith, nothing))
  | inr digit ↦
      let parts = IsBase-parts base value b in
      let rest =
        utoa_loop-reads fuel (value / base) base uppercase b
          (omega (arith, h, parts.2, pow-suc 2 fuel)) in
      rw
        (
          digit,
          reads-behind base 0 (backwards (utoa_loop fuel (value / base) base uppercase)),
          rest,
          char_value-digit_char uppercase (value % base) parts.0,
        )
        parts.1
]

utoa_loop-short :
    (k fuel value base : ℕ) (uppercase : Bool)
    → IsBase base
    → value < 10 ^ k
    → length (utoa_loop fuel value base uppercase) ≤ k
unfolding utoa_loop
utoa_loop-short k zero value base uppercase b h = omega arith
utoa_loop-short zero (suc fuel) value base uppercase b h =
    let nothing : (value == 0) ≡ true = ground (arith, h) in rw nothing (omega arith)
utoa_loop-short (suc k) (suc fuel) value base uppercase b h = elim (Bool-cases (value == 0)) [
  | inl nothing ↦ rw nothing (omega arith)
  | inr digit ↦
      let parts = IsBase-parts base value b in
      let rest =
        utoa_loop-short k fuel (value / base) base uppercase b
          (omega (arith, h, parts.2, pow-suc 10 k)) in
      rw digit (omega (arith, rest))
]

-- The decimal digits.
abbrev pub IsDigit : ℕ → Type 0
IsDigit c = (b'0' ≤ c) × (c ≤ b'9')

utoa_loop-IsDigit : (fuel value : ℕ) → All IsDigit (backwards (utoa_loop fuel value 10 false))
unfolding utoa_loop backwards
utoa_loop-IsDigit zero value = tt
utoa_loop-IsDigit (suc fuel) value = elim (Bool-cases (value == 0)) [
  | inl nothing ↦ rw (nothing, All) tt
  | inr digit ↦
      let low : ltb (value % 10) 10 ≡ true = ground arith in
      rw (digit, low)
        (All-append IsDigit (backwards (utoa_loop fuel (value / 10) 10 false)) _
          (utoa_loop-IsDigit fuel (value / 10)) ((omega arith, omega arith), tt))
]

utoa_rev-IsDigit : (value : ℕ) → All IsDigit (backwards (utoa_rev value 10 false))
unfolding utoa_rev backwards
utoa_rev-IsDigit value = elim (Bool-cases (value == 0)) [
  | inl nothing ↦ rw nothing ((omega arith, omega arith), tt)
  | inr digit ↦ rw digit (utoa_loop-IsDigit 64 value)
]

utoa_loop-some :
    (fuel value base : ℕ) (uppercase : Bool)
    → (value == 0) ≡ false
    → 0 < length (utoa_loop (suc fuel) value base uppercase)
unfolding utoa_loop
utoa_loop-some fuel value base uppercase digit = rw digit (omega arith)

-- For base 10 and base 16 and a 64-bit value, `utoa_rev` makes at least one digit and at most 20, so
-- that they fit the 32 characters of `tmp`, and read from the last to the first they give the value.
pub utoa_rev-digits :
    (value base : ℕ) (uppercase : Bool)
    → IsBase base
    → value < 2 ^ 64
    → (reads base 0 (backwards (utoa_rev value base uppercase)) ≡ value)
      × (0 < length (utoa_rev value base uppercase))
      × (length (utoa_rev value base uppercase) ≤ 20)
unfolding utoa_rev backwards reads char_value
utoa_rev-digits value base uppercase b h = elim (Bool-cases (value == 0)) [
  | inl nothing ↦ rw nothing (ground (arith, nothing), omega arith, omega arith)
  | inr digit ↦ rw digit (
    utoa_loop-reads 64 value base uppercase b h,
    utoa_loop-some 63 value base uppercase digit,
    utoa_loop-short 20 64 value base uppercase b (omega (arith, h)),
  )
]

abbrev plain : Layout
plain = record { width = 0; zero_pad = false; left_align = false }

abbrev decimal_text : ℕ → List ℕ
decimal_text v = number_text [] (utoa_rev (v % 2 ^ 32) 10 false) plain

reads-nothing : (base n : ℕ) (s : List ℕ) → reads base n (s ++ []) ≡ reads base n s
unfolding reads
reads-nothing base n [] = refl
reads-nothing base n (c ∷ s) = reads-nothing base (n * base + char_value c) s

length-backwards : (tmp : List ℕ) → length (backwards tmp) ≡ length tmp
unfolding backwards
length-backwards [] = refl
length-backwards (d ∷ tmp) =
    omega (arith, length-append (backwards tmp) (d ∷ []), length-backwards tmp)

-- The format `%u`.
abbrev pub decimal_format : List ℕ
decimal_format = b'%' ∷ b'u' ∷ []

flat_text : (v : ℕ) → decimal_text v ≡ backwards (utoa_rev (v % 2 ^ 32) 10 false) ++ []
flat_text v =
    let none_left : ltb (length (utoa_rev (v % 2 ^ 32) 10 false) + 0) 0 ≡ false = ground arith in
    rw none_left refl

signed_small : (n : ℕ) → n ≤ 20 → signed 32 (n % 2 ^ 32) ≡ pos n
signed_small n h =
    let small : ltb (n % 2 ^ 32) (2 ^ 31) ≡ true = ground arith in
    let same : n % 2 ^ 32 ≡ n = omega arith in rw small (ap pos same)

decimal_loop :
    (out : FmtOut) (v : ℕ)
    → format_loop 2 out decimal_format (word v ∷ []) ≡ done (put_out out (decimal_text v))
unfolding format_loop format_step after_flags read_width convert_word
decimal_loop out v = ap done (out_number-text out [] (utoa_rev (v % 2 ^ 32) 10 false) plain)

-- `%u` prints an `unsigned int` into any buffer: its text is between 1 and 20 characters, each a digit
-- `0` to `9`, which read back as the number; the call returns how many they are, and the buffer holds
-- those that fit and a NUL behind them, and is unchanged elsewhere.
pub decimal_lem :
    (v : ℕ)
    → v < 2 ^ 32
    → (text : List ℕ) × All IsDigit text
      × (reads 10 0 text ≡ v)
      × (0 < length text)
      × (length text ≤ 20)
      × ((buffer : Buffer) (count : ℕ)
          → (m : Buffer) × (vsnprintf buffer count (some decimal_format) (word v ∷ [])
              ≡ done (m, pos (length text)))
            × Holds buffer count text m)
unfolding vsnprintf
decimal_lem v h =
    let tmp = utoa_rev (v % 2 ^ 32) 10 false in
    let digits = utoa_rev-digits (v % 2 ^ 32) 10 false (inl refl) (omega arith) in
    let flat : decimal_text v ≡ backwards tmp ++ [] = flat_text v in
    let long : length (decimal_text v) ≡ length tmp =
      ap length flat ∙ length-append (backwards tmp) [] ∙ omega (arith, length-backwards tmp) in
    (
      decimal_text v,
      subst (All IsDigit) (sym flat)
          (All-append IsDigit (backwards tmp) [] (utoa_rev-IsDigit (v % 2 ^ 32)) tt),
      ap (reads 10 0) flat ∙ reads-nothing 10 0 (backwards tmp) ∙ digits.0 ∙ omega arith,
      omega (arith, long, digits.1),
      omega (arith, long, digits.2),
      λ buffer count. (
        terminate (put_out (start buffer count) (decimal_text v)),
        rw (decimal_loop (start buffer count) v) (
            ap (λ n. done (terminate (put_out (start buffer count) (decimal_text v)), n))
              (ap (λ n. signed 32 (n % 2 ^ 32))
                  (size buffer count (decimal_text v) (omega (arith, long, digits.2)))
                ∙ signed_small (length (decimal_text v)) (omega (arith, long, digits.2)))),
        held buffer count (decimal_text v) (omega (arith, long, digits.2)),
      ),
    )
