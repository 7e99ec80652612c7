-- ===== src/Unicode/Print.antt =====
-- Printing of text by os/kernel/unicode.c: what code page 437 can show comes out as its own byte.
use lardos.Unicode.Table.{cp437_unicode}
use lardos.Base.{
  ℕ, zero, suc, ◌≤◌, ◌<◌, ◌≡◌, refl, ◌&&◌, ◌||◌, Bool, true, false, some, List, [], ◌∷◌, ◌++◌,
  arith, ◌==◌, get_or, tested_below, tested_below-at, All, length, ltb, length-append, leb,
}
use lardos.Unicode.Encode.{encode, next_encode}
use lardos.Unicode.{
  put_cp437_glyph, print_loop, unicode_to_cp437, utf8_read, unicode_utf8_to_cp437, find_glyph,
  utf8_next,
}

-- the code point that a byte of code page 437 shows
abbrev pub glyph : ℕ → ℕ
glyph b = get_or cp437_unicode b 0

-- the UTF-8 text that shows the bytes
abbrev pub utf8_of : List ℕ → List ℕ
utf8_of [] = []
utf8_of (b ∷ bytes) = encode (glyph b) ++ utf8_of bytes

-- its glyph prints as the byte, and is a code point
printable : ℕ → Bool
printable b =
    put_cp437_glyph (glyph b) == b && (b == 0 || ltb 0 (glyph b)) && leb (glyph b) 0x10FFFF

table : tested_below 256 printable ≡ true
unfolding tested_below printable put_cp437_glyph unicode_to_cp437 find_glyph cp437_unicode
table = refl

abbrev pub IsGlyph : ℕ → Type 0
IsGlyph b = (0 < b) × (b < 256)

module _ (b : ℕ) (h : IsGlyph b) where
  glyph_back : put_cp437_glyph (glyph b) ≡ b
  unfolding printable
  glyph_back = ground (arith, tested_below-at 256 printable b table)

  glyph_range : (0 < glyph b) × (glyph b ≤ 0x10FFFF)
  unfolding printable
  glyph_range = ground (arith, tested_below-at 256 printable b table)

print_one :
    (fuel b : ℕ) (rest out : List ℕ)
    → IsGlyph b
    → print_loop fuel rest ≡ some out
    → print_loop (suc fuel) (encode (glyph b) ++ rest) ≡ some (b ∷ out)
unfolding print_loop
print_one fuel b rest out h tail =
    let range = glyph_range b h in
    let here : utf8_next (encode (glyph b) ++ rest) ≡ (glyph b, rest) =
      next_encode (glyph b) rest range.0 range.1 in
    let more : (glyph b == 0) ≡ false = ground arith in
    rw (here, print_loop, more, here, tail, glyph_back b h) refl

print_nil : (fuel : ℕ) → print_loop (suc fuel) [] ≡ some []
unfolding print_loop utf8_next utf8_read
print_nil fuel = refl

print_utf8_of :
    (bytes : List ℕ) (fuel : ℕ)
    → All IsGlyph bytes
    → length bytes < fuel
    → print_loop fuel (utf8_of bytes) ≡ some bytes
print_utf8_of bytes zero all h = absurd (omega arith)
print_utf8_of [] (suc fuel) all h = print_nil fuel
print_utf8_of (b ∷ bytes) (suc fuel) (hb, all) h =
    print_one fuel b (utf8_of bytes) bytes hb (print_utf8_of bytes fuel all (omega arith))

encode_long : (cp : ℕ) → 0 < length (encode cp)
unfolding encode
encode_long cp = ground arith

utf8_of_long : (bytes : List ℕ) → length bytes ≤ length (utf8_of bytes)
utf8_of_long [] = omega arith
utf8_of_long (b ∷ bytes) = omega (
  arith,
  length-append (encode (glyph b)) (utf8_of bytes),
  encode_long (glyph b),
  utf8_of_long bytes,
)

-- Printing the UTF-8 text that shows any bytes of code page 437, none of them NUL, ends and hands
-- those bytes to the screen.
pub prints_glyphs :
    (bytes : List ℕ) → All IsGlyph bytes → unicode_utf8_to_cp437 (utf8_of bytes) ≡ some bytes
prints_glyphs bytes all =
    print_utf8_of bytes (suc (length (utf8_of bytes))) all (omega (arith, utf8_of_long bytes))
