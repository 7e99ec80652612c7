-- ===== src/Unicode/Tests.antt =====
-- Runs of os/kernel/unicode.c, and its theorems at concrete texts.
use lardos.Base.{◌≡◌, refl, some, [], ◌∷◌, ◌++◌, arith, ℕ, List}
use lardos.Unicode.{
  utf8_read, print_loop, utf8_next, unicode_utf8_to_cp437, put_cp437_glyph, unicode_to_cp437,
  find_glyph,
}
use lardos.Unicode.Encode.{encode}
use lardos.Unicode.Accept.{Accepted, utf8_next-encode}
use lardos.Unicode.Print.{utf8_of, prints_glyphs}
use lardos.Unicode.Table.{cp437_unicode}

-- an overlong encoding of a slash, and a lone continuation byte
overlong : utf8_next (0xC0 ∷ 0xAF ∷ []) ≡ (0xFFFD, 0xAF ∷ [])
unfolding utf8_next utf8_read
overlong = refl

unknown_glyph : unicode_utf8_to_cp437 (b'a' ∷ 0xE2 ∷ 0x82 ∷ 0xAC ∷ []) ≡ some (b'a' ∷ b'?' ∷ [])
unfolding print_loop utf8_next utf8_read put_cp437_glyph unicode_to_cp437 cp437_unicode find_glyph
unknown_glyph = refl

-- an overlong form of `/`, which the reader does not accept
abbrev overlong_slash : List ℕ
overlong_slash = 0xE0 ∷ 0x80 ∷ 0xAF ∷ []

utf8_next-encode_example :
    (utf8_next (encode 0x20AC ++ b'!' ∷ []) ≡ (0x20AC, b'!' ∷ [])) × Accepted overlong_slash
utf8_next-encode_example =
    utf8_next-encode 0x20AC (b'!' ∷ []) overlong_slash (omega arith) (omega arith) (omega arith)

prints_glyphs_example :
    unicode_utf8_to_cp437 (utf8_of (b'A' ∷ 0x81 ∷ 0xC9 ∷ [])) ≡ some (b'A' ∷ 0x81 ∷ 0xC9 ∷ [])
prints_glyphs_example = prints_glyphs (b'A' ∷ 0x81 ∷ 0xC9 ∷ []) (omega arith)
