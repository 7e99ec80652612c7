-- ===== src/Unicode.antt =====
-- os/kernel/unicode.c: the UTF-8 reader and the printer to code page 437. A NUL-terminated string is
-- the list of its bytes, and the byte behind them reads as 0; a pointer into it is the list of the bytes
-- from there on. No byte behind the terminator is read: each `&&` stops at a NUL.
pub mod Table
pub mod Encode
pub mod Accept
pub mod Print
mod Tests
use mathlib.Core.Option
use lardos.Base.Words.{byte_at, u8}
use lardos.Unicode.Table.{cp437_unicode}
use lardos.Base.{
  ℕ, zero, suc, ◌+◌, ◌*◌, ◌^◌, ◌&&◌, ◌||◌, Bool, true, false, none, some, Option, List, [], ◌∷◌,
  ◌==◌, if◌then◌else◌, bit_or, bit_and, ltb, drop, length, not,
}

abbrev pub replacement : ℕ
replacement = 0xFFFD

abbrev pub two_bytes : List ℕ → ℕ
two_bytes p = bit_or (bit_and (byte_at p 0) 0x1F * 2 ^ 6) (bit_and (byte_at p 1) 0x3F)

abbrev pub three_bytes : List ℕ → ℕ
three_bytes p =
    bit_or (bit_or (bit_and (byte_at p 0) 0x0F * 2 ^ 12) (bit_and (byte_at p 1) 0x3F * 2 ^ 6))
      (bit_and (byte_at p 2) 0x3F)

abbrev pub four_bytes : List ℕ → ℕ
four_bytes p =
    bit_or
      (bit_or (bit_or (bit_and (byte_at p 0) 0x07 * 2 ^ 18) (bit_and (byte_at p 1) 0x3F * 2 ^ 12))
        (bit_and (byte_at p 2) 0x3F * 2 ^ 6))
      (bit_and (byte_at p 3) 0x3F)

abbrev pub starts_two : List ℕ → Bool
starts_two p =
    bit_and (byte_at p 0) 0xE0 == 0xC0
    && not (byte_at p 1 == 0)
    && bit_and (byte_at p 1) 0xC0 == 0x80

abbrev pub starts_three : List ℕ → Bool
starts_three p =
    bit_and (byte_at p 0) 0xF0 == 0xE0
    && not (byte_at p 1 == 0)
    && not (byte_at p 2 == 0)
    && bit_and (byte_at p 1) 0xC0 == 0x80
    && bit_and (byte_at p 2) 0xC0 == 0x80

abbrev pub starts_four : List ℕ → Bool
starts_four p =
    bit_and (byte_at p 0) 0xF8 == 0xF0
    && not (byte_at p 1 == 0)
    && not (byte_at p 2 == 0)
    && not (byte_at p 3 == 0)
    && bit_and (byte_at p 1) 0xC0 == 0x80
    && bit_and (byte_at p 2) 0xC0 == 0x80
    && bit_and (byte_at p 3) 0xC0 == 0x80

-- The code point, and the number of bytes that `*pp` moves on.
unfoldable pub utf8_read : List ℕ → ℕ × ℕ
utf8_read p =
    if byte_at p 0 == 0
    then (0, 0)
    else if ltb (byte_at p 0) 0x80
    then (byte_at p 0, 1)
    else if starts_two p
    then (if ltb (two_bytes p) 0x80 then (replacement, 1) else (two_bytes p, 2))
    else if starts_three p
    then (if ltb (three_bytes p) 0x800 then (replacement, 1) else (three_bytes p, 3))
    else if starts_four p
    then (if ltb (four_bytes p) 0x10000 || ltb 0x10FFFF (four_bytes p)
        then (replacement, 1)
        else (four_bytes p, 4))
    else (replacement, 1)

unfoldable pub utf8_next : List ℕ → ℕ × List ℕ
utf8_next p = let (cp, moved) = utf8_read p in (cp, drop moved p)

-- `for (i = i; i < 256; i++) if (cp437_unicode[i] == cp) return i;`
unfoldable pub find_glyph : List ℕ → ℕ → ℕ → ℕ
find_glyph [] i cp = b'?'
find_glyph (u ∷ us) i cp = if u == cp then u8 i else find_glyph us (i + 1) cp

unfoldable pub unicode_to_cp437 : ℕ → ℕ
unfolding cp437_unicode find_glyph
unicode_to_cp437 cp = if ltb cp 0x80 then u8 cp else find_glyph cp437_unicode 0 cp

unfoldable pub put_cp437_glyph : ℕ → ℕ
put_cp437_glyph cp = if ltb cp 0x80 then u8 cp else unicode_to_cp437 cp

-- The loop, with fuel, and the bytes that it hands to `put_byte`. `none` means that the fuel ran out.
unfoldable pub print_loop : ℕ → List ℕ → Option (List ℕ)
print_loop zero p = none
print_loop (suc fuel) p =
    let (cp, p') = utf8_next p in
    elim (cp == 0) [
      | true ↦ some []
      | false ↦ Option.map (λ out. put_cp437_glyph cp ∷ out) (print_loop fuel p')
    ]

-- Every round but the last reads a byte at least.
abbrev pub unicode_utf8_to_cp437 : List ℕ → Option (List ℕ)
unicode_utf8_to_cp437 p = print_loop (suc (length p)) p
