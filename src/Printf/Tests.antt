-- ===== src/Printf/Tests.antt =====
-- Runs of os/kernel/lard_printf.c, and its theorems at concrete formats.
use lardos.Base.{length, ◌<◌, ◌≤◌, arith, ℕ, ◌≡◌, refl, none, some, List, [], ◌∷◌, All}
use lardos.Base.Int.{ℤ, pos}
use lardos.Printf.Text.{Holds}
use lardos.Printf.Number.{IsDigit, reads, decimal_lem, decimal_format}
use lardos.Printf.{
  Arg, word, string, Outcome, done, undefined, unfinished, Buffer, out_ch, out_repeat, out_strn,
  utoa_loop, utoa_rev, out_digits, out_number, read_width, convert_word,
}
use lardos.Printf.Format.{vsnprintf, format_loop, format_step, after_flags, terminate}

abbrev clean : Buffer
clean x = 170

-- the first characters of what is written to a buffer with room for `count`
abbrev printed : ℕ → List ℕ → List Arg → Outcome (List ℕ × ℤ)
printed count format args = elim (vsnprintf clean count (some format) args) [
  | done (m, r) ↦ done (m 0 ∷ m 1 ∷ m 2 ∷ m 3 ∷ m 4 ∷ m 5 ∷ [], r)
  | undefined ↦ undefined
  | unfinished ↦ unfinished
]

-- "%04x" of 0x2BC, "%-4dz" of -7, and a text that is cut
formatted :
    (printed 6 (b'%' ∷ b'0' ∷ b'4' ∷ b'x' ∷ []) (word 0x2BC ∷ [])
      ≡ done (b'0' ∷ b'2' ∷ b'b' ∷ b'c' ∷ 0 ∷ 170 ∷ [], pos 4))
    × (printed 6 (b'%' ∷ b'-' ∷ b'4' ∷ b'd' ∷ b'z' ∷ []) (word 0xFFFFFFF9 ∷ [])
        ≡ done (b'-' ∷ b'7' ∷ b' ' ∷ b' ' ∷ b'z' ∷ 0 ∷ [], pos 5))
    × (printed 4 (b'%' ∷ b's' ∷ b'!' ∷ []) (string none ∷ [])
        ≡ done (b'(' ∷ b'n' ∷ b'u' ∷ 0 ∷ 170 ∷ 170 ∷ [], pos 7))
    × (printed 4 (b'%' ∷ b's' ∷ []) [] ≡ undefined)
unfolding vsnprintf format_loop format_step after_flags terminate out_ch out_repeat out_strn
    utoa_loop utoa_rev out_digits out_number read_width convert_word
formatted = (refl, refl, refl, refl)

abbrev cut_format : List ℕ
cut_format = b'%' ∷ b'5' ∷ b'x' ∷ b'!' ∷ []

decimal_lem_example :
    (text : List ℕ) × All IsDigit text
    × (reads 10 0 text ≡ 70500)
    × (0 < length text)
    × (length text ≤ 20)
    × ((buffer : Buffer) (count : ℕ)
        → (m : Buffer) × (vsnprintf buffer count (some decimal_format) (word 70500 ∷ [])
            ≡ done (m, pos (length text)))
          × Holds buffer count text m)
decimal_lem_example = decimal_lem 70500 (omega arith)
