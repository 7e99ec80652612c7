-- ===== src/Base/Words.antt =====
-- C's unsigned words as native numbers: the casts, the wrapping arithmetic of `uint32_t`, and
-- little-endian reads of an image.
use lardos.Base.Lists.{length}
use lardos.Base.Arrays.{get_or, get_elem?, get_elem?-eq-get_or}
use lardos.Base.Bits.{bit_or_low}
use Prim.Native.Nat.{ℕ, ◌+◌, ◌-◌, ◌*◌, ◌/◌, ◌%◌, ◌^◌, ◌≤◌, ◌<◌, bit_or}
use mathlib.Core.Path.{◌≡◌, refl, ◌∙◌}
use mathlib.Core.List.{List, [], ◌∷◌}
use mathlib.Core.Option.{Option, none, some}
use native.Mathlib.Omega.{arith}

abbrev pub u8 : ℕ → ℕ
u8 x = x % 2 ^ 8

abbrev pub u16 : ℕ → ℕ
u16 x = x % 2 ^ 16

abbrev pub u32 : ℕ → ℕ
u32 x = x % 2 ^ 32

-- `a - b` on `uint32_t`, for `b` below 2 ^ 32
abbrev pub sub32 : ℕ → ℕ → ℕ
sub32 a b = (a + 2 ^ 32 - b) % 2 ^ 32

abbrev pub IsByte : ℕ → Type 0
IsByte b = b < 2 ^ 8

abbrev pub IsU32 : ℕ → Type 0
IsU32 x = x < 2 ^ 32

-- `image[i]`
abbrev pub byte_at : List ℕ → ℕ → ℕ
byte_at image i = get_or image i 0

infixl 5 ◌>>=◌
abbrev pub ◌>>=◌ {ℓ κ} : {A : Type ℓ} {B : Type κ} → Option A → (A → Option B) → Option B
none >>= f = none
some a >>= f = f a

-- the bytes of a `uint32_t`, lowest first
abbrev pub le_word : ℕ → ℕ → ℕ → ℕ → ℕ
le_word b0 b1 b2 b3 = bit_or (bit_or (bit_or b0 (b1 * 2 ^ 8)) (b2 * 2 ^ 16)) (b3 * 2 ^ 24)

-- `rd_u32(image + off)`: `none` is a read outside the image.
unfoldable pub rd_u32 : List ℕ → ℕ → Option ℕ
rd_u32 image off = do
  b0 ← get_elem? image off
  b1 ← get_elem? image (off + 1)
  b2 ← get_elem? image (off + 2)
  b3 ← get_elem? image (off + 3)
  some (le_word b0 b1 b2 b3)

-- the bytes that `img[pos++] = (uint8_t)(v >> 8 * i)` writes for `i` from 0 to 3
abbrev pub le_bytes : ℕ → List ℕ
le_bytes v = u8 v ∷ u8 (v / 2 ^ 8) ∷ u8 (v / 2 ^ 16) ∷ u8 (v / 2 ^ 24) ∷ []

pub le_word-eq :
    (b0 b1 b2 b3 : ℕ)
    → IsByte b0
    → IsByte b1
    → IsByte b2
    → le_word b0 b1 b2 b3 ≡ b0 + b1 * 2 ^ 8 + b2 * 2 ^ 16 + b3 * 2 ^ 24
le_word-eq b0 b1 b2 b3 h0 h1 h2 =
    rw
      (
        bit_or_low 8 b1 b0 h0,
        bit_or_low 16 b2 (b0 + b1 * 2 ^ 8) (omega arith),
        bit_or_low 24 b3 (b0 + b1 * 2 ^ 8 + b2 * 2 ^ 16) (omega arith),
      )
      refl

-- Reading back the bytes that were written gives the word.
pub le_word-le_bytes :
    (v : ℕ) → IsU32 v → le_word (u8 v) (u8 (v / 2 ^ 8)) (u8 (v / 2 ^ 16)) (u8 (v / 2 ^ 24)) ≡ v
le_word-le_bytes v h =
    le_word-eq (u8 v) (u8 (v / 2 ^ 8)) (u8 (v / 2 ^ 16)) (u8 (v / 2 ^ 24)) (omega arith)
      (omega arith) (omega arith)
    ∙ omega arith

abbrev pub word_at : List ℕ → ℕ → ℕ
word_at image off =
    le_word (byte_at image off) (byte_at image (off + 1)) (byte_at image (off + 2))
      (byte_at image (off + 3))

-- A read inside the image succeeds.
pub rd_u32_inside :
    (image : List ℕ) (off : ℕ)
    → off + 4 ≤ length image
    → rd_u32 image off ≡ some (word_at image off)
unfolding rd_u32
rd_u32_inside image off h =
    rw
      (
        get_elem?-eq-get_or image off 0 (omega arith),
        get_elem?-eq-get_or image (off + 1) 0 (omega arith),
        get_elem?-eq-get_or image (off + 2) 0 (omega arith),
        get_elem?-eq-get_or image (off + 3) 0 (omega arith),
      )
      refl
