-- ===== src/Base64.antt =====
-- os/kernel/base64.c: the encoder and the decoder. The input is the list of the `len` bytes at `in`, so
-- the index runs over the list; the output is the list of bytes written at `out`, and the returned
-- length is its length. The terminating NUL of the encoder is left out. The indices `i` and `j` are
-- `uint32_t`, and where one would wrap the model has no result.
pub mod Round
mod Tests
use lardos.Base.Words.{u8, ◌>>=◌}
use lardos.Base.Text.{codes}
use lardos.Base.{
  ℕ, ◌+◌, ◌-◌, ◌*◌, ◌/◌, ◌^◌, ◌&&◌, none, some, Option, List, [], ◌∷◌, ◌++◌, ◌==◌, if◌then◌else◌,
  get_or, bit_or, leb, ltb, length, bit_and,
}

unfoldable pub b64_chars : List ℕ
b64_chars = codes "ABCDEFGHIJKLMNOPQRSTUVWXYZabcdefghijklmnopqrstuvwxyz0123456789+/"

-- `b64_chars[(v >> shift) & 63]`
abbrev pub digit : ℕ → ℕ → ℕ
digit v shift = get_or b64_chars (bit_and (v / 2 ^ shift) 63) 0

-- the four characters of one round of the encoder's loop
abbrev pub group : ℕ → List ℕ
group v = digit v 18 ∷ digit v 12 ∷ digit v 6 ∷ digit v 0 ∷ []

-- the bytes at `out` as long as `j` does not wrap
unfoldable pub encode_loop : List ℕ → List ℕ
encode_loop (a ∷ b ∷ c ∷ rest) =
    group (bit_or (bit_or (a * 2 ^ 16) (b * 2 ^ 8)) c) ++ encode_loop rest
encode_loop (a ∷ b ∷ []) =
    let v = bit_or (a * 2 ^ 16) (b * 2 ^ 8) in digit v 18 ∷ digit v 12 ∷ digit v 6 ∷ b'=' ∷ []
encode_loop (a ∷ []) = let v = a * 2 ^ 16 in digit v 18 ∷ digit v 12 ∷ b'=' ∷ b'=' ∷ []
encode_loop [] = []

-- `j` behind the last round
abbrev pub encoded_size : ℕ → ℕ
encoded_size len = 4 * ((len + 2) / 3)

-- `none`: `j` wraps
unfoldable pub base64_encode : List ℕ → Option (List ℕ)
base64_encode bytes =
    if ltb (encoded_size (length bytes)) (2 ^ 32) then some (encode_loop bytes) else none

-- `none` is -1.
unfoldable pub b64_val : ℕ → Option ℕ
b64_val c =
    if leb b'A' c && leb c b'Z'
    then some (c - b'A')
    else if leb b'a' c && leb c b'z'
    then some (c - b'a' + 26)
    else if leb b'0' c && leb c b'9'
    then some (c - b'0' + 52)
    else if c == b'+'
    then some 62
    else if c == b'/'
    then some 63
    else none

-- `(in[i] == '=') ? -1 : b64_val(in[i])`
abbrev pub padded : ℕ → Option ℕ
padded c = if c == b'=' then none else b64_val c

-- `c < 0 ? 0 : c`
abbrev pub or_zero : Option ℕ → ℕ
or_zero none = 0
or_zero (some k) = k

-- `if (c >= 0) out[j++] = byte;`
abbrev pub put_if : Option ℕ → ℕ → List ℕ → List ℕ
put_if none byte out = out
put_if (some k) byte out = byte ∷ out

-- the bytes of one round of the decoder's loop, before those of the rounds behind it
unfoldable pub ungroup : ℕ → ℕ → Option ℕ → Option ℕ → List ℕ → List ℕ
ungroup a b c d rest =
    let v = bit_or (bit_or (bit_or (a * 2 ^ 18) (b * 2 ^ 12)) (or_zero c * 2 ^ 6)) (or_zero d) in
    u8 (v / 2 ^ 16) ∷ put_if c (u8 (v / 2 ^ 8)) (put_if d (u8 v) rest)

-- `none` is the result (uint32_t)-1. Fewer than four characters at the end are ignored.
unfoldable pub decode_loop : List ℕ → Option (List ℕ)
decode_loop (c0 ∷ c1 ∷ c2 ∷ c3 ∷ rest) = do
  a ← b64_val c0
  b ← b64_val c1
  behind ← decode_loop rest
  some (ungroup a b (padded c2) (padded c3) behind)
decode_loop _ = some []

-- The outer `none`: `i + 4` wraps.
unfoldable pub base64_decode : List ℕ → Option (Option (List ℕ))
base64_decode text = if ltb (length text + 4) (2 ^ 32) then some (decode_loop text) else none
