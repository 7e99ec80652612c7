-- ===== src/Base64/Tests.antt =====
-- Runs of os/kernel/base64.c, and its theorem at a concrete text.
use lardos.Base.{ℕ, List, ◌≡◌, refl, none, some, arith}
use lardos.Base64.{
  base64_encode, encode_loop, decode_loop, base64_decode, b64_chars, b64_val, ungroup,
}
use lardos.Base.Text.{codes}
use lardos.Base64.Round.{decode-encode}

encodes_man : base64_encode (codes "Ma") ≡ some (codes "TWE=")
unfolding base64_encode encode_loop b64_chars
encodes_man = refl

refuses : base64_decode (codes "TW=E!WE=") ≡ some none
unfolding base64_decode decode_loop b64_val ungroup
refuses = refl

decode-encode_example :
    (text : List ℕ) × (base64_encode (codes "light") ≡ some text)
    × (base64_decode text ≡ some (some (codes "light")))
decode-encode_example = decode-encode (codes "light") (omega arith) (omega arith)
