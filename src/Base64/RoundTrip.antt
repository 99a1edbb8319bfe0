-- ===== src/Base64/RoundTrip.antt =====
-- What the base64 encoding writes, it reads.
use jonson.Prelude.{
  ℕ, ◌+◌, ◌*◌, ◌/◌, ◌%◌, ◌<◌, false, some, [], ◌∷◌, ◌≡◌, refl, ap, ◌∙◌, arith, All, ◌==◌, ◌||◌,
  length,
}
use jonson.Text.{Text}
use mathlib.Core.Path.{ap₂}
use jonson.Base64.{
  one_byte, two_bytes, three_bytes, char_of, sextet_of, encode, decode_quanta, strip, decode,
}

abbrev pub AreBytes : Text → Type 0
AreBytes = All (λ c. c < 256)

sextet_of-char_of : (n : ℕ) → n < 64 → sextet_of (char_of n) ≡ some n
unfolding sextet_of char_of
sextet_of-char_of n h = ground arith

char_of-ne-pad : (n : ℕ) → n < 64 → (char_of n == b'=') ≡ false
unfolding char_of
char_of-ne-pad n h = ground arith

char_of-no_break : (n : ℕ) → n < 64 → (char_of n == 10 || char_of n == 13) ≡ false
unfolding char_of
char_of-no_break n h = ground arith

strip-char_of : (n : ℕ) (s : Text) → n < 64 → strip s ≡ s → strip (char_of n ∷ s) ≡ char_of n ∷ s
unfolding strip
strip-char_of n s h e = rw (char_of-no_break n h) (ap (◌∷◌ (char_of n)) e)

strip-pad : strip (b'=' ∷ b'=' ∷ []) ≡ b'=' ∷ b'=' ∷ []
unfolding strip
strip-pad = refl

strip-pad_one : strip (b'=' ∷ []) ≡ b'=' ∷ []
unfolding strip
strip-pad_one = refl

strip-encode : (s : Text) → AreBytes s → strip (encode s) ≡ encode s
unfolding encode
strip-encode [] h = unfold strip in refl
strip-encode (a ∷ []) h =
    strip-char_of (a / 4) _ (omega arith) (strip-char_of (a % 4 * 16) _ (omega arith) strip-pad)
strip-encode (a ∷ b ∷ []) h = strip-char_of (a / 4) _ (omega arith) (
    strip-char_of (a % 4 * 16 + b / 16) _ (omega arith)
      (strip-char_of (b % 16 * 4) _ (omega arith) strip-pad_one))
strip-encode (a ∷ b ∷ c ∷ rest) h = strip-char_of (a / 4) _ (omega arith) (
    strip-char_of (a % 4 * 16 + b / 16) _ (omega arith) (
      strip-char_of (b % 16 * 4 + c / 64) _ (omega arith)
        (strip-char_of (c % 64) _ (omega arith) (strip-encode rest h.1.1.1))))

-- The sextets of one to three bytes give the bytes.
joined_once : (a b : ℕ) → a < 256 → b < 256 → a / 4 * 4 + (a % 4 * 16 + b / 16) / 16 ≡ a
joined_once a b h k = omega arith

joined_twice :
    (a b c : ℕ)
    → a < 256
    → b < 256
    → c < 256
    → (a % 4 * 16 + b / 16) % 16 * 16 + (b % 16 * 4 + c / 64) / 4 ≡ b
joined_twice a b c h k l = omega arith

joined_last : (b c : ℕ) → b < 256 → c < 256 → (b % 16 * 4 + c / 64) % 4 * 64 + c % 64 ≡ c
joined_last b c k l = omega arith

-- A last quantum of two characters, one of three, and a whole one.
two_characters :
    (c d : ℕ) → decode_quanta (c ∷ d ∷ b'=' ∷ b'=' ∷ []) ≡ one_byte (sextet_of c) (sextet_of d)
unfolding decode_quanta
two_characters c d = refl

three_characters :
    (c d e : ℕ)
    → (e == b'=') ≡ false
    → decode_quanta (c ∷ d ∷ e ∷ b'=' ∷ []) ≡ two_bytes (sextet_of c) (sextet_of d) (sextet_of e)
unfolding decode_quanta
three_characters c d e h = rw h

four_characters :
    (c d e f : ℕ) (rest : Text)
    → (f == b'=') ≡ false
    → decode_quanta (c ∷ d ∷ e ∷ f ∷ rest)
      ≡ three_bytes (sextet_of c) (sextet_of d) (sextet_of e) (sextet_of f) (decode_quanta rest)
unfolding decode_quanta
four_characters c d e f rest h = rw h

decode_quanta-encode : (s : Text) → AreBytes s → decode_quanta (encode s) ≡ some s
unfolding encode
decode_quanta-encode [] h = unfold decode_quanta in refl
decode_quanta-encode (a ∷ []) h =
    two_characters (char_of (a / 4)) (char_of (a % 4 * 16))
    ∙ rw (sextet_of-char_of (a / 4) (omega arith), sextet_of-char_of (a % 4 * 16) (omega arith))
        (ap (λ x. some (x ∷ [])) (omega arith))
decode_quanta-encode (a ∷ b ∷ []) h =
    three_characters (char_of (a / 4)) (char_of (a % 4 * 16 + b / 16)) (char_of (b % 16 * 4))
      (char_of-ne-pad (b % 16 * 4) (omega arith))
    ∙ rw
        (
          sextet_of-char_of (a / 4) (omega arith),
          sextet_of-char_of (a % 4 * 16 + b / 16) (omega arith),
          sextet_of-char_of (b % 16 * 4) (omega arith),
        )
        (ap₂ (λ x y. some (x ∷ y ∷ [])) (omega arith) (omega arith))
decode_quanta-encode (a ∷ b ∷ c ∷ rest) h =
    four_characters (char_of (a / 4)) (char_of (a % 4 * 16 + b / 16))
      (char_of (b % 16 * 4 + c / 64)) (char_of (c % 64)) (encode rest)
      (char_of-ne-pad (c % 64) (omega arith))
    ∙ rw
        (
          sextet_of-char_of (a / 4) (omega arith),
          sextet_of-char_of (a % 4 * 16 + b / 16) (omega arith),
          sextet_of-char_of (b % 16 * 4 + c / 64) (omega arith),
          sextet_of-char_of (c % 64) (omega arith),
          decode_quanta-encode rest h.1.1.1,
        )
        (ap₂ (λ x t. some (x ∷ t)) (joined_once a b h.0 h.1.0)
          (ap₂ (λ y z. y ∷ z ∷ rest) (joined_twice a b c h.0 h.1.0 h.1.1.0)
            (joined_last b c h.1.0 h.1.1.0)))

-- Bytes that are encoded are decoded to themselves.
pub decode-encode : (s : Text) → AreBytes s → decode (encode s) ≡ some s
unfolding decode
decode-encode s h = ap decode_quanta (strip-encode s h) ∙ decode_quanta-encode s h

-- Four characters for each three bytes that are begun.
pub length-encode : (s : Text) → length (encode s) ≡ (length s + 2) / 3 * 4
unfolding encode
length-encode [] = refl
length-encode (a ∷ []) = refl
length-encode (a ∷ b ∷ []) = refl
length-encode (a ∷ b ∷ c ∷ rest) = omega (arith, length-encode rest)
