-- ===== src/Secret/Tests.antt =====
-- Secrets at concrete inputs, with a toy cipher that accepts what AES accepts.
use jonson.Prelude.{
  none, some, [], ◌∷◌, ◌++◌, ◌≡◌, refl, arith, ◌+◌, ◌*◌, ◌/◌, length, if◌then◌else◌,
}
use jonson.Text.{Text, codes}
use jonson.Errors.{plain}
use jonson.Validate.{ok}
use jonson.Context.{value, failure}
use jonson.Base64
use jonson.Secret.{NewCipher, is_key_size, new_aes_secret, encode, decode}
use jonson.Secret.RoundTrip.{IsBlockCipher, decode-encode_secret}

-- The examples of RFC 4648, section 10, and a text with line breaks.
base64_cases :
    (Base64.encode (codes "f") ≡ codes "Zg==")
    × (Base64.encode (codes "fo") ≡ codes "Zm8=")
    × (Base64.encode (codes "foobar") ≡ codes "Zm9vYmFy")
    × (Base64.decode (codes "Zm9v" ++ 13 ∷ 10 ∷ codes "YmE=") ≡ some (codes "fooba"))
    × (Base64.decode (codes "Zg=") ≡ none)
    × (Base64.decode (codes "Zg==Zg==") ≡ none)
unfolding Base64.encode Base64.decode Base64.char_of Base64.sextet_of
base64_cases = (refl, refl, refl, refl, refl, refl)

abbrev toy_cipher : NewCipher
toy_cipher key = if is_key_size (length key) then some (λ b. b) else none

toy_cipher-IsBlockCipher : IsBlockCipher toy_cipher
toy_cipher-IsBlockCipher = record {
  cipher = λ key h b. b;
  accepts = λ key h. rw h;
  blocks = λ key h b p. p;
}

abbrev key_hex : Text
key_hex = codes "000102030405060708090a0B0C0D0E0F"

abbrev key : Text
key = 0 ∷ 1 ∷ 2 ∷ 3 ∷ 4 ∷ 5 ∷ 6 ∷ 7 ∷ 8 ∷ 9 ∷ 10 ∷ 11 ∷ 12 ∷ 13 ∷ 14 ∷ 15 ∷ []

key_read : new_aes_secret key_hex ≡ ok key
unfolding new_aes_secret
key_read = refl

too_short : decode toy_cipher key (codes "Zm9vYmFy") ≡ failure (plain "encoded text too short")
unfolding decode Base64.sextet_of
too_short = refl

decode-encode_secret_example :
    (decode toy_cipher key (encode toy_cipher key (some key) (codes "a secret of 20 bytes"))
      ≡ value (codes "a secret of 20 bytes"))
    × (length (encode toy_cipher key (some key) (codes "a secret of 20 bytes"))
        ≡ (length (codes "a secret of 20 bytes") + 18) / 3 * 4)
decode-encode_secret_example =
    decode-encode_secret toy_cipher key_hex key key (codes "a secret of 20 bytes")
      toy_cipher-IsBlockCipher key_read (refl, omega arith) (omega arith)
