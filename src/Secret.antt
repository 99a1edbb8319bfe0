-- ===== src/Secret.antt =====
-- secret.go: the secrets that encrypt texts for error replies. The block cipher (crypto/aes) is a
-- parameter; `cipher.NewOFB` is written out. Texts and keys are lists of bytes.
pub mod RoundTrip
mod Tests
use Prim.Native.Nat.{bit_xor}
use jonson.Prelude.{
  zero, suc, ℕ, ◌+◌, ◌-◌, ◌*◌, Bool, true, false, ◌&&◌, ◌||◌, Option, none, some, List, [], ◌∷◌,
  ◌++◌, length, ltb, leb, ◌==◌, if◌then◌else◌,
}
use jonson.Text.{Text}
use jonson.Errors.{plain, PanicValue, of_string}
use jonson.Validate.{Result, ok, panicked}
use jonson.Context.{Fallible, value, failure}
use jonson.Base64
use jonson.Method.Messages.{drop}

-- `aes.NewCipher`: the encryption of a block under a key, or none for an error.
abbrev pub NewCipher : Type 0
NewCipher = Text → Option (Text → Text)

abbrev pub block_size : ℕ
block_size = 16

-- `hex.DecodeString`
unfoldable pub hex_digit : ℕ → Option ℕ
hex_digit c =
    if leb b'0' c && leb c b'9'
    then some (c - b'0')
    else if leb b'a' c && leb c b'f'
    then some (c - b'a' + 10)
    else if leb b'A' c && leb c b'F'
    then some (c - b'A' + 10)
    else none

abbrev pub hex_pair : Option ℕ → Option ℕ → Option Text → Option Text
hex_pair (some h) (some l) (some rest) = some ((h * 16 + l) ∷ rest)
hex_pair _ _ _ = none

unfoldable pub hex_decode : Text → Option Text
unfolding hex_digit
hex_decode [] = some []
hex_decode (c ∷ []) = none
hex_decode (c ∷ d ∷ rest) = hex_pair (hex_digit c) (hex_digit d) (hex_decode rest)

unfoldable pub is_key_size : ℕ → Bool
is_key_size n = n == 16 || n == 24 || n == 32

-- The panic texts leave out the error of the decoder and the length.
abbrev pub check_key : Option Text → Result Text
check_key none = panicked (of_string "error encoder: %w")
check_key (some key) =
    if is_key_size (length key)
    then ok key
    else panicked (of_string "error encoder: AES cypher needs to be 16, 24 or 32 bytes long, got: ")

-- `NewAESSecret`
unfoldable pub new_aes_secret : Text → Result Text
unfolding hex_decode is_key_size
new_aes_secret hex = check_key (hex_decode hex)

-- `XORKeyStream` of OFB: the key stream is the block that the cipher makes of the block before.
unfoldable pub xor_key_stream : (Text → Text) → Text → Text → Text → Text
xor_key_stream encrypt block stream [] = []
xor_key_stream encrypt block (k ∷ ks) (d ∷ ds) = bit_xor d k ∷ xor_key_stream encrypt block ks ds
xor_key_stream encrypt block [] (d ∷ ds) = elim (encrypt block) [
  | [] ↦ []
  | k ∷ ks ↦ bit_xor d k ∷ xor_key_stream encrypt (encrypt block) ks ds
]

unfoldable pub ofb : (Text → Text) → Text → Text → Text
unfolding xor_key_stream
ofb encrypt iv text = xor_key_stream encrypt iv [] text

-- `AESSecret.Encode`; the initialization vector is none where the source of random bytes fails.
abbrev pub sealed : Option (Text → Text) → Option Text → Text → Text
sealed none iv text = []
sealed (some encrypt) none text = []
sealed (some encrypt) (some iv) text = Base64.encode (iv ++ ofb encrypt iv text)

unfoldable pub encode : NewCipher → Text → Option Text → Text → Text
unfolding ofb Base64.encode
encode new_cipher key iv text = sealed (new_cipher key) iv text

unfoldable pub take {ℓ} : {A : Type ℓ} → ℕ → List A → List A
take n [] = []
take zero (x ∷ xs) = []
take (suc n) (x ∷ xs) = x ∷ take n xs

-- `AESSecret.Decode`. The text of the decoder's and of the cipher's error is left out.
abbrev pub opened : Option (Text → Text) → Text → Fallible Text
opened none encoded = failure (plain "crypto/aes: invalid key size")
opened (some encrypt) encoded =
    value (ofb encrypt (take block_size encoded) (drop block_size encoded))

abbrev pub decode_bytes : NewCipher → Text → Option Text → Fallible Text
decode_bytes new_cipher key none = failure (plain "illegal base64 data")
decode_bytes new_cipher key (some encoded) =
    if ltb (length encoded) block_size
    then failure (plain "encoded text too short")
    else opened (new_cipher key) encoded

unfoldable pub decode : NewCipher → Text → Text → Fallible Text
unfolding ofb take drop Base64.decode
decode new_cipher key text = decode_bytes new_cipher key (Base64.decode text)

-- `DebugSecret` does not encrypt.
unfoldable pub debug_encode : Text → Text
debug_encode text = text

unfoldable pub debug_decode : Text → Fallible Text
debug_decode text = value text
