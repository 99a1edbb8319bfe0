-- ===== src/Secret/RoundTrip.antt =====
-- What an `AESSecret` encrypts, it decrypts.
use Prim.Native.Nat.{bit_xor}
use jonson.Prelude.{
  ℕ, zero, suc, ◌+◌, ◌<◌, ◌*◌, ◌/◌, Bool, true, false, ◌&&◌, Option, none, some, [], ◌∷◌, ◌++◌, ◌≡◌,
  refl, sym, ap, ◌∙◌, arith, ◌⊎◌, All-append, length, length-append, ltb, ◌==◌, Bool-cases, inl,
  inr,
}
use mathlib.Core.Path.{subst, ap₂}
use jonson.Text.{Text}
use jonson.Validate.Binds.{ok-injective}
use jonson.Validate.{ok}
use jonson.Context.{value}
use jonson.Base64
use jonson.Base64.RoundTrip.{AreBytes, decode-encode, length-encode}
use jonson.Method.Messages.{drop}
use jonson.Secret.{
  NewCipher, check_key, sealed, opened, hex_decode, block_size, is_key_size, new_aes_secret,
  xor_key_stream, ofb, encode, take, decode, decode_bytes,
}

-- Both tests on a byte, for all pairs of bytes.
all_below : ℕ → (ℕ → Bool) → Bool
all_below zero p = true
all_below (suc n) p = p n && all_below n p

all_below→eq : (n : ℕ) (p : ℕ → Bool) → all_below n p ≡ true → (i : ℕ) → i < n → p i ≡ true
unfolding all_below
all_below→eq zero p e i h = absurd (omega arith)
all_below→eq (suc n) p e i h = ground (arith, all_below→eq n p (ground arith) i)

xor_table :
    all_below 256
      (λ d. all_below 256 (λ k. (bit_xor (bit_xor d k) k == d) && ltb (bit_xor d k) 256))
    ≡ true
unfolding all_below
xor_table = refl

xor_facts :
    (d k : ℕ) → d < 256 → k < 256 → ((bit_xor (bit_xor d k) k == d) && ltb (bit_xor d k) 256) ≡ true
xor_facts d k hd hk =
    all_below→eq 256 (λ k'. (bit_xor (bit_xor d k') k' == d) && ltb (bit_xor d k') 256)
      (all_below→eq 256
        (λ d'. all_below 256 (λ k'. (bit_xor (bit_xor d' k') k' == d') && ltb (bit_xor d' k') 256))
        xor_table d hd)
      k hk

bit_xor-bit_xor : (d k : ℕ) → d < 256 → k < 256 → bit_xor (bit_xor d k) k ≡ d
bit_xor-bit_xor d k hd hk = ground (arith, xor_facts d k)

bit_xor-lt : (d k : ℕ) → d < 256 → k < 256 → bit_xor d k < 256
bit_xor-lt d k hd hk = ground (arith, xor_facts d k)

-- A block of bytes.
abbrev pub IsBlock : Text → Type 0
IsBlock b = (length b ≡ block_size) × AreBytes b

-- What crypto/aes documents: a key of 16, 24 or 32 bytes is accepted, and blocks become blocks.
pub record IsBlockCipher (new_cipher : NewCipher) : Type 0 where
  pub cipher : (key : Text) → is_key_size (length key) ≡ true → Text → Text
  pub accepts :
      (key : Text) (h : is_key_size (length key) ≡ true) → new_cipher key ≡ some (cipher key h)
  pub blocks :
      (key : Text) (h : is_key_size (length key) ≡ true) (b : Text)
      → IsBlock b
      → IsBlock (cipher key h b)

module _ (encrypt : Text → Text) (blocks : (b : Text) → IsBlock b → IsBlock (encrypt b)) where
  refilled :
      (block : Text) (k : ℕ) (ks : Text) (d : ℕ) (ds : Text)
      → encrypt block ≡ k ∷ ks
      → xor_key_stream encrypt block [] (d ∷ ds)
        ≡ bit_xor d k ∷ xor_key_stream encrypt (encrypt block) ks ds
  unfolding xor_key_stream
  refilled block k ks d ds h =
      rw (xor_key_stream, h) (ap (λ b. bit_xor d k ∷ xor_key_stream encrypt b ks ds) h)

  -- The same stream once more gives the text back, and all that comes between is bytes.
  record Undone (block stream text : Text) : Type 0 where
    undone : xor_key_stream encrypt block stream (xor_key_stream encrypt block stream text) ≡ text
    bytes : AreBytes (xor_key_stream encrypt block stream text)
    same_length : length (xor_key_stream encrypt block stream text) ≡ length text

  Undone-cons :
      (block ks ds : Text) (d k : ℕ)
      → d < 256
      → k < 256
      → Undone block ks ds
      → Undone block (k ∷ ks) (d ∷ ds)
  unfolding xor_key_stream
  Undone-cons block ks ds d k hd hk u = record {
    undone = ap₂ ◌∷◌ (bit_xor-bit_xor d k hd hk) u.undone;
    bytes = (bit_xor-lt d k hd hk, u.bytes);
    same_length = ap suc u.same_length;
  }

  List-cases : (b : Text) → (b ≡ []) ⊎ ((k : ℕ) × (ks : Text) × (b ≡ k ∷ ks))
  List-cases [] = inl refl
  List-cases (k ∷ ks) = inr (k, ks, refl)

  Undone-refill :
      (block ds : Text) (d k : ℕ) (ks : Text)
      → encrypt block ≡ k ∷ ks
      → Undone (encrypt block) (k ∷ ks) (d ∷ ds)
      → Undone block [] (d ∷ ds)
  unfolding xor_key_stream
  Undone-refill block ds d k ks h u =
      let once = refilled block k ks d ds h in
      record {
        undone =
            ap (xor_key_stream encrypt block []) once
            ∙ refilled block k ks (bit_xor d k) (xor_key_stream encrypt (encrypt block) ks ds) h
            ∙ u.undone;
        bytes = subst AreBytes (sym once) u.bytes;
        same_length = ap length once ∙ u.same_length;
      }

  xor_key_stream-Undone :
      (block stream text : Text)
      → IsBlock block
      → AreBytes stream
      → AreBytes text
      → Undone block stream text
  unfolding xor_key_stream
  xor_key_stream-Undone block [] [] b s t = record { undone = refl; bytes = tt; same_length = refl }
  xor_key_stream-Undone block (k ∷ ks) [] b s t = record {
    undone = refl;
    bytes = tt;
    same_length = refl;
  }
  xor_key_stream-Undone block (k ∷ ks) (d ∷ ds) b s t =
      Undone-cons block ks ds d k t.0 s.0 (xor_key_stream-Undone block ks ds b s.1 t.1)
  xor_key_stream-Undone block [] (d ∷ ds) b s t =
      let next : IsBlock (encrypt block) = blocks block b in
      elim (List-cases (encrypt block)) [
        | inl e ↦ absurd (omega (arith, next.0, ap length e))
        | inr (k, ks, e) ↦
            let fresh : AreBytes (k ∷ ks) = subst AreBytes e next.1 in
            Undone-refill block ds d k ks e (
              Undone-cons (encrypt block) ks ds d k t.0 fresh.0
                (xor_key_stream-Undone (encrypt block) ks ds next fresh.1 t.1))
      ]

take-append : (n : ℕ) (xs ys : Text) → length xs ≡ n → take n (xs ++ ys) ≡ xs
unfolding take
take-append zero [] [] h = refl
take-append zero [] (y ∷ ys) h = refl
take-append zero (x ∷ xs) ys h = absurd (omega arith)
take-append (suc n) [] ys h = absurd (omega arith)
take-append (suc n) (x ∷ xs) ys h = ap (◌∷◌ x) (take-append n xs ys (omega arith))

drop-append : (n : ℕ) (xs ys : Text) → length xs ≡ n → drop n (xs ++ ys) ≡ ys
unfolding drop
drop-append zero [] [] h = refl
drop-append zero [] (y ∷ ys) h = refl
drop-append zero (x ∷ xs) ys h = absurd (omega arith)
drop-append (suc n) [] ys h = absurd (omega arith)
drop-append (suc n) (x ∷ xs) ys h = drop-append n xs ys (omega arith)

check_key-is_key_size :
    (o : Option Text) (key : Text) → check_key o ≡ ok key → is_key_size (length key) ≡ true
check_key-is_key_size none key h = absurd (cc h)
check_key-is_key_size (some k) key h = elim (Bool-cases (is_key_size (length k))) [
  | inl e ↦ subst (λ x. is_key_size (length x) ≡ true) (ok-injective k key (rw e at h)) e
  | inr e ↦ absurd (cc (rw e at h))
]

-- The opened text of a cipher, where the encoded text is a block and an encrypted text.
decode_bytes-sealed :
    (new_cipher : NewCipher) (key iv rest : Text) (encrypt : Text → Text)
    → new_cipher key ≡ some encrypt
    → length iv ≡ block_size
    → decode_bytes new_cipher key (some (iv ++ rest)) ≡ value (ofb encrypt iv rest)
decode_bytes-sealed new_cipher key iv rest encrypt e l =
    let long_enough : ltb (length (iv ++ rest)) block_size ≡ false =
      ground (arith, length-append iv rest, l) in
    rw long_enough (
      ap (λ c. opened c (iv ++ rest)) e
      ∙ ap₂ (λ x y. value (ofb encrypt x y)) (take-append block_size iv rest l)
          (drop-append block_size iv rest l))

-- With a cipher as crypto/aes documents it and a key that `NewAESSecret` has accepted: a text of
-- bytes that was encoded with a random block is decoded to itself, and its encoded form has four
-- characters for each three bytes of the block and the text, the last ones begun.
pub decode-encode_secret :
    (new_cipher : NewCipher) (hex key iv text : Text)
    → IsBlockCipher new_cipher
    → new_aes_secret hex ≡ ok key
    → IsBlock iv
    → AreBytes text
    → (decode new_cipher key (encode new_cipher key (some iv) text) ≡ value text)
      × (length (encode new_cipher key (some iv) text) ≡ (length text + 18) / 3 * 4)
unfolding new_aes_secret encode decode ofb
decode-encode_secret new_cipher hex key iv text c h b t =
    let k = check_key-is_key_size (hex_decode hex) key h in
    let encrypt = c.cipher key k in
    let u = xor_key_stream-Undone encrypt (c.blocks key k) iv [] text b tt t in
    let whole : AreBytes (iv ++ ofb encrypt iv text) =
      All-append (λ x. x < 256) iv (ofb encrypt iv text) b.1 u.bytes in
    let sent : encode new_cipher key (some iv) text ≡ Base64.encode (iv ++ ofb encrypt iv text) =
      ap (λ x. sealed x (some iv) text) (c.accepts key k) in
    let total_length : length (iv ++ ofb encrypt iv text) ≡ length text + 16 =
      omega (arith, b.0, u.same_length, length-append iv (ofb encrypt iv text)) in
    (
      ap (decode new_cipher key) sent
          ∙ ap (decode_bytes new_cipher key) (decode-encode (iv ++ ofb encrypt iv text) whole)
          ∙ decode_bytes-sealed new_cipher key iv (ofb encrypt iv text) encrypt (c.accepts key k)
              b.0
          ∙ ap value u.undone,
      omega (arith, ap length sent, length-encode (iv ++ ofb encrypt iv text), total_length),
    )
