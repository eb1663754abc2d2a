-- ===== src/Trie/Token.antt =====
-- Page tokens of the trie iteration, there and back.
use hypersnap.Shared.{
  ℕ, suc, ◌/◌, ◌%◌, ◌^◌, ◌<◌, ◌≡◌, refl, ap, ◌∙◌, false, List, [], ◌∷◌, ◌++◌, Option, none, some,
  ok, err, length, take, drop, All, arith, ltb, length-append, take-append, drop-append,
}
use hypersnap.Bytes.{Bytes}
use hypersnap.Keys.BigEndian.{be_bytes_4, be_number_4, be_number_4-be_bytes_4}
use hypersnap.Trie.{
  Base64, length_bytes, encode_parts, decode_parts, encode_trie_page_token, decode_trie_page_token,
  is_empty,
}

append_assoc : (a b c : Bytes) → (a ++ b) ++ c ≡ a ++ (b ++ c)
append_assoc [] b c = refl
append_assoc (x ∷ a) b c = ap (λ (l : Bytes). x ∷ l) (append_assoc a b c)

take-length_bytes : (n : ℕ) (r : Bytes) → take 4 (length_bytes n ++ r) ≡ length_bytes n
unfolding be_bytes_4
take-length_bytes n r = refl

drop-length_bytes : (n : ℕ) (r : Bytes) → drop 4 (length_bytes n ++ r) ≡ r
unfolding be_bytes_4
drop-length_bytes n r = refl

long_enough : (n : ℕ) (r : Bytes) → ltb (length (length_bytes n ++ r)) 4 ≡ false
unfolding be_bytes_4
long_enough n r = ground arith

read_length : (n : ℕ) → n < 2 ^ 32 → be_number_4 (length_bytes n) ≡ n
read_length n h = ap be_number_4 (ap be_bytes_4 (omega (arith, h))) ∙ be_number_4-be_bytes_4 n h

decode_part :
    (n : ℕ) (part more : Bytes)
    → length part < 2 ^ 32
    → decode_parts (suc n) (length_bytes (length part) ++ (part ++ more))
      ≡ (elim (decode_parts n more) [ err e ↦ err e | ok (parts, end) ↦ ok (part ∷ parts, end) ])
unfolding decode_parts
decode_part n part more short = ground (
  arith,
  long_enough (length part) (part ++ more),
  take-length_bytes (length part) (part ++ more),
  drop-length_bytes (length part) (part ++ more),
  read_length (length part) short,
  length-append part more,
  take-append part more,
  drop-append part more,
)

decode-encode_parts :
    (parts : List Bytes)
    → All (λ (part : Bytes). length part < 2 ^ 32) parts
    → decode_parts (length parts) (encode_parts parts) ≡ ok (parts, [])
unfolding encode_parts
decode-encode_parts [] short = unfold decode_parts in refl
decode-encode_parts (part ∷ parts) (h, short) =
    decode_part (length parts) part (encode_parts parts) h
    ∙ rw (decode-encode_parts parts short) refl

-- What base64 promises: the decoder inverts the encoder, and only nothing is encoded as nothing.
pub record IsBase64 (base64 : Base64) : Type 0 where
  pub decode-encode : (bytes : Bytes) → base64.decode (base64.encode bytes) ≡ some bytes
  pub filled : (b : ℕ) (bytes : Bytes) → is_empty (base64.encode (b ∷ bytes)) ≡ false

encoded_filled :
    (base64 : Base64)
    → IsBase64 base64
    → (n : ℕ) (r : Bytes) → is_empty (base64.encode (length_bytes n ++ r)) ≡ false
unfolding be_bytes_4
encoded_filled base64 law n r = law.filled (n % 2 ^ 32 / 2 ^ 24 % 256) _

-- An empty list of parts is encoded as no token.
abbrev pub kept : Option (List Bytes) → Option (List Bytes)
kept none = none
kept (some []) = none
kept (some (part ∷ parts)) = some (part ∷ parts)

abbrev pub Fits : Option (List Bytes) → Type 0
Fits none = Unit {0}
Fits (some parts) = (length parts < 2 ^ 32) × All (λ (part : Bytes). length part < 2 ^ 32) parts

-- A page token of fewer than 2^32 parts, each shorter than 2^32 bytes, is decoded from what it is
-- encoded as, given that the base64 decoder inverts the encoder and that only nothing is encoded as
-- nothing; an empty token comes back as none.
pub decode-encode_trie_page_token :
    (base64 : Base64) (token : Option (List Bytes))
    → IsBase64 base64
    → Fits token
    → decode_trie_page_token base64 (encode_trie_page_token base64 token) ≡ ok (kept token)
unfolding decode_trie_page_token encode_trie_page_token
decode-encode_trie_page_token base64 none law fits = refl
decode-encode_trie_page_token base64 (some []) law fits = refl
decode-encode_trie_page_token base64 (some (part ∷ parts)) law (few, short) = ground (
  arith,
  filled,
  law.decode-encode bytes,
  long_enough (length (part ∷ parts)) (encode_parts (part ∷ parts)),
  take-length_bytes (length (part ∷ parts)) (encode_parts (part ∷ parts)),
  drop-length_bytes (length (part ∷ parts)) (encode_parts (part ∷ parts)),
  read_length (length (part ∷ parts)) few,
  decode-encode_parts (part ∷ parts) short,
)
  where
    bytes : Bytes
    bytes = length_bytes (length (part ∷ parts)) ++ encode_parts (part ∷ parts)

    filled : is_empty (base64.encode bytes) ≡ false
    filled = encoded_filled base64 law (length (part ∷ parts)) (encode_parts (part ∷ parts))
