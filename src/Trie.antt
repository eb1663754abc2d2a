-- ===== src/Trie.antt =====
-- The merkle trie of a shard: the errors of
-- src/storage/trie/errors.rs and the helpers of src/storage/trie/util.rs, nibbles and page tokens. Node: its nodes.
pub mod Nibbles
pub mod Token
pub mod Node
pub mod Keys
pub mod Tree
use hypersnap.Shared.{
  ℕ, zero, suc, ◌+◌, ◌*◌, ◌/◌, ◌%◌, ◌^◌, String, Bool, true, false, List, [], ◌∷◌, ◌++◌, Option,
  none, some, Result, ok, err, ltb, length, take, drop, ◌==◌, ◌>>=◌, if◌then◌else◌,
}
use hypersnap.Bytes.{Bytes}
use hypersnap.Keys.BigEndian.{be_bytes_4, be_number_4}

pub data TrieError : Type 0 where
  token_decode_error : String → TrieError
  no_keys_to_insert key_length_exceeded : TrieError
  child_not_found : TrieError
  key_length_too_short : TrieError
  trie_not_initialized unable_to_reload_root : TrieError
  -- `assert!`, `panic!`, an `unwrap` of nothing, an index out of range
  panic : TrieError
  -- Not an error of the code: the fuel of a model function was too small.
  out_of_fuel : TrieError

unfoldable pub expand_nibbles : Bytes → Bytes
expand_nibbles [] = []
expand_nibbles (byte ∷ input) = byte / 16 ∷ (byte % 16 ∷ expand_nibbles input)

-- `chunks_exact(2)`: the two halves of a byte have no bit in common, so `|` is the sum.
unfoldable pub combine_chunks : Bytes → Bytes
combine_chunks [] = []
combine_chunks (b ∷ []) = []
combine_chunks (a ∷ b ∷ input) = (a * 16 % 256 + b % 16) ∷ combine_chunks input

unfoldable pub combine_nibbles : Bytes → Result TrieError Bytes
unfolding combine_chunks
combine_nibbles input = if length input % 2 == 0 then ok (combine_chunks input) else err panic

-- The standard engine of the base64 crate; a string is its bytes.
pub record Base64 : Type 0 where
  pub encode : Bytes → Bytes
  pub decode : Bytes → Option Bytes

-- A length written as `u32` in four bytes.
abbrev pub length_bytes : ℕ → Bytes
length_bytes n = be_bytes_4 (n % 2 ^ 32)

unfoldable pub encode_parts : List Bytes → Bytes
unfolding be_bytes_4
encode_parts [] = []
encode_parts (part ∷ parts) = length_bytes (length part) ++ (part ++ encode_parts parts)

unfoldable pub encode_trie_page_token : Base64 → Option (List Bytes) → Bytes
unfolding encode_parts
encode_trie_page_token base64 none = []
encode_trie_page_token base64 (some []) = []
encode_trie_page_token base64 (some (part ∷ parts)) =
    base64.encode (length_bytes (length (part ∷ parts)) ++ encode_parts (part ∷ parts))

-- The loop over the segments: what is read and the bytes from the offset on.
unfoldable pub decode_parts : ℕ → Bytes → Result TrieError (List Bytes × Bytes)
decode_parts zero bytes = ok ([], bytes)
decode_parts (suc n) bytes =
    if ltb (length bytes) 4
    then err (token_decode_error "Unexpected EOF reading length")
    else let len = be_number_4 (take 4 bytes) in
      let after = drop 4 bytes in
      if ltb (length after) len
      then err (token_decode_error "Unexpected EOF reading segment")
      else elim (decode_parts n (drop len after)) [
        | err e ↦ err e
        | ok (parts, end) ↦ ok (take len after ∷ parts, end)
      ]

abbrev pub is_empty : {A : Type 0} → List A → Bool
is_empty [] = true
is_empty (x ∷ xs) = false

unfoldable pub decode_trie_page_token : Base64 → Bytes → Result TrieError (Option (List Bytes))
unfolding decode_parts be_number_4
decode_trie_page_token base64 encoded =
    if is_empty encoded then ok none else elim (base64.decode encoded) [
      | none ↦ err (token_decode_error "base64")
      | some bytes ↦
          if ltb (length bytes) 4
          then err (token_decode_error "Too short")
          else elim (decode_parts (be_number_4 (take 4 bytes)) (drop 4 bytes)) [
            | err e ↦ err e
            | ok (parts, end) ↦
                if is_empty end
                then ok (if is_empty parts then none else some parts)
                else err (token_decode_error "Extra bytes at end")
          ]
    ]
