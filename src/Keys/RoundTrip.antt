-- ===== src/Keys/RoundTrip.antt =====
-- What src/storage/store/account/message.rs writes into a key, it reads back from it.
use hypersnap.Shared.{
  ℕ, zero, suc, ◌^◌, ◌<◌, ◌≡◌, refl, ap, [], ◌∷◌, ◌++◌, length, take, some, ok, arith,
}
use hypersnap.Bytes.{Bytes}
use hypersnap.Keys.{
  make_ts_hash, unpack_ts_hash, make_message_primary_key_with_prefix, read_fid_key, read_ts_hash,
  hash_length, ts_hash_length,
}
use hypersnap.Keys.BigEndian.{be_bytes_4, be_number_4-be_bytes_4}

pub take_all : (n : ℕ) (xs : Bytes) → length xs ≡ n → take n xs ≡ xs
take_all zero [] h = refl
take_all zero (x ∷ xs) h = absurd (omega arith)
take_all (suc n) [] h = absurd (omega arith)
take_all (suc n) (x ∷ xs) h = ap (λ t. x ∷ t) (take_all n xs (omega arith))

pub make_ts_hash-eq-ok :
    (t : ℕ) (h : Bytes) → length h ≡ hash_length → make_ts_hash t h ≡ ok (be_bytes_4 t ++ h)
unfolding make_ts_hash
make_ts_hash-eq-ok t h len = ground (arith, take_all 20 h len)

pub make_ts_hash_parts :
    (t : ℕ) (h : Bytes) {x : Bytes}
    → make_ts_hash t h ≡ ok x
    → (length h ≡ hash_length) × (x ≡ be_bytes_4 t ++ h)
unfolding make_ts_hash
make_ts_hash_parts t h made = ground (arith, take_all 20 h)

unpack-append :
    (t : ℕ) (h : Bytes)
    → t < 2 ^ 32
    → length h ≡ hash_length
    → (unpack_ts_hash (be_bytes_4 t ++ h) ≡ (t, h)) × (length (be_bytes_4 t ++ h) ≡ ts_hash_length)
unfolding unpack_ts_hash be_bytes_4
unpack-append t h bound len =
    (ground (arith, be_number_4-be_bytes_4 t bound, take_all 20 h len), omega arith)

-- Where a timestamp of 32 bits and a hash are packed, the result has 24 bytes, and unpacking
-- returns both.
pub unpack-make_ts_hash :
    (t : ℕ) (h : Bytes) {ts_hash : Bytes}
    → t < 2 ^ 32
    → make_ts_hash t h ≡ ok ts_hash
    → (unpack_ts_hash ts_hash ≡ (t, h)) × (length ts_hash ≡ ts_hash_length)
unpack-make_ts_hash t h bound made =
    rw (make_ts_hash_parts t h made).1 (unpack-append t h bound (make_ts_hash_parts t h made).0)

-- From the primary key of a message the reader gets back the user (of 32 bits) and the 24 bytes of
-- its ts_hash, whatever the context's prefix and the set.
pub read-primary_key :
    (prefix fid set : ℕ) (ts_hash : Bytes)
    → fid < 2 ^ 32
    → length ts_hash ≡ ts_hash_length
    → (read_fid_key (make_message_primary_key_with_prefix prefix fid set (some ts_hash)) 1 ≡ ok fid)
      × (read_ts_hash (make_message_primary_key_with_prefix prefix fid set (some ts_hash)) 6
          ≡ ok ts_hash)
unfolding make_message_primary_key_with_prefix read_fid_key read_ts_hash
read-primary_key prefix fid set ts_hash bound len =
    (ground (arith, be_number_4-be_bytes_4 fid bound), ground (arith, take_all 24 ts_hash len))
