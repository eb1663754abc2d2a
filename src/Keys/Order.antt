-- ===== src/Keys/Order.antt =====
-- The order of keys: message keys of one user and set sort by time, then by hash.
use hypersnap.Shared.{
  ℕ, ◌^◌, ◌<◌, ◌≡◌, refl, [], ◌∷◌, ◌++◌, length, some, ok, arith, compare, Ordering, ◌∙◌,
}
use hypersnap.Bytes.{Bytes, bytes_compare}
use hypersnap.Bytes.Order.{bytes_compare-append_left}
use hypersnap.Keys.{make_ts_hash, make_message_primary_key_with_prefix}
use hypersnap.Keys.RoundTrip.{make_ts_hash_parts}
use hypersnap.Keys.BigEndian.{be_bytes_4, compare-be_bytes_4}

-- The first result, and the second where the first is a tie.
abbrev pub break_tie : Ordering → Ordering → Ordering
break_tie Ordering.eq second = second
break_tie first _ = first

pub bytes_compare-append :
    (a b c d : Bytes)
    → length a ≡ length b
    → bytes_compare (a ++ c) (b ++ d) ≡ break_tie (bytes_compare a b) (bytes_compare c d)
unfolding bytes_compare
bytes_compare-append [] [] c d h = refl
bytes_compare-append [] (y ∷ b) c d h = absurd (omega arith)
bytes_compare-append (x ∷ a) [] c d h = absurd (omega arith)
bytes_compare-append (x ∷ a) (y ∷ b) c d h = ground (arith, bytes_compare-append a b c d)

-- Packed timestamps and hashes compare by the timestamp (of 32 bits) first, then by the hash.
pub compare-make_ts_hash :
    (t u : ℕ) (g h : Bytes) {x y : Bytes}
    → t < 2 ^ 32
    → u < 2 ^ 32
    → make_ts_hash t g ≡ ok x
    → make_ts_hash u h ≡ ok y
    → bytes_compare x y ≡ break_tie (compare t u) (bytes_compare g h)
compare-make_ts_hash t u g h ht hu p q =
    rw ((make_ts_hash_parts t g p).1, (make_ts_hash_parts u h q).1, ← compare-be_bytes_4 t u ht hu)
      (bytes_compare-append (be_bytes_4 t) (be_bytes_4 u) g h (unfold be_bytes_4 in refl))

-- The message keys of one user and set sort by timestamp first and by hash among equal timestamps,
-- so that a scan meets the messages oldest first.
pub primary_key_order :
    (prefix fid set t u : ℕ) (g h : Bytes) {x y : Bytes}
    → t < 2 ^ 32
    → u < 2 ^ 32
    → make_ts_hash t g ≡ ok x
    → make_ts_hash u h ≡ ok y
    → bytes_compare
        (make_message_primary_key_with_prefix prefix fid set (some x))
        (make_message_primary_key_with_prefix prefix fid set (some y))
      ≡ break_tie (compare t u) (bytes_compare g h)
unfolding make_message_primary_key_with_prefix
primary_key_order prefix fid set t u g h {x = x} {y = y} ht hu p q =
    rw bytes_compare-append_left (same_set set x y) ∙ compare-make_ts_hash t u g h ht hu p q
  where
    same_set : (b : ℕ) (v w : Bytes) → bytes_compare (b ∷ v) (b ∷ w) ≡ bytes_compare v w
    same_set b v w = bytes_compare-append_left (b ∷ []) v w
