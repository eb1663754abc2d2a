-- ===== src/Stores/Cast/Compare.antt =====
-- The order of casts: `CastStoreDef::message_compare` of src/storage/store/account/cast_store.rs, by which a
-- remove stands above every add.
use hypersnap.Shared.{
  ℕ, ◌≡◌, sym, ap, ◌∙◌, ◌⊎◌, ◌&&◌, Result, ok, Error, Ordering, compare, arith, length, take, drop,
  ◌==◌, ◌>>=◌, if◌then◌else◌, length-take, ◌++◌,
}
use hypersnap.Bytes.{Bytes, bytes_compare}
use hypersnap.Keys.Order.{break_tie, bytes_compare-append}
use hypersnap.Proto.{type_number, cast_add, cast_remove}
use hypersnap.Store.Compare.{slice, is_tie}
use hypersnap.Store.Compare.Order.{slices}

unfoldable pub cast_message_compare : ℕ → Bytes → ℕ → Bytes → Result Error Ordering
unfolding slice
cast_message_compare a_type a_ts_hash b_type b_ts_hash =
    if a_type == type_number cast_remove && b_type == type_number cast_add
    then ok Ordering.gt
    else if a_type == type_number cast_add && b_type == type_number cast_remove
    then ok Ordering.lt
    else do
      a_time ← slice a_ts_hash 0 4
      b_time ← slice b_ts_hash 0 4
      let ts_compare = bytes_compare a_time b_time
      if is_tie ts_compare
          then (do
            a_rest ← slice a_ts_hash 4 24
            b_rest ← slice b_ts_hash 4 24
            ok (bytes_compare a_rest b_rest))
          else ok ts_compare

-- The two slices of hashes of 24 bytes compare as the hashes do.
compare_slices :
    (a b : Bytes)
    → length a ≡ 24
    → length b ≡ 24
    → break_tie
        (bytes_compare (take 4 a) (take 4 b))
        (bytes_compare (take 20 (drop 4 a)) (take 20 (drop 4 b)))
      ≡ bytes_compare a b
compare_slices a b ha hb =
    sym (
      bytes_compare-append (take 4 a) (take 4 b) (take 20 (drop 4 a)) (take 20 (drop 4 b))
        (omega (arith, length-take 4 a, length-take 4 b)))
    ∙ ap (λ x. bytes_compare x (take 4 b ++ take 20 (drop 4 b))) (slices a ha)
    ∙ ap (bytes_compare a) (slices b hb)

-- On adds and removes with hashes of 24 bytes the comparison of casts always has a result: the
-- order of the types first (a remove above an add), then that of the whole hashes.
pub cast_message_compare-lexicographic :
    (s t : ℕ) (a b : Bytes)
    → (s ≡ type_number cast_add) ⊎ (s ≡ type_number cast_remove)
    → (t ≡ type_number cast_add) ⊎ (t ≡ type_number cast_remove)
    → length a ≡ 24
    → length b ≡ 24
    → cast_message_compare s a t b ≡ ok (break_tie (compare s t) (bytes_compare a b))
unfolding cast_message_compare
cast_message_compare-lexicographic s t a b hs ht ha hb = ground (arith, compare_slices a b ha hb)
