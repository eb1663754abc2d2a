-- ===== src/Store/Compare.antt =====
-- `StoreDef::message_compare` of src/storage/store/account/store.rs: the last write wins, a remove
-- wins over an add of the same second, and the greater hash wins among equals.
pub mod Order
use hypersnap.Shared.{
  ℕ, ◌+◌, ◌-◌, ◌<◌, ◌≡◌, ◌≢◌, refl, ◌⊎◌, inl, inr, ◌↔◌, Bool, true, false, ◌&&◌, Result, ok, err,
  Error, panic, Option, none, some, ◌>>=◌, ◌>>◌, Ordering, compare, arith, length, take, drop, ltb,
  ◌==◌, if◌then◌else◌,
}
use hypersnap.Bytes.{Bytes, bytes_compare}
use hypersnap.Bytes.Order.{opposite, bytes_compare_swap, bytes_compare_trans, eq_of_bytes_compare}
use hypersnap.Store.Types.{StoreDef}

-- `&bytes[from..to]`
unfoldable pub slice : Bytes → ℕ → ℕ → Result Error Bytes
slice bytes from to =
    if ltb (length bytes) to then err panic else ok (take (to - from) (drop from bytes))

abbrev pub is_tie : Ordering → Bool
is_tie Ordering.eq = true
is_tie _ = false

-- What follows a tie of the timestamps: a remove beats an add, then the hashes decide.
unfoldable pub compare_ties : StoreDef → ℕ → Bytes → ℕ → Bytes → Result Error Ordering
unfolding slice
compare_ties d a_type a_ts_hash b_type b_ts_hash =
    if a_type == d.remove_message_type && b_type == d.add_message_type
    then ok Ordering.gt
    else if a_type == d.add_message_type && b_type == d.remove_message_type
    then ok Ordering.lt
    else do
      a_rest ← slice a_ts_hash 4 24
      b_rest ← slice b_ts_hash 4 24
      ok (bytes_compare a_rest b_rest)

unfoldable pub message_compare : StoreDef → ℕ → Bytes → ℕ → Bytes → Result Error Ordering
unfolding compare_ties
message_compare d a_type a_ts_hash b_type b_ts_hash = do
  a_time ← slice a_ts_hash 0 4
  b_time ← slice b_ts_hash 0 4
  let ts_compare = bytes_compare a_time b_time
  if is_tie ts_compare then compare_ties d a_type a_ts_hash b_type b_ts_hash else ok ts_compare

-- The comparison that a store uses.
unfoldable pub store_compare : StoreDef → ℕ → Bytes → ℕ → Bytes → Result Error Ordering
unfolding message_compare
store_compare d a_type a_ts_hash b_type b_ts_hash = elim d.own_message_compare [
  | none ↦ message_compare d a_type a_ts_hash b_type b_ts_hash
  | some compare' ↦ compare' a_type a_ts_hash b_type b_ts_hash
]
