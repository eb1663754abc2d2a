-- ===== src/Events/Ids.antt =====
-- Event ids carry their height and sequence, and event keys sort as the ids do.
use hypersnap.Shared.{ℕ, ◌/◌, ◌%◌, ◌^◌, ◌<◌, ◌≡◌, ◌↔◌, refl, ◌∷◌, [], arith, compare, Ordering, ◌∙◌}
use hypersnap.Bytes.{bytes_compare}
use hypersnap.Bytes.Order.{bytes_compare-append_left}
use hypersnap.Keys.BigEndian.{be_bytes_4, be_bytes_8, compare-be_bytes_4}
use hypersnap.Keys.Order.{break_tie, bytes_compare-append}
use hypersnap.Events.{
  make_event_id, make_event_id_for_block_number, extract_height_and_seq, make_event_key,
}

-- A height of 50 bits and a sequence of 14 bits are packed into 64 bits and read back.
pub extract-make_event_id :
    (height seq : ℕ)
    → height < 2 ^ 50
    → seq < 2 ^ 14
    → (extract_height_and_seq (make_event_id height seq) ≡ (height, seq))
      × (make_event_id height seq < 2 ^ 64)
unfolding extract_height_and_seq make_event_id
extract-make_event_id height seq hh hs = (ground arith, omega arith)

compare_halves :
    (m n : ℕ)
    → break_tie (compare (m / 2 ^ 32) (n / 2 ^ 32)) (compare (m % 2 ^ 32) (n % 2 ^ 32))
      ≡ compare m n
compare_halves m n = ground arith

compare-be_bytes_8 :
    (m n : ℕ) → m < 2 ^ 64 → n < 2 ^ 64 → bytes_compare (be_bytes_8 m) (be_bytes_8 n) ≡ compare m n
unfolding be_bytes_8
compare-be_bytes_8 m n hm hn =
    bytes_compare-append (be_bytes_4 (m / 2 ^ 32)) (be_bytes_4 (n / 2 ^ 32))
      (be_bytes_4 (m % 2 ^ 32)) (be_bytes_4 (n % 2 ^ 32)) refl
    ∙ rw
        (
          compare-be_bytes_4 (m / 2 ^ 32) (n / 2 ^ 32) (omega arith) (omega arith),
          compare-be_bytes_4 (m % 2 ^ 32) (n % 2 ^ 32) (omega arith) (omega arith),
        )
        (compare_halves m n)

pub compare-make_event_key :
    (m n : ℕ)
    → m < 2 ^ 64
    → n < 2 ^ 64
    → bytes_compare (make_event_key m) (make_event_key n) ≡ compare m n
unfolding make_event_key
compare-make_event_key m n hm hn =
    bytes_compare-append_left (9 ∷ []) (be_bytes_8 m) (be_bytes_8 n) ∙ compare-be_bytes_8 m n hm hn

-- The range of keys that event pruning deletes for a stop height (of at most 50 bits) holds exactly
-- the events of lower heights.
pub prune_range_exact :
    (stop_height event_id : ℕ)
    → stop_height < 2 ^ 50
    → event_id < 2 ^ 64
    → (bytes_compare
          (make_event_key event_id)
          (make_event_key (make_event_id_for_block_number stop_height))
        ≡ Ordering.lt)
      ↔ ((extract_height_and_seq event_id).0 < stop_height)
unfolding make_event_id_for_block_number extract_height_and_seq
prune_range_exact stop_height event_id hs he =
    rw
      (compare-make_event_key event_id (make_event_id stop_height 0) he
        (unfold make_event_id in omega arith))
      (unfold make_event_id in ground arith)
