-- ===== src/Events.antt =====
-- Event ids: `HubEventIdGenerator` and `make_event_key` of src/storage/store/account/event.rs.
pub mod Ids
pub mod Sequence
use hypersnap.Shared.{
  ℕ, ◌+◌, ◌-◌, ◌*◌, ◌/◌, ◌%◌, ◌^◌, Bool, true, false, List, ◌∷◌, Option, none, some, Result, ok,
  err, Error, hub, leb, ◌==◌, if◌then◌else◌,
}
use hypersnap.Bytes.{Bytes}
use hypersnap.Keys.BigEndian.{be_bytes_8}
use hypersnap.Keys.Prefix.{root_u8, hub_events}

-- proto/definitions/hub_event.proto
pub data HubEventType : Type 0 where
  none_event merge_message prune_message revoke_message merge_username_proof : HubEventType
  merge_on_chain_event merge_failure block_confirmed : HubEventType

abbrev pub height_bits : ℕ
height_bits = 50

abbrev pub sequence_bits : ℕ
sequence_bits = 14

pub record HubEventIdGenerator : Type 0 where
  pub current_height : ℕ
  pub current_seq : ℕ

unfoldable pub new : Option ℕ → Option ℕ → HubEventIdGenerator
new current_block last_seq = record {
  current_height = elim current_block [ none ↦ 0 | some h ↦ h ];
  current_seq = elim last_seq [ none ↦ 0 | some s ↦ s ];
}

unfoldable pub set_current_height : HubEventIdGenerator → ℕ → HubEventIdGenerator
set_current_height g height = record g { current_height = height; current_seq = 0 }

-- `height << 14` loses the bits from 64 on; `seq & (2^14 - 1)` is a remainder, and `|` of a number
-- whose low 14 bits are 0 with one below 2^14 is their sum.
unfoldable pub make_event_id : ℕ → ℕ → ℕ
make_event_id height seq = height * 2 ^ sequence_bits % 2 ^ 64 + seq % 2 ^ sequence_bits

unfoldable pub make_event_id_for_block_number : ℕ → ℕ
unfolding make_event_id
make_event_id_for_block_number height = make_event_id height 0

unfoldable pub extract_height_and_seq : ℕ → ℕ × ℕ
extract_height_and_seq event_id = (event_id / 2 ^ sequence_bits, event_id % 2 ^ sequence_bits)

abbrev pub is_block_confirmed : HubEventType → Bool
is_block_confirmed block_confirmed = true
is_block_confirmed _ = false

-- The event matters only by its type. The new generator comes back on every path.
unfoldable pub generate_id :
    HubEventIdGenerator → HubEventType → Result Error ℕ × HubEventIdGenerator
unfolding make_event_id
generate_id g event =
    if leb (2 ^ height_bits) g.current_height
    then (
      err (hub "bad_request.invalid_param" "height cannot fit in event id. Height > 50 bits"),
      g,
    )
    else if leb (2 ^ sequence_bits) g.current_seq
    then (err (hub "bad_request.invalid_param" "sequence cannot fit in event id. Seq> 14 bits"), g)
    else if is_block_confirmed event
    then (ok (make_event_id g.current_height 0), g)
    else let seq = (if g.current_seq == 0 then 1 else g.current_seq) in
      (ok (make_event_id g.current_height seq), record g { current_seq = seq + 1 })

unfoldable pub make_event_key : ℕ → Bytes
unfolding be_bytes_8
make_event_key event_id = root_u8 hub_events ∷ be_bytes_8 event_id
