-- ===== src/Routing/Shards.antt =====
-- The shards that messages are routed to.
use hypersnap.Shared.{
  ℕ, ◌+◌, ◌%◌, ◌^◌, ◌<◌, ◌≤◌, ◌≡◌, ◌⊎◌, inl, inr, true, false, ok, arith, Bool-cases, take,
}
use hypersnap.Bytes.{Bytes}
use hypersnap.Proto.{Message}
use hypersnap.Keys.BigEndian.{be_bytes_4, be_number_4}
use hypersnap.Routing.{route_fid, route_message, is_global, msg_type, fid_of}

routed :
    (h num_shards : ℕ)
    → 1 ≤ num_shards
    → num_shards < 2 ^ 32
    → (1 ≤ (h % num_shards + 1) % 2 ^ 32) × ((h % num_shards + 1) % 2 ^ 32 ≤ num_shards)
routed h num_shards many few = ground arith

-- With at least one shard and fewer than 2^32, a message is routed to shard 0 if it is a storage
-- lend, a key add or a key remove, and else to one of the shards from 1 to their number, to which
-- every other such message of the same fid goes too.
pub route_message_shards :
    (sha256 : Bytes → Bytes) (message other : Message) (num_shards : ℕ)
    → 1 ≤ num_shards
    → num_shards < 2 ^ 32
    → fid_of message ≡ fid_of other
    → (is_global (msg_type message) ≡ true)
        × (route_message (route_fid sha256) message num_shards ≡ ok 0)
      ⊎ (shard : ℕ) × (is_global (msg_type message) ≡ false)
        × (1 ≤ shard)
        × (shard ≤ num_shards)
        × (route_message (route_fid sha256) message num_shards ≡ ok shard)
        × (is_global (msg_type other) ≡ false
            → route_message (route_fid sha256) other num_shards ≡ ok shard)
unfolding route_message route_fid
route_message_shards sha256 message other num_shards many few same =
    elim (Bool-cases (is_global (msg_type message))) [
      | inl global ↦ inl (global, ground (arith, global))
      | inr local ↦
          let h = be_number_4 (take 4 (sha256 (be_bytes_4 (fid_of message % 2 ^ 32)))) in
          let (low, high) = routed h num_shards many few in
          inr (
            (h % num_shards + 1) % 2 ^ 32,
            local,
            low,
            high,
            ground (arith, local, many),
            λ other_local. ground (arith, other_local, same, many),
          )
    ]
