-- ===== src/Tests/Placement.antt =====
-- Validator sets and shards at concrete inputs.
use hypersnap.Shared.{ℕ, ◌≤◌, ◌≡◌, ◌⊎◌, refl, arith, true, false, [], ◌∷◌, ok, All}
use hypersnap.Bytes.{Bytes}
use hypersnap.Consensus.{StoredValidatorSet, StoredValidatorSets, is_effective, get_validator_set}
use hypersnap.Consensus.Latest.{OneOf, get_validator_set_latest}
use hypersnap.Routing.{route_message, route_fid, is_global, msg_type, fid_of}
use hypersnap.Routing.Shards.{route_message_shards}
use hypersnap.Tests.Fixtures.{follow_9, follow_at}

-- The validators are numbers here.
abbrev at_start : StoredValidatorSet ℕ
at_start = record { effective_at = 0; validators = 10; shard_ids = 1 ∷ [] }

abbrev at_100 : StoredValidatorSet ℕ
at_100 = record { effective_at = 100; validators = 20; shard_ids = 1 ∷ 2 ∷ [] }

abbrev stored : StoredValidatorSets ℕ
stored = record { shard_id = 1; sets = at_start ∷ at_100 ∷ [] }

get_validator_set_latest_example :
    (r : StoredValidatorSet ℕ) × (get_validator_set stored 150 ≡ ok r.validators)
    × ((r ≡ at_start) ⊎ ((is_effective 1 150 r ≡ true) × OneOf r (at_start ∷ at_100 ∷ [])))
    × All
        (λ c. is_effective 1 150 c ≡ true → c.effective_at ≤ r.effective_at)
        (at_start ∷ at_100 ∷ [])
get_validator_set_latest_example = get_validator_set_latest stored 150 at_start (at_100 ∷ []) refl

-- In place of the hash, its first bytes.
abbrev first_bytes : Bytes → Bytes
first_bytes bytes = bytes

route_message_shards_example :
    (is_global (msg_type follow_9) ≡ true)
      × (route_message (route_fid first_bytes) follow_9 2 ≡ ok 0)
    ⊎ (shard : ℕ) × (is_global (msg_type follow_9) ≡ false)
      × (1 ≤ shard)
      × (shard ≤ 2)
      × (route_message (route_fid first_bytes) follow_9 2 ≡ ok shard)
      × (is_global (msg_type (follow_at 8)) ≡ false
          → route_message (route_fid first_bytes) (follow_at 8) 2 ≡ ok shard)
route_message_shards_example =
    route_message_shards first_bytes follow_9 (follow_at 8) 2 (ground arith) (ground arith)
      (unfold fid_of in refl)
