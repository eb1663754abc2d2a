-- ===== src/Version.antt =====
-- Engine versions: src/version/version.rs. A schedule per network says from when on a version is active.
pub mod Schedule
pub mod Features
use hypersnap.Shared.{
  ℕ, ◌+◌, Bool, true, false, ◌||◌, List, [], ◌∷◌, Option, none, some, Result, ok, err, Error, leb,
  ltb, ◌==◌, if◌then◌else◌,
}

pub data EngineVersion : Type 0 where
  v0 : EngineVersion
  v1 : EngineVersion
  v2 : EngineVersion
  v3 : EngineVersion
  v4 : EngineVersion
  v5 : EngineVersion
  v6 : EngineVersion
  v7 : EngineVersion
  v8 : EngineVersion
  v9 : EngineVersion
  v10 : EngineVersion
  v11 : EngineVersion
  v12 : EngineVersion
  v13 : EngineVersion
  v14 : EngineVersion
  v15 : EngineVersion
  v16 : EngineVersion

-- The number that an `EngineVersion` is, by which versions are compared.
unfoldable pub rank : EngineVersion → ℕ
rank v0 = 0
rank v1 = 1
rank v2 = 2
rank v3 = 3
rank v4 = 4
rank v5 = 5
rank v6 = 6
rank v7 = 7
rank v8 = 8
rank v9 = 9
rank v10 = 10
rank v11 = 11
rank v12 = 12
rank v13 = 13
rank v14 = 14
rank v15 = 15
rank v16 = 16

pub data ProtocolFeature : Type 0 where
  signer_revoke_bug : ProtocolFeature
  farcaster_pro : ProtocolFeature
  basenames : ProtocolFeature
  ens_validation : ProtocolFeature
  message_length_check_fix : ProtocolFeature
  primary_addresses : ProtocolFeature
  username_shard_routing_fix : ProtocolFeature
  future_timestamp_validation : ProtocolFeature
  dependent_messages_in_bulk_submit : ProtocolFeature
  decouple_shard_zero_block_production : ProtocolFeature
  write_data_to_shard_zero : ProtocolFeature
  read_data_from_shard_zero : ProtocolFeature
  user_profile_token : ProtocolFeature
  storage_lending : ProtocolFeature
  event_id_bug_fix : ProtocolFeature
  storage_lending_limit_fix : ProtocolFeature
  stop_revoking_existing_messages : ProtocolFeature
  increase_username_proof_size_limit : ProtocolFeature
  gasless_signers : ProtocolFeature

pub data FarcasterNetwork : Type 0 where
  none_net : FarcasterNetwork
  mainnet : FarcasterNetwork
  testnet : FarcasterNetwork
  devnet : FarcasterNetwork

pub record VersionSchedule : Type 0 where
  pub active_at : ℕ
  pub version : EngineVersion

abbrev from : ℕ → EngineVersion → VersionSchedule
from active_at version = record { active_at = active_at; version = version }

abbrev pub engine_version_schedule_mainnet : List VersionSchedule
engine_version_schedule_mainnet =
    from 0 v0
    ∷ from 1747333800 v1
    ∷ from 1747352400 v2
    ∷ from 1747356000 v3
    ∷ from 1747417200 v4
    ∷ from 1750093200 v5
    ∷ from 1752685200 v6
    ∷ from 1756141200 v7
    ∷ from 1756918800 v8
    ∷ from 1757523600 v9
    ∷ from 1758733200 v10
    ∷ from 1759942800 v11
    ∷ from 1759942800 v12
    ∷ from 1759942800 v13
    ∷ from 1761757200 v14
    ∷ from 1765386000 v15
    ∷ from 1778173200 v16
    ∷ []

abbrev pub engine_version_schedule_testnet : List VersionSchedule
engine_version_schedule_testnet =
    from 0 v0
    ∷ from 1748970000 v5
    ∷ from 1752099060 v6
    ∷ from 1755291600 v7
    ∷ from 1755709200 v8
    ∷ from 1756918800 v9
    ∷ from 1757523600 v10
    ∷ from 1758733200 v11
    ∷ from 1758763200 v12
    ∷ from 1758906000 v13
    ∷ from 1761152400 v14
    ∷ from 1764783794 v15
    ∷ from 1777406400 v16
    ∷ []

abbrev pub engine_version_schedule_devnet : List VersionSchedule
engine_version_schedule_devnet = from 0 v16 ∷ []

unfoldable pub schedule_of : FarcasterNetwork → List VersionSchedule
schedule_of mainnet = engine_version_schedule_mainnet
schedule_of testnet = engine_version_schedule_testnet
schedule_of _ = engine_version_schedule_devnet

-- `FARCASTER_EPOCH / 1000`
abbrev pub epoch_seconds : ℕ
epoch_seconds = 1609459200

unfoldable pub to_unix_seconds : ℕ → ℕ
to_unix_seconds time = time + epoch_seconds

-- `filter(|schedule| schedule.active_at <= seconds)`
unfoldable pub active : ℕ → List VersionSchedule → List VersionSchedule
active seconds [] = []
active seconds (s ∷ ss) =
    let rest = active seconds ss in if leb s.active_at seconds then s ∷ rest else rest

-- `Iterator::last`
unfoldable pub last : List VersionSchedule → Option VersionSchedule
last [] = none
last (s ∷ []) = some s
last (s ∷ t ∷ ss) = last (t ∷ ss)

unfoldable pub version_for : ℕ → FarcasterNetwork → Result Error EngineVersion
unfolding schedule_of to_unix_seconds active last
version_for time network = elim (last (active (to_unix_seconds time) (schedule_of network))) [
  | some schedule ↦ ok schedule.version
  | none ↦ err Error.panic
]

-- `find(|entry| entry.active_at > seconds)`, and its `active_at`
unfoldable pub next_after : ℕ → List VersionSchedule → Option ℕ
next_after seconds [] = none
next_after seconds (s ∷ ss) =
    let rest = next_after seconds ss in if ltb seconds s.active_at then some s.active_at else rest

unfoldable pub next_version_timestamp_for : ℕ → FarcasterNetwork → Option ℕ
unfolding schedule_of to_unix_seconds next_after
next_version_timestamp_for time network = next_after (to_unix_seconds time) (schedule_of network)

unfoldable pub is_enabled : EngineVersion → ProtocolFeature → Bool
unfolding rank
is_enabled version signer_revoke_bug = rank version == 1 || rank version == 3
is_enabled version farcaster_pro = leb 5 (rank version)
is_enabled version basenames = leb 5 (rank version)
is_enabled version ens_validation = leb 5 (rank version)
is_enabled version message_length_check_fix = leb 5 (rank version)
is_enabled version primary_addresses = leb 5 (rank version)
is_enabled version username_shard_routing_fix = leb 5 (rank version)
is_enabled version future_timestamp_validation = leb 6 (rank version)
is_enabled version dependent_messages_in_bulk_submit = leb 7 (rank version)
is_enabled version decouple_shard_zero_block_production = leb 8 (rank version)
is_enabled version write_data_to_shard_zero = leb 9 (rank version)
is_enabled version read_data_from_shard_zero = leb 10 (rank version)
is_enabled version user_profile_token = leb 10 (rank version)
is_enabled version storage_lending = leb 11 (rank version)
is_enabled version event_id_bug_fix = leb 12 (rank version)
is_enabled version storage_lending_limit_fix = leb 13 (rank version)
is_enabled version stop_revoking_existing_messages = leb 14 (rank version)
is_enabled version increase_username_proof_size_limit = leb 15 (rank version)
is_enabled version gasless_signers = leb 16 (rank version)

abbrev latest_protocol_version : ℕ
latest_protocol_version = 11

unfoldable pub protocol_version : EngineVersion → ℕ
protocol_version v0 = 1
protocol_version v1 = 1
protocol_version v2 = 1
protocol_version v3 = 1
protocol_version v4 = 1
protocol_version v5 = 2
protocol_version v6 = 3
protocol_version v7 = 4
protocol_version v8 = 5
protocol_version v9 = 6
protocol_version v10 = 7
protocol_version v11 = 8
protocol_version v12 = 8
protocol_version v13 = 8
protocol_version v14 = 9
protocol_version v15 = 10
protocol_version v16 = latest_protocol_version
