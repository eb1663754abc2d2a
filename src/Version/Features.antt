-- ===== src/Version/Features.antt =====
-- What an upgrade to a later engine version changes: `protocol_version` and `is_enabled`.
use hypersnap.Shared.{◌-◌, ◌≤◌, ◌≡◌, ◌≢◌, refl, true, arith, leb, if◌then◌else◌}
use hypersnap.Version.{
  EngineVersion, ProtocolFeature, rank, is_enabled, protocol_version, signer_revoke_bug,
  farcaster_pro, basenames, ens_validation, message_length_check_fix, primary_addresses,
  username_shard_routing_fix, future_timestamp_validation, dependent_messages_in_bulk_submit,
  decouple_shard_zero_block_production, write_data_to_shard_zero, read_data_from_shard_zero,
  user_profile_token, storage_lending, event_id_bug_fix, storage_lending_limit_fix,
  stop_revoking_existing_messages, increase_username_proof_size_limit, gasless_signers, v0, v1, v2,
  v3, v4, v5, v6, v7, v8, v9, v10, v11, v12, v13, v14, v15, v16,
}

protocol_version_lem :
    (v : EngineVersion)
    → protocol_version v ≡ (
        if leb (rank v) 4
        then 1
        else if leb (rank v) 10
        then rank v - 3
        else if leb (rank v) 13
        then 8
        else rank v - 5)
unfolding protocol_version rank
protocol_version_lem v0 = refl
protocol_version_lem v1 = refl
protocol_version_lem v2 = refl
protocol_version_lem v3 = refl
protocol_version_lem v4 = refl
protocol_version_lem v5 = refl
protocol_version_lem v6 = refl
protocol_version_lem v7 = refl
protocol_version_lem v8 = refl
protocol_version_lem v9 = refl
protocol_version_lem v10 = refl
protocol_version_lem v11 = refl
protocol_version_lem v12 = refl
protocol_version_lem v13 = refl
protocol_version_lem v14 = refl
protocol_version_lem v15 = refl
protocol_version_lem v16 = refl

stays_enabled :
    (v w : EngineVersion) (feature : ProtocolFeature)
    → rank v ≤ rank w
    → feature ≢ signer_revoke_bug
    → is_enabled v feature ≡ true
    → is_enabled w feature ≡ true
unfolding is_enabled
stays_enabled v w signer_revoke_bug le other h = absurd (other refl)
stays_enabled v w farcaster_pro le other h = ground (arith, le, h)
stays_enabled v w basenames le other h = ground (arith, le, h)
stays_enabled v w ens_validation le other h = ground (arith, le, h)
stays_enabled v w message_length_check_fix le other h = ground (arith, le, h)
stays_enabled v w primary_addresses le other h = ground (arith, le, h)
stays_enabled v w username_shard_routing_fix le other h = ground (arith, le, h)
stays_enabled v w future_timestamp_validation le other h = ground (arith, le, h)
stays_enabled v w dependent_messages_in_bulk_submit le other h = ground (arith, le, h)
stays_enabled v w decouple_shard_zero_block_production le other h = ground (arith, le, h)
stays_enabled v w write_data_to_shard_zero le other h = ground (arith, le, h)
stays_enabled v w read_data_from_shard_zero le other h = ground (arith, le, h)
stays_enabled v w user_profile_token le other h = ground (arith, le, h)
stays_enabled v w storage_lending le other h = ground (arith, le, h)
stays_enabled v w event_id_bug_fix le other h = ground (arith, le, h)
stays_enabled v w storage_lending_limit_fix le other h = ground (arith, le, h)
stays_enabled v w stop_revoking_existing_messages le other h = ground (arith, le, h)
stays_enabled v w increase_username_proof_size_limit le other h = ground (arith, le, h)
stays_enabled v w gasless_signers le other h = ground (arith, le, h)

-- From one version to a later one the protocol version does not fall, and no feature is switched
-- off but the signer revoke bug.
pub version_upgrade :
    (v w : EngineVersion)
    → rank v ≤ rank w
    → (protocol_version v ≤ protocol_version w)
      × ((feature : ProtocolFeature)
          → feature ≢ signer_revoke_bug
          → is_enabled v feature ≡ true
          → is_enabled w feature ≡ true)
version_upgrade v w le = (
  ground (arith, le, protocol_version_lem v, protocol_version_lem w),
  λ feature. stays_enabled v w feature le,
)
