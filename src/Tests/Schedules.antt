-- ===== src/Tests/Schedules.antt =====
-- The engine version schedule at concrete times.
use hypersnap.Shared.{◌≤◌, ◌≡◌, ◌≢◌, arith, true, ok}
use hypersnap.Version.{
  EngineVersion, ProtocolFeature, v4, v5, mainnet, rank, version_for, is_enabled, protocol_version,
  signer_revoke_bug, next_version_timestamp_for, to_unix_seconds,
}
use hypersnap.Version.Schedule.{IsBefore, version_rises, version_until_next}
use hypersnap.Version.Features.{version_upgrade}

version_rises_example :
    (v w : EngineVersion) × (version_for 0 mainnet ≡ ok v)
    × (version_for 200000000 mainnet ≡ ok w)
    × (rank v ≤ rank w)
version_rises_example = version_rises mainnet 0 200000000 (ground arith)

early : IsBefore (to_unix_seconds 100) (next_version_timestamp_for 0 mainnet)
unfolding next_version_timestamp_for
early = ground arith

version_until_next_example : version_for 100 mainnet ≡ version_for 0 mainnet
version_until_next_example = version_until_next mainnet 0 100 (ground arith) early

version_upgrade_example :
    (protocol_version v4 ≤ protocol_version v5)
    × ((feature : ProtocolFeature)
        → feature ≢ signer_revoke_bug
        → is_enabled v4 feature ≡ true
        → is_enabled v5 feature ≡ true)
version_upgrade_example = version_upgrade v4 v5 (unfold rank in ground arith)
