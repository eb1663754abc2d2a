-- ===== src/Validation/Authentic.antt =====
-- What a message that `validate_message` of src/core/validations/message.rs lets through has been checked for.
use hypersnap.Shared.{
  ℕ, ◌+◌, ◌≤◌, ◌≡◌, refl, sym, arith, Bool, true, Result, ok, err, length, Ordering,
}
use hypersnap.Bytes.{Bytes, bytes_compare}
use hypersnap.Bytes.Order.{eq_of_bytes_compare}
use hypersnap.Proto.{Message, MessageData}
use hypersnap.Version.{
  EngineVersion, FarcasterNetwork, mainnet, is_enabled, future_timestamp_validation,
}
use hypersnap.Validation.{ValidationError, in_turn}
use hypersnap.Validation.Bodies.{Passes, in_turn-Passes}
use hypersnap.Validation.Whole.{
  MessageCrates, data_of, max_data_size, validate_message_network, validate_message_hash,
  validate_signature, validate_timestamp, validate_body, message_checks, validate_message,
}

-- The data are those that the hashed bytes encode or decode to; the hash is that of the bytes, and the signer
-- signed the hash.
pub record IsAuthentic (crates : MessageCrates) (m : Message) (network : FarcasterNetwork)
    (is_pro_user : Bool) (block_timestamp : ℕ) (version : EngineVersion) : Type 0 where
  pub data_bytes : Bytes
  pub data' : MessageData
  pub source : data_of crates m ≡ ok (data_bytes, data')
  pub bounded : length data_bytes ≤ max_data_size version data'.type is_pro_user
  pub on_network : (1 ≤ data'.network) × (data'.network ≤ 3)
  pub on_mainnet : network ≡ mainnet → data'.network ≡ 1
  pub hashed : m.hash ≡ crates.blake3_20 data_bytes
  pub signed : crates.verify_strict m.signer m.hash m.signature ≡ true
  pub scheme : m.signature_scheme ≡ 1
  pub timely :
      is_enabled version future_timestamp_validation ≡ true
      → data'.timestamp ≤ block_timestamp + 600
  pub checked : Passes (validate_body crates data' is_pro_user block_timestamp version)

max_data_size_bound :
    (version : EngineVersion) (type : ℕ) (pro : Bool) → max_data_size version type pro ≤ 65536
unfolding max_data_size
max_data_size_bound version type pro = ground arith

validate_message_network-Passes :
    (n : ℕ) (network : FarcasterNetwork)
    → Passes (validate_message_network n network)
    → (1 ≤ n) × (n ≤ 3) × (network ≡ mainnet → n ≡ 1)
unfolding validate_message_network
validate_message_network-Passes n network h = ground arith

validate_signature-Passes :
    (crates : MessageCrates) (scheme : ℕ) (data_bytes signature signer : Bytes)
    → Passes (validate_signature crates scheme data_bytes signature signer)
    → (scheme ≡ 1) × (crates.verify_strict signer data_bytes signature ≡ true)
unfolding validate_signature
validate_signature-Passes crates scheme data_bytes signature signer h = ground arith

validate_message_hash-Passes :
    (crates : MessageCrates) (scheme : ℕ) (data_bytes hash : Bytes)
    → Passes (validate_message_hash crates scheme data_bytes hash)
    → bytes_compare (crates.blake3_20 data_bytes) hash ≡ Ordering.eq
unfolding validate_message_hash
validate_message_hash-Passes crates scheme data_bytes hash h = ground arith

validate_timestamp-Passes :
    (t b : ℕ) (version : EngineVersion)
    → Passes (validate_timestamp t b version)
    → is_enabled version future_timestamp_validation ≡ true
    → t ≤ b + 600
unfolding validate_timestamp
validate_timestamp-Passes t b version h on = ground arith

-- A message that passes `validate_message` has a hash that is the hash of its data bytes, a
-- signature of its signer over that hash, data of at most the size for its type, a network of 1 to
-- 3 (mainnet on mainnet), a timestamp at most 600 seconds after the block where that feature is on,
-- and a body that passes its checks.
pub validate_message-IsAuthentic :
    (crates : MessageCrates) (m : Message) (network : FarcasterNetwork) (pro : Bool)
    (block_timestamp : ℕ) (version : EngineVersion)
    → Passes (validate_message crates m network pro block_timestamp version)
    → IsAuthentic crates m network pro block_timestamp version
unfolding validate_message message_checks
validate_message-IsAuthentic crates m network pro block_timestamp version h =
    given (data_of crates m) refl h
  where
    given :
        (r : Result ValidationError (Bytes × MessageData))
        → data_of crates m ≡ r
        → Passes (elim r [
          | err e ↦ err e
          | ok (bytes, d) ↦
              in_turn (message_checks crates m network pro block_timestamp version bytes d)
        ])
        → IsAuthentic crates m network pro block_timestamp version
    given (err e) source h = absurd (ground arith)
    given (ok (bytes, d)) source h =
        let (size, (net, (hash, (signature, (time, (body, end)))))) =
          (in_turn-Passes (message_checks crates m network pro block_timestamp version bytes d)).0
            h in
        let on_net = validate_message_network-Passes d.network network net in
        let by_signer =
          validate_signature-Passes crates m.signature_scheme m.hash m.signature m.signer
            signature in
        record {
          data_bytes = bytes;
          data' = d;
          source = source;
          bounded = ground (arith, size);
          on_network = (on_net.0, on_net.1);
          on_mainnet = on_net.2;
          hashed = sym (
              eq_of_bytes_compare (crates.blake3_20 bytes) m.hash
                (validate_message_hash-Passes crates m.hash_scheme bytes m.hash hash));
          signed = by_signer.1;
          scheme = by_signer.0;
          timely = validate_timestamp-Passes d.timestamp block_timestamp version time;
          checked = body;
        }
