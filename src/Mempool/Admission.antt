-- ===== src/Mempool/Admission.antt =====
-- The checks on a message before it enters the pool of a shard and when it leaves: `message_already_exists`,
-- `message_exceeds_rate_limits` and `message_is_valid`. Parameters are the node's stores as far as the
-- checks read them, the clock (by the version that is current) and the rate limiters, which come from the crates
-- moka and governor.
use hypersnap.Shared.{
  ℕ, ◌/◌, Bool, true, false, not, [], Option, none, some, Result, ok, err, Error, hub, leb, ◌==◌,
  ◌>>=◌, ◌>>◌, unwrap, if◌then◌else◌,
}
use hypersnap.Proto.{Body, Message, MessageType, key_add, key_remove, key_add_body}
use hypersnap.Proto.Blocks.{BlockEvent}
use hypersnap.Keys.{make_ts_hash, make_message_primary_key, type_to_set_postfix}
use hypersnap.Keys.Prefix.{postfix_u8}
use hypersnap.Database.{Database}
use hypersnap.Store.Types.{Protobuf}
use hypersnap.Store.Codec.{get_message_by_key}
use hypersnap.Routing.{msg_type, fid_of}
use hypersnap.Version.{EngineVersion, is_enabled, gasless_signers}
use hypersnap.Mempool.{MempoolMessage, user_message, block_event, fid}

-- What the checks read of the stores of a shard: the database, `block_event_store.max_seqnum()` and the sum of
-- the storage limits of a fid.
pub record ShardStores : Type 0 where
  pub db : Database
  pub max_seqnum : Result Error ℕ
  pub storage_allowance : ℕ → ℕ

-- `Quota`: so many cells in a period of so many seconds.
pub record Quota : Type 0 where
  pub seconds : ℕ
  pub cells : ℕ

abbrev pub per_hour : ℕ → Quota
per_hour n = record { seconds = 3600; cells = n }

abbrev pub per_minute : ℕ → Quota
per_minute n = record { seconds = 60; cells = n }

-- A cache of rate limiters by fid: whether one is there, a new one, a token from one.
pub record RateLimiters (L : Type 0) : Type 0 where
  pub cached : L → ℕ → Bool
  pub create : L → ℕ → Quota → L
  pub check : L → ℕ → Bool × L
  pub invalidate : L → ℕ → L

pub record Node (L : Type 0) : Type 0 where
  pub proto : Protobuf
  pub router : ℕ → ℕ → Result Error ℕ
  pub num_shards : ℕ
  pub block_db : Database
  pub shard_stores : ℕ → Option ShardStores
  pub version : EngineVersion
  pub limiters : RateLimiters L

-- `rate_limits`, which the configuration may leave out, and `key_add_rate_limits`.
pub record Limits (L : Type 0) : Type 0 where
  pub rate_limits : Option L
  pub key_add_rate_limits : L

abbrev is_key_add_body : Option Body → Bool
is_key_add_body (some (key_add_body body)) = true
is_key_add_body _ = false

unfoldable pub is_key_add : Message → Bool
is_key_add message = elim message.message_data [ none ↦ false | some d ↦ is_key_add_body d.body ]

abbrev pub is_gasless : MessageType → Bool
is_gasless key_add = true
is_gasless key_remove = true
is_gasless _ = false

abbrev at_least_100 : ℕ → ℕ
at_least_100 n = if leb n 100 then 100 else n

abbrev is_found : Result Error (Option Message) → Bool
is_found (ok (some message)) = true
is_found _ = false

module _ {L : Type 0} (node : Node L) where
  abbrev db_of : ℕ → Option Database
  db_of shard =
      if shard == 0
      then some node.block_db
      else elim (node.shard_stores shard) [ none ↦ none | some stores ↦ some stores.db ]

  abbrev stored_in : Database → Message → Result Error Bool
  stored_in db message = elim message.message_data [
    | none ↦ ok false
    | some d ↦ make_ts_hash d.timestamp message.hash >>= λ ts_hash.
        elim (type_to_set_postfix (msg_type message)) [
          | err e ↦ ok false
          | ok set_postfix ↦ ok (
              is_found (
                get_message_by_key node.proto db []
                  (make_message_primary_key d.fid (postfix_u8 set_postfix) (some ts_hash))))
        ]
  ]

  -- For a user message; other messages are not looked for.
  unfoldable pub message_already_exists : ℕ → MempoolMessage → Result Error Bool
  unfolding get_message_by_key make_message_primary_key type_to_set_postfix msg_type
  message_already_exists shard (user_message message) = elim (db_of shard) [
    | none ↦ ok false
    | some db ↦ stored_in db message
  ]
  message_already_exists shard message = fid message >>= λ _. ok false

  -- `RateLimits::consume_for_fid`: whether there is a token, and the limiters without it. The
  -- allowance is a number that is there and below 2^32: the code unwraps the answer of the store and
  -- adds up in u32.
  unfoldable pub consume_for_fid : ℕ → L → Result Error (Bool × L)
  consume_for_fid user limits =
      if node.limiters.cached limits user then ok (node.limiters.check limits user) else do
        shard ← node.router user node.num_shards
        stores ← unwrap (node.shard_stores shard)
        let allowance = stores.storage_allowance user
        if allowance == 0
            then ok (false, limits)
            else ok (
                node.limiters.check
                  (node.limiters.create limits user (per_hour (at_least_100 (allowance / 10))))
                  user)

  -- `KeyAddRateLimits::consume_for_fid`
  unfoldable pub consume_key_add : ℕ → L → Bool × L
  consume_key_add user limits =
      node.limiters.check
        (if node.limiters.cached limits user
          then limits
          else node.limiters.create limits user (per_minute 1))
        user

  unfoldable pub exceeds_storage_limits : ℕ → Limits L → Result Error (Bool × Limits L)
  unfolding consume_for_fid
  exceeds_storage_limits user limits = elim limits.rate_limits [
    | none ↦ ok (false, limits)
    | some rate_limits ↦ consume_for_fid user rate_limits >>= λ (allowed, left).
        ok (not allowed, record limits { rate_limits = some left })
  ]

  -- A key add takes a token of both kinds.
  unfoldable pub exceeds_key_add_limits : ℕ → Limits L → Result Error (Bool × Limits L)
  unfolding consume_key_add exceeds_storage_limits
  exceeds_key_add_limits user limits =
      let (allowed, left) = consume_key_add user limits.key_add_rate_limits in
      let used = record limits { key_add_rate_limits = left } in
      elim allowed [ false ↦ ok (true, used) | true ↦ exceeds_storage_limits user used ]

  -- Whether there is no token for the message, and the limiters after it.
  unfoldable pub message_exceeds_rate_limits :
      MempoolMessage → Limits L → Result Error (Bool × Limits L)
  unfolding fid_of is_key_add exceeds_key_add_limits exceeds_storage_limits
  message_exceeds_rate_limits (user_message message) limits =
      if is_key_add message
      then exceeds_key_add_limits (fid_of message) limits
      else exceeds_storage_limits (fid_of message) limits
  message_exceeds_rate_limits message limits = ok (false, limits)

  abbrev feature_gate : MempoolMessage → Result Error (Unit {0})
  feature_gate (user_message message) =
      if is_gasless (msg_type message)
      then if is_enabled node.version gasless_signers
        then ok tt
        else err (hub "bad_request.validation_failure" "gasless signers not yet active")
      else ok tt
  feature_gate message = ok tt

  abbrev after_merged : BlockEvent → Result Error ℕ → Result Error (Unit {0})
  after_merged event (ok max_seqnum) = unwrap event.event_data >>= λ d.
      if leb d.seqnum max_seqnum
      then err (hub "bad_request.duplicate" "block event has already been merged")
      else ok tt
  after_merged event (err e) = ok tt

  abbrev block_event_check : MempoolMessage → Result Error (Unit {0})
  block_event_check (block_event for_shard event) =
      if for_shard == 0
      then err (hub "invalid_internal_state" "block event cannot be submitted to shard 0")
      else unwrap (node.shard_stores for_shard) >>= λ stores. after_merged event stores.max_seqnum
  block_event_check message = ok tt

  abbrev exists_check : ℕ → MempoolMessage → Result Error (Unit {0})
  exists_check shard message = message_already_exists shard message >>= λ exists.
      if exists then err (hub "bad_request.duplicate" "message has already been merged") else ok tt

  -- The part of `message_is_valid` that takes no token.
  unfoldable pub is_current : ℕ → MempoolMessage → Result Error (Unit {0})
  unfolding is_enabled msg_type message_already_exists
  is_current shard message =
      feature_gate message >> block_event_check message >> exists_check shard message

  unfoldable pub message_is_valid :
      ℕ → MempoolMessage → Bool → Limits L → Result Error (Unit {0}) × Limits L
  unfolding is_current message_exceeds_rate_limits
  message_is_valid shard message at_admission limits = elim (is_current shard message) [
    | err e ↦ (err e, limits)
    | ok _ ↦ elim at_admission [
      | false ↦ (ok tt, limits)
      | true ↦ elim (message_exceeds_rate_limits message limits) [
        | err e ↦ (err e, limits)
        | ok (true, left) ↦
            (err (hub "bad_request.rate_limited" "rate limit exceeded for FID "), left)
        | ok (false, left) ↦ (ok tt, left)
      ]
    ]
  ]
