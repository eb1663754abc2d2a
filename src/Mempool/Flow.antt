-- ===== src/Mempool/Flow.antt =====
-- The operations of the mempool: a message is routed and put into the pools of its shards, the proposer of a
-- shard pulls messages, and a block or a chunk removes those that it commits.
use hypersnap.Shared.{
  ℕ, zero, suc, ◌+◌, ◌-◌, ◌%◌, ◌^◌, Bool, true, false, List, [], ◌∷◌, ◌++◌, Option, none, some,
  Result, ok, err, Error, hub, panic, length, ltb, ◌==◌, ◌>>=◌, ◌>>◌, if◌then◌else◌,
}
use hypersnap.Bytes.{Bytes}
use hypersnap.Proto.{Message}
use hypersnap.Proto.Blocks.{Transaction, ValidatorMessage, OnChainEvent, event_type_storage_rent}
use hypersnap.Routing.{route_message}
use hypersnap.Version.{is_enabled, username_shard_routing_fix}
use hypersnap.Mempool.{
  MempoolMessage, MempoolKey, user_message, onchain_event, onchain_event_for_migration,
  fname_transfer, block_event, fid, mempool_key, message_mempool_key, validator_mempool_key,
}
use hypersnap.Mempool.Pool.{Pool, insert, remove, contains_key}
use hypersnap.Mempool.Admission.{Node, Limits, message_is_valid}

-- `HashMap<u32, BTreeMap<MempoolKey, MempoolMessage>>`
abbrev pub Pools : Type 0
Pools = List (ℕ × Pool)

unfoldable pub pool_of : ℕ → Pools → Option Pool
pool_of shard [] = none
pool_of shard ((s, pool) ∷ pools) = if s == shard then some pool else pool_of shard pools

unfoldable pub set_pool : ℕ → Pool → Pools → Pools
set_pool shard pool [] = (shard, pool) ∷ []
set_pool shard pool ((s, old) ∷ pools) =
    if s == shard then (s, pool) ∷ pools else (s, old) ∷ set_pool shard pool pools

-- The pools, the limiters and what was sent to `gossip_tx`, the last first.
pub record Mempool (L : Type 0) : Type 0 where
  pub messages : Pools
  pub limits : Limits L
  pub gossiped : List MempoolMessage

pub data MempoolSource : Type 0 where
  gossip rpc local : MempoolSource

-- `gossip_message`
unfoldable pub gossip_message :
    MempoolMessage → MempoolSource → List MempoolMessage → List MempoolMessage
gossip_message (user_message message) gossip sent = sent
gossip_message (user_message message) rpc sent = user_message message ∷ sent
gossip_message (user_message message) local sent = user_message message ∷ sent
gossip_message message source sent = sent

-- `(first..first + count)`
abbrev range : ℕ → ℕ → List ℕ
range first zero = []
range first (suc count) = first ∷ range (suc first) count

abbrev all_shards : ℕ → List ℕ
all_shards num_shards = range 1 ((num_shards + 1) % 2 ^ 32 - 1)

abbrev pub pool_or_empty : Option Pool → Pool
pool_or_empty none = []
pool_or_empty (some pool) = pool

abbrev pub first_error : Option Error → Error → Option Error
first_error none e = some e
first_error (some e) later = some e

abbrev result_of : Option Error → Result Error (Unit {0})
result_of none = ok tt
result_of (some e) = err e

abbrev pub put_into :
    {L : Type 0} → ℕ → MempoolMessage → MempoolSource → MempoolKey → Mempool L → Mempool L
put_into shard message source key s = record s {
  messages =
      set_pool shard (insert key message (pool_or_empty (pool_of shard s.messages))) s.messages;
  gossiped = gossip_message message source s.gossiped;
}

module _ (hex : Bytes → Bytes) where
  abbrev pub in_pool : MempoolMessage → Option Pool → Result Error Bool
  in_pool message none = ok false
  in_pool message (some pool) = mempool_key hex message >>= λ key. ok (contains_key key pool)

  -- The loop of `remove_committed_txns` over the messages of users.
  unfoldable pub remove_user_messages : List Message → Pool → Result Error Pool
  unfolding message_mempool_key remove
  remove_user_messages [] pool = ok pool
  remove_user_messages (message ∷ messages) pool =
      message_mempool_key hex message >>= λ key. remove_user_messages messages (remove key pool)

module _ {L : Type 0} (hex : Bytes → Bytes) (node : Node L) where
  abbrev shards_of : MempoolMessage → ℕ → Result Error (List ℕ)
  shards_of (fname_transfer transfer) fid_shard = ok (
      if is_enabled node.version username_shard_routing_fix
      then all_shards node.num_shards
      else fid_shard ∷ [])
  shards_of (onchain_event_for_migration event) fid_shard = ok (0 ∷ [])
  shards_of (onchain_event event) fid_shard = ok (0 ∷ fid_shard ∷ [])
  shards_of (block_event for_shard event) fid_shard = ok (for_shard ∷ [])
  shards_of (user_message message) fid_shard =
      route_message node.router message node.num_shards >>= λ shard. ok (shard ∷ [])

  unfoldable pub route_mempool_message : MempoolMessage → Result Error (List ℕ)
  unfolding fid is_enabled route_message
  route_mempool_message message = do
    user ← fid message
    fid_shard ← node.router user node.num_shards
    shards_of message fid_shard

  unfoldable pub insert_into_shard :
      ℕ → MempoolMessage → MempoolSource → Mempool L → Result Error (Unit {0}) × Mempool L
  unfolding mempool_key contains_key message_is_valid gossip_message insert pool_of set_pool
  insert_into_shard shard message source s = elim (in_pool hex message (pool_of shard s.messages)) [
    | err e ↦ (err e, s)
    | ok true ↦ (err (hub "bad_request.duplicate" "message already in the mempool"), s)
    | ok false ↦
        let (result, left) = message_is_valid node shard message true s.limits in
        elim (result >> mempool_key hex message) [
          | err e ↦ (err e, record s { limits = left })
          | ok key ↦ (ok tt, put_into shard message source key (record s { limits = left }))
        ]
  ]

  -- A panic ends the loop, any other error does not.
  unfoldable pub insert_into_shards :
      List ℕ
      → MempoolMessage
      → MempoolSource
      → Option Error
      → Mempool L
      → Result Error (Unit {0}) × Mempool L
  unfolding insert_into_shard
  insert_into_shards [] message source first s = (result_of first, s)
  insert_into_shards (shard ∷ shards) message source first s =
      let (result, s') = insert_into_shard shard message source s in
      elim result [
        | ok _ ↦ insert_into_shards shards message source first s'
        | err panic ↦ (err panic, s')
        | err (hub code text) ↦
            insert_into_shards shards message source (first_error first (hub code text)) s'
      ]

  unfoldable pub admit :
      MempoolMessage → MempoolSource → Mempool L → Result Error (Unit {0}) × Mempool L
  unfolding route_mempool_message insert_into_shards
  admit message source s = elim (route_mempool_message message) [
    | err e ↦ (err e, s)
    | ok shards ↦ insert_into_shards shards message source none s
  ]

  -- The loop of `pull_messages`: the messages taken, what is left of the pool, and the limiters.
  unfoldable pub pull_loop :
      ℕ
      → ℕ
      → Limits L
      → List MempoolMessage
      → Pool
      → Result Error (List MempoolMessage × Pool × Limits L)
  unfolding message_is_valid
  pull_loop shard max limits messages [] = ok (messages, [], limits)
  pull_loop shard max limits messages ((key, next) ∷ pool) = elim (ltb (length messages) max) [
    | false ↦ ok (messages, (key, next) ∷ pool, limits)
    | true ↦
        let (result, left) = message_is_valid node shard next false limits in
        elim result [
          | ok _ ↦ pull_loop shard max left (messages ++ (next ∷ [])) pool
          | err panic ↦ err panic
          | err (hub code text) ↦ pull_loop shard max left messages pool
        ]
  ]

  unfoldable pub pull_messages : ℕ → ℕ → Mempool L → Result Error (List MempoolMessage × Mempool L)
  unfolding pull_loop pool_of set_pool
  pull_messages shard max s = elim (pool_of shard s.messages) [
    | none ↦ ok ([], s)
    | some pool ↦ pull_loop shard max s.limits [] pool >>= λ (messages, rest, left).
        ok (messages, record s { messages = set_pool shard rest s.messages; limits = left })
  ]

  abbrev invalidated : ℕ → Option L → Option L
  invalidated user none = none
  invalidated user (some limits) = some (node.limiters.invalidate limits user)

  abbrev pub bump : Option OnChainEvent → Limits L → Limits L
  bump none limits = limits
  bump (some event) limits =
      if event.type == event_type_storage_rent
      then record limits { rate_limits = invalidated event.fid limits.rate_limits }
      else limits

  unfoldable pub remove_system_messages :
      List ValidatorMessage → Pool → Limits L → Result Error (Pool × Limits L)
  unfolding validator_mempool_key remove
  remove_system_messages [] pool limits = ok (pool, limits)
  remove_system_messages (message ∷ messages) pool limits =
      validator_mempool_key hex message >>= λ key.
      remove_system_messages messages (remove key pool) (bump message.on_chain_event limits)

  unfoldable pub remove_transactions :
      List Transaction → Pool → Limits L → Result Error (Pool × Limits L)
  unfolding remove_user_messages remove_system_messages
  remove_transactions [] pool limits = ok (pool, limits)
  remove_transactions (transaction ∷ transactions) pool limits = do
    without_user ← remove_user_messages hex transaction.user_messages pool
    (without_system, left) ← remove_system_messages transaction.system_messages without_user limits
    remove_transactions transactions without_system left

  unfoldable pub remove_committed_txns : ℕ → List Transaction → Mempool L → Result Error (Mempool L)
  unfolding remove_transactions pool_of set_pool
  remove_committed_txns shard transactions s = elim (pool_of shard s.messages) [
    | none ↦ ok s
    | some pool ↦ remove_transactions transactions pool s.limits >>= λ (rest, left).
        ok (record s { messages = set_pool shard rest s.messages; limits = left })
  ]
