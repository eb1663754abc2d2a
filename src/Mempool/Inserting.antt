-- ===== src/Mempool/Inserting.antt =====
-- What `insert_into_shard` of src/mempool/mempool.rs does on each branch.
use hypersnap.Shared.{
  ℕ, ◌≡◌, ◌≢◌, ◌⊎◌, inl, inr, refl, Bool, true, false, List, [], ◌∷◌, Option, none, some, ok, err,
  Error, hub, arith, Option-cases, either,
}
use hypersnap.Bytes.{Bytes}
use hypersnap.Proto.{Message}
use hypersnap.Mempool.{
  MempoolKey, MempoolMessage, mempool_key, user_message, onchain_event, onchain_event_for_migration,
  fname_transfer, block_event,
}
use hypersnap.Mempool.Pool.{Pool, insert, lookup, contains_key}
use hypersnap.Mempool.Pool.Laws.{lookup-insert, lookup-insert_other}
use hypersnap.Mempool.Admission.{Node, Limits, message_is_valid}
use hypersnap.Mempool.Flow.{
  Mempool, MempoolSource, gossip, rpc, local, gossip_message, pool_of, set_pool, pool_or_empty,
  insert_into_shard, in_pool, put_into, Pools,
}
use hypersnap.Mempool.Pulling.{pool_of-set_pool}

-- What is under a key in the pool of a shard.
unfoldable pub entry : {L : Type 0} → Mempool L → ℕ → MempoolKey → Option MempoolMessage
unfolding lookup pool_of
entry s shard key = lookup key (pool_or_empty (pool_of shard s.messages))

eq_or_ne : (a b : ℕ) → (a ≡ b) ⊎ (a ≢ b)
eq_or_ne a b = ground arith

abbrev is_some : Option MempoolMessage → Bool
is_some none = false
is_some (some _) = true

pool_of-set_pool_other :
    (other shard : ℕ) (pool : Pool) (pools : Pools)
    → other ≢ shard
    → pool_of other (set_pool shard pool pools) ≡ pool_of other pools
unfolding pool_of set_pool
pool_of-set_pool_other other shard pool [] h = ground (arith, h)
pool_of-set_pool_other other shard pool ((s, old) ∷ pools) h =
    ground (arith, h, pool_of-set_pool_other other shard pool pools h)

module _ {L : Type 0} (shard : ℕ) (message : MempoolMessage) (source : MempoolSource)
    (key : MempoolKey) (s : Mempool L) where
  entry-put_into : entry (put_into shard message source key s) shard key ≡ some message
  unfolding entry
  entry-put_into =
      let pool = pool_or_empty (pool_of shard s.messages) in
      ground (
        arith,
        pool_of-set_pool shard (insert key message pool) s.messages,
        lookup-insert key message pool,
      )

  entry-put_into_other :
      (other : ℕ) (k : MempoolKey)
      → (other ≢ shard) ⊎ (k ≢ key)
      → entry (put_into shard message source key s) other k ≡ entry s other k
  unfolding entry
  entry-put_into_other other k (inl h) =
      let pool = pool_or_empty (pool_of shard s.messages) in
      ground (arith, pool_of-set_pool_other other shard (insert key message pool) s.messages h)
  entry-put_into_other other k (inr h) =
      let pool = pool_or_empty (pool_of shard s.messages) in
      elim (eq_or_ne other shard) [
        | inl same ↦ ground (
          arith,
          same,
          pool_of-set_pool shard (insert key message pool) s.messages,
          lookup-insert_other k key message pool h,
        )
        | inr differ ↦
            ground (
              arith,
              pool_of-set_pool_other other shard (insert key message pool) s.messages differ,
            )
      ]

-- What is sent to other nodes: a user message that did not come from them, and nothing else.
abbrev pub Gossips :
    MempoolMessage → MempoolSource → List MempoolMessage → List MempoolMessage → Type 0
Gossips message source before after =
    ((m : Message) × (message ≡ user_message m) × (source ≢ gossip) × (after ≡ message ∷ before))
    ⊎ ((((m : Message) → message ≢ user_message m) ⊎ (source ≡ gossip)) × (after ≡ before))

gossip_message-Gossips :
    (message : MempoolMessage) (source : MempoolSource) (before : List MempoolMessage)
    → Gossips message source before (gossip_message message source before)
unfolding gossip_message
gossip_message-Gossips (user_message m) gossip before = inr (inr refl, refl)
gossip_message-Gossips (user_message m) rpc before = inl (m, refl, (λ e. cc), refl)
gossip_message-Gossips (user_message m) local before = inl (m, refl, (λ e. cc), refl)
gossip_message-Gossips (onchain_event e) source before = inr (inl (λ m h. cc), refl)
gossip_message-Gossips (onchain_event_for_migration e) source before = inr (inl (λ m h. cc), refl)
gossip_message-Gossips (fname_transfer t) source before = inr (inl (λ m h. cc), refl)
gossip_message-Gossips (block_event n e) source before = inr (inl (λ m h. cc), refl)

module _ {L : Type 0} (hex : Bytes → Bytes) (node : Node L) (shard : ℕ) (message : MempoolMessage)
    (source : MempoolSource) (s : Mempool L) (key : MempoolKey) where
  -- Another message is under the key already: nothing changes, and no token is taken.
  abbrev pub AlreadyThere : Type 0
  AlreadyThere =
      (existing : MempoolMessage) × (entry s shard key ≡ some existing)
      × (insert_into_shard hex node shard message source s
          ≡ (err (hub "bad_request.duplicate" "message already in the mempool"), s))

  -- The message is not valid: only the limiters change.
  abbrev pub Refused : Type 0
  Refused =
      (e : Error) × (left : Limits L) × (entry s shard key ≡ none)
      × (message_is_valid node shard message true s.limits ≡ (err e, left))
      × (insert_into_shard hex node shard message source s ≡ (err e, record s { limits = left }))

  -- The message is put under the key; other entries stay.
  abbrev pub Inserted : Type 0
  Inserted =
      (s' : Mempool L) × (entry s shard key ≡ none)
      × (message_is_valid node shard message true s.limits ≡ (ok tt, s'.limits))
      × (insert_into_shard hex node shard message source s ≡ (ok tt, s'))
      × (entry s' shard key ≡ some message)
      × ((other : ℕ) (k : MempoolKey)
          → (other ≢ shard) ⊎ (k ≢ key)
          → entry s' other k ≡ entry s other k)
      × Gossips message source s.gossiped s'.gossiped

  in_pool-entry :
      mempool_key hex message ≡ ok key
      → (found : Option MempoolMessage) → entry s shard key ≡ found
      → in_pool hex message (pool_of shard s.messages) ≡ ok (is_some found)
  unfolding entry contains_key
  in_pool-entry eq found here = ground (arith, eq, here)

  stops :
      mempool_key hex message ≡ ok key
      → (existing : MempoolMessage) → entry s shard key ≡ some existing
      → insert_into_shard hex node shard message source s
        ≡ (err (hub "bad_request.duplicate" "message already in the mempool"), s)
  unfolding insert_into_shard
  stops eq existing there = ground (arith, in_pool-entry eq (some existing) there)

  refuses :
      mempool_key hex message ≡ ok key
      → entry s shard key ≡ none
      → (e : Error) → (message_is_valid node shard message true s.limits).0 ≡ err e
      → insert_into_shard hex node shard message source s
        ≡ (err e, record s { limits = (message_is_valid node shard message true s.limits).1 })
  unfolding insert_into_shard
  refuses eq absent e refused = ground (arith, in_pool-entry eq none absent, refused)

  inserts :
      mempool_key hex message ≡ ok key
      → entry s shard key ≡ none
      → (message_is_valid node shard message true s.limits).0 ≡ ok tt
      → insert_into_shard hex node shard message source s ≡ (
        ok tt,
        put_into shard message source key
            (record s { limits = (message_is_valid node shard message true s.limits).1 }),
      )
  unfolding insert_into_shard
  inserts eq absent valid = ground (arith, in_pool-entry eq none absent, valid, eq)

  -- A message that has a key, inserted into the pool of a shard, meets one of three cases. There is
  -- a message under its key already: it is refused as a duplicate, and nothing changes (no token of
  -- the limiters is taken). It is not valid: it is refused with the error of `message_is_valid`,
  -- and only the limiters change. Else it stands under its key, the entries under other keys and of
  -- other shards are what they were, and it is gossiped if it is a user message that did not come
  -- from gossip.
  pub insert_into_shard_outcome :
      mempool_key hex message ≡ ok key → AlreadyThere ⊎ (Refused ⊎ Inserted)
  unfolding entry
  insert_into_shard_outcome eq = elim (Option-cases (entry s shard key)) [
    | inr (existing, there) ↦ inl (existing, there, stops eq existing there)
    | inl absent ↦ elim (either (message_is_valid node shard message true s.limits).0) [
      | inr (e, refused) ↦ inr (
          inl (
            e,
            (message_is_valid node shard message true s.limits).1,
            absent,
            ground (arith, refused),
            refuses eq absent e refused,
          ))
      | inl (done, valid) ↦
          let after = record s { limits = (message_is_valid node shard message true s.limits).1 } in
          inr (
            inr (
              put_into shard message source key after,
              absent,
              ground (arith, valid),
              inserts eq absent valid,
              entry-put_into shard message source key after,
              entry-put_into_other shard message source key after,
              gossip_message-Gossips message source s.gossiped,
            ))
    ]
  ]
