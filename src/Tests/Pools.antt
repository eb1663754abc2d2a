-- ===== src/Tests/Pools.antt =====
-- The mempool at concrete inputs: two links of user 3, a node that has merged nothing, and rate limiters that
-- are the number of their tokens.
use hypersnap.Shared.{
  ℕ, ◌+◌, ◌-◌, ◌≤◌, ◌≡◌, ◌⊎◌, refl, true, [], ◌∷◌, some, ok, ltb, length, take, drop, All, arith,
}
use hypersnap.Bytes.{Bytes}
use hypersnap.Version.{v16}
use hypersnap.Keys.{make_ts_hash}
use hypersnap.Database.{get_from_db_or_txn}
use hypersnap.Mempool.{
  MempoolKey, MempoolMessage, user_message, mempool_key, make_key, user_message_kind,
}
use hypersnap.Mempool.Pool.{Pool}
use hypersnap.Mempool.Admission.{Node, ShardStores, RateLimiters, is_current}
use hypersnap.Mempool.Flow.{Mempool, rpc, pool_of, set_pool, pull_messages, admit}
use hypersnap.Mempool.Pulling.{current_messages, Checkable, pull_messages_takes}
use hypersnap.Mempool.Draining.{pulls, pulls_drain}
use hypersnap.Mempool.Runs.{
  Reachable, start, step, admitted, Reachable-ArePools, InOrder, pull_messages-InOrder,
}
use hypersnap.Mempool.Invariant.{ArePools}
use hypersnap.Mempool.Inserting.{AlreadyThere, Refused, Inserted, insert_into_shard_outcome}
use hypersnap.Tests.Fixtures.{follow_at, hash_20, protobuf, empty_database}

-- In place of the hexadecimal digits of a hash, the hash.
abbrev hex : Bytes → Bytes
hex bytes = bytes

abbrev limiters : RateLimiters ℕ
limiters = record {
  cached = λ tokens fid. true;
  create = λ tokens fid quota. tokens;
  check = λ tokens fid. (ltb 0 tokens, tokens - 1);
  invalidate = λ tokens fid. tokens;
}

abbrev stores : ShardStores
stores = record { db = empty_database; max_seqnum = ok 0; storage_allowance = λ fid. 10 }

abbrev node : Node ℕ
node = record {
  proto = protobuf;
  router = λ fid num_shards. ok 1;
  num_shards = 2;
  block_db = empty_database;
  shard_stores = λ shard. some stores;
  version = v16;
  limiters = limiters;
}

abbrev first : MempoolMessage
first = user_message (follow_at 7)

abbrev second : MempoolMessage
second = user_message (follow_at 8)

abbrev key_at : ℕ → MempoolKey
key_at seconds = make_key user_message_kind (seconds + 1609459200) hash_20

abbrev pool : Pool
pool = (key_at 7, first) ∷ (key_at 8, second) ∷ []

abbrev empty : Mempool ℕ
empty = record {
  messages = [];
  limits = record { rate_limits = some 5; key_add_rate_limits = 1 };
  gossiped = [];
}

abbrev waiting : Mempool ℕ
waiting = record empty { messages = (1, pool) ∷ [] }

first_current : is_current node 1 first ≡ ok tt
unfolding is_current make_ts_hash get_from_db_or_txn
first_current = refl

second_current : is_current node 1 second ≡ ok tt
unfolding is_current make_ts_hash get_from_db_or_txn
second_current = refl

pool-Checkable : Checkable hex node 1 pool
pool-Checkable = ground (arith, first_current, second_current)

pool_there : pool_of 1 waiting.messages ≡ some pool
unfolding pool_of
pool_there = refl

pull_messages_takes_example :
    (n : ℕ) × (pull_messages hex node 1 1 waiting
      ≡ ok (
        current_messages hex node 1 (take n pool),
        record waiting { messages = set_pool 1 (drop n pool) waiting.messages },
      ))
    × (length (current_messages hex node 1 (take n pool)) ≤ 1)
    × ((length (current_messages hex node 1 (take n pool)) ≡ 1) ⊎ (drop n pool ≡ []))
pull_messages_takes_example =
    pull_messages_takes hex node 1 1 waiting pool pool_there pool-Checkable

pulls_drain_example :
    (s' : Mempool ℕ) × (pulls hex node 1 1 2 waiting ≡ ok (current_messages hex node 1 pool, s'))
    × (pool_of 1 s'.messages ≡ some [])
pulls_drain_example =
    pulls_drain hex node 1 1 2 waiting pool (ground arith) pool_there pool-Checkable (ground arith)

Reachable-ArePools_example : ArePools hex ((admit hex node first rpc empty).1).messages
Reachable-ArePools_example = Reachable-ArePools hex (admit hex node first rpc empty).1 (
    step empty (admit hex node first rpc empty).1 (start empty.limits [])
      (admitted node first rpc empty))

abbrev one_in : Mempool ℕ
one_in = (admit hex node second rpc empty).1

abbrev both_in : Mempool ℕ
both_in = (admit hex node first rpc one_in).1

abbrev both_out : Mempool ℕ
both_out = record {
  messages = (1, []) ∷ [];
  limits = record { rate_limits = some 3; key_add_rate_limits = 1 };
  gossiped = first ∷ second ∷ [];
}

both_in-Reachable : Reachable hex both_in
both_in-Reachable =
    step one_in both_in (step empty one_in (start empty.limits []) (admitted node second rpc empty))
      (admitted node first rpc one_in)

both_pulled : pull_messages hex node 1 5 both_in ≡ ok (first ∷ second ∷ [], both_out)
unfolding pull_messages admit make_ts_hash get_from_db_or_txn
both_pulled = refl

pull_messages-InOrder_example :
    InOrder hex (first ∷ second ∷ [])
    × All (λ m. is_current node 1 m ≡ ok tt) (first ∷ second ∷ [])
    × (both_out.limits ≡ both_in.limits)
pull_messages-InOrder_example =
    pull_messages-InOrder hex node 1 5 (first ∷ second ∷ []) both_in both_out both_in-Reachable
      both_pulled

insert_into_shard_outcome_example :
    AlreadyThere hex node 1 first rpc waiting (key_at 7)
    ⊎ (Refused hex node 1 first rpc waiting (key_at 7)
        ⊎ Inserted hex node 1 first rpc waiting (key_at 7))
insert_into_shard_outcome_example =
    insert_into_shard_outcome hex node 1 first rpc waiting (key_at 7) (unfold mempool_key in refl)
