-- ===== src/Mempool/Draining.antt =====
-- Repeated requests for messages empty the pool of a shard: `pull_messages` of src/mempool/mempool.rs.
use hypersnap.Shared.{
  ℕ, zero, suc, ◌≤◌, ◌≡◌, ◌≢◌, ◌⊎◌, refl, sym, List, [], ◌∷◌, ◌++◌, some, Result, ok, err, Error,
  length, take, drop, arith, length-drop, All-drop, take-append-drop, ◌>>=◌,
}
use hypersnap.Bytes.{Bytes}
use hypersnap.Mempool.{MempoolMessage}
use hypersnap.Mempool.Pool.{Pool}
use hypersnap.Mempool.Admission.{Node, is_current}
use hypersnap.Mempool.Flow.{Mempool, pool_of, set_pool, pull_messages}
use hypersnap.Mempool.Pulling.{
  current_messages, Checkable, current_messages-append, pull_messages_takes, pool_of-set_pool,
}

module _ {L : Type 0} (hex : Bytes → Bytes) (node : Node L) (shard max : ℕ) where
  -- So many requests in turn: all that they give, and the mempool after them.
  unfoldable pub pulls : ℕ → Mempool L → Result Error (List MempoolMessage × Mempool L)
  unfolding pull_messages
  pulls zero s = ok ([], s)
  pulls (suc n) s = do
    (first, s') ← pull_messages hex node shard max s
    (rest, s'') ← pulls n s'
    ok (first ++ rest, s'')

  shorter :
      (k n : ℕ) (pool : Pool)
      → 1 ≤ max
      → (length (current_messages hex node shard (take k pool)) ≡ max) ⊎ (drop k pool ≡ [])
      → length pool ≤ suc n
      → length (drop k pool) ≤ n
  unfolding current_messages
  shorter zero n pool some_max why enough = ground (arith, why)
  shorter (suc k) n pool some_max why enough = omega (arith, length-drop (suc k) pool, enough)

  -- Where at least one message is asked for at a time and no check of a message in the pool of a
  -- shard panics, as many requests in turn as the pool has entries (or more) give exactly the
  -- messages of the pool that pass the checks, in its order, and leave the pool empty.
  pub pulls_drain :
      (n : ℕ) (s : Mempool L) (pool : Pool)
      → 1 ≤ max
      → pool_of shard s.messages ≡ some pool
      → Checkable hex node shard pool
      → length pool ≤ n
      → (s' : Mempool L) × (pulls n s ≡ ok (current_messages hex node shard pool, s'))
        × (pool_of shard s'.messages ≡ some [])
  unfolding pulls current_messages
  pulls_drain zero s [] some_max there h enough = (s, refl, there)
  pulls_drain zero s (e ∷ pool) some_max there h enough = ground (arith, enough)
  pulls_drain (suc n) s pool some_max there h enough =
      let (k, result, few, why) = pull_messages_takes hex node shard max s pool there h in
      let s' = record s { messages = set_pool shard (drop k pool) s.messages } in
      let (s'', later, empty) =
        pulls_drain n s' (drop k pool) some_max (pool_of-set_pool shard (drop k pool) s.messages)
          (All-drop (λ e. is_current node shard e.1 ≢ err Error.panic) k pool h)
          (shorter k n pool some_max why enough) in
      (
        s'',
        ground (
          arith,
          result,
          later,
          sym (current_messages-append hex node shard (take k pool) (drop k pool)),
          take-append-drop k pool,
        ),
        empty,
      )
