-- ===== src/Link/Pruning.antt =====
-- The link store under a prune: its secondary index is only deleted from.
use hypersnap.Shared.{Bool}
use hypersnap.Database.{Database}
use hypersnap.Keys.Prefix.{StateContext}
use hypersnap.Store.Types.{Protobuf, Store, lift, modify}
use hypersnap.Database.{delete}
use hypersnap.Store.Merge.Prune.Deleted.{
  IndicesOnlyGo, then-KeepsAbsent, lift-KeepsAbsent, delete-KeepsAbsent,
}
use hypersnap.Link.{link_store, delete_secondary_indices, secondary_index_key}
use hypersnap.Link.Keys.{links}

pub links-IndicesOnlyGo :
    (db : Database) (protobuf : Protobuf) (ctx : StateContext) (no_persist : Bool)
    → IndicesOnlyGo (links db protobuf ctx no_persist)
unfolding link_store delete_secondary_indices
links-IndicesOnlyGo db protobuf ctx no_persist = record {
  keeps = λ ts_hash message k.
      let s : Store = links db protobuf ctx no_persist in
      then-KeepsAbsent s k (lift (secondary_index_key ts_hash message ctx))
        (λ entry. modify (λ txn. delete txn entry.0))
        (lift-KeepsAbsent s k (secondary_index_key ts_hash message ctx))
        (λ entry. delete-KeepsAbsent s k entry.0);
}
