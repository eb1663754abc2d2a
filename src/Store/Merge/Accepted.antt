-- ===== src/Store/Merge/Accepted.antt =====
-- `merge_add` step by step: what it answers when each of its parts succeeds.
use hypersnap.Shared.{◌≡◌, ap, ◌∙◌, List, [], Result, ok, Error, arith}
use hypersnap.Bytes.{Bytes}
use hypersnap.Proto.{Message}
use hypersnap.Store.Types.{Exec, Transaction, Store, HubEvent, continue, ◌>>=◌, merge_event_args}
use hypersnap.Store.Conflicts.{get_merge_conflicts}
use hypersnap.Store.Writes.{put_add_transaction, delete_many_transaction}
use hypersnap.Store.Merge.{merge_add, compact_state_check, check_add, clear_conflicts, save_event}

pub then_ok :
    {A B : Type 0} (m : Exec A) (f : A → Exec B) (a : A) (t t' : Transaction)
    → m t ≡ (ok a, t')
    → (m >>= f) t ≡ f a t'
then_ok m f a t t' h = ap (λ (p : Result Error _ × Transaction). continue p.0 f p.1) h

module _ (s : Store) (message : Message) (ts_hash : Bytes) where
  pub no_conflicts :
      (t : Transaction)
      → get_merge_conflicts s t.batch message ts_hash ≡ ok []
      → clear_conflicts s message ts_hash t ≡ (ok [], t)
  unfolding clear_conflicts delete_many_transaction
  no_conflicts t h = ground (arith, h)

  pub merge_add_steps :
      (cs : List Message) (event : HubEvent) (t t1 t2 t3 : Transaction)
      → compact_state_check s message (check_add s message) t ≡ (ok tt, t)
      → clear_conflicts s message ts_hash t ≡ (ok cs, t1)
      → put_add_transaction s ts_hash message t1 ≡ (ok tt, t2)
      → save_event s (merge_event_args message cs) t2 ≡ (ok event, t3)
      → merge_add s ts_hash message t ≡ (ok event, t3)
  unfolding merge_add
  merge_add_steps cs event t t1 t2 t3 checked cleared written saved =
      then_ok (compact_state_check s message (check_add s message)) _ tt t t checked
      ∙ (then_ok (clear_conflicts s message ts_hash) _ cs t t1 cleared
          ∙ (then_ok (put_add_transaction s ts_hash message) _ tt t1 t2 written ∙ saved))
