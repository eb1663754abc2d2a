-- ===== src/Store/Merge/Prune/Picked.antt =====
-- Which messages `prune_messages` deletes.
use mathlib.Core.Path.{subst}
use hypersnap.Shared.{
  ℕ, zero, suc, ◌-◌, ◌<◌, ◌≡◌, refl, ap, sym, ◌∙◌, true, false, List, [], ◌∷◌, map, Option, none,
  some, Result, ok, err, Error, arith, leb, Bool-cases, inl, inr, ◌⊎◌, if◌then◌else◌, ◌&&◌, take,
  All,
}
use hypersnap.Bytes.{Bytes}
use hypersnap.Proto.{Message}
use hypersnap.Keys.Prefix.{allows_pruning}
use hypersnap.Events.{generate_id}
use hypersnap.Store.Types.{
  Transaction, Store, HubEvent, EventBody, compact_state_type_supported, pure, lift, ◌>>=◌,
  prune_event_args, prune_message_body, new_event,
}
use hypersnap.Store.Codec.{message_decode}
use hypersnap.Store.Conflicts.{user_prefix}
use hypersnap.Store.Writes.{commit_transaction}
use hypersnap.Store.Merge.Compact.{entries_of}
use hypersnap.Store.Merge.Prune.{
  is_compact_state, delete_pruned, prune_message, count_event, counted_down, prune_entries,
  prune_messages,
}
use hypersnap.Store.Merge.Prune.Deleted.{
  KeepsAbsent, IndicesOnlyGo, then-KeepsAbsent, delete_pruned-KeepsAbsent, commit-KeepsAbsent,
  then_inv,
}
use hypersnap.Store.Merge.Prune.Gone.{IsGone, IsGone-kept, IsDeletable, delete_pruned-IsGone}

-- The messages among the entries that may be pruned, in their order: all but the compact states.
unfoldable pub prunable_messages : Store → List (Bytes × Bytes) → List Message
prunable_messages s [] = []
prunable_messages s ((key, value) ∷ entries) =
    let rest = prunable_messages s entries in
    elim (message_decode s.protobuf value) [
      | err e ↦ rest
      | ok message ↦
          if compact_state_type_supported s.store_def && s.store_def.is_compact_state_type message
          then rest
          else message ∷ rest
    ]

abbrev body_of : EventBody → Result Error HubEvent → EventBody
body_of body (ok event) = event.body
body_of body (err e) = body

commit_body :
    (s : Store) (raw_event event : HubEvent) (t t' : Transaction)
    → commit_transaction s raw_event t ≡ (ok event, t')
    → event.body ≡ raw_event.body
unfolding commit_transaction
commit_body s raw_event event t t' h =
    ap (λ (p : Result Error HubEvent × Transaction). body_of raw_event.body p.0) (sym h)
    ∙ go (generate_id t.generator raw_event.type).0 refl
  where
    go :
        (r : Result Error ℕ)
        → (generate_id t.generator raw_event.type).0 ≡ r
        → body_of raw_event.body (commit_transaction s raw_event t).0 ≡ raw_event.body
    go (ok id) e = ground (arith, e)
    go (err x) e = ground (arith, e)

commit_user :
    (s : Store) (message : Message) (rest : Bytes)
    → KeepsAbsent s (user_prefix s ∷ rest) (commit_transaction s (prune_event_args message))
unfolding user_prefix
commit_user s message rest = commit-KeepsAbsent s rest (prune_event_args message)

module _ (s : Store) (only : IndicesOnlyGo s) where
  prune_message-KeepsAbsent :
      (message : Message) (rest : Bytes)
      → KeepsAbsent s (user_prefix s ∷ rest) (prune_message s message)
  unfolding prune_message user_prefix
  prune_message-KeepsAbsent message rest t h = elim (Bool-cases (is_compact_state s message)) [
    | inl kept ↦ rw kept h
    | inr loose ↦ rw loose (
        then-KeepsAbsent s (user_prefix s ∷ rest) (delete_pruned s message)
          (λ _. commit_transaction s (prune_event_args message) >>= λ event. pure (some event))
          (delete_pruned-KeepsAbsent s (user_prefix s ∷ rest) only message)
          (λ u.
            then-KeepsAbsent s (user_prefix s ∷ rest)
              (commit_transaction s (prune_event_args message)) (λ event. pure (some event))
              (commit-KeepsAbsent s rest (prune_event_args message)) (λ event t h. h))
          t h)
  ]

  prune_entries-KeepsAbsent :
      (entries : List (Bytes × Bytes)) (count max_count : ℕ) (rest : Bytes)
      → KeepsAbsent s (user_prefix s ∷ rest) (prune_entries s entries count max_count)
  unfolding prune_entries
  prune_entries-KeepsAbsent [] count max_count rest t h = h
  prune_entries-KeepsAbsent ((key, value) ∷ entries) count max_count rest t h =
      elim (Bool-cases (leb count max_count)) [
        | inl done ↦ rw done h
        | inr more ↦ rw more (
            then-KeepsAbsent s (user_prefix s ∷ rest) (lift (message_decode s.protobuf value))
              (λ message. prune_message s message >>= λ pruned.
                prune_entries s entries (counted_down s count pruned) max_count >>= λ events.
                pure (count_event s pruned events))
              (λ t h. h)
              (λ message.
                then-KeepsAbsent s (user_prefix s ∷ rest) (prune_message s message)
                  (λ pruned.
                    prune_entries s entries (counted_down s count pruned) max_count >>= λ events.
                    pure (count_event s pruned events))
                  (prune_message-KeepsAbsent message rest)
                  (λ pruned.
                    then-KeepsAbsent s (user_prefix s ∷ rest)
                      (prune_entries s entries (counted_down s count pruned) max_count)
                      (λ events. pure (count_event s pruned events))
                      (prune_entries-KeepsAbsent entries (counted_down s count pruned) max_count
                        rest)
                      (λ events t h. h)))
              t h)
      ]

-- What a prune of one message leaves: a compact state is passed over, any other message is gone,
-- with an event that names it.
abbrev pub Pruned : Store → Message → Transaction → Option HubEvent → Type 0
Pruned s message t' none = is_compact_state s message ≡ true
Pruned s message t' (some event) =
    (is_compact_state s message ≡ false)
    × (event.body ≡ prune_message_body message)
    × IsGone s t'.batch message

-- What an action of this answer leaves.
abbrev Leaves : Store → Message → Result Error (Option HubEvent) × Transaction → Type 0
Leaves s message (ok o, t) = Pruned s message t o
Leaves s message (err e, t) = Unit {0}

-- The messages that a scan picked are named by the events, in their order, and are gone.
abbrev pub HasPruned : Store → List Message → List HubEvent → Transaction → Type 0
HasPruned s picked events t' =
    (map (λ (event : HubEvent). event.body) events ≡ map prune_message_body picked)
    × All (IsGone s t'.batch) picked

abbrev HasLeft : Store → List Message → Result Error (List HubEvent) × Transaction → Type 0
HasLeft s picked (ok events, t') = HasPruned s picked events t'
HasLeft s picked (err e, t') = Unit {0}

take_nil : (n : ℕ) → [] ≡ take {A = Message} n []
take_nil zero = refl
take_nil (suc n) = refl

nothing_picked :
    (s : Store) (listed : List Message) (count max_count : ℕ) (events : List HubEvent)
    (t t' : Transaction)
    → leb count max_count ≡ true
    → ◌≡◌ {A = Result Error (List HubEvent) × Transaction} (ok [], t) (ok events, t')
    → HasPruned s (take (count - max_count) listed) events t'
nothing_picked s listed count max_count events t t' done ended =
    let none_left : 0 ≡ count - max_count = ground (arith, done) in
    subst (HasLeft s (take (count - max_count) listed)) ended
      (subst (λ n. HasPruned s (take n listed) [] t) none_left (refl, tt))

module _ (s : Store) (message : Message) (key value : Bytes) (entries : List (Bytes × Bytes)) where
  prunable_passed :
      message_decode s.protobuf value ≡ ok message
      → is_compact_state s message ≡ true
      → prunable_messages s entries ≡ prunable_messages s ((key, value) ∷ entries)
  unfolding prunable_messages is_compact_state
  prunable_passed decoded kept = ground (arith, decoded, kept)

  prunable_listed :
      message_decode s.protobuf value ≡ ok message
      → is_compact_state s message ≡ false
      → message ∷ prunable_messages s entries ≡ prunable_messages s ((key, value) ∷ entries)
  unfolding prunable_messages is_compact_state
  prunable_listed decoded loose = ground (arith, decoded, loose)

  kinds_rest :
      message_decode s.protobuf value ≡ ok message
      → All (IsDeletable s) (prunable_messages s ((key, value) ∷ entries))
      → All (IsDeletable s) (prunable_messages s entries)
        × (is_compact_state s message ≡ false → IsDeletable s message)
  kinds_rest decoded kinds = elim (Bool-cases (is_compact_state s message)) [
    | inl kept ↦ (
      subst (All (IsDeletable s)) (sym (prunable_passed decoded kept)) kinds,
      λ loose. absurd (ground (arith, kept, loose)),
    )
    | inr loose ↦
        let both : All (IsDeletable s) (message ∷ prunable_messages s entries) =
          subst (All (IsDeletable s)) (sym (prunable_listed decoded loose)) kinds in
        (both.1, λ _. both.0)
  ]

  one_more :
      (o : Option HubEvent) (count max_count : ℕ) (events : List HubEvent) (t t' : Transaction)
      → message_decode s.protobuf value ≡ ok message
      → Pruned s message t o
      → max_count < count
      → (IsGone s t.batch message → IsGone s t'.batch message)
      → HasPruned s
          (take (counted_down s count o - max_count) (prunable_messages s entries))
          events
          t'
      → HasPruned s
          (take (count - max_count) (prunable_messages s ((key, value) ∷ entries)))
          (count_event s o events)
          t'
  one_more none count max_count events t t' decoded kept more stays ih =
      subst (λ messages. HasPruned s (take (count - max_count) messages) events t')
        (prunable_passed decoded kept) ih
  one_more (some event) count max_count events t t' decoded (loose, named, gone) more stays
        (bodies, all) =
      let one_less : suc (count - 1 - max_count) ≡ count - max_count = omega (arith, more) in
      subst (λ messages. HasPruned s (take (count - max_count) messages) (event ∷ events) t')
        (prunable_listed decoded loose)
        (subst
          (λ n. HasPruned s (take n (message ∷ prunable_messages s entries)) (event ∷ events) t')
          one_less (λ i. named i ∷ bodies i, (stays gone, all)))

module _ (s : Store) (only : IndicesOnlyGo s) where
  prune_message_lem :
      (message : Message) (o : Option HubEvent) (t t' : Transaction)
      → (is_compact_state s message ≡ false → IsDeletable s message)
      → prune_message s message t ≡ (ok o, t')
      → Pruned s message t' o
  unfolding prune_message prune_event_args new_event
  prune_message_lem message o t t' kind h = elim (Bool-cases (is_compact_state s message)) [
    | inl kept ↦
        let e : ◌≡◌ {A = Result Error (Option HubEvent) × Transaction} (ok none, t) (ok o, t') =
          ground (arith, h, kept) in
        subst (Leaves s message) e kept
    | inr loose ↦
        let (u, t1, deleted, h1) =
          then_inv (delete_pruned s message)
            (λ _. commit_transaction s (prune_event_args message) >>= λ event. pure (some event)) o
            t t' (ground (arith, h, loose)) in
        let (event, t2, saved, h2) =
          then_inv (commit_transaction s (prune_event_args message)) (λ event. pure (some event)) o
            t1 t' h1 in
        let gone : IsGone s (commit_transaction s (prune_event_args message) t1).1.batch message =
          IsGone-kept s (commit_transaction s (prune_event_args message)) t1 message
            (λ rest. commit_user s message rest)
            (delete_pruned-IsGone s message u t t1 (kind loose) deleted) in
        let gone' : IsGone s t2.batch message =
          subst (λ (p : Result Error HubEvent × Transaction). IsGone s p.1.batch message) saved
            gone in
        subst (Leaves s message) h2
          (loose, commit_body s (prune_event_args message) event t1 t2 saved, gone')
  ]

  prune_entries_lem :
      (entries : List (Bytes × Bytes)) (count max_count : ℕ) (events : List HubEvent)
      (t t' : Transaction)
      → All (IsDeletable s) (prunable_messages s entries)
      → prune_entries s entries count max_count t ≡ (ok events, t')
      → HasPruned s (take (count - max_count) (prunable_messages s entries)) events t'
  unfolding prune_entries
  prune_entries_lem [] count max_count events t t' kinds h =
      subst (HasLeft s (take (count - max_count) (prunable_messages s []))) h (
        unfold prunable_messages in
        subst (λ picked. HasPruned s picked [] t) (take_nil (count - max_count)) (refl, tt))
  prune_entries_lem ((key, value) ∷ entries) count max_count events t t' kinds h =
      elim (Bool-cases (leb count max_count)) [
        | inl done ↦
            let listed : List Message = prunable_messages s ((key, value) ∷ entries) in
            let ended : ◌≡◌ {A = Result Error (List HubEvent) × Transaction} (ok [], t)
                (ok events, t') =
              ground (arith, h, done) in
            nothing_picked s listed count max_count events t t' done ended
        | inr more ↦
            let (message, t1, decoded, h1) =
              then_inv (lift (message_decode s.protobuf value))
                (λ message. prune_message s message >>= λ pruned.
                  prune_entries s entries (counted_down s count pruned) max_count >>= λ events.
                  pure (count_event s pruned events))
                events t t' (ground (arith, h, more)) in
            let (pruned, t2, removed, h2) =
              then_inv (prune_message s message)
                (λ pruned.
                  prune_entries s entries (counted_down s count pruned) max_count >>= λ events.
                  pure (count_event s pruned events))
                events t1 t' h1 in
            let (rest, t3, went_on, h3) =
              then_inv (prune_entries s entries (counted_down s count pruned) max_count)
                (λ events. pure (count_event s pruned events)) events t2 t' h2 in
            let found : message_decode s.protobuf value ≡ ok message =
              ap (λ (p : Result Error Message × Transaction). p.0) decoded in
            let (kinds', kind) = kinds_rest s message key value entries found kinds in
            let stays : IsGone s t2.batch message → IsGone s t3.batch message = λ gone.
              subst (λ (p : Result Error (List HubEvent) × Transaction). IsGone s p.1.batch message)
                went_on
                (IsGone-kept s (prune_entries s entries (counted_down s count pruned) max_count) t2
                  message
                  (prune_entries-KeepsAbsent s only entries (counted_down s count pruned) max_count)
                  gone) in
            subst
              (HasLeft s (take (count - max_count) (prunable_messages s ((key, value) ∷ entries))))
              h3
              (one_more s message key value entries pruned count max_count rest t2 t3 found
                (prune_message_lem message pruned t1 t2 kind removed) (ground (arith, more)) stays
                (prune_entries_lem entries (counted_down s count pruned) max_count rest t2 t3 kinds'
                  went_on))
      ]

-- A prune that succeeds picks the first messages of the fid that are not compact states, as many as
-- its count is above the maximum (all of them, if they are fewer): the events name these messages
-- in their order, and after the prune none of them is stored under its key. In a context that does
-- not allow pruning there are no events, and the transaction is what it was. It is asked that the
-- store deletes its secondary indices without a write that brings an absent key back, and that
-- every message of the fid that is not a compact state is an add of the store, or a remove if the
-- store has removes.
pub prune_messages_deletes :
    (s : Store) (fid current_count max_count : ℕ) (events : List HubEvent) (t t' : Transaction)
    → IndicesOnlyGo s
    → All (IsDeletable s) (prunable_messages s (entries_of s fid))
    → prune_messages s fid current_count max_count t ≡ (ok events, t')
    → ((allows_pruning s.state_context ≡ true)
        × HasPruned s
            (take (current_count - max_count) (prunable_messages s (entries_of s fid)))
            events
            t')
      ⊎ ((allows_pruning s.state_context ≡ false) × (events ≡ []) × (t' ≡ t))
unfolding prune_messages
prune_messages_deletes s fid current_count max_count events t t' only kinds h =
    elim (Bool-cases (allows_pruning s.state_context)) [
      | inr off ↦ inr (off, ground (arith, h, off), ground (arith, h, off))
      | inl on ↦ inl (
        on,
        elim (Bool-cases (leb current_count max_count)) [
          | inl few ↦
              let listed : List Message = prunable_messages s (entries_of s fid) in
              let ended : ◌≡◌ {A = Result Error (List HubEvent) × Transaction} (ok [], t)
                  (ok events, t') =
                ground (arith, h, on, few) in
              nothing_picked s listed current_count max_count events t t' few ended
          | inr many ↦
              prune_entries_lem s only (entries_of s fid) current_count max_count events t t' kinds
                (ground (arith, h, on, many))
        ],
      )
    ]
