-- ===== src/Link/Slot/Winner.antt =====
-- Merges of adds and removes of one link one after the other, in src/storage/store/account/store.rs: which
-- of the messages has the slot at each time.
use mathlib.Core.Path.{subst}
use mathlib.Core.List.{map}
use hypersnap.Shared.{
  ℕ, suc, ◌≡◌, ◌≢◌, refl, sym, ap, ◌∙◌, ◌⊎◌, inl, inr, Bool, List, [], ◌∷◌, Option, none, some,
  Result, ok, Error, Ordering, arith, length, All,
}
use hypersnap.Bytes.{Bytes, vec_to_u8_24}
use hypersnap.Proto.{Message}
use hypersnap.Keys.Prefix.{StateContext}
use hypersnap.Database.{Database, Batch}
use hypersnap.Store.Types.{Transaction, Protobuf, Store, HubEvent}
use hypersnap.Store.Conflicts.{user_prefix}
use hypersnap.Store.Merge.{get_add}
use hypersnap.Store.Merge.Compact.{merge}
use hypersnap.Link.{link_store}
use hypersnap.Link.Keys.{IsLink, links, add_key_eq}
use hypersnap.Link.Slot.{LinkKind, adding, removing, type_of, Stands, IsVacant}
use hypersnap.Link.Slot.Parts.{length-stamp, stored_message}
use hypersnap.Link.Slot.Steps.{HasRoom, HasRoom-less, vacant-IsAccepted}
use hypersnap.Link.Slot.Encounters.{newer-IsAccepted, merge_stale}
use hypersnap.Link.Slot.Latest.{
  Among, first, later, Contender, order, compared, IsUpTo, order-IsUpTo, swap-IsUpTo, IsUpTo-refl,
  IsUpTo-trans,
}

-- The messages merged one after the other, whether a merge is refused or not.
unfoldable pub merge_all : Store → List Message → Transaction → Transaction
merge_all s [] t = t
merge_all s (message ∷ messages) t = merge_all s messages (merge s message t).1

-- What `get_add` answers where the message has the slot.
abbrev pub standing : LinkKind → Message → Option Message
standing adding m = some m
standing removing m = none

abbrev pub messages :
    {protobuf : Protobuf} {fid : ℕ} {type : Bytes} {target : ℕ}
    → List (Contender protobuf fid type target)
    → List Message
messages = map (λ a. a.message)

module _ (protobuf : Protobuf) (ctx : StateContext) (fid : ℕ) (type : Bytes) (target : ℕ) where
  abbrev LinkMessage : Type 0
  LinkMessage = Contender protobuf fid type target

  module _ (db : Database) (no_persist : Bool) where
    abbrev pub store : Store
    store = links db protobuf ctx no_persist

    abbrev pub Has : LinkMessage → Batch → Type 0
    Has w txn = Stands w.message ctx fid w.timestamp type target db protobuf w.kind txn

    pub get_add-standing :
        (x m : Message) (kx k : LinkKind) (at now : ℕ) (txn : Batch)
        (link : IsLink x fid at type target (type_of kx))
        (m_link : IsLink m fid now type target (type_of k))
        → hypersnap.Store.Codec.Decodes protobuf m
        → Stands m ctx fid now type target db protobuf k txn
        → get_add store txn x ≡ ok (standing k m)
    unfolding get_add user_prefix link_store vec_to_u8_24
    get_add-standing x m kx adding at now txn link m_link law stands = ground (
      arith,
      link.content,
      link.owned,
      add_key_eq x ctx fid at type target (type_of kx) link,
      stands.named,
      length-stamp m ctx fid now type target db protobuf no_persist adding m_link,
      stored_message m ctx fid now type target db protobuf no_persist txn stands.stored law,
    )
    get_add-standing x m kx removing at now txn link m_link law stands = ground (
      arith,
      link.content,
      link.owned,
      add_key_eq x ctx fid at type target (type_of kx) link,
      stands.alone,
    )

    -- The latest of the messages has the slot.
    pub record IsWon (rivals : List LinkMessage) (txn : Batch) : Type 0 where
      pub winner : LinkMessage
      pub among : Among winner rivals
      pub newest : All (IsUpTo protobuf fid type target winner) rivals
      pub has : Has winner txn

    -- One of two messages has the slot after the other has come, and it is not older than either.
    record IsSettled (w a : LinkMessage) (n : ℕ) (t : Transaction) : Type 0 where
      keeper : LinkMessage
      among : (keeper ≡ w) ⊎ (keeper ≡ a)
      up_to : IsUpTo protobuf fid type target keeper w
      up_to_new : IsUpTo protobuf fid type target keeper a
      has : Has keeper t.batch
      room : HasRoom t.generator n

    merge-IsSettled :
        (w a : LinkMessage) (n : ℕ) (t : Transaction)
        → HasRoom t.generator (suc n)
        → Has w t.batch
        → IsSettled w a n (merge store a.message t).1
    merge-IsSettled w a n t room has = go (order protobuf fid type target w a) refl
      where
        kept :
            order protobuf fid type target w a ≢ Ordering.lt
            → IsSettled w a n (merge store a.message t).1
        kept not_older =
            let (e, refused) =
              merge_stale a.message w.message ctx fid a.timestamp w.timestamp type target db
                protobuf no_persist a.kind w.kind a.link w.link (order protobuf fid type target w a)
                t has (compared protobuf fid type target w a) not_older in
            subst (IsSettled w a n)
              (sym (ap (λ (p : Result Error HubEvent × Transaction). p.1) refused))
              (record {
                keeper = w;
                among = inl refl;
                up_to = IsUpTo-refl protobuf fid type target w;
                up_to_new = order-IsUpTo protobuf fid type target w a not_older;
                has = has;
                room = HasRoom-less t.generator n room;
              })

        go :
            (o : Ordering)
            → order protobuf fid type target w a ≡ o
            → IsSettled w a n (merge store a.message t).1
        go Ordering.lt e =
            let done =
              newer-IsAccepted a.message w.message ctx fid a.timestamp w.timestamp type target db
                protobuf no_persist a.kind w.kind a.link w.link n t room has w.law
                (compared protobuf fid type target w a ∙ ap ok e) in
            subst (IsSettled w a n)
              (sym (ap (λ (p : Result Error HubEvent × Transaction). p.1) done.merges))
              (record {
                keeper = a;
                among = inr refl;
                up_to = swap-IsUpTo protobuf fid type target w a e;
                up_to_new = IsUpTo-refl protobuf fid type target a;
                has = done.takes;
                room = done.room;
              })
        go Ordering.eq e = kept (λ h. cc)
        go Ordering.gt e = kept (λ h. cc)

    settled-IsWon :
        (w a : LinkMessage) (n : ℕ) (t : Transaction) (rest : List LinkMessage) (txn : Batch)
        → (settled : IsSettled w a n t) → IsWon (settled.keeper ∷ rest) txn
        → IsWon (w ∷ a ∷ rest) txn
    settled-IsWon w a n t rest txn settled won = record {
      winner = won.winner;
      among = place won.among settled.among;
      newest = (
        IsUpTo-trans protobuf fid type target won.winner settled.keeper w won.newest.0
            settled.up_to,
        (
          IsUpTo-trans protobuf fid type target won.winner settled.keeper a won.newest.0
              settled.up_to_new,
          won.newest.1,
        ),
      );
      has = won.has;
    }
      where
        place :
            Among won.winner (settled.keeper ∷ rest)
            → (settled.keeper ≡ w) ⊎ (settled.keeper ≡ a)
            → Among won.winner (w ∷ a ∷ rest)
        place (first e) (inl old) = first (e ∙ old)
        place (first e) (inr new) = later (first (e ∙ new))
        place (later m) from = later (later m)

    merge_all-IsWon :
        (rest : List LinkMessage) (w : LinkMessage) (t : Transaction)
        → HasRoom t.generator (length rest)
        → Has w t.batch
        → IsWon (w ∷ rest) (merge_all store (messages rest) t).batch
    unfolding merge_all
    merge_all-IsWon [] w t room has = record {
      winner = w;
      among = first refl;
      newest = (IsUpTo-refl protobuf fid type target w, tt);
      has = has;
    }
    merge_all-IsWon (a ∷ rest) w t room has =
        let t' = (merge store a.message t).1 in
        let settled = merge-IsSettled w a (length rest) t room has in
        settled-IsWon w a (length rest) t' rest (merge_all store (messages rest) t').batch settled
          (merge_all-IsWon rest settled.keeper t' settled.room settled.has)

    pub first_merge-IsWon :
        (a : LinkMessage) (rest : List LinkMessage) (t : Transaction)
        → HasRoom t.generator (suc (length rest))
        → IsVacant db ctx fid type target t.batch
        → IsWon (a ∷ rest) (merge_all store (messages (a ∷ rest)) t).batch
    unfolding merge_all
    first_merge-IsWon a rest t room vacant =
        let done =
          vacant-IsAccepted a.message ctx fid a.timestamp type target db protobuf no_persist a.kind
            a.link (length rest) t room vacant in
        subst (λ (t' : Transaction). IsWon (a ∷ rest) (merge_all store (messages rest) t').batch)
          (sym (ap (λ (p : Result Error HubEvent × Transaction). p.1) done.merges))
          (merge_all-IsWon rest a done.after done.room done.takes)
