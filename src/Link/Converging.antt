-- ===== src/Link/Converging.antt =====
-- Merges of adds and removes of one link in any order: the last write wins, and two nodes that see the
-- same messages agree.
use mathlib.Core.Path.{subst, ap₂}
use hypersnap.Shared.{ℕ, ◌≡◌, ◌≢◌, refl, sym, ap, ◌∙◌, ◌↔◌, Bool, List, [], ◌∷◌, ok, length, All}
use hypersnap.Bytes.{Bytes}
use hypersnap.Keys.Prefix.{StateContext}
use hypersnap.Database.{Database}
use hypersnap.Store.Types.{Transaction, Protobuf}
use hypersnap.Store.Merge.{get_add}
use hypersnap.Link.Keys.{links}
use hypersnap.Link.Slot.{IsVacant}
use hypersnap.Link.Slot.Steps.{HasRoom}
use hypersnap.Link.Slot.Winner.{
  merge_all, messages, standing, get_add-standing, IsWon, first_merge-IsWon,
}
use hypersnap.Link.Slot.Latest.{Among, All-Among, Contender, IsUpTo, IsUpTo-antisymm}

module _ (protobuf : Protobuf) (ctx : StateContext) (fid : ℕ) (type : Bytes) (target : ℕ) where
  abbrev LinkMessage : Type 0
  LinkMessage = Contender protobuf fid type target

  won :
      (db : Database) (no_persist : Bool) (rivals : List LinkMessage) (t : Transaction)
      → rivals ≢ []
      → HasRoom t.generator (length rivals)
      → IsVacant db ctx fid type target t.batch
      → IsWon protobuf ctx fid type target db no_persist rivals
          (merge_all (links db protobuf ctx no_persist) (messages rivals) t).batch
  won db no_persist [] t some_rivals room vacant = absurd (some_rivals refl)
  won db no_persist (a ∷ rest) t some_rivals room vacant =
      first_merge-IsWon protobuf ctx fid type target db no_persist a rest t room vacant

  -- Well-formed adds and removes of one link (a user, a type and a target), which decode from their
  -- encodings, at least one and fewer than 2^14, are merged one after the other into an empty slot
  -- (no add, no remove, no compact state), whether the merges are refused or not, with room for as
  -- many event ids. Then one of them, which is not older than any of them (by `message_compare`),
  -- stands in the slot: asked with any add or remove of the link, `get_add` returns it if it is an
  -- add, and nothing if it is a remove.
  pub merge_all_latest :
      (db : Database) (no_persist : Bool) (rivals : List LinkMessage) (x : LinkMessage)
      (t : Transaction)
      → rivals ≢ []
      → HasRoom t.generator (length rivals)
      → IsVacant db ctx fid type target t.batch
      → (w : LinkMessage) × Among w rivals
        × All (IsUpTo protobuf fid type target w) rivals
        × (get_add
              (links db protobuf ctx no_persist)
              (merge_all (links db protobuf ctx no_persist) (messages rivals) t).batch
              x.message
            ≡ ok (standing w.kind w.message))
  merge_all_latest db no_persist rivals x t some_rivals room vacant =
      let end = won db no_persist rivals t some_rivals room vacant in
      let w = end.winner in
      (
        w,
        end.among,
        end.newest,
        get_add-standing protobuf ctx fid type target db no_persist x.message w.message x.kind
            w.kind x.timestamp w.timestamp _ x.link w.link w.law end.has,
      )

  -- Two nodes with an empty slot (no add, no remove, no compact state) and room for the event ids
  -- see the same well-formed adds and removes of one link, which decode from their encodings, at
  -- least one and fewer than 2^14, each in its own order and as often as it may be, and merge them
  -- one after the other. Where messages with one hash are one message, `get_add` then answers the
  -- same on both, asked with any add or remove of the link.
  pub merge_all_converges :
      (db db' : Database) (no_persist no_persist' : Bool) (seen seen' : List LinkMessage)
      (x : LinkMessage) (t t' : Transaction)
      → seen ≢ []
      → ((a : LinkMessage) → Among a seen ↔ Among a seen')
      → ((a b : LinkMessage)
          → Among a seen
          → Among b seen
          → a.message.hash ≡ b.message.hash
          → a.message ≡ b.message)
      → HasRoom t.generator (length seen)
      → HasRoom t'.generator (length seen')
      → IsVacant db ctx fid type target t.batch
      → IsVacant db' ctx fid type target t'.batch
      → get_add
          (links db protobuf ctx no_persist)
          (merge_all (links db protobuf ctx no_persist) (messages seen) t).batch
          x.message
        ≡ get_add
            (links db' protobuf ctx no_persist')
            (merge_all (links db' protobuf ctx no_persist') (messages seen') t').batch
            x.message
  merge_all_converges db db' no_persist no_persist' seen seen' x t t' some_seen same hashes room
        room' vacant vacant' =
      let (v, v_among, v_latest, v_answer) =
        merge_all_latest db no_persist seen x t some_seen room vacant in
      let (w, w_among, w_latest, w_answer) =
        merge_all_latest db' no_persist' seen' x t'
          (λ e. none_among v (subst (Among v) e ((same v).0 v_among))) room' vacant' in
      let (kinds, hash) =
        IsUpTo-antisymm protobuf fid type target v w
          (All-Among (IsUpTo protobuf fid type target v) w seen v_latest ((same w).1 w_among))
          (All-Among (IsUpTo protobuf fid type target w) v seen' w_latest ((same v).0 v_among)) in
      v_answer
      ∙ ap ok (ap₂ standing kinds (hashes v w v_among ((same w).1 w_among) hash))
      ∙ sym w_answer
    where
      none_among : (a : LinkMessage) → Among a [] → ⊥
      none_among a m = elim m [ ]
