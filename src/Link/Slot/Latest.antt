-- ===== src/Link/Slot/Latest.antt =====
-- The messages for a slot in the order of `message_compare` of src/storage/store/account/store.rs.
use hypersnap.Shared.{
  ℕ, ◌≡◌, ◌≢◌, refl, sym, ap, ◌∙◌, ◌⊎◌, inl, inr, List, [], ◌∷◌, Result, ok, Error, Ordering, arith,
  All, ◌++◌,
}
use hypersnap.Bytes.{Bytes}
use hypersnap.Bytes.Order.{opposite}
use hypersnap.Keys.BigEndian.{be_bytes_4}
use hypersnap.Store.Types.{Protobuf}
use hypersnap.Store.Compare.{message_compare}
use hypersnap.Store.Compare.Order.{
  IsStamp, rank, message_compare-rank, rank_swap, rank_chain, rank_eq, rank_refl,
}
use hypersnap.Link.{link_store}
use hypersnap.Link.Keys.{stamp}
use hypersnap.Link.Slot.{LinkKind, adding, removing, type_of, Rival}
use mathlib.Core.Path.{subst}

-- The element stands in the list, at a place that is known.
pub data Among {ℓ} {A : Type ℓ} (x : A) : List A → Type ℓ where
  first : {y : A} {ys : List A} → x ≡ y → Among x (y ∷ ys)
  later : {y : A} {ys : List A} → Among x ys → Among x (y ∷ ys)

pub All-Among {ℓ κ} :
    {A : Type ℓ} (P : A → Type κ) (x : A) (ys : List A) → All P ys → Among x ys → P x
All-Among P x [] all m = elim m [ ]
All-Among P x (y ∷ ys) all (first e) = subst P (sym e) all.0
All-Among P x (y ∷ ys) all (later m) = All-Among P x ys all.1 m

kinds_apart : link_store.add_message_type ≢ link_store.remove_message_type
unfolding link_store
kinds_apart = ground arith

type_of_inj : (k j : LinkKind) → type_of k ≡ type_of j → k ≡ j
type_of_inj adding adding h = refl
type_of_inj removing removing h = refl
type_of_inj adding removing h = absurd (omega (arith, h))
type_of_inj removing adding h = absurd (omega (arith, h))

known_type :
    (k : LinkKind)
    → (type_of k ≡ link_store.add_message_type) ⊎ (type_of k ≡ link_store.remove_message_type)
unfolding link_store
known_type adding = inl refl
known_type removing = inr refl

stamp_hash : (s t : ℕ) (a b : Bytes) → be_bytes_4 s ++ a ≡ be_bytes_4 t ++ b → a ≡ b
unfolding be_bytes_4
stamp_hash s t a b h = cc

module _ (protobuf : Protobuf) (fid : ℕ) (type : Bytes) (target : ℕ) where
  abbrev pub Contender : Type 0
  Contender = Rival protobuf fid type target

  abbrev pub stamp_of : Contender → Bytes
  stamp_of a = stamp a.timestamp a.message

  -- `message_compare` has this result for the two.
  abbrev pub order : Contender → Contender → Ordering
  order a b = rank link_store (type_of a.kind) (stamp_of a) (type_of b.kind) (stamp_of b)

  contender-IsStamp : (a : Contender) → IsStamp link_store (type_of a.kind) (stamp_of a)
  unfolding be_bytes_4
  contender-IsStamp a = record { known = known_type a.kind; long = ground (arith, a.link.hashed) }

  pub compared :
      (a b : Contender)
      → message_compare link_store (type_of a.kind) (stamp_of a) (type_of b.kind) (stamp_of b)
        ≡ ok (order a b)
  compared a b =
      message_compare-rank link_store (type_of a.kind) (stamp_of a) (type_of b.kind) (stamp_of b)
        (contender-IsStamp a).long (contender-IsStamp b).long

  swapped : (a b : Contender) → order b a ≡ opposite (order a b)
  swapped a b =
      rank_swap link_store (type_of a.kind) (type_of b.kind) (stamp_of a) (stamp_of b) kinds_apart

  -- By `message_compare` the message is not older than the other.
  abbrev pub IsUpTo : Contender → Contender → Type 0
  IsUpTo a b =
      message_compare link_store (type_of a.kind) (stamp_of a) (type_of b.kind) (stamp_of b)
      ≢ ok Ordering.lt

  not_lt : (a b : Contender) → IsUpTo a b → order a b ≢ Ordering.lt
  not_lt a b h e = h (compared a b ∙ ap ok e)

  pub order-IsUpTo : (a b : Contender) → order a b ≢ Ordering.lt → IsUpTo a b
  order-IsUpTo a b h e = h (ok_inj (sym (compared a b) ∙ e))
    where
      ok_inj : {x y : Ordering} → ◌≡◌ {A = Result Error Ordering} (ok x) (ok y) → x ≡ y
      ok_inj h = cc

  pub swap-IsUpTo : (a b : Contender) → order a b ≡ Ordering.lt → IsUpTo b a
  swap-IsUpTo a b h = order-IsUpTo b a (λ e. ground (arith, swapped a b))

  pub IsUpTo-refl : (a : Contender) → IsUpTo a a
  IsUpTo-refl a =
      order-IsUpTo a a
        (λ e. ground (arith, rank_refl link_store (type_of a.kind) (stamp_of a) kinds_apart))

  pub IsUpTo-trans : (a b c : Contender) → IsUpTo a b → IsUpTo b c → IsUpTo a c
  IsUpTo-trans a b c h h' = order-IsUpTo a c (λ older.
      let chain =
        rank_chain link_store (type_of a.kind) (type_of c.kind) (type_of b.kind) (stamp_of a)
          (stamp_of c) (stamp_of b) kinds_apart (contender-IsStamp a) (contender-IsStamp c)
          (contender-IsStamp b) in
      not_lt a b h (ground (arith, older, not_lt b c h', swapped b c, chain.0, chain.1)))

  -- Of two messages that are not older than one another the kinds and the hashes are the same.
  pub IsUpTo-antisymm :
      (a b : Contender)
      → IsUpTo a b
      → IsUpTo b a
      → (a.kind ≡ b.kind) × (a.message.hash ≡ b.message.hash)
  IsUpTo-antisymm a b h h' =
      let (types, stamps) =
        rank_eq link_store (type_of a.kind) (type_of b.kind) (stamp_of a) (stamp_of b) kinds_apart
          (contender-IsStamp a) (contender-IsStamp b)
          (ground (arith, not_lt a b h, not_lt b a h', swapped a b)) in
      (
        type_of_inj a.kind b.kind types,
        stamp_hash a.timestamp b.timestamp a.message.hash b.message.hash stamps,
      )
