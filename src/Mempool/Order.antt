-- ===== src/Mempool/Order.antt =====
-- `MempoolKey` is totally ordered: the kind, the time and the identity in turn.
use hypersnap.Shared.{Ordering, ◌≡◌, refl, arith}
use hypersnap.Bytes.Order.{
  eq_of_bytes_compare, bytes_compare_swap, bytes_compare_refl, bytes_compare_trans, opposite,
}
use hypersnap.Mempool.{
  MempoolKey, MempoolMessageKind, key_compare, kind_number, validator_message, user_message_kind,
  make_key,
}

pub key_compare_refl : (a : MempoolKey) → key_compare a a ≡ Ordering.eq
unfolding key_compare
key_compare_refl a = ground (arith, bytes_compare_refl a.identity)

pub key_compare_swap : (a b : MempoolKey) → key_compare b a ≡ opposite (key_compare a b)
unfolding key_compare
key_compare_swap a b = ground (arith, bytes_compare_swap a.identity b.identity)

pub key_compare_trans :
    (a b c : MempoolKey)
    → key_compare a b ≡ Ordering.lt
    → key_compare b c ≡ Ordering.lt
    → key_compare a c ≡ Ordering.lt
unfolding key_compare
key_compare_trans a b c p q = ground (arith, bytes_compare_trans a.identity b.identity c.identity)

kind_of_number : (a b : MempoolMessageKind) → kind_number a ≡ kind_number b → a ≡ b
unfolding kind_number
kind_of_number validator_message validator_message h = refl
kind_of_number validator_message user_message_kind h = ground arith
kind_of_number user_message_kind validator_message h = ground arith
kind_of_number user_message_kind user_message_kind h = refl

key_ext :
    {a b : MempoolKey}
    → a.message_kind ≡ b.message_kind
    → a.timestamp ≡ b.timestamp
    → a.identity ≡ b.identity
    → a ≡ b
key_ext p q r = λ i. make_key (p i) (q i) (r i)

pub eq_of_key_compare : (a b : MempoolKey) → key_compare a b ≡ Ordering.eq → a ≡ b
unfolding key_compare
eq_of_key_compare a b h =
    key_ext (kind_of_number a.message_kind b.message_kind (ground arith)) (ground arith)
      (eq_of_bytes_compare a.identity b.identity (ground arith))
