-- ===== src/Store/Compare/Order.antt =====
-- `message_compare` is a total order on the messages of a store.
use mathlib.Core.Path.{ap₂}
use hypersnap.Shared.{
  ℕ, ◌≡◌, ◌≢◌, sym, ap, ◌∙◌, ◌⊎◌, ◌↔◌, ◌&&◌, Result, ok, Error, Ordering, compare, arith, ◌++◌,
  length, take, drop, length-drop, take-append-drop, ◌==◌, if◌then◌else◌,
}
use hypersnap.Bytes.{Bytes, bytes_compare}
use hypersnap.Bytes.Order.{
  opposite, bytes_compare_refl, bytes_compare_swap, bytes_compare_trans, eq_of_bytes_compare,
}
use hypersnap.Keys.Order.{break_tie}
use hypersnap.Keys.RoundTrip.{take_all}
use hypersnap.Store.Types.{StoreDef}
use hypersnap.Store.Compare.{is_tie, message_compare}

ok_inj : {a b : Ordering} → ◌≡◌ {A = Result Error Ordering} (ok a) (ok b) → a ≡ b
ok_inj h = cc

-- On two hashes of 24 bytes the comparison has a result, and this is it.
abbrev pub rank : StoreDef → ℕ → Bytes → ℕ → Bytes → Ordering
rank d a_type a b_type b =
    if is_tie (bytes_compare (take 4 a) (take 4 b))
    then (if a_type == d.remove_message_type && b_type == d.add_message_type
        then Ordering.gt
        else if a_type == d.add_message_type && b_type == d.remove_message_type
        then Ordering.lt
        else bytes_compare (take 20 (drop 4 a)) (take 20 (drop 4 b)))
    else bytes_compare (take 4 a) (take 4 b)

pub message_compare-rank :
    (d : StoreDef) (a_type : ℕ) (a : Bytes) (b_type : ℕ) (b : Bytes)
    → length a ≡ 24
    → length b ≡ 24
    → message_compare d a_type a b_type b ≡ ok (rank d a_type a b_type b)
unfolding message_compare
message_compare-rank d a_type a b_type b ha hb = ground arith

-- A message as the comparison sees it: an add or a remove of the store, with its hash of 24 bytes.
pub record IsStamp (d : StoreDef) (type : ℕ) (ts_hash : Bytes) : Type 0 where
  pub known : (type ≡ d.add_message_type) ⊎ (type ≡ d.remove_message_type)
  pub long : length ts_hash ≡ 24

pub rank_swap :
    (d : StoreDef) (s t : ℕ) (a b : Bytes)
    → d.add_message_type ≢ d.remove_message_type
    → rank d t b s a ≡ opposite (rank d s a t b)
rank_swap d s t a b apart = ground (
  arith,
  bytes_compare_swap (take 4 a) (take 4 b),
  bytes_compare_swap (take 20 (drop 4 a)) (take 20 (drop 4 b)),
)

-- A remove is above an add.
abbrev level : StoreDef → ℕ → ℕ
level d type = if type == d.remove_message_type then 1 else 0

rank_levels :
    (d : StoreDef) (s t : ℕ) (a b : Bytes)
    → d.add_message_type ≢ d.remove_message_type
    → IsStamp d s a
    → IsStamp d t b
    → rank d s a t b
      ≡ break_tie (bytes_compare (take 4 a) (take 4 b)) (
          break_tie
            (compare (level d s) (level d t))
            (bytes_compare (take 20 (drop 4 a)) (take 20 (drop 4 b))))
rank_levels d s t a b apart ha hb = ground (arith, ha.known, hb.known)

-- What holds of `f` at three values, if it is transitive.
abbrev pub Chains : Ordering → Ordering → Ordering → Type 0
Chains ab bc ac =
    (ab ≡ Ordering.lt → bc ≡ Ordering.lt → ac ≡ Ordering.lt)
    × (ab ≡ Ordering.lt → bc ≡ Ordering.eq → ac ≡ Ordering.lt)
    × (ab ≡ Ordering.eq → bc ≡ Ordering.lt → ac ≡ Ordering.lt)
    × (ab ≡ Ordering.eq → bc ≡ Ordering.eq → ac ≡ Ordering.eq)

bytes_chain : (a b c : Bytes) → Chains (bytes_compare a b) (bytes_compare b c) (bytes_compare a c)
bytes_chain a b c = (
  bytes_compare_trans a b c,
  (λ p q. rw (← eq_of_bytes_compare b c q) p),
  (λ p q. rw (eq_of_bytes_compare a b p) q),
  (λ p q. rw (eq_of_bytes_compare a b p) q),
)

number_chain : (a b c : ℕ) → Chains (compare a b) (compare b c) (compare a c)
number_chain a b c =
    ((λ p q. ground arith), (λ p q. ground arith), (λ p q. ground arith), (λ p q. ground arith))

break_tie_chain :
    (ab bc ac ab' bc' ac' : Ordering)
    → Chains ab bc ac
    → Chains ab' bc' ac'
    → Chains (break_tie ab ab') (break_tie bc bc') (break_tie ac ac')
break_tie_chain ab bc ac ab' bc' ac' f g = (
  (λ p q. ground (arith, f.0, f.1, f.2, f.3, g.0)),
  (λ p q. ground (arith, f.0, f.1, f.2, f.3, g.1)),
  (λ p q. ground (arith, f.0, f.1, f.2, f.3, g.2)),
  (λ p q. ground (arith, f.0, f.1, f.2, f.3, g.3)),
)

pub rank_chain :
    (d : StoreDef) (s t u : ℕ) (a b c : Bytes)
    → d.add_message_type ≢ d.remove_message_type
    → IsStamp d s a
    → IsStamp d t b
    → IsStamp d u c
    → Chains (rank d s a t b) (rank d t b u c) (rank d s a u c)
rank_chain d s t u a b c apart ha hb hc =
    rw
      (
        rank_levels d s t a b apart ha hb,
        rank_levels d t u b c apart hb hc,
        rank_levels d s u a c apart ha hc,
      )
      (break_tie_chain _ _ _ _ _ _ (bytes_chain (take 4 a) (take 4 b) (take 4 c)) (
        break_tie_chain _ _ _ _ _ _ (number_chain (level d s) (level d t) (level d u))
          (bytes_chain (take 20 (drop 4 a)) (take 20 (drop 4 b)) (take 20 (drop 4 c)))))

-- The two slices make up a hash of 24 bytes.
pub slices : (a : Bytes) → length a ≡ 24 → take 4 a ++ take 20 (drop 4 a) ≡ a
slices a h =
    ap (λ r. take 4 a ++ r) (take_all 20 (drop 4 a) (omega (arith, length-drop 4 a)))
    ∙ take-append-drop 4 a

halves_eq :
    (a b : Bytes)
    → length a ≡ 24
    → length b ≡ 24
    → take 4 a ≡ take 4 b
    → take 20 (drop 4 a) ≡ take 20 (drop 4 b)
    → a ≡ b
halves_eq a b ha hb p q = sym (slices a ha) ∙ ap₂ (λ x y. x ++ y) p q ∙ slices b hb

pub rank_eq :
    (d : StoreDef) (s t : ℕ) (a b : Bytes)
    → d.add_message_type ≢ d.remove_message_type
    → IsStamp d s a
    → IsStamp d t b
    → rank d s a t b ≡ Ordering.eq
    → (s ≡ t) × (a ≡ b)
rank_eq d s t a b apart ha hb e = (
  ground (arith, rank_levels d s t a b apart ha hb, ha.known, hb.known),
  halves_eq a b ha.long hb.long (eq_of_bytes_compare _ _ (ground (arith, e)))
      (eq_of_bytes_compare _ _ (ground (arith, e, rank_levels d s t a b apart ha hb))),
)

pub rank_refl :
    (d : StoreDef) (s : ℕ) (a : Bytes)
    → d.add_message_type ≢ d.remove_message_type
    → rank d s a s a ≡ Ordering.eq
rank_refl d s a apart =
    ground (arith, bytes_compare_refl (take 4 a), bytes_compare_refl (take 20 (drop 4 a)))

-- On adds and removes of a store with hashes of 24 bytes, `message_compare` always has a result; it
-- is 0 exactly for the same type and hash, exchanging the arguments negates it, and "smaller" is
-- transitive: a total order.
pub message_compare_order :
    (d : StoreDef) (s t u : ℕ) (a b c : Bytes)
    → d.add_message_type ≢ d.remove_message_type
    → IsStamp d s a
    → IsStamp d t b
    → IsStamp d u c
    → ((o : Ordering) × (message_compare d s a t b ≡ ok o)
        × (message_compare d t b s a ≡ ok (opposite o))
        × ((o ≡ Ordering.eq) ↔ ((s ≡ t) × (a ≡ b))))
      × (message_compare d s a t b ≡ ok Ordering.lt
          → message_compare d t b u c ≡ ok Ordering.lt
          → message_compare d s a u c ≡ ok Ordering.lt)
message_compare_order d s t u a b c apart ha hb hc = (
  (
    rank d s a t b,
    message_compare-rank d s a t b ha.long hb.long,
    message_compare-rank d t b s a hb.long ha.long ∙ ap ok (rank_swap d s t a b apart),
    (rank_eq d s t a b apart ha hb, λ e. rw (e.0, e.1) (rank_refl d t b apart)),
  ),
  λ p q.
      message_compare-rank d s a u c ha.long hc.long
      ∙ ap ok (
          (rank_chain d s t u a b c apart ha hb hc).0
            (ok_inj (sym (message_compare-rank d s a t b ha.long hb.long) ∙ p))
            (ok_inj (sym (message_compare-rank d t b u c hb.long hc.long) ∙ q))),
)
