-- ===== src/Keys/Isolation.antt =====
-- The shadow key space of `StateContext::Hyper` (src/hyper/mod.rs, src/storage/constants.rs).
use hypersnap.Shared.{
  ℕ, ◌-◌, ◌<◌, ◌≤◌, ◌≡◌, ◌≢◌, ◌⊎◌, ap, inl, inr, Bool, true, false, arith, Bool-cases, compare,
  Ordering, ◌==◌, if◌then◌else◌,
}
use hypersnap.Keys.Prefix.{
  RootPrefix, user, casts_by_parent, casts_by_mention, links_by_target, reactions_by_target,
  verification_by_address, user_name_proof_by_name, lend_storage_by_recipient, legacy, hyper,
  root_prefix, root_u8,
}

-- The key spaces of messages and of the indices that the stores of messages keep.
abbrev pub is_user_data : RootPrefix → Bool
is_user_data user = true
is_user_data casts_by_parent = true
is_user_data casts_by_mention = true
is_user_data links_by_target = true
is_user_data reactions_by_target = true
is_user_data verification_by_address = true
is_user_data user_name_proof_by_name = true
is_user_data lend_storage_by_recipient = true
is_user_data _ = false

moved :
    (p : RootPrefix)
    → ((is_user_data p ≡ true) × (30 ≤ root_prefix hyper p))
      ⊎ ((is_user_data p ≡ false) × (root_prefix hyper p ≡ root_u8 p))
unfolding root_prefix
moved user = inl (ground arith)
moved _ = ground arith

-- The prefix that a shadow prefix stands for.
abbrev origin : ℕ → ℕ
origin n = elim (compare n 30) [
  | Ordering.lt ↦ n
  | _ ↦ elim (compare n 35) [
    | Ordering.lt ↦ if n == 30 then 3 else n - 27
    | Ordering.eq ↦ 14
    | Ordering.gt ↦ if n == 36 then 16 else 22
  ]
]

origin_of : (p : RootPrefix) → root_u8 p < 30 → origin (root_prefix hyper p) ≡ root_u8 p
unfolding root_prefix
origin_of user h = ground arith
origin_of _ h = ground arith

apart_or_one :
    (p q : RootPrefix)
    → root_u8 p < 30
    → root_u8 q < 30
    → (root_prefix hyper p ≢ root_prefix hyper q) ⊎ (root_u8 p ≡ root_u8 q)
apart_or_one p q hp hq = elim (Bool-cases (root_u8 p == root_u8 q)) [
  | inl same ↦ inr (ground (arith, same))
  | inr differ ↦ inl (λ e. ground (arith, differ, ap origin e, origin_of p hp, origin_of q hq))
]

-- Among the prefixes of the legacy key space (those below 30), the hyper context moves those of
-- user data (messages and their indices) to prefixes that are none of the legacy ones, leaves the
-- others as they are, and gives two different prefixes different ones.
pub root_prefix_isolation :
    (p q : RootPrefix)
    → root_u8 p < 30
    → root_u8 q < 30
    → (((is_user_data p ≡ true) × (root_prefix hyper p ≢ root_prefix legacy q))
        ⊎ ((is_user_data p ≡ false) × (root_prefix hyper p ≡ root_prefix legacy p)))
      × ((root_prefix hyper p ≢ root_prefix hyper q) ⊎ (root_u8 p ≡ root_u8 q))
unfolding root_prefix
root_prefix_isolation p q hp hq = (ground (arith, moved p), apart_or_one p q hp hq)
